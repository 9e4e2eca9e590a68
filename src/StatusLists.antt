-- ===== src/StatusLists.antt =====
-- api/status_list_store.py: the table vac_revocation_registry of hosted status lists.
-- A call that raises rolls back, so a failed call has no new table. `list_id`, a fresh uuid, and
-- the database's NOW() are arguments.
pub mod Find
pub mod Steps
pub mod Allocation
pub mod Http
pub mod Routes
pub mod Signed
pub mod Updates
pub mod Terminal
pub mod Tests
use Prim.Native.String.{◌++◌ as str_append}
use arp_spec.Common.{
  ℕ, zero, suc, ◌+◌, ◌-◌, ◌*◌, ◌/◌, ◌%◌, ◌≤◌, ◌<◌, String, ◌≡◌, refl, sym, ap, ◌≢◌, ◌↔◌, ◌⊎◌, inl,
  inr, Bool, true, false, not, ◌&&◌, ◌||◌, Option, none, some, List, [], ◌∷◌, ◌++◌, map, arith,
  length, get_or, All, any, all, ltb, leb, ◌==◌, if◌then◌else◌, ==_iff, ltb_iff, leb_iff,
  Bool-cases, Option-cases, Outcome, ok, err, ◌>>=◌, ◌>>◌, ℤ, pos, negsuc, str_eq, eq_iff,
  false≢true,
}
use arp_spec.Bitstring.{Bytes, BitError, create_bitstring}
use arp_spec.Bitstring.Codec.{Codec, encode_bitstring}
use arp_spec.Json.{
  Json, str, arr, obj, nil, cons, bool, field, end, PyError, type_error, get, truthy,
}

pub record ListRow : Type 0 where
  pub status_list_id : String
  pub status_list_url : String
  pub owner_did : String
  pub status_purpose : String
  pub current_bitstring : List ℕ
  pub current_credential_jsonld : Json
  pub next_available_index : ℕ
  pub total_capacity : ℕ
  pub created_at : ℕ
  pub last_updated_at : ℕ

abbrev pub Registry : Type 0
Registry = List ListRow

pub data StoreError : Type 0 where
  not_found owner_mismatch capacity_exhausted bad_purpose not_unique : StoreError
  bad_size : BitError → StoreError
  python : PyError → StoreError

-- encoded lists are their character codes, and `text` gives the string back
pub record ListCodec : Type 0 where
  pub codec : Codec
  pub codes : String → List ℕ
  pub text : List ℕ → String
  pub json_loads : String → Outcome PyError Json

-- WHERE status_list_id = id, fetchone
unfoldable pub find_list : String → Registry → Option ListRow
find_list id [] = none
find_list id (row ∷ rows) = if str_eq row.status_list_id id then some row else find_list id rows

-- UPDATE ... WHERE status_list_id = id
unfoldable pub update_where : String → (ListRow → ListRow) → Registry → Registry
update_where id f [] = []
update_where id f (row ∷ rows) =
    (if str_eq row.status_list_id id then f row else row) ∷ update_where id f rows

-- the UNIQUE columns
unfoldable pub clashes : ListRow → ListRow → Bool
clashes new old =
    str_eq old.status_list_id new.status_list_id || str_eq old.status_list_url new.status_list_url

unfoldable pub insert_row : ListRow → Registry → Outcome StoreError Registry
unfolding clashes
insert_row new db = if any (clashes new) db then err not_unique else ok (new ∷ db)

pub record Created : Type 0 where
  pub list_id : String
  pub status_list_url : String
  pub status_purpose : String
  pub total_capacity : ℕ

unfoldable pub placeholder_credential : String → String → String → Json
placeholder_credential owner_did status_purpose encoded = obj (
    field "@context" (arr (cons (str "https://www.w3.org/ns/credentials/v2") nil)) (
      field "type"
        (arr (cons (str "VerifiableCredential") (cons (str "BitstringStatusListCredential") nil)))
        (field "issuer" (str owner_did) (
          field "credentialSubject"
            (obj (
              field "type" (str "BitstringStatusList") (
                field "statusPurpose" (str status_purpose)
                  (field "encodedList" (str encoded) end))))
            (field "_placeholder" (bool true) end)))))

abbrev pub or_bad_size : Outcome BitError Bytes → Outcome StoreError Bytes
or_bad_size (ok raw) = ok raw
or_bad_size (err e) = err (bad_size e)

abbrev pub list_url : String → String → String
list_url base_url list_id = str_append (str_append base_url "/sovereign/status-lists/") list_id

abbrev pub known_purpose : String → Bool
known_purpose p = str_eq p "revocation" || str_eq p "suspension"

-- the row that a new list starts with
unfoldable pub new_row : ListCodec → String → ℕ → String → String → String → ℕ → Bytes → ListRow
unfolding encode_bitstring placeholder_credential
new_row c list_id now owner_did status_purpose base_url total_capacity raw = record {
  status_list_id = list_id;
  status_list_url = list_url base_url list_id;
  owner_did = owner_did;
  status_purpose = status_purpose;
  current_bitstring = encode_bitstring c.codec raw;
  current_credential_jsonld =
      placeholder_credential owner_did status_purpose (c.text (encode_bitstring c.codec raw));
  next_available_index = 0;
  total_capacity = total_capacity;
  created_at = now;
  last_updated_at = now;
}

unfoldable pub create_status_list :
    ListCodec
    → String
    → ℕ
    → String
    → String
    → String
    → ℕ
    → Registry
    → Outcome StoreError (Created × Registry)
unfolding create_bitstring new_row insert_row
create_status_list c list_id now owner_did status_purpose base_url total_capacity db =
    if not (known_purpose status_purpose) then err bad_purpose else do
      raw ← or_bad_size (create_bitstring total_capacity)
      db' ←
          insert_row (new_row c list_id now owner_did status_purpose base_url total_capacity raw) db
      ok (
        record {
          list_id = list_id;
          status_list_url = list_url base_url list_id;
          status_purpose = status_purpose;
          total_capacity = total_capacity;
        },
        db',
      )

-- a column that is a dict stays, a text is parsed, and json.loads refuses the rest
abbrev pub loaded_dict : (String → Outcome PyError Json) → Json → Outcome PyError Json
loaded_dict json_loads (obj fs) = ok (obj fs)
loaded_dict json_loads (str s) = json_loads s
loaded_dict json_loads _ = err type_error

unfoldable pub loaded_row :
    (String → Outcome PyError Json) → Option ListRow → Outcome PyError (Option ListRow)
loaded_row json_loads none = ok none
loaded_row json_loads (some row) = do
  credential ← loaded_dict json_loads row.current_credential_jsonld
  ok (some (record row { current_credential_jsonld = credential }))

unfoldable pub get_status_list :
    (String → Outcome PyError Json) → String → Registry → Outcome PyError (Option ListRow)
unfolding find_list loaded_row
get_status_list json_loads list_id db = loaded_row json_loads (find_list list_id db)

-- only a text is parsed here
abbrev pub loaded_text : (String → Outcome PyError Json) → Json → Outcome PyError Json
loaded_text json_loads (str s) = json_loads s
loaded_text json_loads v = ok v

unfoldable pub served_row :
    (String → Outcome PyError Json) → Option ListRow → Outcome PyError (Option Json)
unfolding get truthy
served_row json_loads none = ok none
served_row json_loads (some row) = do
  cred ← loaded_text json_loads row.current_credential_jsonld
  placeholder ← get "_placeholder" cred
  ok (if truthy placeholder then none else some cred)

unfoldable pub get_status_list_credential :
    (String → Outcome PyError Json) → String → Registry → Outcome PyError (Option Json)
unfolding find_list served_row
get_status_list_credential json_loads list_id db = served_row json_loads (find_list list_id db)

pub record AllocatedIndex : Type 0 where
  pub list_id : String
  pub allocated_index : ℕ
  pub remaining_capacity : ℕ

abbrev pub next_index : ListRow → ListRow
next_index row = record row { next_available_index = row.next_available_index + 1 }

unfoldable pub allocate_from :
    String → String → Registry → Option ListRow → Outcome StoreError (AllocatedIndex × Registry)
unfolding update_where
allocate_from list_id owner_did db none = err not_found
allocate_from list_id owner_did db (some row) =
    if not (str_eq row.owner_did owner_did)
    then err owner_mismatch
    else if leb row.total_capacity row.next_available_index
    then err capacity_exhausted
    else ok (
      record {
        list_id = list_id;
        allocated_index = row.next_available_index;
        remaining_capacity = row.total_capacity - row.next_available_index - 1;
      },
      update_where list_id next_index db,
    )

unfoldable pub allocate_index :
    String → String → Registry → Outcome StoreError (AllocatedIndex × Registry)
unfolding find_list allocate_from
allocate_index list_id owner_did db = allocate_from list_id owner_did db (find_list list_id db)

abbrev pub replaced : ℕ → Json → List ℕ → ListRow → ListRow
replaced now new_credential new_bitstring row = record row {
  current_credential_jsonld = new_credential;
  current_bitstring = new_bitstring;
  last_updated_at = now;
}

unfoldable pub update_status_list :
    String → ℕ → Json → List ℕ → Registry → Outcome StoreError Registry
unfolding find_list update_where
update_status_list list_id now new_credential new_bitstring_encoded db =
    elim (find_list list_id db) [
      | none ↦ err not_found
      | some _ ↦ ok (update_where list_id (replaced now new_credential new_bitstring_encoded) db)
    ]

-- ORDER BY created_at; rows of the same time stay in the table's order
unfoldable pub insert_by_created : ListRow → Registry → Registry
insert_by_created row [] = row ∷ []
insert_by_created row (r ∷ rs) =
    let rest = insert_by_created row rs in
    if ltb r.created_at row.created_at then r ∷ rest else row ∷ r ∷ rs

unfoldable pub get_lists_by_owner : String → Registry → Registry
unfolding insert_by_created
get_lists_by_owner owner_did [] = []
get_lists_by_owner owner_did (row ∷ rows) =
    let rest = get_lists_by_owner owner_did rows in
    if str_eq row.owner_did owner_did then insert_by_created row rest else rest
