-- ===== src/Counterparty.antt =====
-- api/counterparty_store.py: the table `counterparties` and its operations. Times are numbers, which
-- the dicts keep where the code writes their `isoformat`; NOW() is an argument.
pub mod Rows
pub mod Calls
pub mod Statuses
pub mod Refines
pub mod Answers
pub mod Listing
pub mod Ordering
pub mod Pages
pub mod Tests
use arp_spec.Common.{
  ℕ, zero, suc, ◌+◌, ◌-◌, ◌*◌, ◌/◌, ◌%◌, ◌≤◌, ◌<◌, String, ◌≡◌, refl, sym, ap, ◌≢◌, ◌↔◌, ◌⊎◌, inl,
  inr, Bool, true, false, not, ◌&&◌, ◌||◌, Option, none, some, List, [], ◌∷◌, ◌++◌, map, arith,
  length, get_or, All, any, all, ltb, leb, ◌==◌, if◌then◌else◌, ==_iff, ltb_iff, leb_iff,
  Bool-cases, Option-cases, Outcome, ok, err, ◌>>=◌, ◌>>◌, ℤ, pos, negsuc, subz, str_eq, eq_iff,
  false≢true,
}
use arp_spec.Json.{PyError, type_error, other_error}

-- a row; `status` is the text of the column
pub record Counterparty : Type 0 where
  pub id : ℕ
  pub org_id : ℕ
  pub counterparty_did : String
  pub status : String
  pub tag : Option String
  pub notes : Option String
  pub first_seen_at : Option ℕ
  pub last_transacted_at : Option ℕ
  pub transaction_count : ℕ
  pub accepted_at : Option ℕ
  pub accepted_by : Option String
  pub revoked_at : Option ℕ
  pub revoked_by : Option String
  pub revoke_reason : Option String
  pub trust_score_cache : Option ℕ
  pub trust_score_cached_at : Option ℕ
  pub updated_at : Option ℕ

-- what the foreign keys of the table refer to: a text that is a UUID, as it is read back, the rows of
-- `users` and those of `organizations`
pub record References : Type 0 where
  pub uuid : String → Option String
  pub user_exists : String → Bool
  pub org_exists : ℕ → Bool

-- the table, the next value of its id, and the tables it refers to; an id that a failed INSERT has
-- taken from the sequence is taken again
pub record Table : Type 0 where
  pub refs : References
  pub rows : List Counterparty
  pub next_id : ℕ

-- the first row that a WHERE clause selects
unfoldable pub find_row : (Counterparty → Bool) → List Counterparty → Option Counterparty
find_row p [] = none
find_row p (row ∷ rows) = if p row then some row else find_row p rows

-- UPDATE ... SET f WHERE p
unfoldable pub set_rows :
    (Counterparty → Bool) → (Counterparty → Counterparty) → List Counterparty → List Counterparty
set_rows p f [] = []
set_rows p f (row ∷ rows) = (if p row then f row else row) ∷ set_rows p f rows

abbrev pub has_id : ℕ → Counterparty → Bool
has_id id row = row.id == id

abbrev pub has_id_and_org : ℕ → ℕ → Counterparty → Bool
has_id_and_org id org row = row.id == id && row.org_id == org

abbrev pub has_pair : ℕ → String → Counterparty → Bool
has_pair org did row = row.org_id == org && str_eq row.counterparty_did did

-- COALESCE(given, old)
abbrev pub coalesce {ℓ} : {A : Type ℓ} → Option A → Option A → Option A
coalesce none old = old
coalesce (some a) old = some a

-- `str(x) if x else None`, where the empty text is falsy
abbrev pub text_or_none : Option String → Option String
text_or_none none = none
text_or_none (some s) = if str_eq s "" then none else some s

-- the dict of a row: every column but `updated_at`
pub record CounterpartyDict : Type 0 where
  pub id : ℕ
  pub org_id : ℕ
  pub counterparty_did : String
  pub status : String
  pub tag : Option String
  pub notes : Option String
  pub first_seen_at : Option ℕ
  pub last_transacted_at : Option ℕ
  pub transaction_count : ℕ
  pub accepted_at : Option ℕ
  pub accepted_by : Option String
  pub revoked_at : Option ℕ
  pub revoked_by : Option String
  pub revoke_reason : Option String
  pub trust_score : Option ℕ
  pub trust_score_as_of : Option ℕ

unfoldable pub dict_of : Counterparty → CounterpartyDict
dict_of r = record {
  id = r.id;
  org_id = r.org_id;
  counterparty_did = r.counterparty_did;
  status = r.status;
  tag = r.tag;
  notes = r.notes;
  first_seen_at = r.first_seen_at;
  last_transacted_at = r.last_transacted_at;
  transaction_count = r.transaction_count;
  accepted_at = r.accepted_at;
  accepted_by = text_or_none r.accepted_by;
  revoked_at = r.revoked_at;
  revoked_by = text_or_none r.revoked_by;
  revoke_reason = r.revoke_reason;
  trust_score = r.trust_score_cache;
  trust_score_as_of = r.trust_score_cached_at;
}

abbrev pub option_map {ℓ κ} : {A : Type ℓ} {B : Type κ} → (A → B) → Option A → Option B
option_map f none = none
option_map f (some a) = some (f a)

unfoldable pub get_counterparty : ℕ → ℕ → List Counterparty → Option CounterpartyDict
get_counterparty id org rows = option_map dict_of (find_row (has_id_and_org id org) rows)

-- the columns that the UPDATE of an acceptance sets
unfoldable pub accepted_row :
    ℕ → String → Option String → Option String → Counterparty → Counterparty
accepted_row now user tag notes row = record row {
  status = "accepted";
  accepted_at = some now;
  accepted_by = some user;
  tag = coalesce tag row.tag;
  notes = coalesce notes row.notes;
  updated_at = some now;
}

-- the row that the INSERT of an acceptance adds
unfoldable pub inserted_row :
    ℕ → ℕ → ℕ → String → String → Option String → Option String → Counterparty
inserted_row id now org did user tag notes = record {
  id = id;
  org_id = org;
  counterparty_did = did;
  status = "accepted";
  tag = tag;
  notes = notes;
  first_seen_at = some now;
  last_transacted_at = none;
  transaction_count = 0;
  accepted_at = some now;
  accepted_by = some user;
  revoked_at = none;
  revoked_by = none;
  revoke_reason = none;
  trust_score_cache = none;
  trust_score_cached_at = none;
  updated_at = none;
}

-- the dict that an acceptance returns with the table; `fetchone()[0]` of no row is a TypeError,
-- after which the transaction is rolled back
unfoldable pub read_back :
    ℕ → Option Counterparty → Table → Outcome PyError (Option CounterpartyDict × Table)
read_back org none t = err type_error
read_back org (some row) t = ok (get_counterparty row.id org t.rows, t)

-- `accept_counterparty` after its first SELECT, for a user that exists; the INSERT raises if the
-- organisation does not
unfoldable pub accept_selected :
    ℕ
    → ℕ
    → String
    → String
    → Option String
    → Option String
    → Table
    → Option Counterparty
    → Outcome PyError (Option CounterpartyDict × Table)
unfolding read_back
accept_selected now org did user tag notes t (some existing) =
    let f = accepted_row now user tag notes in
    read_back org (some existing) (record t { rows = set_rows (has_id existing.id) f t.rows })
accept_selected now org did user tag notes t none =
    let rows = inserted_row t.next_id now org did user tag notes ∷ t.rows in
    if t.refs.org_exists org
    then read_back org (find_row (has_pair org did) rows)
        (record t { rows = rows; next_id = suc t.next_id })
    else err other_error

-- an UPDATE or INSERT with a user that is no UUID or does not exist raises
unfoldable pub accept_as :
    ℕ
    → ℕ
    → String
    → Option String
    → Option String
    → Table
    → Option String
    → Outcome PyError (Option CounterpartyDict × Table)
unfolding accept_selected
accept_as now org did tag notes t none = err other_error
accept_as now org did tag notes t (some user) =
    if t.refs.user_exists user
    then accept_selected now org did user tag notes t (find_row (has_pair org did) t.rows)
    else err other_error

unfoldable pub accept_counterparty :
    ℕ
    → ℕ
    → String
    → String
    → Option String
    → Option String
    → Table
    → Outcome PyError (Option CounterpartyDict × Table)
accept_counterparty now org did user tag notes t =
    accept_as now org did tag notes t (t.refs.uuid user)

unfoldable pub revoked_row : ℕ → String → Option String → Counterparty → Counterparty
revoked_row now user reason row = record row {
  status = "revoked";
  revoked_at = some now;
  revoked_by = some user;
  revoke_reason = reason;
  updated_at = some now;
}

-- an UPDATE of the row of an id in an organisation: None if no row was affected
unfoldable pub update_scoped :
    ℕ
    → ℕ
    → (Counterparty → Counterparty)
    → Table
    → Option Counterparty
    → Option CounterpartyDict × Table
update_scoped id org f t none = (none, t)
update_scoped id org f t (some _) =
    let rows = set_rows (has_id_and_org id org) f t.rows in
    (get_counterparty id org rows, record t { rows = rows })

-- with the user as a UUID: one that does not exist raises if a row is affected
unfoldable pub revoke_found :
    ℕ
    → ℕ
    → ℕ
    → Option String
    → Table
    → Option String
    → Option Counterparty
    → Outcome PyError (Option CounterpartyDict × Table)
unfolding update_scoped
revoke_found now id org reason t none found = err other_error
revoke_found now id org reason t (some user) none = ok (none, t)
revoke_found now id org reason t (some user) (some row) =
    if t.refs.user_exists user
    then ok (update_scoped id org (revoked_row now user reason) t (some row))
    else err other_error

unfoldable pub revoke_counterparty :
    ℕ → ℕ → ℕ → String → Option String → Table → Outcome PyError (Option CounterpartyDict × Table)
unfolding revoke_found
revoke_counterparty now id org user reason t =
    revoke_found now id org reason t (t.refs.uuid user) (find_row (has_id_and_org id org) t.rows)

-- a column is set if a value is given
unfoldable pub metadata_row : ℕ → Option String → Option String → Counterparty → Counterparty
metadata_row now tag notes row = record row {
  tag = coalesce tag row.tag;
  notes = coalesce notes row.notes;
  updated_at = some now;
}

unfoldable pub update_counterparty_metadata :
    ℕ → ℕ → ℕ → Option String → Option String → Table → Option CounterpartyDict × Table
unfolding update_scoped
update_counterparty_metadata now id org none none t = (get_counterparty id org t.rows, t)
update_counterparty_metadata now id org (some tag) notes t =
    update_scoped id org (metadata_row now (some tag) notes) t
      (find_row (has_id_and_org id org) t.rows)
update_counterparty_metadata now id org none (some notes) t =
    update_scoped id org (metadata_row now none (some notes)) t
      (find_row (has_id_and_org id org) t.rows)

-- `counterparty_status` and `accepted_by_org`
unfoldable pub policy_status : Option Counterparty → String × Bool
policy_status none = ("unknown", false)
policy_status (some row) = (row.status, str_eq row.status "accepted")

unfoldable pub get_counterparty_status_for_policy : ℕ → String → List Counterparty → String × Bool
unfolding policy_status
get_counterparty_status_for_policy org did rows = policy_status (find_row (has_pair org did) rows)
