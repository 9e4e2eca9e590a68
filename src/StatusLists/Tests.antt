-- ===== src/StatusLists/Tests.antt =====
-- The registry theorems at a concrete list, which is updated from bit 5 set to bits 5 and 7 set.
use arp_spec.Common.{
  ℕ, zero, suc, ◌+◌, ◌-◌, ◌*◌, ◌/◌, ◌%◌, ◌≤◌, ◌<◌, String, ◌≡◌, refl, sym, ap, ◌≢◌, ◌↔◌, ◌⊎◌, inl,
  inr, Bool, true, false, not, ◌&&◌, ◌||◌, Option, none, some, List, [], ◌∷◌, ◌++◌, map, arith,
  length, get_or, All, any, all, ltb, leb, ◌==◌, if◌then◌else◌, ==_iff, ltb_iff, leb_iff,
  Bool-cases, Option-cases, Outcome, ok, err, ◌>>=◌, ◌>>◌, ℤ, pos, negsuc, str_eq, eq_iff,
  false≢true,
}
use arp_spec.Bitstring.{Bytes}
use arp_spec.Bitstring.Codec.{decode_bitstring}
use arp_spec.Bitstring.Tests.{plain_codec, four_of}
use arp_spec.Json.{
  Json, null, str, num, arr, obj, nil, cons, Fields, field, end, PyError, value_error, get,
}
use arp_spec.Crypto.Tests.{accepting, resolver}
use arp_spec.StatusLists.{
  ListRow, Registry, ListCodec, AllocatedIndex, find_list, allocate_index, capacity_exhausted,
  replaced,
}
use arp_spec.StatusLists.Allocation.{
  allocate_many, count_from, allocate_index_fresh, allocate_many_lem,
}
use arp_spec.StatusLists.Steps.{done}
use arp_spec.StatusLists.Routes.{Server, update_status_list_endpoint}
use arp_spec.StatusLists.Signed.{IsSigned}
use arp_spec.StatusLists.Updates.{Submits, IsUpdate, update_status_list_endpoint_authorised}
use arp_spec.StatusLists.Terminal.{HasRevoked, RouteSteps, updates_list, revoked_bit_stays}

abbrev lists : ListCodec
lists = record {
  codec = plain_codec;
  codes = λ s. four_of (5 ∷ []);
  text = λ s. "text";
  json_loads = λ s. err value_error;
}

abbrev server : Server
server = record {
  lists = lists;
  primitives = accepting;
  resolve_did = resolver;
  int_of_text = λ s. none;
  base_url = "https://op";
}

abbrev row_at : ℕ → ListRow
row_at n = record {
  status_list_id = "sl-1";
  status_list_url = "https://op/sovereign/status-lists/sl-1";
  owner_did = "did:web:a";
  status_purpose = "revocation";
  current_bitstring = four_of (4 ∷ []);
  current_credential_jsonld = obj (field "x" null end);
  next_available_index = n;
  total_capacity = 8;
  created_at = 1;
  last_updated_at = 1;
}

abbrev index_of : ℕ → ℕ → AllocatedIndex
index_of n left = record { list_id = "sl-1"; allocated_index = n; remaining_capacity = left }

first_allocation :
    allocate_index "sl-1" "did:web:a" (row_at 5 ∷ []) ≡ ok (index_of 5 2, row_at 6 ∷ [])
unfolding allocate_index
first_allocation = refl

second_allocation :
    allocate_index "sl-1" "did:web:a" (row_at 6 ∷ []) ≡ ok (index_of 6 1, row_at 7 ∷ [])
unfolding allocate_index
second_allocation = refl

allocate_index_fresh_example :
    (row : ListRow) × (find_list "sl-1" (row_at 5 ∷ []) ≡ some row)
    × (5 < 6)
    × (6 < row.total_capacity)
allocate_index_fresh_example =
    allocate_index_fresh lists "sl-1" "did:web:a" "did:web:a" (row_at 5 ∷ []) (row_at 6 ∷ [])
      first_allocation done second_allocation

finds_row : find_list "sl-1" (row_at 5 ∷ []) ≡ some (row_at 5)
unfolding find_list
finds_row = refl

allocate_many_lem_example :
    (5 + 4 ≤ 8
      → (db' : Registry) × (allocate_many 4 "sl-1" "did:web:a" (row_at 5 ∷ [])
          ≡ ok (count_from 5 4, db')))
    × (8 < 5 + 4 → allocate_many 4 "sl-1" "did:web:a" (row_at 5 ∷ []) ≡ err capacity_exhausted)
allocate_many_lem_example =
    allocate_many_lem "sl-1" "did:web:a" 4 (row_at 5 ∷ []) (row_at 5) finds_row refl (omega arith)

abbrev submitted_proof : Json
submitted_proof = obj (
    field "type" (str "Ed25519Signature2020")
      (field "verificationMethod" (str "did:web:a#k") (field "proofValue" (str "zsig") end)))

abbrev submitted : Fields
submitted = field "type" (arr (cons (str "BitstringStatusListCredential") nil)) (
    field "credentialSubject"
      (obj (
        field "type" (str "BitstringStatusList")
          (field "statusPurpose" (str "revocation") (field "encodedList" (str "new") end))))
      (field "proof" submitted_proof end))

abbrev updated_row : ListRow
updated_row = replaced 9 (obj submitted) (four_of (5 ∷ [])) (row_at 5)

accepted_update :
    update_status_list_endpoint server 9 "sl-1"
      (obj (field "credential" (obj submitted) end))
      (row_at 5 ∷ [])
    ≡ ok (1, updated_row ∷ [])
unfolding update_status_list_endpoint get arp_spec.Json.lookup_or arp_spec.Json.is_text
    arp_spec.Json.truthy arp_spec.Crypto.before_hash arp_spec.Crypto.multibase_body
    arp_spec.Crypto.strip_multicodec arp_spec.Bitstring.Tests.four_back four_of
    arp_spec.Bitstring.diff_bytes arp_spec.Bitstring.diff_bits arp_spec.Common.Bits.one_shl
    arp_spec.Bitstring.reversals arp_spec.Common.Bits.shr
accepted_update = refl

update_status_list_endpoint_authorised_example :
    (credential : Fields) × (encoded : Json) × (purpose : Json) × (proof : Json) × (signer : String)
    × Submits server (obj (field "credential" (obj submitted) end)) credential encoded purpose proof
    × IsSigned server credential proof signer
    × IsUpdate server 9 "sl-1" credential encoded purpose signer (row_at 5 ∷ []) (updated_row ∷ [])
update_status_list_endpoint_authorised_example =
    update_status_list_endpoint_authorised server 9 "sl-1"
      (obj (field "credential" (obj submitted) end)) (row_at 5 ∷ []) accepted_update

bit_five_set : HasRevoked server "sl-1" 5 (row_at 5 ∷ [])
unfolding find_list decode_bitstring arp_spec.Bitstring.Tests.four_back four_of
    arp_spec.Common.Bits.shr
bit_five_set = record {
  row = row_at 5;
  raw = 4 ∷ [];
  found = refl;
  purpose = refl;
  decoded = refl;
  set_at = refl;
}

one_update : RouteSteps server (row_at 5 ∷ []) (updated_row ∷ [])
one_update =
    RouteSteps.next
      (updates_list 9 "sl-1" (obj (field "credential" (obj submitted) end)) 1 accepted_update)
      RouteSteps.done

revoked_bit_stays_example : HasRevoked server "sl-1" 5 (updated_row ∷ [])
revoked_bit_stays_example = revoked_bit_stays server "sl-1" 5 bit_five_set one_update
