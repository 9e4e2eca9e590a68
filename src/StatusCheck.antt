-- ===== src/StatusCheck.antt =====
-- api/status_checker.py: the status of a credential, from the status lists that it names.
pub mod Entries
pub mod Report
pub mod Tests
use arp_spec.Common.{
  ℕ, zero, suc, ◌+◌, ◌-◌, ◌*◌, ◌/◌, ◌%◌, ◌≤◌, ◌<◌, String, ◌≡◌, refl, sym, ap, ◌≢◌, ◌↔◌, ◌⊎◌, inl,
  inr, Bool, true, false, not, ◌&&◌, ◌||◌, Option, none, some, List, [], ◌∷◌, ◌++◌, map, arith,
  length, get_or, All, any, all, ltb, leb, ◌==◌, if◌then◌else◌, ==_iff, ltb_iff, leb_iff,
  Bool-cases, Option-cases, Outcome, ok, err, ◌>>=◌, ◌>>◌, ℤ, pos, negsuc, str_eq, eq_iff,
  false≢true,
}
use arp_spec.Bitstring.{Bytes, BitError, base64url_failed, get_bit}
use arp_spec.Bitstring.Codec.{Codec, decode_bitstring}
use arp_spec.Json.{
  Json, null, str, num, arr, obj, bool, Items, nil, cons, Fields, field, end, PyError,
  attribute_error, type_error, value_error, get, get_default, truthy, is_text,
}
use arp_spec.Crypto.{
  Primitives, Check, Reason, missing_proof, bad_verification_method, unresolved_did,
  no_verification_method, bad_public_key, extract_signer_did, extract_key_id, find_method,
  load_public_key_from_multibase, verify_ed25519_proof, checked_with_key,
}

-- what the error text of a result says
pub data StatusError : Type 0 where
  unsupported_type bad_index missing_url list_not_found missing_encoded_list : StatusError
  signature_failed : Reason → StatusError
  decode_failed index_failed : BitError → StatusError

-- class StatusCheckResult; the index and the value are -1 where the code has none
pub record StatusCheckResult : Type 0 where
  pub status_purpose : Json
  pub status_list_url : Json
  pub status_list_index : ℤ
  pub current_value : ℤ
  pub valid_for_purpose : Bool
  pub error : Option StatusError

-- The parameters: text to code points, gzip and base64, the signature primitives, `int(…)` on a
-- text, and the two callables. `fetch` returns None where there is no list.
pub record Environment : Type 0 where
  pub codec : Codec
  pub primitives : Primitives
  pub codes : String → List ℕ
  pub int_of_text : String → Option ℤ
  pub fetch : Json → Outcome PyError (Option Json)
  pub resolve : Option (String → Outcome PyError Json)

abbrev pub failed : Json → Json → ℤ → StatusError → StatusCheckResult
failed purpose url index e = record {
  status_purpose = purpose;
  status_list_url = url;
  status_list_index = index;
  current_value = negsuc 0;
  valid_for_purpose = false;
  error = some e;
}

unfoldable pub count_items : Items → ℕ
count_items nil = 0
count_items (cons _ xs) = suc (count_items xs)

unfoldable pub count_fields : Fields → ℕ
count_fields end = 0
count_fields (field _ _ fs) = suc (count_fields fs)

-- `decode_bitstring` of a list or a dict: padding it raises a TypeError, decoding it a ValueError
abbrev pub not_encoded : Json → Json → ℤ → ℕ → Outcome PyError StatusCheckResult
not_encoded purpose url index len =
    if len % 4 == 0
    then ok (failed purpose url index (decode_failed base64url_failed))
    else err type_error

-- the verdict on the bit that was read
abbrev pub bit_result : Json → Json → ℤ → Outcome BitError ℕ → StatusCheckResult
bit_result purpose url index (err e) = failed purpose url index (index_failed e)
bit_result purpose url index (ok value) = record {
  status_purpose = purpose;
  status_list_url = url;
  status_list_index = index;
  current_value = pos value;
  valid_for_purpose = value == 0;
  error = none;
}

abbrev pub raw_result : Json → Json → ℤ → Outcome BitError Bytes → StatusCheckResult
raw_result purpose url index (err e) = failed purpose url index (decode_failed e)
raw_result purpose url index (ok raw) = bit_result purpose url index (get_bit raw index)

-- a dict is taken as a list of one entry
abbrev pub entries_of : Json → Outcome PyError Items
entries_of (arr entries) = ok entries
entries_of (obj fs) = ok (cons (obj fs) nil)
entries_of (str s) = err attribute_error
entries_of _ = err type_error

pub record StatusReport : Type 0 where
  pub credential_id : Json
  pub status_checks : List StatusCheckResult
  pub overall_valid : Bool

-- the method by the key id, else the first, as `_verify_status_list_signature` picks it
unfoldable pub pick_method : Json → Option String → Outcome PyError (Option Json)
unfolding find_method
pick_method (arr nil) key_id = ok none
pick_method (arr (cons m ms)) none = ok (some m)
pick_method (arr (cons m ms)) (some key_id) = do
  found ← find_method key_id (cons m ms)
  ok (elim found [ none ↦ some m | some vm ↦ some vm ])
pick_method (str s) key_id = if str_eq s "" then ok none else err attribute_error
pick_method (obj end) key_id = ok none
pick_method (obj (field _ _ _)) key_id = err attribute_error
pick_method other key_id = err type_error

module _ (env : Environment) where
  -- `int(v)`; None, lists and dicts raise a TypeError, which is caught like the ValueError
  unfoldable pub to_int : Json → Option ℤ
  to_int (num n) = some n
  to_int (bool true) = some (pos 1)
  to_int (bool false) = some (pos 0)
  to_int (str s) = env.int_of_text s
  to_int _ = none

  unfoldable pub check_with_method : Fields → Option Json → Outcome PyError Check
  unfolding load_public_key_from_multibase verify_ed25519_proof
  check_with_method list_cred none = ok (err no_verification_method)
  check_with_method list_cred (some vm) = do
    multibase ← get_default "publicKeyMultibase" (str "") vm
    checked_with_key env.primitives list_cred
        (load_public_key_from_multibase env.primitives multibase)

  unfoldable pub check_resolved : Fields → Json → Outcome PyError Json → Outcome PyError Check
  unfolding check_with_method pick_method extract_key_id
  check_resolved list_cred proof (err e) = ok (err unresolved_did)
  check_resolved list_cred proof (ok did_doc) = do
    key_id ← extract_key_id proof
    methods ← get_default "verificationMethod" (arr nil) did_doc
    vm ← pick_method methods key_id
    check_with_method list_cred vm

  -- `extract_signer_did` under `except ValueError`
  unfoldable pub check_issuer :
      (String → Outcome PyError Json)
      → Fields
      → Json
      → Outcome PyError String
      → Outcome PyError Check
  unfolding check_resolved
  check_issuer resolve list_cred proof (ok issuer_did) =
      check_resolved list_cred proof (resolve issuer_did)
  check_issuer resolve list_cred proof (err value_error) = ok (err bad_verification_method)
  check_issuer resolve list_cred proof (err e) = err e

  unfoldable pub verify_status_list_signature :
      (String → Outcome PyError Json) → Fields → Outcome PyError Check
  unfolding check_issuer extract_signer_did
  verify_status_list_signature resolve list_cred = do
    proof ← get "proof" (obj list_cred)
    if truthy proof
        then check_issuer resolve list_cred proof (extract_signer_did proof)
        else ok (err missing_proof)

  -- the decoding of "encodedList"; only a text has an encoding to decode
  unfoldable pub decode_list : Json → Json → ℤ → Json → Outcome PyError StatusCheckResult
  unfolding decode_bitstring get_bit count_items count_fields
  decode_list purpose url index (str s) =
      if str_eq s ""
      then ok (failed purpose url index missing_encoded_list)
      else ok (raw_result purpose url index (decode_bitstring env.codec (env.codes s)))
  decode_list purpose url index (arr (cons x xs)) =
      not_encoded purpose url index (count_items (cons x xs))
  decode_list purpose url index (obj (field k v fs)) =
      not_encoded purpose url index (count_fields (field k v fs))
  decode_list purpose url index other =
      if truthy other then err type_error else ok (failed purpose url index missing_encoded_list)

  -- from the encoded list of the status list credential to the verdict
  unfoldable pub read_list : Json → Json → ℤ → Fields → Outcome PyError StatusCheckResult
  unfolding decode_list
  read_list purpose url index list_cred = do
    subject ← get_default "credentialSubject" (obj end) (obj list_cred)
    encoded_list ← get "encodedList" subject
    decode_list purpose url index encoded_list

  -- the signature check, where a resolver is given
  unfoldable pub list_signature : Fields → Outcome PyError Check
  unfolding verify_status_list_signature
  list_signature list_cred = elim env.resolve [
    | none ↦ ok (ok tt)
    | some resolve ↦ verify_status_list_signature resolve list_cred
  ]

  abbrev pub after_signature : Json → Json → ℤ → Fields → Check → Outcome PyError StatusCheckResult
  after_signature purpose url index list_cred (ok _) = read_list purpose url index list_cred
  after_signature purpose url index list_cred (err reason) =
      ok (failed purpose url index (signature_failed reason))

  -- a status list that was fetched is a document, else `.get` on it raises
  unfoldable pub check_fetched : Json → Json → ℤ → Option Json → Outcome PyError StatusCheckResult
  unfolding list_signature read_list
  check_fetched purpose url index none = ok (failed purpose url index list_not_found)
  check_fetched purpose url index (some (obj list_cred)) =
      list_signature list_cred >>= after_signature purpose url index list_cred
  check_fetched purpose url index (some _) = err attribute_error

  unfoldable pub check_at : Json → Json → Option ℤ → Outcome PyError StatusCheckResult
  unfolding check_fetched
  check_at purpose url none = ok (failed purpose url (negsuc 0) bad_index)
  check_at purpose url (some index) =
      if truthy url
      then env.fetch url >>= check_fetched purpose url index
      else ok (failed purpose (str "") index missing_url)

  -- `_check_single_entry`
  unfoldable pub check_single_entry : Json → Outcome PyError StatusCheckResult
  unfolding check_at to_int
  check_single_entry entry = do
    entry_type ← get "type" entry
    if is_text "BitstringStatusListEntry" entry_type
        then (do
          purpose ← get_default "statusPurpose" (str "") entry
          url ← get_default "statusListCredential" (str "") entry
          index ← get_default "statusListIndex" (num (negsuc 0)) entry
          check_at purpose url (to_int index))
        else (do
          purpose ← get_default "statusPurpose" (str "unknown") entry
          url ← get_default "statusListCredential" (str "unknown") entry
          ok (failed purpose url (negsuc 0) unsupported_type))

  -- the loop over the entries
  unfoldable pub check_entries : Items → Outcome PyError (List StatusCheckResult)
  unfolding check_single_entry
  check_entries nil = ok []
  check_entries (cons entry entries) = do
    result ← check_single_entry entry
    results ← check_entries entries
    ok (result ∷ results)

  -- the report, from the id and the "credentialStatus" of the credential
  unfoldable pub report_on : Json → Json → Outcome PyError StatusReport
  unfolding check_entries
  report_on credential_id status_entries =
      if truthy status_entries
      then (do
        entries ← entries_of status_entries
        results ← check_entries entries
        ok (record {
          credential_id = credential_id;
          status_checks = results;
          overall_valid = all (λ r. r.valid_for_purpose) results;
        }))
      else ok (record { credential_id = credential_id; status_checks = []; overall_valid = true })

  unfoldable pub check_credential_status : Json → Outcome PyError StatusReport
  unfolding report_on
  check_credential_status credential = do
    credential_id ← get_default "id" (str "unknown") credential
    status_entries ← get "credentialStatus" credential
    report_on credential_id status_entries
