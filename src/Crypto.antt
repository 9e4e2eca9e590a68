-- ===== src/Crypto.antt =====
-- api/crypto_utils.py: canonical bytes, Ed25519 proofs on documents, freshness, signed requests.
-- Keys and signatures are byte lists; times are microseconds since the epoch.
pub mod Holds
pub mod Proofs
pub mod Requests
pub mod Tests
use Prim.Native.Char.{code}
use text.Mathlib.Text.{starts_with}
use arp_spec.Common.{
  ℕ, zero, suc, ◌+◌, ◌-◌, ◌*◌, ◌/◌, ◌%◌, ◌≤◌, ◌<◌, String, ◌≡◌, refl, sym, ap, ◌≢◌, ◌↔◌, ◌⊎◌, inl,
  inr, Bool, true, false, not, ◌&&◌, ◌||◌, Option, none, some, List, [], ◌∷◌, ◌++◌, map, arith,
  length, get_or, All, any, all, ltb, leb, ◌==◌, if◌then◌else◌, ==_iff, ltb_iff, leb_iff,
  Bool-cases, Option-cases, Outcome, ok, err, ◌>>=◌, ◌>>◌, ℤ, pos, negsuc, str_eq, eq_iff,
  false≢true,
}
use arp_spec.Bitstring.{Bytes}
use arp_spec.Json.{
  Json, null, str, arr, obj, num, bool, Items, nil, cons, Fields, PyError, attribute_error,
  type_error, value_error, other_error, get, get_default, truthy, is_text, without, insert, field,
  end,
}

-- What `datetime.fromisoformat(s.replace("Z", "+00:00"))` gives: with or without an offset.
pub data Instant : Type 0 where
  aware naive : ℕ → Instant

-- base58, json.dumps(sort_keys=True, separators=(",", ":")), Ed25519 and datetime; `none` is a
-- ValueError
pub record Primitives : Type 0 where
  pub b58decode : String → Option Bytes
  pub b58encode : Bytes → String
  pub json_dumps : Fields → Bytes
  pub verify : Bytes → Bytes → Bytes → Bool
  pub sign : Bytes → Bytes → Bytes
  pub public_key : Bytes → Bytes
  pub parse_iso : String → Option Instant

-- why a check returned False
pub data Reason : Type 0 where
  missing_proof unsupported_proof_type missing_proof_value signature_failed : Reason
  proof_decoding_error verification_error : Reason
  wrong_purpose missing_created malformed_created too_old in_future : Reason
  bad_verification_method unresolved_did no_verification_method bad_public_key : Reason

-- (True, "ok") or (False, reason)
abbrev pub Check : Type 0
Check = Outcome Reason (Unit {0})

-- `e` with a raise turned into a value
abbrev pub catching {ℓ κ} :
    {A : Type ℓ} {R : Type κ}
    → (PyError → Outcome R A)
    → Outcome PyError (Outcome R A)
    → Outcome R A
catching handler (ok r) = r
catching handler (err e) = handler e

abbrev pub or_raise {ℓ} : {A : Type ℓ} → Option A → PyError → Outcome PyError A
or_raise none e = err e
or_raise (some a) e = ok a

-- a text with the multibase prefix 'z', without the prefix
unfoldable pub multibase_body : Json → Option String
multibase_body (str (String.◌∷◌ c s)) = if code c == b'z' then some s else none
multibase_body _ = none

unfoldable pub strip_multicodec : Bytes → Bytes
strip_multicodec (a ∷ b ∷ key) =
    if length key == 32 && (a == 0xed && b == 0x01) then key else a ∷ b ∷ key
strip_multicodec key = key

-- `vm.split("#")[0]`
unfoldable pub before_hash : String → String
before_hash String.[] = ""
before_hash (String.◌∷◌ c s) =
    let rest = before_hash s in if code c == b'#' then "" else String.◌∷◌ c rest

abbrev pub signed_request_max_age_seconds : ℕ
signed_request_max_age_seconds = 300

-- the key id, if it is a text that is not empty
unfoldable pub extract_key_id : Json → Outcome PyError (Option String)
extract_key_id proof = do
  vm ← get "verificationMethod" proof
  ok (elim vm [ str s ↦ if str_eq s "" then none else some s | _ ↦ none ])

unfoldable pub extract_signer_did : Json → Outcome PyError String
unfolding extract_key_id
extract_signer_did proof = do
  key_id ← extract_key_id proof
  vm ← or_raise key_id value_error
  if starts_with (before_hash vm) "did:" then ok (before_hash vm) else err value_error

-- the first method whose "id" is the key id
unfoldable pub find_method : String → Items → Outcome PyError (Option Json)
find_method key_id nil = ok none
find_method key_id (cons m ms) =
    let rest = find_method key_id ms in
    get "id" m >>= λ id. if is_text key_id id then ok (some m) else rest

-- the method to verify with: by its id, else the first
unfoldable pub choose_method : Option String → Items → Json → Outcome PyError Json
choose_method none methods first = ok first
choose_method (some key_id) methods first = do
  found ← find_method key_id (cons first methods)
  ok (elim found [ none ↦ first | some m ↦ m ])

-- (True, "ok", signer_did) or (False, reason, None)
abbrev pub name_signer : String → Check → Outcome Reason String
name_signer signer_did (ok _) = ok signer_did
name_signer signer_did (err reason) = err reason

module _ (p : Primitives) where
  unfoldable pub canonical_bytes : Fields → Bytes
  canonical_bytes doc = p.json_dumps (without "proof" doc)

  unfoldable pub decode_proof_value : Json → Outcome PyError Bytes
  decode_proof_value proof_value = do
    body ← or_raise (multibase_body proof_value) value_error
    or_raise (p.b58decode body) value_error

  unfoldable pub encode_proof_value : Bytes → String
  encode_proof_value sig_bytes = String.◌∷◌ "z" (p.b58encode sig_bytes)

  unfoldable pub load_public_key_from_multibase : Json → Outcome PyError Bytes
  load_public_key_from_multibase multibase = do
    body ← or_raise (multibase_body multibase) value_error
    decoded ← or_raise (p.b58decode body) value_error
    let key_bytes = strip_multicodec decoded
    if length key_bytes == 32 then ok key_bytes else err value_error

  -- the body of the `try` of `verify_ed25519_proof`
  unfoldable pub verify_body : Fields → Bytes → Outcome PyError Check
  unfolding decode_proof_value canonical_bytes
  verify_body document key = do
    proof ← get "proof" (obj document)
    if not (truthy proof) then ok (err missing_proof) else do
      proof_type ← get "type" proof
      if not (is_text "Ed25519Signature2020" proof_type)
          then ok (err unsupported_proof_type)
          else do
            proof_value ← get "proofValue" proof
            if not (truthy proof_value) then ok (err missing_proof_value) else do
              sig_bytes ← decode_proof_value proof_value
              ok (
                  if p.verify key sig_bytes (canonical_bytes document)
                  then ok tt
                  else err signature_failed)

  abbrev pub failed_proof : PyError → Check
  failed_proof value_error = err proof_decoding_error
  failed_proof _ = err verification_error

  unfoldable pub verify_ed25519_proof : Fields → Bytes → Check
  unfolding verify_body
  verify_ed25519_proof document key = catching failed_proof (verify_body document key)

  unfoldable pub sign_document : String → Fields → Bytes → String → Fields
  unfolding canonical_bytes encode_proof_value
  sign_document created document private_key verification_method =
      insert "proof"
        (obj (
          field "type" (str "Ed25519Signature2020") (
            field "created" (str created) (
              field "verificationMethod" (str verification_method) (
                field "proofPurpose" (str "assertionMethod") (
                  field "proofValue"
                    (str (encode_proof_value (p.sign private_key (canonical_bytes document))))
                    end))))))
        document

  -- the tests on the age, for a timestamp with an offset
  unfoldable pub check_age : ℕ → ℕ → ℕ → Check
  check_age now max_age_seconds created =
      if ltb (created + max_age_seconds * 1000000) now
      then err too_old
      else if ltb (now + 30 * 1000000) created
      then err in_future
      else ok tt

  -- A timestamp without an offset raises instead of returning False.
  unfoldable pub check_parsed : ℕ → ℕ → Option Instant → Outcome PyError Check
  unfolding check_age
  check_parsed now max_age_seconds none = ok (err malformed_created)
  check_parsed now max_age_seconds (some (aware created)) =
      ok (check_age now max_age_seconds created)
  check_parsed now max_age_seconds (some (naive created)) = err type_error

  unfoldable pub check_created : ℕ → ℕ → Json → Outcome PyError Check
  unfolding check_parsed
  check_created now max_age_seconds (str created) =
      if str_eq created ""
      then ok (err missing_created)
      else check_parsed now max_age_seconds (p.parse_iso created)
  check_created now max_age_seconds other =
      if truthy other then err attribute_error else ok (err missing_created)

  unfoldable pub check_proof_freshness : ℕ → Json → ℕ → Outcome PyError Check
  unfolding check_created
  check_proof_freshness now proof max_age_seconds =
      get "created" proof >>= check_created now max_age_seconds

  -- a ValueError of the key is caught, another error is not
  abbrev pub checked_with_key : Fields → Outcome PyError Bytes → Outcome PyError Check
  checked_with_key body (ok key) = ok (verify_ed25519_proof body key)
  checked_with_key body (err value_error) = ok (err bad_public_key)
  checked_with_key body (err e) = err e

  -- the method by its id, else the first, and the key in it
  unfoldable pub verify_with_methods : Fields → Option String → Json → Outcome PyError Check
  unfolding choose_method find_method load_public_key_from_multibase verify_ed25519_proof
  verify_with_methods body key_id (arr (cons first methods)) = do
    vm ← choose_method key_id methods first
    multibase ← get_default "publicKeyMultibase" (str "") vm
    checked_with_key body (load_public_key_from_multibase multibase)
  verify_with_methods body key_id (arr nil) = ok (err no_verification_method)
  verify_with_methods body key_id (str s) =
      if str_eq s "" then ok (err no_verification_method) else err attribute_error
  verify_with_methods body key_id (obj end) = ok (err no_verification_method)
  verify_with_methods body key_id (obj (field _ _ _)) = err attribute_error
  verify_with_methods body key_id other =
      if truthy other then err type_error else ok (err no_verification_method)

  -- `except Exception` around the resolver
  unfoldable pub verify_resolved :
      Fields
      → Option String
      → String
      → Outcome PyError Json
      → Outcome PyError (Outcome Reason String)
  unfolding verify_with_methods
  verify_resolved body key_id signer_did (err e) = ok (err unresolved_did)
  verify_resolved body key_id signer_did (ok did_document) = do
    methods ← get_default "verificationMethod" (arr nil) did_document
    checked ← verify_with_methods body key_id methods
    ok (name_signer signer_did checked)

  -- resolving the signer and checking the signature, once the proof is well formed and fresh
  unfoldable pub verify_signer :
      (String → Outcome PyError Json)
      → Fields
      → Json
      → Outcome PyError String
      → Outcome PyError (Outcome Reason String)
  unfolding extract_key_id verify_resolved
  verify_signer resolve body proof (ok signer_did) = do
    key_id ← extract_key_id proof
    verify_resolved body key_id signer_did (resolve signer_did)
  verify_signer resolve body proof (err value_error) = ok (err bad_verification_method)
  verify_signer resolve body proof (err e) = err e

  -- `proof` is a dict with the right type and purpose
  unfoldable pub verify_fresh :
      ℕ → (String → Outcome PyError Json) → Fields → Json → Outcome PyError (Outcome Reason String)
  unfolding check_proof_freshness extract_signer_did verify_signer
  verify_fresh now resolve body proof = do
    fresh ← check_proof_freshness now proof signed_request_max_age_seconds
    elim fresh [
      | err reason ↦ ok (err reason)
      | ok _ ↦ verify_signer resolve body proof (extract_signer_did proof)
    ]

  -- the tests on the proof; a proof that is no dict is reported as missing
  unfoldable pub verify_request_proof :
      ℕ → (String → Outcome PyError Json) → Fields → Json → Outcome PyError (Outcome Reason String)
  unfolding verify_fresh
  verify_request_proof now resolve body (obj end) = ok (err missing_proof)
  verify_request_proof now resolve body (obj (field k v fs)) = do
    proof_type ← get "type" (obj (field k v fs))
    proof_purpose ← get "proofPurpose" (obj (field k v fs))
    if not (is_text "Ed25519Signature2020" proof_type)
        then ok (err unsupported_proof_type)
        else if not (is_text "authentication" proof_purpose)
        then ok (err wrong_purpose)
        else verify_fresh now resolve body (obj (field k v fs))
  verify_request_proof now resolve body other = ok (err missing_proof)

  unfoldable pub verify_signed_request :
      ℕ → (String → Outcome PyError Json) → Fields → Outcome PyError (Outcome Reason String)
  unfolding verify_request_proof
  verify_signed_request now resolve body =
      get "proof" (obj body) >>= verify_request_proof now resolve body
