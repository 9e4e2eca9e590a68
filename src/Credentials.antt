-- ===== src/Credentials.antt =====
-- api/vc_verifier.py: the proofs of W3C credentials and presentations. base58, json.dumps, Ed25519 and
-- the timestamps are the record Primitives of Crypto; `bytes.fromhex` and the time are arguments.
pub mod Signed
pub mod Verified
pub mod Delegation
pub mod Delegated
pub mod Delegates
pub mod Tests
use arp_spec.Common.{
  ℕ, zero, suc, ◌+◌, ◌-◌, ◌*◌, ◌/◌, ◌%◌, ◌≤◌, ◌<◌, String, ◌≡◌, refl, sym, ap, ◌≢◌, ◌↔◌, ◌⊎◌, inl,
  inr, Bool, true, false, not, ◌&&◌, ◌||◌, Option, none, some, List, [], ◌∷◌, ◌++◌, map, arith,
  length, get_or, All, any, all, ltb, leb, ◌==◌, if◌then◌else◌, ==_iff, ltb_iff, leb_iff,
  Bool-cases, Option-cases, Outcome, ok, err, ◌>>=◌, ◌>>◌, ℤ, pos, negsuc, str_eq, eq_iff,
  false≢true,
}
use arp_spec.Bitstring.{Bytes}
use arp_spec.Json.{
  Json, null, str, arr, obj, Items, nil, cons, Fields, end, PyError, attribute_error, type_error,
  value_error, get, get_default, truthy, is_text, iterate,
}
use arp_spec.Crypto.{
  Instant, aware, naive, Primitives, or_raise, canonical_bytes, decode_proof_value,
}
use arp_spec.StatusLists.Http.{contains}

-- why a verification returned False
pub data VcReason : Type 0 where
  vc_missing_proof vc_unsupported_proof_type vc_missing_proof_value vc_expired : VcReason
  missing_credential_subject missing_subject_id missing_issuer missing_holder : VcReason
  vc_signature_failed : VcReason
  vc_verification_error : PyError → VcReason

-- (True, "ok") or (False, reason)
abbrev pub VcCheck : Type 0
VcCheck = Outcome VcReason (Unit {0})

-- `if not test: return False, reason`
abbrev pub demand : Bool → VcReason → Outcome PyError VcCheck → Outcome PyError VcCheck
demand test reason rest = if test then rest else ok (err reason)

-- `except Exception`
abbrev pub caught_check : Outcome PyError VcCheck → VcCheck
caught_check (ok checked) = checked
caught_check (err e) = err (vc_verification_error e)

-- the fields of a dict
abbrev pub fields_of : Json → Outcome PyError Fields
fields_of (obj fs) = ok fs
fields_of _ = err attribute_error

pub record VcResult : Type 0 where
  pub id : Json
  pub valid : Bool
  pub error : Option VcReason

pub record VpResult : Type 0 where
  pub vp_valid : Bool
  pub vp_error : Option VcReason
  pub vc_results : List VcResult
  pub all_valid : Bool

abbrev pub passed : VcCheck → Bool
passed (ok _) = true
passed (err _) = false

abbrev pub reason_of : VcCheck → Option VcReason
reason_of (ok _) = none
reason_of (err reason) = some reason

module _ (p : Primitives) (fromhex : String → Option Bytes) where
  unfoldable pub load_public_key : String → Outcome PyError Bytes
  load_public_key public_key_hex = or_raise (fromhex public_key_hex) value_error >>= λ key.
      if length key == 32 then ok key else err value_error

  -- the signature in the proof value on the document without its proof
  unfoldable pub check_signature : String → Json → Json → Outcome PyError VcCheck
  unfolding decode_proof_value canonical_bytes load_public_key
  check_signature key_hex proof_value document = decode_proof_value p proof_value >>= λ sig_bytes.
      fields_of document >>= λ fs. load_public_key key_hex >>= λ key.
      ok (if p.verify key sig_bytes (canonical_bytes p fs) then ok tt else err vc_signature_failed)

  -- the tests on the proof, before those of `rest`
  unfoldable pub with_proof : Json → (Json → Outcome PyError VcCheck) → Outcome PyError VcCheck
  with_proof document rest = get "proof" document >>= λ proof.
      demand (truthy proof) vc_missing_proof (
        get "type" proof >>= λ proof_type.
        demand (is_text "Ed25519Signature2020" proof_type) vc_unsupported_proof_type (
          get "proofValue" proof >>= λ proof_value.
          demand (truthy proof_value) vc_missing_proof_value (rest proof_value)))

  -- whether `now > expiry`, which raises for an expiry without an offset
  unfoldable pub is_past : ℕ → Option Instant → Outcome PyError Bool
  is_past now none = err value_error
  is_past now (some (aware expiry)) = ok (ltb expiry now)
  is_past now (some (naive expiry)) = err type_error

  unfoldable pub has_expired : ℕ → Json → Outcome PyError Bool
  unfolding is_past
  has_expired now (str s) = if str_eq s "" then ok false else is_past now (p.parse_iso s)
  has_expired now v = if truthy v then err attribute_error else ok false

  unfoldable pub check_vc : ℕ → String → Json → Json → Outcome PyError VcCheck
  unfolding has_expired check_signature
  check_vc now key_hex vc proof_value = get "expirationDate" vc >>= λ expiry.
      has_expired now expiry >>= λ expired. demand (not expired) vc_expired (
        contains "credentialSubject" vc >>= λ has_subject.
        demand has_subject missing_credential_subject (
          get_default "credentialSubject" (obj end) vc >>= λ subject.
          get "id" subject >>= λ subject_id. demand (truthy subject_id) missing_subject_id (
            get "issuer" vc >>= λ issuer.
            demand (truthy issuer) missing_issuer (check_signature key_hex proof_value vc))))

  unfoldable pub verify_vc : ℕ → String → Json → VcCheck
  unfolding with_proof check_vc
  verify_vc now key_hex vc = caught_check (with_proof vc (check_vc now key_hex vc))

  unfoldable pub check_vp : String → Json → Json → Outcome PyError VcCheck
  unfolding check_signature
  check_vp key_hex vp proof_value = get "holder" vp >>= λ holder.
      demand (truthy holder) missing_holder (check_signature key_hex proof_value vp)

  unfoldable pub verify_vp : String → Json → VcCheck
  unfolding with_proof check_vp
  verify_vp key_hex vp = caught_check (with_proof vp (check_vp key_hex vp))

  unfoldable pub verify_vcs : ℕ → String → Items → Outcome PyError (List VcResult)
  unfolding verify_vc
  verify_vcs now key_hex nil = ok []
  verify_vcs now key_hex (cons vc rest) =
      let later = verify_vcs now key_hex rest in
      let checked = verify_vc now key_hex vc in
      get "id" vc >>= λ id. later >>= λ results.
      ok (record { id = id; valid = passed checked; error = reason_of checked } ∷ results)

  unfoldable pub verify_vp_with_embedded_vcs : ℕ → String → String → Json → Outcome PyError VpResult
  unfolding verify_vp verify_vcs iterate
  verify_vp_with_embedded_vcs now holder_key_hex op_key_hex vp =
      let vp_checked = verify_vp holder_key_hex vp in
      get_default "verifiableCredential" (arr nil) vp >>= λ vcs. iterate vcs >>= λ items.
      verify_vcs now op_key_hex items >>= λ results. ok (record {
        vp_valid = passed vp_checked;
        vp_error = reason_of vp_checked;
        vc_results = results;
        all_valid = passed vp_checked && all (λ r. r.valid) results;
      })
