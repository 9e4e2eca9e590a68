-- ===== src/Crypto/Requests.antt =====
-- What `verify_signed_request` of api/crypto_utils.py has checked when it names a signer.
use arp_spec.Common.{
  ℕ, ◌+◌, ◌*◌, ◌≤◌, String, ◌≡◌, refl, ◌≢◌, ◌↔◌, true, Option, none, some, arith, Outcome, ok, err,
  eq_iff, >>=-eq-ok,
}
use arp_spec.Bitstring.{Bytes}
use arp_spec.Json.{
  is_text_iff, field, end, Json, null, str, arr, obj, num, bool, nil, cons, Fields, get,
  get_default, truthy, is_text, lookup_or, PyError, value_error, attribute_error, type_error,
  other_error,
}
use arp_spec.Crypto.{
  Primitives, Check, Instant, aware, naive, check_age, check_proof_freshness, check_parsed,
  check_created, checked_with_key, verify_resolved, verify_fresh, verify_request_proof,
  choose_method, extract_key_id, extract_signer_did, load_public_key_from_multibase,
  verify_ed25519_proof, verify_with_methods, verify_signer, verify_signed_request, name_signer,
  signed_request_max_age_seconds,
}

module _ (p : Primitives) where
  -- a timestamp with an offset, at most `max_age` seconds old and at most 30 seconds ahead
  pub record IsFresh (now : ℕ) (proof : Fields) (max_age : ℕ) : Type 0 where
    pub created : ℕ
    pub text : String
    pub named : lookup_or "created" null proof ≡ str text
    pub parsed : p.parse_iso text ≡ some (aware created)
    pub not_old : now ≤ created + max_age * 1000000
    pub not_ahead : created ≤ now + 30 * 1000000

  check_age_iff :
      (now max_age created : ℕ)
      → (check_age p now max_age created ≡ ok tt)
        ↔ ((now ≤ created + max_age * 1000000) × (created ≤ now + 30 * 1000000))
  unfolding check_age
  check_age_iff now max_age created = ground arith

  check_parsed_sound :
      (now max_age : ℕ) (i : Option Instant)
      → check_parsed p now max_age i ≡ ok (ok tt)
      → (created : ℕ) × (i ≡ some (aware created))
        × (now ≤ created + max_age * 1000000)
        × (created ≤ now + 30 * 1000000)
  unfolding check_parsed
  check_parsed_sound now max_age none h = cc
  check_parsed_sound now max_age (some (naive t)) h = cc
  check_parsed_sound now max_age (some (aware t)) h =
      let ok_age : check_age p now max_age t ≡ ok tt = cc in
      let (low, high) = (check_age_iff now max_age t).0 ok_age in (t, refl, low, high)

  check_created_sound :
      (now max_age : ℕ) (c : Json)
      → check_created p now max_age c ≡ ok (ok tt)
      → (text : String) × (c ≡ str text)
        × (check_parsed p now max_age (p.parse_iso text) ≡ ok (ok tt))
  unfolding check_created truthy
  check_created_sound now max_age (str s) h = (s, refl, ground arith)
  check_created_sound now max_age null h = cc
  check_created_sound now max_age (bool b) h = ground arith
  check_created_sound now max_age (num n) h = ground arith
  check_created_sound now max_age (arr xs) h = ground arith
  check_created_sound now max_age (obj fs) h = ground arith

  check_proof_freshness_sound :
      (now : ℕ) (proof : Fields) (max_age : ℕ)
      → check_proof_freshness p now (obj proof) max_age ≡ ok (ok tt)
      → IsFresh now proof max_age
  unfolding check_proof_freshness get
  check_proof_freshness_sound now proof max_age h =
      let (text, named, passed) =
        check_created_sound now max_age (lookup_or "created" null proof) h in
      let (created, parsed, low, high) = check_parsed_sound now max_age (p.parse_iso text) passed in
      record {
        created = created;
        text = text;
        named = named;
        parsed = parsed;
        not_old = low;
        not_ahead = high;
      }

  checked_sound :
      (body : Fields) (key : Outcome PyError Bytes)
      → checked_with_key p body key ≡ ok (ok tt)
      → (k : Bytes) × (key ≡ ok k) × (verify_ed25519_proof p body k ≡ ok tt)
  checked_sound body (ok k) h = (k, refl, cc)
  checked_sound body (err value_error) h = cc
  checked_sound body (err attribute_error) h = cc
  checked_sound body (err type_error) h = cc
  checked_sound body (err other_error) h = cc

  -- the key that a method of the document carries
  abbrev pub Carries : Option String → Json → Bytes → Type 0
  Carries key_id (arr (cons first methods)) key =
      (vm : Json) × (multibase : Json) × (choose_method key_id methods first ≡ ok vm)
      × (get_default "publicKeyMultibase" (str "") vm ≡ ok multibase)
      × (load_public_key_from_multibase p multibase ≡ ok key)
  Carries key_id _ key = ⊥

  verify_with_methods_sound :
      (body : Fields) (key_id : Option String) (methods : Json)
      → verify_with_methods p body key_id methods ≡ ok (ok tt)
      → (key : Bytes) × Carries key_id methods key × (verify_ed25519_proof p body key ≡ ok tt)
  unfolding verify_with_methods truthy
  verify_with_methods_sound body key_id (arr (cons first methods)) h =
      let (vm, chosen, after) = >>=-eq-ok (choose_method key_id methods first) _ h in
      let (multibase, named, loaded) =
        >>=-eq-ok (get_default "publicKeyMultibase" (str "") vm) _ after in
      let (key, load, verified) =
        checked_sound body (load_public_key_from_multibase p multibase) loaded in
      (key, (vm, multibase, chosen, named, load), verified)
  verify_with_methods_sound body key_id (arr nil) h = cc
  verify_with_methods_sound body key_id null h = cc
  verify_with_methods_sound body key_id (bool b) h = ground arith
  verify_with_methods_sound body key_id (num n) h = ground arith
  verify_with_methods_sound body key_id (str s) h = ground arith
  verify_with_methods_sound body key_id (obj end) h = cc
  verify_with_methods_sound body key_id (obj (field k v fs)) h = cc

  -- the signature check of a request under a key of the signer's document
  pub record SignedBy (resolve : String → Outcome PyError Json) (body proof : Fields)
      (signer : String) : Type 0 where
    pub document : Json
    pub methods : Json
    pub key : Bytes
    pub key_id : Option String
    pub signer_named : extract_signer_did (obj proof) ≡ ok signer
    pub key_named : extract_key_id (obj proof) ≡ ok key_id
    pub resolved : resolve signer ≡ ok document
    pub listed : get_default "verificationMethod" (arr nil) document ≡ ok methods
    pub carried : Carries key_id methods key
    pub verified : verify_ed25519_proof p body key ≡ ok tt

  checked_ok :
      (c : Check) (signer did : String)
      → name_signer signer c ≡ ok did
      → (c ≡ ok tt) × (signer ≡ did)
  checked_ok (ok _) signer did h = (refl, cc)
  checked_ok (err r) signer did h = cc

  verify_resolved_sound :
      (body : Fields) (key_id : Option String) (signer did : String) (r : Outcome PyError Json)
      → verify_resolved p body key_id signer r ≡ ok (ok did)
      → (document : Json) × (methods : Json) × (r ≡ ok document)
        × (get_default "verificationMethod" (arr nil) document ≡ ok methods)
        × (verify_with_methods p body key_id methods ≡ ok (ok tt))
        × (signer ≡ did)
  unfolding verify_resolved
  verify_resolved_sound body key_id signer did (err e) h = cc
  verify_resolved_sound body key_id signer did (ok document) h =
      let (methods, listed, after) =
        >>=-eq-ok (get_default "verificationMethod" (arr nil) document) _ h in
      let (checked, ran, named) = >>=-eq-ok (verify_with_methods p body key_id methods) _ after in
      let both : name_signer signer checked ≡ ok did = cc in
      let (passed, same) = checked_ok checked signer did both in
      (document, methods, refl, listed, cc, same)

  verify_signer_sound :
      (resolve : String → Outcome PyError Json) (body proof : Fields) (did : String)
      (e : Outcome PyError String)
      → extract_signer_did (obj proof) ≡ e
      → verify_signer p resolve body (obj proof) e ≡ ok (ok did)
      → SignedBy resolve body proof did
  unfolding verify_signer
  verify_signer_sound resolve body proof did (err value_error) eq h = cc
  verify_signer_sound resolve body proof did (err attribute_error) eq h = cc
  verify_signer_sound resolve body proof did (err type_error) eq h = cc
  verify_signer_sound resolve body proof did (err other_error) eq h = cc
  verify_signer_sound resolve body proof did (ok signer) eq h =
      let (key_id, key_named, after) = >>=-eq-ok (extract_key_id (obj proof)) _ h in
      let (document, methods, resolved, listed, checked, same) =
        verify_resolved_sound body key_id signer did (resolve signer) after in
      let (key, carried, verified) = verify_with_methods_sound body key_id methods checked in
      record {
        document = document;
        methods = methods;
        key = key;
        key_id = key_id;
        signer_named = cc;
        key_named = key_named;
        resolved = cc;
        listed = listed;
        carried = carried;
        verified = verified;
      }

  -- what a request must satisfy for its signer to be believed
  pub record IsSignedRequest (now : ℕ) (resolve : String → Outcome PyError Json) (body : Fields)
      (signer : String) : Type 0 where
    pub proof : Fields
    pub has_proof : lookup_or "proof" null body ≡ obj proof
    pub suite : lookup_or "type" null proof ≡ str "Ed25519Signature2020"
    pub purpose : lookup_or "proofPurpose" null proof ≡ str "authentication"
    pub fresh : IsFresh now proof signed_request_max_age_seconds
    pub signed : SignedBy resolve body proof signer

  verify_fresh_sound :
      (now : ℕ) (resolve : String → Outcome PyError Json) (body proof : Fields) (did : String)
      → verify_fresh p now resolve body (obj proof) ≡ ok (ok did)
      → IsFresh now proof signed_request_max_age_seconds × SignedBy resolve body proof did
  unfolding verify_fresh
  verify_fresh_sound now resolve body proof did h =
      let (fresh, checked, after) =
        >>=-eq-ok (check_proof_freshness p now (obj proof) signed_request_max_age_seconds) _ h in
      by_check fresh checked after
    where
      by_check :
          (c : Check)
          → check_proof_freshness p now (obj proof) signed_request_max_age_seconds ≡ ok c
          → (elim c [
            | err reason ↦ ok (err reason)
            | ok _ ↦ verify_signer p resolve body (obj proof) (extract_signer_did (obj proof))
          ])
            ≡ ok (ok did)
          → IsFresh now proof signed_request_max_age_seconds × SignedBy resolve body proof did
      by_check (err r) e k = cc
      by_check (ok _) e k = (
        check_proof_freshness_sound now proof signed_request_max_age_seconds e,
        verify_signer_sound resolve body proof did (extract_signer_did (obj proof)) refl k,
      )

  suite_and_purpose :
      (now : ℕ) (resolve : String → Outcome PyError Json) (body proof : Fields) (did : String)
      → verify_request_proof p now resolve body (obj proof) ≡ ok (ok did)
      → (is_text "Ed25519Signature2020" (lookup_or "type" null proof) ≡ true)
        × (is_text "authentication" (lookup_or "proofPurpose" null proof) ≡ true)
        × (verify_fresh p now resolve body (obj proof) ≡ ok (ok did))
  unfolding verify_request_proof get
  suite_and_purpose now resolve body end did h = cc
  suite_and_purpose now resolve body (field k v fs) did h = ground arith

  verify_request_proof_sound :
      (now : ℕ) (resolve : String → Outcome PyError Json) (body : Fields) (did : String)
      (proof : Json)
      → lookup_or "proof" null body ≡ proof
      → verify_request_proof p now resolve body proof ≡ ok (ok did)
      → IsSignedRequest now resolve body did
  unfolding verify_request_proof
  verify_request_proof_sound now resolve body did null e h = cc
  verify_request_proof_sound now resolve body did (bool b) e h = cc
  verify_request_proof_sound now resolve body did (num n) e h = cc
  verify_request_proof_sound now resolve body did (str s) e h = cc
  verify_request_proof_sound now resolve body did (arr xs) e h = cc
  verify_request_proof_sound now resolve body did (obj proof) e h =
      let (suite, purpose, after) = suite_and_purpose now resolve body proof did h in
      let (fresh, signed) = verify_fresh_sound now resolve body proof did after in
      record {
        proof = proof;
        has_proof = e;
        suite = is_text_iff "Ed25519Signature2020" _ suite;
        purpose = is_text_iff "authentication" _ purpose;
        fresh = fresh;
        signed = signed;
      }

  -- If `verify_signed_request` names a signer, then the body holds a proof of the right suite and
  -- purpose, made at most five minutes ago and at most 30 seconds ahead, whose verification method
  -- is a DID URL of the signer, and the signature verifies under a key of the document that the
  -- signer's DID resolves to.
  pub verify_signed_request_sound :
      (now : ℕ) (resolve : String → Outcome PyError Json) (body : Fields) (did : String)
      → verify_signed_request p now resolve body ≡ ok (ok did)
      → IsSignedRequest now resolve body did
  unfolding verify_signed_request get
  verify_signed_request_sound now resolve body did h =
      verify_request_proof_sound now resolve body did (lookup_or "proof" null body) refl h

  -- A proof whose timestamp has no offset makes the freshness check raise, whatever its age.
  pub check_proof_freshness_naive :
      (now : ℕ) (proof : Fields) (max_age t : ℕ) (text : String)
      → lookup_or "created" null proof ≡ str text
      → text ≢ ""
      → p.parse_iso text ≡ some (naive t)
      → check_proof_freshness p now (obj proof) max_age ≡ err type_error
  unfolding check_proof_freshness check_created check_parsed get
  check_proof_freshness_naive now proof max_age t text named full parsed =
      rw (named, parsed) (ground (arith, eq_iff text ""))
