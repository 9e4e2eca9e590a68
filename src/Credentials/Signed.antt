-- ===== src/Credentials/Signed.antt =====
-- The proof that api/vc_verifier.py finds on a document, and the inversion of its tests.
use arp_spec.Common.{
  String, ◌≡◌, refl, ap, inl, inr, Bool, true, false, not, ◌&&◌, Option, arith, if◌then◌else◌,
  Bool-cases, Outcome, ok, err, not_raised, >>=-eq-ok, ok-injective, ◌∙◌,
}
use arp_spec.Bitstring.{Bytes}
use arp_spec.Json.{Json, str, Fields, PyError, attribute_error, get, truthy, is_text, is_text_iff}
use arp_spec.Crypto.{Primitives, canonical_bytes, decode_proof_value}
use arp_spec.Credentials.{
  VcReason, VcCheck, demand, caught_check, fields_of, passed, load_public_key, check_signature,
  with_proof,
}

pub demanded :
    (test : Bool) (reason : VcReason) (rest : Outcome PyError VcCheck)
    → demand test reason rest ≡ ok (ok tt)
    → (test ≡ true) × (rest ≡ ok (ok tt))
demanded true reason rest e = (refl, e)
demanded false reason rest e = not_raised (ok-injective e)

pub caught_check-ok : (o : Outcome PyError VcCheck) → caught_check o ≡ ok tt → o ≡ ok (ok tt)
caught_check-ok (ok checked) e = ap ok e
caught_check-ok (err x) e = not_raised e

pub passed-ok : (c : VcCheck) → passed c ≡ true → c ≡ ok tt
passed-ok (ok tt) e = refl
passed-ok (err x) e = cc e

pub and-left : (a b : Bool) → (a && b) ≡ true → a ≡ true
and-left a b e = ground (arith, e)

pub and-right : (a b : Bool) → (a && b) ≡ true → b ≡ true
and-right a b e = ground (arith, e)

pub not-true : (b : Bool) → not b ≡ true → b ≡ false
not-true b e = ground (arith, e)

pub no_date :
    (b : Bool)
    → Path (Outcome PyError Bool) (if b then err attribute_error else ok false) (ok false)
    → b ≡ false
no_date true e = not_raised e
no_date false e = refl

module _ (p : Primitives) (fromhex : String → Option Bytes) where
  -- the signature in a proof value, on the document without its proof, under a key of 32 bytes
  pub record SignedBy (key_hex : String) (proof_value document : Json) : Type 0 where
    pub sig_bytes : Bytes
    pub decoded : decode_proof_value p proof_value ≡ ok sig_bytes
    pub fs : Fields
    pub is_dict : fields_of document ≡ ok fs
    pub key : Bytes
    pub key_loaded : load_public_key p fromhex key_hex ≡ ok key
    pub holds : p.verify key sig_bytes (canonical_bytes p fs) ≡ true

  -- a proof of the right type with such a signature
  pub record Signed (key_hex : String) (document : Json) : Type 0 where
    pub proof : Json
    pub has_proof : get "proof" document ≡ ok proof
    pub proof_type : get "type" proof ≡ ok (str "Ed25519Signature2020")
    pub proof_value : Json
    pub has_proof_value : get "proofValue" proof ≡ ok proof_value
    pub signed : SignedBy key_hex proof_value document

  pub check_signature-SignedBy :
      (key_hex : String) (proof_value document : Json)
      → check_signature p fromhex key_hex proof_value document ≡ ok (ok tt)
      → SignedBy key_hex proof_value document
  unfolding check_signature
  check_signature-SignedBy key_hex proof_value document e =
      let (sig_bytes, decoded, e1) = >>=-eq-ok (decode_proof_value p proof_value) _ e in
      let (fs, is_dict, e2) = >>=-eq-ok (fields_of document) _ e1 in
      let (key, key_loaded, e3) = >>=-eq-ok (load_public_key p fromhex key_hex) _ e2 in
      elim (Bool-cases (p.verify key sig_bytes (canonical_bytes p fs))) [
        | inl holds ↦ record {
          sig_bytes = sig_bytes;
          decoded = decoded;
          fs = fs;
          is_dict = is_dict;
          key = key;
          key_loaded = key_loaded;
          holds = holds;
        }
        | inr fails ↦ not_raised (ok-injective (rw fails at e3))
      ]

  pub with_proof-Signed :
      (key_hex : String) (document : Json) (rest : Json → Outcome PyError VcCheck)
      → with_proof p fromhex document rest ≡ ok (ok tt)
      → ((proof_value : Json)
          → rest proof_value ≡ ok (ok tt)
          → SignedBy key_hex proof_value document)
      → Signed key_hex document × ((proof_value : Json) × (rest proof_value ≡ ok (ok tt)))
  unfolding with_proof
  with_proof-Signed key_hex document rest e signs =
      let (proof, has_proof, e1) = >>=-eq-ok (get "proof" document) _ e in
      let (_, e2) = demanded (truthy proof) _ _ e1 in
      let (proof_type, has_type, e3) = >>=-eq-ok (get "type" proof) _ e2 in
      let (right_type, e4) = demanded (is_text "Ed25519Signature2020" proof_type) _ _ e3 in
      let (proof_value, has_proof_value, e5) = >>=-eq-ok (get "proofValue" proof) _ e4 in
      let (_, e6) = demanded (truthy proof_value) _ _ e5 in
      let signed = signs proof_value e6 in
      (
        record {
          proof = proof;
          has_proof = has_proof;
          proof_type = has_type ∙ ap ok (is_text_iff _ proof_type right_type);
          proof_value = proof_value;
          has_proof_value = has_proof_value;
          signed = signed;
        },
        (proof_value, e6),
      )
