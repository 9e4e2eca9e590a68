-- ===== src/Crypto/Holds.antt =====
-- What the acceptance of a proof by `verify_ed25519_proof` of api/crypto_utils.py rests on, and where the
-- key for it comes from.
use arp_spec.Common.{
  String, ◌≡◌, ap, ◌≢◌, inl, inr, true, some, Bool-cases, ok, >>=-eq-ok, not_raised, Outcome-cases,
  none_is_some, ok-injective, ◌∙◌, some-injective,
}
use mathlib.Core.Path.{subst}
use arp_spec.Bitstring.{Bytes}
use arp_spec.Json.{
  Json, Fields, Items, nil, cons, str, obj, PyError, attribute_error, type_error, value_error,
  other_error, get, truthy, is_text, is_text_iff,
}
use arp_spec.Crypto.{
  Primitives, failed_proof, decode_proof_value, canonical_bytes, verify_body, verify_ed25519_proof,
  find_method,
}

module _ (p : Primitives) where
  -- a proof of the document whose signature holds under a key, on the document without it
  pub record Holds (document : Fields) (key : Bytes) : Type 0 where
    pub proof : Json
    pub has_proof : get "proof" (obj document) ≡ ok proof
    pub suite : get "type" proof ≡ ok (str "Ed25519Signature2020")
    pub proof_value : Json
    pub has_proof_value : get "proofValue" proof ≡ ok proof_value
    pub sig_bytes : Bytes
    pub decoded : decode_proof_value p proof_value ≡ ok sig_bytes
    pub verifies : p.verify key sig_bytes (canonical_bytes p document) ≡ true

  verify_body-Holds :
      (document : Fields) (key : Bytes)
      → verify_body p document key ≡ ok (ok tt)
      → Holds document key
  unfolding verify_body
  verify_body-Holds document key e =
      let (proof, has_proof, e1) = >>=-eq-ok (get "proof" (obj document)) _ e in
      elim (Bool-cases (truthy proof)) [
        | inr missing ↦ not_raised (ok-injective (rw missing at e1))
        | inl present ↦
            let (proof_type, has_type, e2) = >>=-eq-ok (get "type" proof) _ (rw present at e1) in
            elim (Bool-cases (is_text "Ed25519Signature2020" proof_type)) [
              | inr other ↦ not_raised (ok-injective (rw other at e2))
              | inl suite ↦
                  let (proof_value, has_value, e3) =
                    >>=-eq-ok (get "proofValue" proof) _ (rw suite at e2) in
                  elim (Bool-cases (truthy proof_value)) [
                    | inr absent ↦ not_raised (ok-injective (rw absent at e3))
                    | inl given ↦
                        let (sig_bytes, decoded, e4) =
                          >>=-eq-ok (decode_proof_value p proof_value) _ (rw given at e3) in
                        elim (Bool-cases (p.verify key sig_bytes (canonical_bytes p document))) [
                          | inr wrong ↦ not_raised (ok-injective (rw wrong at e4))
                          | inl verifies ↦ record {
                            proof = proof;
                            has_proof = has_proof;
                            suite =
                                has_type
                                ∙ ap ok (is_text_iff "Ed25519Signature2020" proof_type suite);
                            proof_value = proof_value;
                            has_proof_value = has_value;
                            sig_bytes = sig_bytes;
                            decoded = decoded;
                            verifies = verifies;
                          }
                        ]
                  ]
            ]
      ]

  caught-fails : (e : PyError) → failed_proof p e ≢ ok tt
  caught-fails value_error h = not_raised h
  caught-fails attribute_error h = not_raised h
  caught-fails type_error h = not_raised h
  caught-fails other_error h = not_raised h

  pub verify_ed25519_proof-Holds :
      (document : Fields) (key : Bytes)
      → verify_ed25519_proof p document key ≡ ok tt
      → Holds document key
  unfolding verify_ed25519_proof
  verify_ed25519_proof-Holds document key e = elim (Outcome-cases (verify_body p document key)) [
    | inl (c, returned) ↦ verify_body-Holds document key (returned ∙ ap ok (rw returned at e))
    | inr (x, failed) ↦ absurd (caught-fails x (rw failed at e))
  ]

pub data Among (m : Json) : Items → Type 0 where
  here : {ms : Items} → Among m (cons m ms)
  there : {other : Json} {ms : Items} → Among m ms → Among m (cons other ms)

pub find_method-Among :
    (key_id : String) (ms : Items) {m : Json} → find_method key_id ms ≡ ok (some m) → Among m ms
unfolding find_method
find_method-Among key_id nil e = none_is_some (ok-injective e)
find_method-Among key_id (cons m ms) e =
    let (id, has_id, e1) = >>=-eq-ok (get "id" m) _ e in
    elim (Bool-cases (is_text key_id id)) [
      | inl named ↦
          subst (λ x. Among x (cons m ms)) (some-injective _ _ (ok-injective (rw named at e1))) here
      | inr other ↦ there (find_method-Among key_id ms (rw other at e1))
    ]
