-- ===== src/Crypto/Proofs.antt =====
-- Signing and checking a document with api/crypto_utils.py.
use arp_spec.Common.{
  String, ◌≡◌, refl, ap, inl, inr, true, false, some, Bool-cases, ok, str_eq, eq_iff,
}
use arp_spec.Bitstring.{Bytes}
use arp_spec.Json.{
  Json, str, Fields, get, truthy, is_text, insert, lookup_or, without-insert, lookup_or-insert_self,
}
use arp_spec.Crypto.{
  Primitives, canonical_bytes, decode_proof_value, encode_proof_value, sign_document,
  verify_ed25519_proof, multibase_body,
}

-- base58 and Ed25519, as documented
pub record IsSound (p : Primitives) : Type 0 where
  pub b58_inverse : (x : Bytes) → p.b58decode (p.b58encode x) ≡ some x
  pub verify_signed :
      (private_key message : Bytes)
      → p.verify (p.public_key private_key) (p.sign private_key message) message ≡ true

module _ (p : Primitives) where
  pub canonical_bytes-insert :
      (proof : Json) (doc : Fields)
      → canonical_bytes p (insert "proof" proof doc) ≡ canonical_bytes p doc
  unfolding canonical_bytes
  canonical_bytes-insert proof doc = ap p.json_dumps (without-insert "proof" proof doc)

  module _ (sound : IsSound p) where
    decode-encode : (x : Bytes) → decode_proof_value p (str (encode_proof_value p x)) ≡ ok x
    unfolding decode_proof_value encode_proof_value multibase_body
    decode-encode x = rw (sound.b58_inverse x) refl

    encoded_nonempty : (x : Bytes) → str_eq (encode_proof_value p x) "" ≡ false
    unfolding encode_proof_value
    encoded_nonempty x = elim (Bool-cases (str_eq (encode_proof_value p x) "")) [
      | inl e ↦ cc ((eq_iff (encode_proof_value p x) "").0 e)
      | inr e ↦ e
    ]

    canonical-sign :
        (created : String) (doc : Fields) (private_key : Bytes) (method : String)
        → canonical_bytes p (sign_document p created doc private_key method) ≡ canonical_bytes p doc
    unfolding sign_document
    canonical-sign created doc private_key method = canonical_bytes-insert _ doc

    -- With primitives that are sound (base58 decoding inverts encoding, and a signature verifies
    -- under its key), a document that `sign_document` has signed is accepted under the signer's
    -- public key, whether or not it held a proof before.
    pub verify_ed25519_proof-sign_document :
        (created : String) (doc : Fields) (private_key : Bytes) (method : String)
        → verify_ed25519_proof p
            (sign_document p created doc private_key method)
            (p.public_key private_key)
          ≡ ok tt
    unfolding verify_ed25519_proof sign_document get lookup_or truthy is_text
    verify_ed25519_proof-sign_document created doc private_key method = simp (
      lookup_or-insert_self, encoded_nonempty, decode-encode, canonical-sign, sound.verify_signed,
    )
