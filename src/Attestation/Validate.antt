-- ===== src/Attestation/Validate.antt =====
-- When the validator of api/attestation_scoping.py finds an attestation valid.
use arp_spec.Common.{
  ℕ, ◌≤◌, ◌≡◌, refl, sym, ap, ◌↔◌, Bool, true, false, not, ◌&&◌, Option, none, some, arith, leb,
  leb_iff, ok, >>=-eq-ok, ok-injective, ◌∙◌,
}
use arp_spec.Attestation.{
  level_value, AttestationProof, HybridAttestation, Signing, AttestationValidator, among,
  Validation, passes, compute_hash, scope_is_valid, verify_attestation_proof, proof_check_of,
  validate,
}

-- the proof, if there is one, verifies
unfoldable pub ProofHolds : Signing → HybridAttestation → Option AttestationProof → Type 0
ProofHolds env a none = Unit
ProofHolds env a (some p) = verify_attestation_proof env a p ≡ true

-- what a valid attestation has; the attestor need not be trusted
pub record Acceptable (env : Signing) (now : ℕ) (v : AttestationValidator) (a : HybridAttestation)
    : Type 0 where
  pub high : level_value v.min_trust_level ≤ level_value a.trust_level
  pub in_scope : scope_is_valid env now a.scope ≡ ok true
  pub proved : ProofHolds env a a.proof
  pub kept : among (compute_hash env a) v.revoked_attestations ≡ false

and_intro :
    (a b c d : Bool) → a ≡ true → b ≡ true → c ≡ true → d ≡ true → (a && (b && (c && d))) ≡ true
and_intro a b c d p q r s = ground (arith, p, q, r, s)

proof_passes :
    (env : Signing) (a : HybridAttestation) (p : Option AttestationProof)
    → (passes (proof_check_of env a p) ≡ true) ↔ ProofHolds env a p
unfolding ProofHolds proof_check_of
proof_passes env a none = (λ e. tt, λ h. refl)
proof_passes env a (some p) = (λ e. e, λ h. h)

-- A validation that does not raise finds an attestation valid exactly if its trust level is at least
-- the minimum, its scope is valid at the time, its proof verifies or it has none, and its hash is not
-- among the revoked ones. Neither a proof nor a trusted attestor is needed.
pub validate_iff :
    (env : Signing) (now : ℕ) (v : AttestationValidator) (a : HybridAttestation) {r : Validation}
    → validate env now v a ≡ ok r
    → (r.valid ≡ true) ↔ Acceptable env now v a
unfolding validate
validate_iff env now v a e =
    let (scope_valid, scoped, e1) = >>=-eq-ok (scope_is_valid env now a.scope) _ e in
    let same = ap (λ x. x.valid) (ok-injective e1) in
    let high = leb (level_value v.min_trust_level) (level_value a.trust_level) in
    let proved = passes (proof_check_of env a a.proof) in
    let revoked = among (compute_hash env a) v.revoked_attestations in
    (
      λ valid.
          let all_hold : (high && (scope_valid && (proved && not revoked))) ≡ true = same ∙ valid in
          record {
            high = (leb_iff _ _).0 (ground (arith, all_hold));
            in_scope = scoped ∙ ap ok (ground (arith, all_hold));
            proved = (proof_passes env a a.proof).0 (ground (arith, all_hold));
            kept = ground (arith, all_hold);
          },
      λ h.
          sym same
          ∙ and_intro high scope_valid proved (not revoked) ((leb_iff _ _).1 h.high)
              (ok-injective (sym scoped ∙ h.in_scope)) ((proof_passes env a a.proof).1 h.proved)
              (ap not h.kept),
    )
