-- ===== src/Attestation/Tests.antt =====
-- The validator at a self-attestation, and an attestation of the highest level without a proof.
use arp_spec.Common.{
  ◌≡◌, refl, ◌↔◌, Bool, true, false, Option, none, some, [], ◌==◌, if◌then◌else◌, ok, err, str_eq,
}
use arp_spec.Json.{end}
use arp_spec.Crypto.{naive}
use arp_spec.Attestation.{
  level_1, level_5, identity, Signing, AttestationValidator, Validation, HybridAttestation,
  create_self_attestation, revoke_attestation, validate,
}
use arp_spec.Attestation.Validate.{Acceptable, validate_iff}

abbrev signing : Signing
signing = record {
  digest = λ fs. "hash";
  verify_signature = λ message signature key. ok false;
  sign_message = λ message key. "signature";
  parse_iso = λ s. if str_eq s "0" then some (naive 0) else some (naive 2592000000000);
  isoformat = λ t. if t == 0 then "0" else "later";
}

abbrev validator : AttestationValidator
validator = record { min_trust_level = level_1; trusted_attestors = []; revoked_attestations = [] }

abbrev self_attestation : HybridAttestation
self_attestation = create_self_attestation signing 0 "agent" end identity

abbrev validation : HybridAttestation → AttestationValidator → Option Validation
validation a v = elim (validate signing 7 v a) [ ok r ↦ some r | err e ↦ none ]

abbrev is_valid : Option Validation → Bool
is_valid none = false
is_valid (some r) = r.valid

abbrev found : Validation
found = elim (validation self_attestation validator) [
  | some r ↦ r
  | none ↦ record {
    valid = false;
    trust_level_check = false;
    scope_check = false;
    proof_check = none;
    attestor_trusted = false;
    not_revoked = false;
    errors = [];
  }
]

validate_iff_example : (found.valid ≡ true) ↔ Acceptable signing 7 validator self_attestation
unfolding validate create_self_attestation
validate_iff_example = validate_iff signing 7 validator self_attestation refl

forged_is_valid :
    is_valid (validation (record self_attestation { trust_level = level_5 }) validator) ≡ true
unfolding validate create_self_attestation
forged_is_valid = refl

revoked_is_invalid :
    is_valid (validation self_attestation (revoke_attestation "hash" validator)) ≡ false
unfolding validate create_self_attestation revoke_attestation
revoked_is_invalid = refl
