-- ===== src/Attestation.antt =====
-- api/attestation_scoping.py: scoped attestations, their validator and their creation. SHA-256 over
-- json.dumps, the signatures and the timestamps are the record Signing; times are microseconds, and
-- `utcnow` has no offset.
pub mod Validate
pub mod Tests
use Prim.Native.String.{◌++◌ as str_append}
use arp_spec.Common.{
  ℕ, zero, suc, ◌+◌, ◌-◌, ◌*◌, ◌/◌, ◌%◌, ◌≤◌, ◌<◌, String, ◌≡◌, refl, sym, ap, ◌≢◌, ◌↔◌, ◌⊎◌, inl,
  inr, Bool, true, false, not, ◌&&◌, ◌||◌, Option, none, some, List, [], ◌∷◌, ◌++◌, map, arith,
  length, get_or, All, any, all, ltb, leb, ◌==◌, if◌then◌else◌, ==_iff, ltb_iff, leb_iff,
  Bool-cases, Option-cases, Outcome, ok, err, ◌>>=◌, ◌>>◌, ℤ, pos, negsuc, str_eq, eq_iff,
  false≢true,
}
use arp_spec.Json.{
  Json, null, num, str, arr, obj, Items, nil, cons, Fields, field, end, PyError, type_error,
  value_error, insert,
}
use arp_spec.Crypto.{Instant, aware, naive, or_raise}

pub data TrustLevel : Type 0 where
  level_0 level_1 level_2 level_3 level_4 level_5 : TrustLevel

-- `value`
unfoldable pub level_value : TrustLevel → ℕ
level_value level_0 = 0
level_value level_1 = 1
level_value level_2 = 2
level_value level_3 = 3
level_value level_4 = 4
level_value level_5 = 5

unfoldable pub level_name : TrustLevel → String
level_name level_0 = "LEVEL_0"
level_name level_1 = "LEVEL_1"
level_name level_2 = "LEVEL_2"
level_name level_3 = "LEVEL_3"
level_name level_4 = "LEVEL_4"
level_name level_5 = "LEVEL_5"

pub data AttestationScope : Type 0 where
  identity legal_entity compliance reputation capability : AttestationScope
  transaction infrastructure custom : AttestationScope

unfoldable pub scope_value : AttestationScope → String
scope_value identity = "identity"
scope_value legal_entity = "legal_entity"
scope_value compliance = "compliance"
scope_value reputation = "reputation"
scope_value capability = "capability"
scope_value transaction = "transaction"
scope_value infrastructure = "infrastructure"
scope_value custom = "custom"

pub record AttestationProof : Type 0 where
  pub signature : String
  pub signer_public_key : String
  pub timestamp : String
  pub hash_algorithm : String
  pub signature_scheme : String

pub record AttestationScopeDetails : Type 0 where
  pub scope_type : AttestationScope
  pub scope_description : String
  pub valid_from : String
  pub valid_until : Option String
  pub restrictions : List String

pub record HybridAttestation : Type 0 where
  pub agent_id : String
  pub trust_level : TrustLevel
  pub claims : Fields
  pub scope : AttestationScopeDetails
  pub proof : Option AttestationProof
  pub agent_did : Option String
  pub attestor_type : String
  pub attestor_id : Option String
  pub on_chain_anchor : Option String
  pub off_chain_evidence : Option String
  pub verification_depth : ℕ

pub record Signing : Type 0 where
  -- the hex digest of the canonical JSON text
  pub digest : Fields → String
  pub verify_signature : String → String → String → Outcome PyError Bool
  pub sign_message : String → String → String
  pub parse_iso : String → Option Instant
  pub isoformat : ℕ → String

-- `if value: result[key] = value`
abbrev pub put_text : String → Option String → Fields → Fields
put_text key none fs = fs
put_text key (some s) fs = if str_eq s "" then fs else insert key (str s) fs

unfoldable pub texts : List String → Items
texts [] = nil
texts (s ∷ ss) = cons (str s) (texts ss)

abbrev pub put_texts : String → List String → Fields → Fields
unfolding texts
put_texts key [] fs = fs
put_texts key (s ∷ ss) fs = insert key (arr (texts (s ∷ ss))) fs

unfoldable pub scope_to_dict : AttestationScopeDetails → Fields
unfolding scope_value
scope_to_dict s = put_texts "restrictions" s.restrictions (
    put_text "valid_until" s.valid_until (
      field "scope_type" (str (scope_value s.scope_type)) (
        field "scope_description" (str s.scope_description)
          (field "valid_from" (str s.valid_from) end))))

-- a text or null
abbrev pub text_json : Option String → Json
text_json none = null
text_json (some s) = str s

unfoldable pub proof_to_dict : AttestationProof → Fields
proof_to_dict p = field "signature" (str p.signature) (
    field "signer_public_key" (str p.signer_public_key) (
      field "timestamp" (str p.timestamp) (
        field "hash_algorithm" (str p.hash_algorithm)
          (field "signature_scheme" (str p.signature_scheme) end))))

unfoldable pub hashed_fields : HybridAttestation → Fields
unfolding level_value scope_to_dict
hashed_fields a = field "agent_id" (str a.agent_id) (
    field "trust_level" (num (pos (level_value a.trust_level))) (
      field "claims" (obj a.claims) (
        field "scope" (obj (scope_to_dict a.scope)) (
          field "attestor_type" (str a.attestor_type)
            (field "attestor_id" (text_json a.attestor_id) end)))))

-- the dict of the anchors, which is left out if it is empty
abbrev pub hybrid_fields : HybridAttestation → Fields
hybrid_fields a =
    put_text "off_chain_evidence" a.off_chain_evidence
      (put_text "on_chain_anchor" a.on_chain_anchor end)

abbrev pub put_fields : String → Fields → Fields → Fields
put_fields key end fs = fs
put_fields key (field k v gs) fs = insert key (obj (field k v gs)) fs

abbrev pub put_proof : Option AttestationProof → Fields → Fields
unfolding proof_to_dict
put_proof none fs = fs
put_proof (some p) fs = insert "proof" (obj (proof_to_dict p)) fs

unfoldable pub attestation_to_dict : HybridAttestation → Fields
unfolding level_value level_name scope_to_dict
attestation_to_dict a = put_proof a.proof (
    put_fields "hybrid" (hybrid_fields a) (
      put_text "agent_did" a.agent_did (
        field "agent_id" (str a.agent_id) (
          field "trust_level"
            (obj (
              field "level" (num (pos (level_value a.trust_level)))
                (field "name" (str (level_name a.trust_level)) end)))
            (field "claims" (obj a.claims) (
              field "scope" (obj (scope_to_dict a.scope)) (
                field "attestor"
                  (obj (put_text "id" a.attestor_id (field "type" (str a.attestor_type) end)))
                  end)))))))

pub record AttestationValidator : Type 0 where
  pub min_trust_level : TrustLevel
  pub trusted_attestors : List String
  pub revoked_attestations : List String

abbrev pub among : String → List String → Bool
among s ss = any (str_eq s) ss

-- `set.add`
unfoldable pub set_add : String → List String → List String
set_add s ss = if among s ss then ss else s ∷ ss

unfoldable pub add_trusted_attestor : String → AttestationValidator → AttestationValidator
unfolding set_add
add_trusted_attestor id v = record v { trusted_attestors = set_add id v.trusted_attestors }

unfoldable pub revoke_attestation : String → AttestationValidator → AttestationValidator
unfolding set_add
revoke_attestation hash v = record v { revoked_attestations = set_add hash v.revoked_attestations }

pub data ValidationError : Type 0 where
  below_minimum out_of_scope proof_failed attestation_revoked : ValidationError

pub record Validation : Type 0 where
  pub valid : Bool
  pub trust_level_check : Bool
  pub scope_check : Bool
  pub proof_check : Option Bool
  pub attestor_trusted : Bool
  pub not_revoked : Bool
  pub errors : List ValidationError

abbrev pub error_unless : Bool → ValidationError → List ValidationError
error_unless true e = []
error_unless false e = e ∷ []

-- a proof that is absent does not fail
abbrev pub passes : Option Bool → Bool
passes none = true
passes (some b) = b

module _ (env : Signing) where
  unfoldable pub compute_hash : HybridAttestation → String
  unfolding hashed_fields
  compute_hash a = env.digest (hashed_fields a)

  -- `valid_until < now`, where now has an offset if one of the two times has
  unfoldable pub before_now : ℕ → Instant → Instant → Outcome PyError Bool
  before_now now (naive _) (naive until) = ok (ltb until now)
  before_now now (naive _) (aware until) = ok (ltb until now)
  before_now now (aware _) (aware until) = ok (ltb until now)
  before_now now (aware _) (naive until) = err type_error

  unfoldable pub ends_after : ℕ → Instant → Option String → Outcome PyError Bool
  unfolding before_now
  ends_after now from none = ok true
  ends_after now from (some s) =
      if str_eq s ""
      then ok true
      else (or_raise (env.parse_iso s) value_error >>= λ until.
          before_now now from until >>= λ ended. ok (not ended))

  abbrev pub instant_of : Instant → ℕ
  instant_of (aware n) = n
  instant_of (naive n) = n

  -- `is_valid` of the scope
  unfoldable pub scope_is_valid : ℕ → AttestationScopeDetails → Outcome PyError Bool
  unfolding ends_after
  scope_is_valid now s = or_raise (env.parse_iso s.valid_from) value_error >>= λ from.
      if ltb now (instant_of from) then ok false else ends_after now from s.valid_until

  abbrev pub false_on_error : Outcome PyError Bool → Bool
  false_on_error (ok b) = b
  false_on_error (err e) = false

  unfoldable pub verify_attestation_proof : HybridAttestation → AttestationProof → Bool
  unfolding compute_hash
  verify_attestation_proof a p =
      false_on_error (env.verify_signature (compute_hash a) p.signature p.signer_public_key)

  abbrev pub proof_check_of : HybridAttestation → Option AttestationProof → Option Bool
  unfolding verify_attestation_proof
  proof_check_of a none = none
  proof_check_of a (some p) = some (verify_attestation_proof a p)

  -- an attestor without an id is trusted for itself only
  abbrev pub trusted_of : AttestationValidator → TrustLevel → Option String → Bool
  unfolding level_value
  trusted_of v level none = level_value level == 1
  trusted_of v level (some id) =
      if str_eq id "" then level_value level == 1 else among id v.trusted_attestors

  unfoldable pub validate :
      ℕ → AttestationValidator → HybridAttestation → Outcome PyError Validation
  unfolding scope_is_valid compute_hash level_value proof_check_of trusted_of
  validate now v a = scope_is_valid now a.scope >>= λ scope_valid.
      let high = leb (level_value v.min_trust_level) (level_value a.trust_level) in
      let proof_valid = proof_check_of a a.proof in
      let kept = not (among (compute_hash a) v.revoked_attestations) in
      ok (record {
        valid = high && (scope_valid && (passes proof_valid && kept));
        trust_level_check = high;
        scope_check = scope_valid;
        proof_check = proof_valid;
        attestor_trusted = trusted_of v a.trust_level a.attestor_id;
        not_revoked = kept;
        errors =
            error_unless high below_minimum
            ++ error_unless scope_valid out_of_scope
            ++ error_unless (passes proof_valid) proof_failed
            ++ error_unless kept attestation_revoked;
      })

  -- the scope of a new attestation, for some days
  unfoldable pub new_scope : ℕ → ℕ → AttestationScope → String → AttestationScopeDetails
  new_scope now days scope description = record {
    scope_type = scope;
    scope_description = description;
    valid_from = env.isoformat now;
    valid_until = some (env.isoformat (now + days * 86400000000));
    restrictions = [];
  }

  unfoldable pub new_attestation :
      String
      → TrustLevel
      → Fields
      → AttestationScopeDetails
      → String
      → String
      → ℕ
      → HybridAttestation
  new_attestation agent_id level claims scope attestor_type attestor_id depth = record {
    agent_id = agent_id;
    trust_level = level;
    claims = claims;
    scope = scope;
    proof = none;
    agent_did = none;
    attestor_type = attestor_type;
    attestor_id = some attestor_id;
    on_chain_anchor = none;
    off_chain_evidence = none;
    verification_depth = depth;
  }

  -- the attestation with a proof over its hash
  unfoldable pub with_signed_proof : ℕ → String → String → HybridAttestation → HybridAttestation
  unfolding compute_hash
  with_signed_proof now private_key public_key a = record a {
    proof = some (record {
      signature = env.sign_message (compute_hash a) private_key;
      signer_public_key = public_key;
      timestamp = env.isoformat now;
      hash_algorithm = "sha256";
      signature_scheme = "ecdsa-secp256k1";
    });
  }

  unfoldable pub create_self_attestation :
      ℕ → String → Fields → AttestationScope → HybridAttestation
  unfolding new_scope new_attestation scope_value
  create_self_attestation now agent_id claims scope =
      new_attestation agent_id level_1 claims
        (new_scope now 30 scope (str_append "Self-attested " (scope_value scope))) "self" agent_id 0

  unfoldable pub create_partner_attestation :
      ℕ → String → String → Fields → String → String → AttestationScope → HybridAttestation
  unfolding new_scope new_attestation with_signed_proof scope_value
  create_partner_attestation now agent_id partner_id claims public_key private_key scope =
      with_signed_proof now private_key public_key (
        new_attestation agent_id level_3 claims
          (new_scope now 90 scope (str_append "Partner-attested " (scope_value scope))) "partner"
          partner_id 1)

  unfoldable pub create_op_attestation :
      ℕ → String → Fields → String → String → AttestationScope → HybridAttestation
  unfolding new_scope new_attestation with_signed_proof scope_value
  create_op_attestation now agent_id claims signing_key public_key scope =
      with_signed_proof now signing_key public_key (
        new_attestation agent_id level_5 claims
          (new_scope now 365 scope (str_append "OP-verified " (scope_value scope))) "op"
          "observer_protocol" 3)

  unfoldable pub create_legal_entity_attestation :
      ℕ → String → String → String → String → String → Option String → HybridAttestation
  unfolding create_partner_attestation
  create_legal_entity_attestation now agent_id entity partner_id public_key private_key
        jurisdiction =
      create_partner_attestation now agent_id partner_id
        (put_text "jurisdiction" jurisdiction (
          field "legal_entity_id" (str entity)
            (field "attestation_type" (str "legal_entity_verification") end)))
        public_key private_key legal_entity

  unfoldable pub create_identity_attestation :
      ℕ → String → Fields → String → String → HybridAttestation
  unfolding create_op_attestation
  create_identity_attestation now agent_id claims signing_key public_key =
      create_op_attestation now agent_id claims signing_key public_key identity
