-- ===== src/Credentials/Delegation.antt =====
-- `verify_delegation` of api/delegation_routes.py: one delegation credential, checked for its type, its
-- signature under the issuer's DID document, its validity period and the table
-- delegation_credentials.
use arp_spec.Common.{
  ℕ, String, Bool, true, false, not, ◌&&◌, Option, none, some, List, [], ◌∷◌, ◌++◌, length, ltb,
  leb, ◌==◌, if◌then◌else◌, Outcome, ok, err, ◌>>=◌, str_eq,
}
use arp_spec.Bitstring.{Bytes}
use arp_spec.Json.{
  Json, str, arr, obj, Items, nil, cons, Fields, end, PyError, attribute_error, type_error,
  value_error, other_error, get, get_default, truthy, iterate,
}
use arp_spec.Crypto.{
  Instant, aware, naive, Primitives, Reason, Check, load_public_key_from_multibase,
  verify_ed25519_proof,
}
use arp_spec.StatusLists.Http.{RouteError, raising, contains, given_dict}
use arp_spec.Solana.Transfers.{first_of}

-- the texts of `errors`
pub data DelegationError : Type 0 where
  wrong_type no_proof no_method not_yet_valid expired missing_period : DelegationError
  revoked suspended key_loading_failed did_resolution_failed date_parsing_failed : DelegationError
  bad_signature : Reason → DelegationError

pub record DelegationRow : Type 0 where
  pub credential_id : String
  pub revoked_at : Option ℕ
  pub suspended_at : Option ℕ

pub record Delegation : Type 0 where
  pub verified : Bool
  pub signature : Bool
  pub not_expired : Bool
  pub not_revoked : Bool
  pub not_suspended : Bool
  pub errors : List DelegationError
  pub issuer_did : Json
  pub subject_did : Json

-- the issuer, which may be a dict with an id
unfoldable pub issuer_of_vc : Json → Outcome PyError Json
issuer_of_vc credential =
    get "issuer" credential >>= λ issuer. elim issuer [ obj fs ↦ get "id" (obj fs) | v ↦ ok v ]

abbrev pub is_none {ℓ} : {A : Type ℓ} → Option A → Bool
is_none none = true
is_none (some _) = false

unfoldable pub find_delegation : String → List DelegationRow → Option DelegationRow
find_delegation id [] = none
find_delegation id (row ∷ rows) =
    let rest = find_delegation id rows in if str_eq row.credential_id id then some row else rest

-- the SELECT, which fails for an id that is no text
unfoldable pub select_delegation :
    Json → List DelegationRow → Outcome PyError (Option DelegationRow)
unfolding find_delegation
select_delegation (str id) rows = ok (find_delegation id rows)
select_delegation _ rows = err other_error

-- `not_revoked`, `not_suspended`
unfoldable pub standing : Option DelegationRow → Bool × Bool
standing none = (true, true)
standing (some row) = (is_none row.revoked_at, is_none row.suspended_at)

unfoldable pub table_check : Json → List DelegationRow → Outcome PyError (Bool × Bool)
unfolding select_delegation standing
table_check credential_id rows =
    if truthy credential_id
    then (select_delegation credential_id rows >>= λ row. ok (standing row))
    else ok (true, true)

abbrev pub error_if : Bool → DelegationError → List DelegationError
error_if false e = []
error_if true e = e ∷ []

-- what a check found wrong, if anything
abbrev pub errors_of : Option DelegationError → List DelegationError
errors_of none = []
errors_of (some e) = e ∷ []

-- the two parties, with the id
pub record Parties : Type 0 where
  pub credential_id : Json
  pub issuer : Json
  pub subject : Json

unfoldable pub read_parties : Fields → Outcome PyError Parties
unfolding issuer_of_vc
read_parties fs = get "id" (obj fs) >>= λ credential_id. issuer_of_vc (obj fs) >>= λ issuer.
    get_default "credentialSubject" (obj end) (obj fs) >>= λ subject.
    get "id" subject >>= λ subject_did.
    ok (record { credential_id = credential_id; issuer = issuer; subject = subject_did })

-- the other fields that are checked
pub record Claims : Type 0 where
  pub has_type : Bool
  pub proof : Json
  pub valid_from : Json
  pub valid_until : Json

unfoldable pub read_claims : Fields → Outcome PyError Claims
read_claims fs = get_default "type" (arr nil) (obj fs) >>= λ types.
    contains "DelegationCredential" types >>= λ has_type.
    get_default "proof" (obj end) (obj fs) >>= λ proof. get "validFrom" (obj fs) >>= λ valid_from.
    get "validUntil" (obj fs) >>= λ valid_until. ok (record {
      has_type = has_type;
      proof = proof;
      valid_from = valid_from;
      valid_until = valid_until;
    })

-- what the verification takes from elsewhere: `equal` is Python's ==
pub record Delegations : Type 0 where
  pub primitives : Primitives
  pub resolve_did : Json → Outcome PyError Json
  pub equal : Json → Json → Bool
  pub delegation_credentials : List DelegationRow
  pub now : ℕ

module _ (env : Delegations) where
  -- the first method with the id
  unfoldable pub method_with_id : Json → Items → Outcome PyError (Option Json)
  method_with_id id nil = ok none
  method_with_id id (cons m rest) =
      let later = method_with_id id rest in
      get "id" m >>= λ found. if env.equal found id then ok (some m) else later

  -- the method by its id, else the first of them
  unfoldable pub method_or_first : Json → Option Json → Outcome PyError (Option Json)
  method_or_first methods (some m) = ok (some m)
  method_or_first methods none =
      if truthy methods then (first_of methods >>= λ m. ok (some m)) else ok none

  abbrev pub of_check : Check → Option DelegationError
  of_check (ok _) = none
  of_check (err reason) = some (bad_signature reason)

  -- the inner `try`
  unfoldable pub with_key : Fields → Outcome PyError Bytes → Option DelegationError
  unfolding verify_ed25519_proof
  with_key credential (ok key) = of_check (verify_ed25519_proof env.primitives credential key)
  with_key credential (err e) = some key_loading_failed

  unfoldable pub with_method : Fields → Option Json → Outcome PyError (Option DelegationError)
  unfolding load_public_key_from_multibase with_key
  with_method credential none = ok (some no_method)
  with_method credential (some m) = get_default "publicKeyMultibase" (str "") m >>= λ multibase.
      ok (with_key credential (load_public_key_from_multibase env.primitives multibase))

  -- the body of the outer `try`
  unfoldable pub check_issuer_signature :
      Fields → Json → Json → Outcome PyError (Option DelegationError)
  unfolding iterate method_with_id method_or_first with_method
  check_issuer_signature credential issuer proof = env.resolve_did issuer >>= λ did_doc.
      get "verificationMethod" proof >>= λ vm_id.
      get_default "verificationMethod" (arr nil) did_doc >>= λ methods. iterate methods >>= λ items.
      method_with_id vm_id items >>= λ found.
      method_or_first methods found >>= with_method credential

  abbrev pub or_unresolved : Outcome PyError (Option DelegationError) → Option DelegationError
  or_unresolved (ok found) = found
  or_unresolved (err e) = some did_resolution_failed

  unfoldable pub signature_check : Fields → Json → Json → Option DelegationError
  unfolding check_issuer_signature
  signature_check credential issuer proof =
      if truthy proof
      then or_unresolved (check_issuer_signature credential issuer proof)
      else some no_proof

  -- `datetime.fromisoformat(v.replace("Z", "+00:00"))`
  unfoldable pub parse_date : Json → Outcome PyError Instant
  parse_date (str s) = elim (env.primitives.parse_iso s) [ none ↦ err value_error | some i ↦ ok i ]
  parse_date _ = err attribute_error

  -- `vf <= now < vu`, where a time without an offset cannot be compared
  unfoldable pub compare_period : Instant → Instant → Outcome PyError (Option DelegationError)
  compare_period (naive _) _ = err type_error
  compare_period (aware from) vu =
      if leb from env.now
      then elim vu [
        | naive _ ↦ err type_error
        | aware until ↦ if ltb env.now until then ok none else ok (some expired)
      ]
      else ok (some not_yet_valid)

  abbrev pub or_unparsed : Outcome PyError (Option DelegationError) → Option DelegationError
  or_unparsed (ok found) = found
  or_unparsed (err e) = some date_parsing_failed

  unfoldable pub period_check : Json → Json → Option DelegationError
  unfolding parse_date compare_period
  period_check valid_from valid_until =
      if truthy valid_from && truthy valid_until
      then or_unparsed
          (parse_date valid_from >>= λ vf. parse_date valid_until >>= λ vu. compare_period vf vu)
      else some missing_period

  abbrev pub delegation_result :
      Bool
      → Option DelegationError
      → Option DelegationError
      → Bool × Bool
      → Json
      → Json
      → Delegation
  delegation_result has_type signed period (kept, active) issuer subject =
      let errors =
        error_if (not has_type) wrong_type
        ++ errors_of signed
        ++ errors_of period
        ++ error_if (not kept) revoked
        ++ error_if (not active) suspended in
      record {
        verified = (is_none signed && (is_none period && (kept && active))) && length errors == 0;
        signature = is_none signed;
        not_expired = is_none period;
        not_revoked = kept;
        not_suspended = active;
        errors = errors;
        issuer_did = issuer;
        subject_did = subject;
      }

  unfoldable pub check_delegation : Fields → Outcome PyError Delegation
  unfolding read_parties read_claims table_check signature_check period_check
  check_delegation fs = read_parties fs >>= λ a. read_claims fs >>= λ c.
      table_check a.credential_id env.delegation_credentials >>= λ kept. ok (
        delegation_result c.has_type (signature_check fs a.issuer c.proof)
          (period_check c.valid_from c.valid_until) kept a.issuer a.subject)

  -- the endpoint on its body
  unfoldable pub verify_delegation : Json → Outcome RouteError Delegation
  unfolding check_delegation
  verify_delegation body = raising (get "credential" body) >>= λ credential.
      given_dict credential >>= λ fs. raising (check_delegation fs)
