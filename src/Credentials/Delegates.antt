-- ===== src/Credentials/Delegates.antt =====
-- `verify_delegation` of api/delegation_routes.py verifies only delegations that are signed, valid now,
-- and neither revoked nor suspended.
use arp_spec.Common.{
  ℕ, suc, String, ◌≡◌, refl, ap, inl, inr, Bool, true, false, ◌&&◌, Option, none, some, List, arith,
  ◌==◌, ==_iff, Bool-cases, Option-cases, ok, ok-injective, >>=-eq-ok, ◌∙◌, not_raised,
}
use arp_spec.Json.{Json, null, str, num, bool, arr, obj, nil, Fields, end, get, get_default, truthy}
use arp_spec.StatusLists.Http.{raising, contains, given_dict}
use arp_spec.Credentials.Signed.{and-left, and-right}
use arp_spec.Credentials.Delegation.{
  DelegationError, DelegationRow, Delegation, Parties, Claims, read_parties, read_claims,
  issuer_of_vc, is_none, find_delegation, select_delegation, standing, table_check, Delegations,
  signature_check, period_check, delegation_result, check_delegation, verify_delegation,
}
use arp_spec.Credentials.Delegated.{
  is_none-none, raising-ok, IssuerSigned, signature_check-IssuerSigned, InPeriod,
  period_check-InPeriod,
}

-- the row of an id is neither revoked nor suspended
pub record Stands (row : DelegationRow) : Type 0 where
  pub kept : row.revoked_at ≡ none
  pub active : row.suspended_at ≡ none

-- what the table says of an id: it has no row, or one that stands
pub data InTable (rows : List DelegationRow) (id : Json) : Type 0 where
  no_id : truthy id ≡ false → InTable rows id
  unknown : (s : String) → id ≡ str s → find_delegation s rows ≡ none → InTable rows id
  known :
      (s : String) (row : DelegationRow)
      → id ≡ str s
      → find_delegation s rows ≡ some row
      → Stands row
      → InTable rows id

standing-Stands :
    (row : DelegationRow)
    → (standing (some row)).0 ≡ true
    → (standing (some row)).1 ≡ true
    → Stands row
unfolding standing
standing-Stands row kept active = record {
  kept = is_none-none row.revoked_at kept;
  active = is_none-none row.suspended_at active;
}

selected-InTable :
    (rows : List DelegationRow) (id : Json) {row : Option DelegationRow}
    → select_delegation id rows ≡ ok row
    → (standing row).0 ≡ true
    → (standing row).1 ≡ true
    → InTable rows id
unfolding select_delegation
selected-InTable rows (str s) {row = row} e kept active = elim (Option-cases row) [
  | inl missing ↦ unknown s refl (ok-injective e ∙ missing)
  | inr (r, present) ↦
      known s r refl (ok-injective e ∙ present)
        (standing-Stands r (rw present at kept) (rw present at active))
]
selected-InTable rows null e kept active = not_raised e
selected-InTable rows (bool b) e kept active = not_raised e
selected-InTable rows (num n) e kept active = not_raised e
selected-InTable rows (arr xs) e kept active = not_raised e
selected-InTable rows (obj fs) e kept active = not_raised e

table_check-InTable :
    (rows : List DelegationRow) (id : Json) {both : Bool × Bool}
    → table_check id rows ≡ ok both
    → both.0 ≡ true
    → both.1 ≡ true
    → InTable rows id
unfolding table_check
table_check-InTable rows id {both = both} e kept active = elim (Bool-cases (truthy id)) [
  | inr falsy ↦ no_id falsy
  | inl given ↦
      let (row, selected, e1) = >>=-eq-ok (select_delegation id rows) _ (rw given at e) in
      let same = ok-injective e1 in
      selected-InTable rows id selected (ap (λ x. x.0) same ∙ kept) (ap (λ x. x.1) same ∙ active)
]

-- the fields of a delegation, as they are read
pub record HasClaims (fs : Fields) (c : Claims) : Type 0 where
  pub types : Json
  pub has_types : get_default "type" (arr nil) (obj fs) ≡ ok types
  pub typed : contains "DelegationCredential" types ≡ ok c.has_type
  pub has_proof : get_default "proof" (obj end) (obj fs) ≡ ok c.proof
  pub has_valid_from : get "validFrom" (obj fs) ≡ ok c.valid_from
  pub has_valid_until : get "validUntil" (obj fs) ≡ ok c.valid_until

read_claims-HasClaims : (fs : Fields) {c : Claims} → read_claims fs ≡ ok c → HasClaims fs c
unfolding read_claims
read_claims-HasClaims fs e =
    let (types, has_types, e1) = >>=-eq-ok (get_default "type" (arr nil) (obj fs)) _ e in
    let (has_type, typed, e2) = >>=-eq-ok (contains "DelegationCredential" types) _ e1 in
    let (proof, has_proof, e3) = >>=-eq-ok (get_default "proof" (obj end) (obj fs)) _ e2 in
    let (valid_from, has_from, e4) = >>=-eq-ok (get "validFrom" (obj fs)) _ e3 in
    let (valid_until, has_until, e5) = >>=-eq-ok (get "validUntil" (obj fs)) _ e4 in
    let same = ok-injective e5 in
    record {
      types = types;
      has_types = has_types;
      typed = typed ∙ ap (λ c. ok c.has_type) same;
      has_proof = has_proof ∙ ap (λ c. ok c.proof) same;
      has_valid_from = has_from ∙ ap (λ c. ok c.valid_from) same;
      has_valid_until = has_until ∙ ap (λ c. ok c.valid_until) same;
    }

pub record HasParties (fs : Fields) (a : Parties) : Type 0 where
  pub has_credential_id : get "id" (obj fs) ≡ ok a.credential_id
  pub has_issuer : issuer_of_vc (obj fs) ≡ ok a.issuer

read_parties-HasParties : (fs : Fields) {a : Parties} → read_parties fs ≡ ok a → HasParties fs a
unfolding read_parties
read_parties-HasParties fs e =
    let (id, has_credential_id, e1) = >>=-eq-ok (get "id" (obj fs)) _ e in
    let (issuer, has_issuer, e2) = >>=-eq-ok (issuer_of_vc (obj fs)) _ e1 in
    let (subject, _, e3) = >>=-eq-ok (get_default "credentialSubject" (obj end) (obj fs)) _ e2 in
    let (subject_did, _, e4) = >>=-eq-ok (get "id" subject) _ e3 in
    let same = ok-injective e4 in
    record {
      has_credential_id = has_credential_id ∙ ap (λ a. ok a.credential_id) same;
      has_issuer = has_issuer ∙ ap (λ a. ok a.issuer) same;
    }

-- a delegation that is signed by its issuer, in its period, and stands in the table
pub record Delegates (env : Delegations) (fs : Fields) : Type 0 where
  pub parties : Parties
  pub has_parties : HasParties fs parties
  pub claims : Claims
  pub has_claims : HasClaims fs claims
  pub is_delegation : claims.has_type ≡ true
  pub signed : IssuerSigned env fs parties.issuer claims.proof
  pub in_period : InPeriod env claims.valid_from claims.valid_until
  pub in_table : InTable env.delegation_credentials parties.credential_id

nonzero : (n : ℕ) → (suc n == 0) ≡ true → ⊥
nonzero n e = absurd (omega (arith, (==_iff (suc n) 0).0 e))

delegation_result_typed :
    (env : Delegations) (has_type : Bool) (signed period : Option DelegationError)
    (both : Bool × Bool) (issuer subject : Json)
    → (delegation_result env has_type signed period both issuer subject).verified ≡ true
    → has_type ≡ true
delegation_result_typed env true signed period both issuer subject e = refl
delegation_result_typed env false signed period (kept, active) issuer subject e =
    absurd (nonzero _ (and-right (is_none signed && (is_none period && (kept && active))) _ e))

delegation_result_verified :
    (env : Delegations) (has_type : Bool) (signed period : Option DelegationError)
    (both : Bool × Bool) (issuer subject : Json)
    → (delegation_result env has_type signed period both issuer subject).verified ≡ true
    → (signed ≡ none) × (period ≡ none) × (both.0 ≡ true) × (both.1 ≡ true) × (has_type ≡ true)
delegation_result_verified env has_type signed period (kept, active) issuer subject e =
    let checks = and-left _ _ e in
    let rest = and-right (is_none signed) _ checks in
    let stands = and-right (is_none period) _ rest in
    (
      is_none-none signed (and-left (is_none signed) _ checks),
      is_none-none period (and-left (is_none period) _ rest),
      and-left kept active stands,
      and-right kept active stands,
      delegation_result_typed env has_type signed period (kept, active) issuer subject e,
    )

check_delegation-Delegates :
    (env : Delegations) (fs : Fields) {d : Delegation}
    → check_delegation env fs ≡ ok d
    → d.verified ≡ true
    → Delegates env fs
unfolding check_delegation
check_delegation-Delegates env fs e verified =
    let (a, parties, e1) = >>=-eq-ok (read_parties fs) _ e in
    let (c, claims, e2) = >>=-eq-ok (read_claims fs) _ e1 in
    let (both, looked, e3) =
      >>=-eq-ok (table_check a.credential_id env.delegation_credentials) _ e2 in
    let passes = ap (λ x. x.verified) (ok-injective e3) ∙ verified in
    let (signed, period, kept, active, typed) =
      delegation_result_verified env c.has_type (signature_check env fs a.issuer c.proof)
        (period_check env c.valid_from c.valid_until) both a.issuer a.subject passes in
    record {
      parties = a;
      has_parties = read_parties-HasParties fs parties;
      claims = c;
      has_claims = read_claims-HasClaims fs claims;
      is_delegation = typed;
      signed = signature_check-IssuerSigned env fs a.issuer c.proof signed;
      in_period = period_check-InPeriod env c.valid_from c.valid_until period;
      in_table = table_check-InTable env.delegation_credentials a.credential_id looked kept active;
    }

-- If the endpoint `verify_delegation` answers `verified`, then the credential is a dict with the type
-- DelegationCredential; its signature holds under a key of a method of the issuer's resolved DID
-- document, the one that the proof names or else the first; the time lies between validFrom and
-- validUntil, both with an offset; and it has no id, or one without a row in the table, or one whose
-- row is neither revoked nor suspended.
pub verify_delegation-Delegates :
    (env : Delegations) (body : Json) {d : Delegation}
    → verify_delegation env body ≡ ok d
    → d.verified ≡ true
    → (credential : Json) × (fs : Fields) × (get "credential" body ≡ ok credential)
      × (given_dict credential ≡ ok fs)
      × Delegates env fs
unfolding verify_delegation check_delegation
verify_delegation-Delegates env body e verified =
    let (credential, has_credential, e1) = >>=-eq-ok (raising (get "credential" body)) _ e in
    let (fs, is_dict, e2) = >>=-eq-ok (given_dict credential) _ e1 in
    let e3 = raising-ok (check_delegation env fs) e2 in
    (
      credential,
      fs,
      raising-ok (get "credential" body) has_credential,
      is_dict,
      check_delegation-Delegates env fs e3 verified,
    )
