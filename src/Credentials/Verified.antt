-- ===== src/Credentials/Verified.antt =====
-- What a credential or a presentation that api/vc_verifier.py verifies has.
use arp_spec.Common.{
  ℕ, ◌≤◌, String, ◌≡◌, refl, ap, inl, inr, true, false, not, Option, none, some, List, arith, all,
  ltb, Bool-cases, ok, str_eq, not_raised, >>=-eq-ok, ok-injective, ◌∙◌,
}
use arp_spec.Bitstring.{Bytes}
use arp_spec.Json.{
  Json, null, str, num, bool, arr, obj, Items, nil, cons, end, get, get_default, truthy, iterate,
}
use arp_spec.Crypto.{Instant, aware, naive, Primitives}
use arp_spec.StatusLists.Http.{contains}
use arp_spec.Credentials.{
  VcResult, VpResult, is_past, has_expired, check_vc, verify_vc, check_vp, verify_vp, verify_vcs,
  verify_vp_with_embedded_vcs,
}
use arp_spec.Credentials.Signed.{
  demanded, caught_check-ok, passed-ok, and-left, and-right, not-true, no_date, SignedBy,
  check_signature-SignedBy, Signed, with_proof-Signed,
}

-- every element of a JSON list
abbrev pub Every : (Json → Type 0) → Items → Type 0
Every P nil = Unit
Every P (cons x xs) = P x × Every P xs

module _ (p : Primitives) (fromhex : String → Option Bytes) where
  -- no expiry, or one with an offset that is not past
  pub data Current (now : ℕ) (expiry : Json) : Type 0 where
    unlimited : truthy expiry ≡ false → Current now expiry
    until :
        (s : String) (at : ℕ)
        → expiry ≡ str s
        → p.parse_iso s ≡ some (aware at)
        → now ≤ at
        → Current now expiry

  is_past-Current :
      (now : ℕ) (s : String) (o : Option Instant)
      → p.parse_iso s ≡ o
      → is_past p fromhex now o ≡ ok false
      → Current now (str s)
  unfolding is_past
  is_past-Current now s none parsed e = not_raised e
  is_past-Current now s (some (naive at)) parsed e = not_raised e
  is_past-Current now s (some (aware at)) parsed e =
      let later : ltb at now ≡ false = ok-injective e in
      until s at refl parsed (ground (arith, later))

  has_expired-Current :
      (now : ℕ) (expiry : Json) → has_expired p fromhex now expiry ≡ ok false → Current now expiry
  unfolding has_expired truthy
  has_expired-Current now (str s) e = elim (Bool-cases (str_eq s "")) [
    | inl blank ↦ unlimited (rw blank refl)
    | inr text ↦ is_past-Current now s (p.parse_iso s) refl (rw text at e)
  ]
  has_expired-Current now null e = unlimited refl
  has_expired-Current now (bool b) e = unlimited (no_date (truthy (bool b)) e)
  has_expired-Current now (num n) e = unlimited (no_date (truthy (num n)) e)
  has_expired-Current now (arr xs) e = unlimited (no_date (truthy (arr xs)) e)
  has_expired-Current now (obj fs) e = unlimited (no_date (truthy (obj fs)) e)

  -- a credential that is signed, current, and names its subject and issuer
  pub record IsVerified (now : ℕ) (key_hex : String) (vc : Json) : Type 0 where
    pub signed : Signed p fromhex key_hex vc
    pub expiry : Json
    pub has_expiry : get "expirationDate" vc ≡ ok expiry
    pub current : Current now expiry
    pub subject : Json
    pub has_subject : get_default "credentialSubject" (obj end) vc ≡ ok subject
    pub subject_id : Json
    pub has_subject_id : get "id" subject ≡ ok subject_id
    pub subject_named : truthy subject_id ≡ true
    pub issuer : Json
    pub has_issuer : get "issuer" vc ≡ ok issuer
    pub issuer_named : truthy issuer ≡ true

  -- what the tests after the proof find
  pub record Checked (now : ℕ) (key_hex : String) (vc proof_value : Json) : Type 0 where
    pub signed : SignedBy p fromhex key_hex proof_value vc
    pub expiry : Json
    pub has_expiry : get "expirationDate" vc ≡ ok expiry
    pub current : Current now expiry
    pub subject : Json
    pub has_subject : get_default "credentialSubject" (obj end) vc ≡ ok subject
    pub subject_id : Json
    pub has_subject_id : get "id" subject ≡ ok subject_id
    pub subject_named : truthy subject_id ≡ true
    pub issuer : Json
    pub has_issuer : get "issuer" vc ≡ ok issuer
    pub issuer_named : truthy issuer ≡ true

  check_vc-Checked :
      (now : ℕ) (key_hex : String) (vc proof_value : Json)
      → check_vc p fromhex now key_hex vc proof_value ≡ ok (ok tt)
      → Checked now key_hex vc proof_value
  unfolding check_vc
  check_vc-Checked now key_hex vc proof_value e =
      let (expiry, has_expiry, e1) = >>=-eq-ok (get "expirationDate" vc) _ e in
      let (expired, tested, e2) = >>=-eq-ok (has_expired p fromhex now expiry) _ e1 in
      let (fresh, e3) = demanded (not expired) _ _ e2 in
      let (present, _, e4) = >>=-eq-ok (contains "credentialSubject" vc) _ e3 in
      let (_, e5) = demanded present _ _ e4 in
      let (subject, has_subject, e6) =
        >>=-eq-ok (get_default "credentialSubject" (obj end) vc) _ e5 in
      let (subject_id, has_subject_id, e7) = >>=-eq-ok (get "id" subject) _ e6 in
      let (subject_named, e8) = demanded (truthy subject_id) _ _ e7 in
      let (issuer, has_issuer, e9) = >>=-eq-ok (get "issuer" vc) _ e8 in
      let (issuer_named, e10) = demanded (truthy issuer) _ _ e9 in
      record {
        signed = check_signature-SignedBy p fromhex key_hex proof_value vc e10;
        expiry = expiry;
        has_expiry = has_expiry;
        current = has_expired-Current now expiry (tested ∙ ap ok (not-true expired fresh));
        subject = subject;
        has_subject = has_subject;
        subject_id = subject_id;
        has_subject_id = has_subject_id;
        subject_named = subject_named;
        issuer = issuer;
        has_issuer = has_issuer;
        issuer_named = issuer_named;
      }

  verify_vc-IsVerified :
      (now : ℕ) (key_hex : String) (vc : Json)
      → verify_vc p fromhex now key_hex vc ≡ ok tt
      → IsVerified now key_hex vc
  unfolding verify_vc
  verify_vc-IsVerified now key_hex vc e =
      let returned = caught_check-ok _ e in
      let (signed, (proof_value, held)) =
        with_proof-Signed p fromhex key_hex vc (check_vc p fromhex now key_hex vc) returned
          (λ v h. (check_vc-Checked now key_hex vc v h).signed) in
      let c = check_vc-Checked now key_hex vc proof_value held in
      record {
        signed = signed;
        expiry = c.expiry;
        has_expiry = c.has_expiry;
        current = c.current;
        subject = c.subject;
        has_subject = c.has_subject;
        subject_id = c.subject_id;
        has_subject_id = c.has_subject_id;
        subject_named = c.subject_named;
        issuer = c.issuer;
        has_issuer = c.has_issuer;
        issuer_named = c.issuer_named;
      }

  check_vp-SignedBy :
      (key_hex : String) (vp proof_value : Json)
      → check_vp p fromhex key_hex vp proof_value ≡ ok (ok tt)
      → SignedBy p fromhex key_hex proof_value vp
        × ((holder : Json) × (get "holder" vp ≡ ok holder) × (truthy holder ≡ true))
  unfolding check_vp
  check_vp-SignedBy key_hex vp proof_value e =
      let (holder, has_holder, e1) = >>=-eq-ok (get "holder" vp) _ e in
      let (named, e2) = demanded (truthy holder) _ _ e1 in
      (check_signature-SignedBy p fromhex key_hex proof_value vp e2, (holder, has_holder, named))

  verify_vp-Signed :
      (key_hex : String) (vp : Json)
      → verify_vp p fromhex key_hex vp ≡ ok tt
      → Signed p fromhex key_hex vp
        × ((holder : Json) × (get "holder" vp ≡ ok holder) × (truthy holder ≡ true))
  unfolding verify_vp
  verify_vp-Signed key_hex vp e =
      let (signed, (proof_value, held)) =
        with_proof-Signed p fromhex key_hex vp (check_vp p fromhex key_hex vp) (caught_check-ok _ e)
          (λ v h. (check_vp-SignedBy key_hex vp v h).0) in
      (signed, (check_vp-SignedBy key_hex vp proof_value held).1)

  verify_vcs-IsVerified :
      (now : ℕ) (key_hex : String) (vcs : Items) {results : List VcResult}
      → verify_vcs p fromhex now key_hex vcs ≡ ok results
      → all (λ r. r.valid) results ≡ true
      → Every (IsVerified now key_hex) vcs
  unfolding verify_vcs
  verify_vcs-IsVerified now key_hex nil e valid = tt
  verify_vcs-IsVerified now key_hex (cons vc rest) e valid =
      let (id, has_id, e1) = >>=-eq-ok (get "id" vc) _ e in
      let (results, later, e2) = >>=-eq-ok (verify_vcs p fromhex now key_hex rest) _ e1 in
      let both = ap (all (λ r. r.valid)) (ok-injective e2) ∙ valid in
      (
        verify_vc-IsVerified now key_hex vc (passed-ok _ (and-left _ _ both)),
        verify_vcs-IsVerified now key_hex rest later (and-right _ _ both),
      )

  -- If `verify_vp_with_embedded_vcs` returns with `all_valid`, then the presentation has a proof of the
  -- type Ed25519Signature2020 whose signature holds under the holder's key on the presentation without
  -- its proof, and names a holder; and every credential in it has such a proof under the key given for
  -- the issuer, no expiration date or one with an offset that is not past, and names its subject and
  -- its issuer.
  pub verify_vp_with_embedded_vcs-IsVerified :
      (now : ℕ) (holder_key_hex op_key_hex : String) (vp : Json) {r : VpResult}
      → verify_vp_with_embedded_vcs p fromhex now holder_key_hex op_key_hex vp ≡ ok r
      → r.all_valid ≡ true
      → Signed p fromhex holder_key_hex vp
        × ((holder : Json) × (get "holder" vp ≡ ok holder) × (truthy holder ≡ true))
        × ((vcs : Json) × (items : Items) × (get_default "verifiableCredential" (arr nil) vp
              ≡ ok vcs)
            × (iterate vcs ≡ ok items)
            × Every (IsVerified now op_key_hex) items)
  unfolding verify_vp_with_embedded_vcs
  verify_vp_with_embedded_vcs-IsVerified now holder_key_hex op_key_hex vp e valid =
      let (vcs, has_vcs, e1) = >>=-eq-ok (get_default "verifiableCredential" (arr nil) vp) _ e in
      let (items, has_items, e2) = >>=-eq-ok (iterate vcs) _ e1 in
      let (results, verified, e3) = >>=-eq-ok (verify_vcs p fromhex now op_key_hex items) _ e2 in
      let both = ap (λ x. x.all_valid) (ok-injective e3) ∙ valid in
      let (signed, held) = verify_vp-Signed holder_key_hex vp (passed-ok _ (and-left _ _ both)) in
      (
        signed,
        held,
        (
          vcs,
          items,
          has_vcs,
          has_items,
          verify_vcs-IsVerified now op_key_hex items verified (and-right _ _ both),
        ),
      )
