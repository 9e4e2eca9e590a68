-- ===== src/X402/Attests.antt =====
-- What the credential that `verify_and_attest` of rails/x402/x402_adapter.py issues rests on.
use arp_spec.Common.{
  String, ◌≡◌, refl, ap, ◌≢◌, ◌↔◌, inl, inr, Bool, true, false, not, ◌&&◌, ◌||◌, none, some, List,
  [], ◌∷◌, arith, ◌==◌, if◌then◌else◌, ==_iff, Bool-cases, Outcome, ok, err, pos, Outcome-cases,
  >>=-eq-ok, ◌∙◌, ok-injective,
}
use mathlib.Core.Path.{subst}
use arp_spec.Json.{Json}
use arp_spec.X402.{
  OnchainDetails, Rail, FacilitatorReply, no_connection, failed_with, answered_with,
  FacilitatorError, endpoints, urls_to_try, read_reply, Transfer, OnchainResult, confirmed,
  unconfirmed, try_endpoints, verify_via_facilitator, verify_onchain, no_endpoint,
}
use arp_spec.X402.Pipeline.{
  X402Payment, Verdict, Attested, is_verified, is_confirmed, confirmations_of, is_sepolia,
  verdict_of, payment_claims, issue_x402_credential, attest, verify_and_attest,
}
use arp_spec.X402.Onchain.{Settled, verify_onchain-Settled}

-- some endpoint replies with the status 200, and with this
pub data Answers (env : Rail) (payload d : Json) : List String → Type 0 where
  here :
      {endpoint : String} {rest : List String}
      → env.post_facilitator endpoint payload ≡ answered_with 200 (ok d)
      → Answers env payload d (endpoint ∷ rest)
  there :
      {endpoint : String} {rest : List String}
      → Answers env payload d rest
      → Answers env payload d (endpoint ∷ rest)

read_reply_ok :
    (r : FacilitatorReply) {d : Json} → read_reply r ≡ ok d → r ≡ answered_with 200 (ok d)
unfolding read_reply
read_reply_ok no_connection e = cc e
read_reply_ok (failed_with x) e = cc e
read_reply_ok (answered_with status (ok d)) e = elim (Bool-cases (status == 200)) [
  | inl same ↦
      ap (λ n. answered_with n (ok d)) ((==_iff status 200).0 same)
      ∙ ap (λ x. answered_with 200 (ok x)) (ok-injective (rw same at e))
  | inr other ↦ cc (rw other at e)
]
read_reply_ok (answered_with status (err x)) e = elim (Bool-cases (status == 200)) [
  | inl same ↦ cc (rw same at e)
  | inr other ↦ cc (rw other at e)
]

module _ (env : Rail) (payload : Json) where
  try_endpoints-Answers :
      (endpoints : List String) (last : FacilitatorError) {d : Json}
      → try_endpoints env payload endpoints last ≡ ok d
      → Answers env payload d endpoints
  unfolding try_endpoints
  try_endpoints-Answers [] last e = cc e
  try_endpoints-Answers (endpoint ∷ rest) last {d = d} e =
      elim (Outcome-cases (read_reply (env.post_facilitator endpoint payload))) [
        | inl (d', replied) ↦ here (read_reply_ok _ (replied ∙ rw replied at e))
        | inr (x, failed) ↦ there (try_endpoints-Answers rest x (rw failed at e))
      ]

-- what the verification and the credential of a payment rest on
pub record Attests (env : Rail) (p : X402Payment) (hash : String) (v : Verdict) (credential : Json)
    : Type 0 where
  pub one_verified : (v.facilitator_verified || v.onchain_verified) ≡ true
  pub issued : env.issue_vc p.agent_did (payment_claims env p hash v) ≡ ok credential
  pub discrepancy_iff : (v.discrepancy ≡ true) ↔ (v.facilitator_verified ≢ v.onchain_verified)
  pub facilitator :
      v.facilitator_verified ≡ true
      → (d : Json) × Answers env p.payment_payload d
          (endpoints (urls_to_try (some p.facilitator_url)))
  pub onchain :
      v.onchain_verified ≡ true
      → (t : Transfer) × Settled env hash p.amount (is_sepolia p.network) t
  pub confirmed_only : v.onchain_verified ≡ false → v.onchain_confirmations ≡ pos 0

differ_iff : (a b : Bool) → ((if a then not b else b) ≡ true) ↔ (a ≢ b)
differ_iff true true = (λ e. cc e, λ ne. absurd (ne refl))
differ_iff true false = (λ e same. cc same, λ ne. refl)
differ_iff false true = (λ e same. cc same, λ ne. refl)
differ_iff false false = (λ e. cc e, λ ne. absurd (ne refl))

verified_answers :
    (r : Outcome FacilitatorError Json) → is_verified r ≡ true → (d : Json) × (r ≡ ok d)
unfolding is_verified
verified_answers (ok d) e = (d, refl)
verified_answers (err x) e = cc e

confirmed_details :
    (r : OnchainResult) → is_confirmed r ≡ true → (d : OnchainDetails) × (r ≡ confirmed d)
unfolding is_confirmed
confirmed_details (confirmed d) e = (d, refl)
confirmed_details (unconfirmed x) e = cc e

unconfirmed_zero : (r : OnchainResult) → is_confirmed r ≡ false → confirmations_of r ≡ pos 0
unfolding is_confirmed confirmations_of
unconfirmed_zero (confirmed d) e = cc e
unconfirmed_zero (unconfirmed x) e = refl

attested :
    (env : Rail) (p : X402Payment) (hash : String) (v : Verdict) {a : Attested}
    → attest env p hash v ≡ ok a
    → ((v.facilitator_verified || v.onchain_verified) ≡ true)
      × (env.issue_vc p.agent_did (payment_claims env p hash v) ≡ ok a.credential)
      × (v ≡ a.verification)
unfolding attest issue_x402_credential
attested env p hash v e = elim (Bool-cases (not v.facilitator_verified && not v.onchain_verified)) [
  | inl neither ↦ cc (rw neither at e)
  | inr some_verified ↦
      let (vc, issued, e1) =
        >>=-eq-ok (env.issue_vc p.agent_did (payment_claims env p hash v)) _
          (rw some_verified at e) in
      let same = ok-injective e1 in
      (
        ground (arith, some_verified),
        issued ∙ ap (λ x. ok x.credential) same,
        ap (λ x. x.verification) same,
      )
]

module _ (env : Rail) (p : X402Payment) (hash : String) where
  verdict_of-Attests :
      {credential : Json}
      → let v =
          verdict_of
            (verify_via_facilitator env p.payment_payload (some p.facilitator_url))
            (verify_onchain env hash p.amount none (is_sepolia p.network)) in
        (v.facilitator_verified || v.onchain_verified) ≡ true
        → env.issue_vc p.agent_did (payment_claims env p hash v) ≡ ok credential
        → Attests env p hash v credential
  unfolding verdict_of verify_via_facilitator
  verdict_of-Attests one issued =
      let facilitator = verify_via_facilitator env p.payment_payload (some p.facilitator_url) in
      let onchain = verify_onchain env hash p.amount none (is_sepolia p.network) in
      record {
        one_verified = one;
        issued = issued;
        discrepancy_iff = differ_iff (is_verified facilitator) (is_confirmed onchain);
        facilitator = λ e.
            let (d, found) = verified_answers facilitator e in
            (d, try_endpoints-Answers env p.payment_payload _ no_endpoint found);
        onchain = λ e.
            let (d, found) = confirmed_details onchain e in
            (
              d.transfer,
              verify_onchain-Settled env hash p.amount none (is_sepolia p.network) found,
            );
        confirmed_only = unconfirmed_zero onchain;
      }

  -- If `verify_and_attest` returns for a payment and a transaction hash, a facilitator or the chain
  -- has verified the payment, `discrepancy` says whether exactly one has, and the credential is that
  -- of `issue_vc` for the claims with these flags. `facilitator_verified` means that an endpoint of
  -- the given URL or of a fallback has replied with the status 200 and some JSON; `onchain_verified`
  -- means that the receipt of the transaction has the status 0x1 and a log of the USDC contract with
  -- the topic of a transfer and, if an amount is given, this amount. Without it, no confirmation is
  -- reported.
  pub verify_and_attest-Attests :
      {a : Attested}
      → verify_and_attest env p hash ≡ ok a
      → Attests env p hash a.verification a.credential
  unfolding verify_and_attest
  verify_and_attest-Attests {a = a} e =
      let (one, issued, same) = attested env p hash _ e in
      subst (λ v. Attests env p hash v a.credential) same (verdict_of-Attests one issued)
