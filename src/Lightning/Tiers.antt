-- ===== src/Lightning/Tiers.antt =====
-- What a verified Lightning payment of api/lightning_adapter.py rests on.
use arp_spec.Common.{
  String, ◌≡◌, refl, sym, ap, ◌≢◌, ◌⊎◌, inl, inr, Bool, true, false, ◌&&◌, ◌||◌, Option, none, some,
  arith, Bool-cases, ok, str_eq, eq_iff, false≢true, >>=-eq-ok, ok-injective, eq_refl, ◌∙◌,
  not_raised,
}
use mathlib.Core.Path.{subst}
use arp_spec.Json.{
  Json, null, bool, num, str, arr, obj, Fields, lookup_or, truthy, is_text, is_text_iff,
}
use arp_spec.Lightning.{
  hash_matches, payee_attestation, lnd_query, preimage_only, Tier, Conflict, LndResult, Outside,
  Payment, verified, resolve_tier, first_tier, is_some, settled_of, verify_preimage, query_lnd,
  verify_payee_attestation, try_attestation, build_result, amount_of, judge_tiers, hash_text,
  verify_transaction, refused, payer_needs_evidence,
}

-- the strongest evidence that was found, and its tier
pub data IsStrongest (payer attested settled : Bool) : Option Tier → Type 0 where
  by_attestation :
      payer ≡ true → attested ≡ true → IsStrongest payer attested settled (some payee_attestation)
  by_node : attested ≡ false → settled ≡ true → IsStrongest payer attested settled (some lnd_query)
  by_preimage :
      attested ≡ false
      → settled ≡ false
      → payer ≡ false
      → IsStrongest payer attested settled (some preimage_only)

resolve_tier-IsStrongest :
    (payer given attested lnd settled : Bool)
    → (attested ≡ true → payer ≡ true)
    → (resolve_tier payer given attested lnd settled).0 ≢ none
    → IsStrongest payer attested settled (resolve_tier payer given attested lnd settled).0
unfolding resolve_tier first_tier
resolve_tier-IsStrongest payer true true true true role has = by_attestation (role refl) refl
resolve_tier-IsStrongest payer true true false true role has = by_attestation (role refl) refl
resolve_tier-IsStrongest payer false true true true role has = by_attestation (role refl) refl
resolve_tier-IsStrongest payer false true false true role has = by_attestation (role refl) refl
resolve_tier-IsStrongest payer given true true false role has = by_attestation (role refl) refl
resolve_tier-IsStrongest payer given true false false role has = by_attestation (role refl) refl
resolve_tier-IsStrongest payer true false lnd true role has = by_node refl refl
resolve_tier-IsStrongest payer false false lnd true role has = by_node refl refl
resolve_tier-IsStrongest false given false lnd false role has = by_preimage refl refl refl
resolve_tier-IsStrongest true given false lnd false role has = absurd (has refl)

moved :
    (payer attested : Bool) {a b : Bool} {t u : Option Tier}
    → a ≡ b
    → t ≡ u
    → IsStrongest payer attested a t
    → IsStrongest payer attested b u
moved payer attested {b = b} {t = t} same_settled same_tier strongest =
    subst (IsStrongest payer attested b) same_tier
      (subst (λ c. IsStrongest payer attested c t) same_settled strongest)

payee_no_payer : Path Json (str "payee") (str "payer") → ⊥
unfolding is_text
payee_no_payer e = false≢true (ap (is_text "payee") (sym e))

-- a payer has one of the two stronger kinds
payer-evidence :
    {payer attested settled : Bool} {t : Option Tier}
    → IsStrongest payer attested settled t
    → payer ≡ true
    → (attested ≡ true) ⊎ (settled ≡ true)
payer-evidence (by_attestation _ found) is_payer = inl found
payer-evidence (by_node _ found) is_payer = inr found
payer-evidence (by_preimage _ _ payee) is_payer = absurd (false≢true (sym payee ∙ is_payer))

module _ (w : Outside) where
  -- the evidence of a verified payment
  pub record Evidence (transaction chain_specific : Fields) (p : Payment) : Type 0 where
    pub tier1 : Bool
    pub payer : Bool
    pub role :
        ((payer ≡ true) × (lookup_or "presenter_role" null chain_specific ≡ str "payer"))
        ⊎ ((payer ≡ false) × (lookup_or "presenter_role" null chain_specific ≡ str "payee"))
    pub preimage : String
    pub has_preimage : lookup_or "preimage" null chain_specific ≡ str preimage
    pub payment_hash : String
    pub has_payment_hash : lookup_or "payment_hash" null chain_specific ≡ str payment_hash
    pub hashed : w.sha256_hex preimage ≡ some (w.lower payment_hash)
    pub attested :
        try_attestation w payer
          (lookup_or "payee_attestation" null chain_specific)
          (hash_text (lookup_or "payment_hash" null chain_specific))
        ≡ ok tier1
    pub confirmed :
        p.lnd_settlement_confirmed
        ≡ settled_of (query_lnd w (hash_text (lookup_or "payment_hash" null chain_specific)))
    pub has_tier : IsStrongest payer tier1 (truthy p.lnd_settlement_confirmed) p.tier
    pub is_tier : p.tier ≢ none

  build_result-verified :
      (transaction : Fields) (lnd : Option LndResult) (tier1 : Bool) (t : Option Tier × Conflict)
      {p : Payment}
      → build_result w transaction lnd tier1 t ≡ ok (verified p)
      → (p.tier ≡ t.0) × (p.tier ≢ none) × (p.lnd_settlement_confirmed ≡ settled_of lnd)
  unfolding build_result
  build_result-verified transaction lnd tier1 (none, _) e = ground (arith, e)
  build_result-verified transaction lnd tier1 (some tier, _) {p = p} e =
      let (amount, _, r) = >>=-eq-ok (amount_of w transaction lnd) _ e in
      (ground (arith, r), ground (arith, r), ground (arith, r))

  -- a preimage and a hash that match
  pub record Hashes (preimage payment_hash : Json) : Type 0 where
    pub text : String
    pub has_text : preimage ≡ str text
    pub digest : String
    pub has_digest : payment_hash ≡ str digest
    pub hashed : w.sha256_hex text ≡ some (w.lower digest)

  hash_matches-Hashes :
      (text : String) (o : Option String) (payment_hash : Json)
      → w.sha256_hex text ≡ o
      → hash_matches w o payment_hash ≡ ok true
      → Hashes (str text) payment_hash
  unfolding hash_matches
  hash_matches-Hashes text none payment_hash computed e = absurd (false≢true (ok-injective e))
  hash_matches-Hashes text (some d) (str s) computed e = record {
    text = text;
    has_text = refl;
    digest = s;
    has_digest = refl;
    hashed = computed ∙ ap some ((eq_iff d (w.lower s)).0 (ok-injective e));
  }
  hash_matches-Hashes text (some d) null computed e = not_raised e
  hash_matches-Hashes text (some d) (bool b) computed e = not_raised e
  hash_matches-Hashes text (some d) (num n) computed e = not_raised e
  hash_matches-Hashes text (some d) (arr xs) computed e = not_raised e
  hash_matches-Hashes text (some d) (obj fs) computed e = not_raised e

  verify_preimage-Hashes :
      (preimage payment_hash : Json)
      → verify_preimage w preimage payment_hash ≡ ok true
      → Hashes preimage payment_hash
  unfolding verify_preimage
  verify_preimage-Hashes (str text) payment_hash e =
      hash_matches-Hashes text (w.sha256_hex text) payment_hash refl e
  verify_preimage-Hashes null payment_hash e = absurd (false≢true (ok-injective e))
  verify_preimage-Hashes (bool b) payment_hash e = absurd (false≢true (ok-injective e))
  verify_preimage-Hashes (num n) payment_hash e = absurd (false≢true (ok-injective e))
  verify_preimage-Hashes (arr xs) payment_hash e = absurd (false≢true (ok-injective e))
  verify_preimage-Hashes (obj fs) payment_hash e = absurd (false≢true (ok-injective e))

  -- the attestation is tried for a payer only
  try_attestation-payer :
      (payer : Bool) (attestation : Json) (payment_hash : String) {tier1 : Bool}
      → try_attestation w payer attestation payment_hash ≡ ok tier1
      → tier1 ≡ true
      → payer ≡ true
  unfolding try_attestation
  try_attestation-payer true attestation payment_hash e found = refl
  try_attestation-payer false attestation payment_hash {tier1 = tier1} e found =
      elim (Bool-cases (truthy attestation)) [
        | inl given ↦ absurd (false≢true (ok-injective (rw given at e) ∙ found))
        | inr absent ↦ absurd (false≢true (ok-injective (rw absent at e) ∙ found))
      ]

  role_of :
      (role : Json)
      → (is_text "payer" role || is_text "payee" role) ≡ true
      → ((is_text "payer" role ≡ true) × (role ≡ str "payer"))
        ⊎ ((is_text "payer" role ≡ false) × (role ≡ str "payee"))
  role_of role known = elim (Bool-cases (is_text "payer" role)) [
    | inl payer ↦ inl (payer, is_text_iff "payer" role payer)
    | inr payee ↦ inr (payee, is_text_iff "payee" role (rw payee at known))
  ]

  -- A verified payment has a preimage whose SHA-256 is its payment hash, in lower case. Its tier is
  -- that of the strongest evidence that was found: the attestation of the payee for a payer, if it
  -- verified; else the settlement on the node, if the node reports it; else the preimage alone, and
  -- then it was presented by the payee.
  pub verify_transaction-Evidence :
      (transaction chain_specific : Fields) {p : Payment}
      → verify_transaction w transaction chain_specific ≡ ok (verified p)
      → Evidence transaction chain_specific p
  unfolding verify_transaction judge_tiers
  verify_transaction-Evidence transaction chain_specific {p = p} e =
      let payment_hash = lookup_or "payment_hash" null chain_specific in
      let preimage = lookup_or "preimage" null chain_specific in
      let role = lookup_or "presenter_role" null chain_specific in
      let attestation = lookup_or "payee_attestation" null chain_specific in
      let lnd = query_lnd w (hash_text payment_hash) in
      elim (Bool-cases (truthy payment_hash && truthy preimage)) [
        | inr missing ↦ ground (arith, rw missing at e)
        | inl present ↦ elim (Bool-cases (is_text "payer" role || is_text "payee" role)) [
          | inr neither ↦ ground (arith, rw (present, neither) at e)
          | inl known ↦
              let (valid, hashed, r1) =
                >>=-eq-ok (verify_preimage w preimage payment_hash) _ (rw (present, known) at e) in
              elim (Bool-cases valid) [
                | inr wrong ↦ ground (arith, rw wrong at r1)
                | inl right ↦
                    let (tier1, attested, r2) =
                      >>=-eq-ok
                        (try_attestation w (is_text "payer" role) attestation
                          (hash_text payment_hash))
                        _ (rw right at r1) in
                    let hashes =
                      verify_preimage-Hashes preimage payment_hash (rw right at hashed) in
                    let (same, has, confirmed) =
                      build_result-verified transaction lnd tier1
                        (resolve_tier (is_text "payer" role) (truthy attestation) tier1
                          (is_some lnd) (truthy (settled_of lnd)))
                        r2 in
                    record {
                      tier1 = tier1;
                      payer = is_text "payer" role;
                      role = role_of role known;
                      preimage = hashes.text;
                      has_preimage = hashes.has_text;
                      payment_hash = hashes.digest;
                      has_payment_hash = hashes.has_digest;
                      hashed = hashes.hashed;
                      attested = attested;
                      confirmed = confirmed;
                      has_tier =
                          moved (is_text "payer" role) tier1 (ap truthy (sym confirmed)) (sym same)
                            (resolve_tier-IsStrongest (is_text "payer" role) (truthy attestation)
                              tier1 (is_some lnd) (truthy (settled_of lnd))
                              (try_attestation-payer (is_text "payer" role) attestation
                                (hash_text payment_hash) attested)
                              (λ e. has (same ∙ e)));
                      is_tier = has;
                    }
              ]
        ]
      ]

  -- A payment that is verified for a payer rests on an attestation of the payee that was verified
  -- or on the node's settlement: the preimage alone is never enough.
  pub verify_transaction_payer :
      (transaction chain_specific : Fields) {p : Payment}
      → verify_transaction w transaction chain_specific ≡ ok (verified p)
      → lookup_or "presenter_role" null chain_specific ≡ str "payer"
      → (verify_payee_attestation w
            (lookup_or "payee_attestation" null chain_specific)
            (hash_text (lookup_or "payment_hash" null chain_specific))
          ≡ ok true)
        ⊎ (truthy
              (settled_of (query_lnd w (hash_text (lookup_or "payment_hash" null chain_specific))))
            ≡ true)
  unfolding try_attestation first_tier is_text
  verify_transaction_payer transaction chain_specific {p = p} e is_payer =
      let found = verify_transaction-Evidence transaction chain_specific e in
      let attestation = lookup_or "payee_attestation" null chain_specific in
      let payer = payer_of found.role is_payer in
      elim (payer-evidence found.has_tier payer) [
        | inr settled ↦ inr (rw found.confirmed at settled)
        | inl attested ↦ elim (Bool-cases (truthy attestation)) [
          | inl given ↦ inl (rw (given, payer, attested) at found.attested)
          | inr absent ↦
              absurd (false≢true (ok-injective (rw (absent, attested) at found.attested)))
        ]
      ]
    where
      payer_of :
          {b : Bool} {role : Json}
          → ((b ≡ true) × (role ≡ str "payer")) ⊎ ((b ≡ false) × (role ≡ str "payee"))
          → role ≡ str "payer"
          → b ≡ true
      payer_of (inl (h, _)) is_payer = h
      payer_of (inr (h, payee)) is_payer = absurd (payee_no_payer (sym payee ∙ is_payer))

  -- A payer who presents the right preimage, no attestation, and whose payment the node does not
  -- report as settled, is refused for want of evidence.
  pub verify_transaction_unsupported :
      (transaction chain_specific : Fields)
      → verify_preimage w
          (lookup_or "preimage" null chain_specific)
          (lookup_or "payment_hash" null chain_specific)
        ≡ ok true
      → truthy (lookup_or "payment_hash" null chain_specific) ≡ true
      → truthy (lookup_or "preimage" null chain_specific) ≡ true
      → lookup_or "presenter_role" null chain_specific ≡ str "payer"
      → truthy (lookup_or "payee_attestation" null chain_specific) ≡ false
      → truthy (settled_of (query_lnd w (hash_text (lookup_or "payment_hash" null chain_specific))))
        ≡ false
      → verify_transaction w transaction chain_specific ≡ ok (refused payer_needs_evidence)
  unfolding verify_transaction judge_tiers try_attestation resolve_tier first_tier build_result
      is_text
  verify_transaction_unsupported transaction chain_specific hashed hash_given preimage_given payer
        absent unsettled =
      let is_payer : str_eq "payer" "payer" ≡ true = eq_refl "payer" in
      rw (hash_given, preimage_given, payer, is_payer) (rw hashed (rw (absent, unsettled) refl))
