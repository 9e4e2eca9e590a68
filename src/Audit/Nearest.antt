-- ===== src/Audit/Nearest.antt =====
-- Which activity a receipt is linked to by api/audit_matcher.py.
use arp_spec.Common.{
  ℕ, ◌*◌, ◌≤◌, String, ◌≡◌, refl, sym, ap, inl, inr, Bool, true, false, ◌||◌, Option, none, some,
  List, [], ◌∷◌, arith, All, leb, Bool-cases, Option-cases, str_eq, eq_iff, false≢true,
  none_is_some, some-injective, ◌∙◌, eq_refl,
}
use mathlib.Core.Path.{subst}
use arp_spec.Audit.{Activity, where_rows}
use arp_spec.Audit.Matching.{
  Extracted, finality_of, get_match_tolerance, distance, is_given, is_candidate, nearest,
  given_text,
}

-- the floor is above five times the finality of every rail
pub tolerance_floor : (rail : Option String) → get_match_tolerance rail ≡ 120
unfolding get_match_tolerance finality_of
tolerance_floor none = refl
tolerance_floor (some rail) = elim (Bool-cases (str_eq rail "trc20" || str_eq rail "tron")) [
  | inl tron ↦ rw tron refl
  | inr other ↦ elim (Bool-cases (str_eq rail "lightning")) [
    | inl lightning ↦ rw (other, lightning) refl
    | inr not_lightning ↦ elim (Bool-cases (str_eq rail "solana")) [
      | inl solana ↦ rw (other, not_lightning, solana) refl
      | inr unknown ↦ rw (other, not_lightning, unknown) refl
    ]
  ]
]

pub data Among (P : Activity → Type 0) (a : Activity) : List Activity → Type 0 where
  first : {activities : List Activity} → P a → Among P a (a ∷ activities)
  later :
      {b : Activity} {activities : List Activity}
      → Among P a activities
      → Among P a (b ∷ activities)

pub record IsMatch (e : Extracted) (a : Activity) : Type 0 where
  pub same_agent : e.agent_did ≡ some a.agent_did
  pub has_agent : str_eq a.agent_did "" ≡ false
  pub counterparty : String
  pub has_counterparty : str_eq counterparty "" ≡ false
  pub same_counterparty :
      (e.counterparty_did ≡ some counterparty) × (a.counterparty_did ≡ some counterparty)
  pub reference : String
  pub has_reference : str_eq reference "" ≡ false
  pub same_reference :
      (e.transaction_reference ≡ some reference) × (a.transaction_reference ≡ some reference)
  pub close : distance e.activity_timestamp a ≤ 120 * 1000000

pub present_some :
    (o : Option String) {s : String} → given_text o ≡ some s → (o ≡ some s) × (str_eq s "" ≡ false)
present_some none h = none_is_some h
present_some (some t) h = elim (Bool-cases (str_eq t "")) [
  | inl empty ↦ none_is_some (rw empty at h)
  | inr full ↦ let same = some-injective _ _ (rw full at h) in (ap some same, rw same at full)
]

pub some_present :
    (o : Option String) {s : String} → o ≡ some s → str_eq s "" ≡ false → given_text o ≡ some s
some_present o h full = rw (h, full) refl

is_given-some : (text : String) (o : Option String) → is_given text o ≡ true → o ≡ some text
is_given-some text none h = absurd (false≢true h)
is_given-some text (some other) h = ap some ((eq_iff other text).0 h)

pub All-map :
    (P Q : Activity → Type 0) (activities : List Activity)
    → ((b : Activity) → P b → Q b)
    → All P activities
    → All Q activities
All-map P Q [] f h = tt
All-map P Q (b ∷ activities) f h = (f b h.0, All-map P Q activities f h.1)

pub nearest-none :
    (at : ℕ) (p : Activity → Bool) (activities : List Activity)
    → nearest at (where_rows p activities) ≡ none
    → All (λ b. p b ≡ false) activities
unfolding nearest where_rows
nearest-none at p [] h = tt
nearest-none at p (b ∷ activities) h = elim (Bool-cases (p b)) [
  | inr out ↦ (out, nearest-none at p activities (rw out at h))
  | inl kept ↦ elim (Option-cases (nearest at (where_rows p activities))) [
    | inl nothing ↦ none_is_some (sym (rw (kept, nothing) at h))
    | inr (c, something) ↦ elim (Bool-cases (leb (distance at b) (distance at c))) [
      | inl closer ↦ none_is_some (sym (rw (kept, something, closer) at h))
      | inr farther ↦ none_is_some (sym (rw (kept, something, farther) at h))
    ]
  ]
]

unfoldable pub IsNearest : ℕ → (Activity → Bool) → List Activity → Activity → Type 0
IsNearest at p activities a =
    Among (λ b. p b ≡ true) a activities
    × All (λ b. p b ≡ true → distance at a ≤ distance at b) activities

pub nearest-IsNearest :
    (at : ℕ) (p : Activity → Bool) (activities : List Activity) {a : Activity}
    → nearest at (where_rows p activities) ≡ some a
    → IsNearest at p activities a
unfolding nearest where_rows IsNearest
nearest-IsNearest at p [] h = none_is_some h
nearest-IsNearest at p (b ∷ activities) h = elim (Bool-cases (p b)) [
  | inr out ↦
      let (among, least) = nearest-IsNearest at p activities (rw out at h) in
      (later among, (λ kept. absurd (false≢true (sym out ∙ kept)), least))
  | inl kept ↦ elim (Option-cases (nearest at (where_rows p activities))) [
    | inl nothing ↦
        subst (IsNearest at p (b ∷ activities)) (some-injective _ _ (rw (kept, nothing) at h)) (
          first kept,
          (
            λ _. omega arith,
            All-map _ _ activities (λ c out yes_. absurd (false≢true (sym out ∙ yes_)))
                (nearest-none at p activities nothing),
          ),
        )
    | inr (c, something) ↦
        let (among, least) = nearest-IsNearest at p activities something in
        elim (Bool-cases (leb (distance at b) (distance at c))) [
          | inl closer ↦
              subst (IsNearest at p (b ∷ activities))
                (some-injective _ _ (rw (kept, something, closer) at h))
                (
                  first kept,
                  (
                    λ _. omega arith,
                    All-map _ _ activities (λ d near is. ground (arith, closer, near is)) least,
                  ),
                )
          | inr farther ↦
              subst (IsNearest at p (b ∷ activities))
                (some-injective _ _ (rw (kept, something, farther) at h))
                (later among, (λ _. ground (arith, farther), least))
        ]
  ]
]

pub candidate-IsMatch :
    (e : Extracted) (agent counterparty reference : String)
    → (e.agent_did ≡ some agent) × (str_eq agent "" ≡ false)
    → (e.counterparty_did ≡ some counterparty) × (str_eq counterparty "" ≡ false)
    → (e.transaction_reference ≡ some reference) × (str_eq reference "" ≡ false)
    → (b : Activity) → is_candidate agent counterparty reference e.activity_timestamp 120 b ≡ true
    → IsMatch e b
unfolding is_candidate
candidate-IsMatch e agent counterparty reference (h1, n1) (h2, n2) (h3, n3) b yes_ =
    let same : b.agent_did ≡ agent = (eq_iff b.agent_did agent).0 (ground (arith, yes_)) in
    record {
      same_agent = h1 ∙ ap some (sym same);
      has_agent = rw same n1;
      counterparty = counterparty;
      has_counterparty = n2;
      same_counterparty =
          (h2, is_given-some counterparty b.counterparty_did (ground (arith, yes_)));
      reference = reference;
      has_reference = n3;
      same_reference = (h3, is_given-some reference b.transaction_reference (ground (arith, yes_)));
      close = ground (arith, yes_);
    }

pub IsMatch-candidate :
    (e : Extracted) (agent counterparty reference : String)
    → e.agent_did ≡ some agent
    → e.counterparty_did ≡ some counterparty
    → e.transaction_reference ≡ some reference
    → (b : Activity) → IsMatch e b
    → is_candidate agent counterparty reference e.activity_timestamp 120 b ≡ true
unfolding is_candidate
IsMatch-candidate e agent counterparty reference h1 h2 h3 b m =
    let a1 : b.agent_did ≡ agent = sym (some-injective _ _ (sym h1 ∙ m.same_agent)) in
    let a2 : m.counterparty ≡ counterparty = some-injective _ _ (sym m.same_counterparty.0 ∙ h2) in
    let a3 : m.reference ≡ reference = some-injective _ _ (sym m.same_reference.0 ∙ h3) in
    rw
      (
        m.same_counterparty.1,
        m.same_reference.1,
        a1,
        a2,
        a3,
        eq_refl agent,
        eq_refl counterparty,
        eq_refl reference,
      )
      (ground (arith, m.close))
