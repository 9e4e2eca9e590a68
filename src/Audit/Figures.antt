-- ===== src/Audit/Figures.antt =====
-- The figures of api/audit_coverage.py, and what is read back of them.
use arp_spec.Common.{
  ℕ, suc, ◌+◌, ◌*◌, ◌≤◌, String, ◌≡◌, refl, sym, ap, ◌≢◌, ◌↔◌, inl, inr, Bool, true, false, ◌||◌,
  none, List, [], ◌∷◌, ◌++◌, arith, length, All, any, ltb, ◌==◌, if◌then◌else◌, leb_iff, Bool-cases,
  eq_iff, none_is_some, ◌∙◌,
}
use arp_spec.Audit.{
  day, Activity, ReceiptRow, AuditTables, where_rows, in_window, is_id, ids_matched, join_ids,
  distinct, rate_of, coverage_of,
}

unfoldable pub has_receipt : List ReceiptRow → ℕ → Bool
has_receipt rs id = any (λ r. is_id id r.matched_activity_id) rs

-- the primary key of the activities
unfoldable pub HasUniqueIds : List Activity → Type 0
HasUniqueIds [] = Unit
HasUniqueIds (a ∷ activities) = All (λ b. b.id ≢ a.id) activities × HasUniqueIds activities

any-append {ℓ} :
    {A : Type ℓ} (p : A → Bool) (xs ys : List A) → any p (xs ++ ys) ≡ (any p xs || any p ys)
any-append p [] ys = refl
any-append p (x ∷ xs) ys = ground (arith, any-append p xs ys)

matched_elsewhere :
    (id other : ℕ) (rs : List ReceiptRow)
    → id ≢ other
    → any (λ k. k == other) (ids_matched id rs) ≡ false
unfolding ids_matched
matched_elsewhere id other [] ne = refl
matched_elsewhere id other (r ∷ rs) ne = elim (Bool-cases (is_id id r.matched_activity_id)) [
  | inl same ↦ rw same (ground (arith, matched_elsewhere id other rs ne))
  | inr other_id ↦ rw other_id (matched_elsewhere id other rs ne)
]

any-ids_matched :
    (id : ℕ) (rs : List ReceiptRow) → any (λ k. k == id) (ids_matched id rs) ≡ has_receipt rs id
unfolding ids_matched has_receipt
any-ids_matched id [] = refl
any-ids_matched id (r ∷ rs) = elim (Bool-cases (is_id id r.matched_activity_id)) [
  | inl same ↦ rw same (ground arith)
  | inr other_id ↦ rw other_id (any-ids_matched id rs)
]

not_joined :
    (id : ℕ) (activities : List Activity) (rs : List ReceiptRow)
    → All (λ b. b.id ≢ id) activities
    → any (λ k. k == id) (join_ids activities rs) ≡ false
unfolding join_ids
not_joined id [] rs others = refl
not_joined id (a ∷ activities) rs others =
    any-append (λ k. k == id) (ids_matched a.id rs) (join_ids activities rs)
    ∙ rw (matched_elsewhere a.id id rs others.0, not_joined id activities rs others.1) refl

again :
    (id : ℕ) (rs : List ReceiptRow) (ids : List ℕ)
    → any (λ k. k == id) ids ≡ false
    → any (λ k. k == id) (ids_matched id rs ++ ids) ≡ has_receipt rs id
again id rs ids new =
    any-append (λ k. k == id) (ids_matched id rs) ids
    ∙ rw (any-ids_matched id rs, new) (ground arith)

distinct-ids_matched :
    (id : ℕ) (rs : List ReceiptRow) (ids : List ℕ)
    → any (λ k. k == id) ids ≡ false
    → length (distinct (ids_matched id rs ++ ids))
      ≡ (if has_receipt rs id then suc (length (distinct ids)) else length (distinct ids))
unfolding distinct ids_matched has_receipt
distinct-ids_matched id [] ids new = refl
distinct-ids_matched id (r ∷ rs) ids new =
    let rest = distinct-ids_matched id rs ids new in
    elim (Bool-cases (is_id id r.matched_activity_id)) [
      | inl same ↦ elim (Bool-cases (has_receipt rs id)) [
        | inl linked ↦ rw (same, again id rs ids new ∙ linked) (rw linked at rest)
        | inr unlinked ↦ rw (same, again id rs ids new ∙ unlinked) (ap suc (rw unlinked at rest))
      ]
      | inr other_id ↦ rw other_id rest
    ]

-- the join counts each activity with a receipt once
distinct-join_ids :
    (activities : List Activity) (rs : List ReceiptRow)
    → HasUniqueIds activities
    → length (distinct (join_ids activities rs))
      ≡ length (where_rows (λ a. has_receipt rs a.id) activities)
unfolding join_ids where_rows HasUniqueIds distinct
distinct-join_ids [] rs unique = refl
distinct-join_ids (a ∷ activities) rs unique =
    distinct-ids_matched a.id rs (join_ids activities rs) (not_joined a.id activities rs unique.0)
    ∙ elim (Bool-cases (has_receipt rs a.id)) [
      | inl linked ↦ rw linked (ap suc (distinct-join_ids activities rs unique.1))
      | inr unlinked ↦ rw unlinked (distinct-join_ids activities rs unique.1)
    ]

where_rows-All {ℓ} :
    (p : Activity → Bool) (P : Activity → Type ℓ) (activities : List Activity)
    → All P activities
    → All P (where_rows p activities)
unfolding where_rows
where_rows-All p P [] h = tt
where_rows-All p P (a ∷ activities) h = elim (Bool-cases (p a)) [
  | inl kept ↦ rw kept (h.0, where_rows-All p P activities h.1)
  | inr dropped ↦ rw dropped (where_rows-All p P activities h.1)
]

length-where_rows {ℓ} :
    {A : Type ℓ} (p : A → Bool) (xs : List A) → length (where_rows p xs) ≤ length xs
unfolding where_rows
length-where_rows p [] = omega arith
length-where_rows p (x ∷ xs) = elim (Bool-cases (p x)) [
  | inl kept ↦ rw kept (omega (arith, length-where_rows p xs))
  | inr dropped ↦ rw dropped (omega (arith, length-where_rows p xs))
]

rate_of-none : (received expected : ℕ) → (rate_of received expected ≡ none) ↔ (expected ≡ 0)
unfolding rate_of
rate_of-none received expected = elim (Bool-cases (ltb 0 expected)) [
  | inl positive ↦
      (λ e. none_is_some (sym (rw positive at e)), λ zero_. ground (arith, positive, zero_))
  | inr zero_ ↦ (λ e. ground (arith, zero_), λ e. rw zero_ refl)
]

where_rows-HasUniqueIds :
    (p : Activity → Bool) (activities : List Activity)
    → HasUniqueIds activities
    → HasUniqueIds (where_rows p activities)
unfolding where_rows HasUniqueIds
where_rows-HasUniqueIds p [] unique = tt
where_rows-HasUniqueIds p (a ∷ activities) unique = elim (Bool-cases (p a)) [
  | inl kept ↦
      rw kept
        (where_rows-All p _ activities unique.0, where_rows-HasUniqueIds p activities unique.1)
  | inr dropped ↦ rw dropped (where_rows-HasUniqueIds p activities unique.1)
]

-- the agent's activity that expects a receipt, in the last days
unfoldable pub IsExpected : ℕ → String → ℕ → Activity → Type 0
IsExpected now did days a =
    (a.agent_did ≡ did)
    × (a.expects_counterparty_receipt ≡ true)
    × (now ≤ a.activity_timestamp + days * day)

in_window_iff :
    (now : ℕ) (did : String) (days : ℕ) (a : Activity)
    → (in_window now did days a ≡ true) ↔ IsExpected now did days a
unfolding in_window IsExpected
in_window_iff now did days a = (
  λ h. (
    (eq_iff a.agent_did did).0 (ground (arith, h)),
    ground (arith, h),
    (leb_iff now (a.activity_timestamp + days * day)).0 (ground (arith, h)),
  ),
  λ (same, expects, late).
      rw
        (
          (eq_iff a.agent_did did).1 same,
          expects,
          (leb_iff now (a.activity_timestamp + days * day)).1 late,
        )
        refl,
)

-- The coverage of an agent's window has as received receipts the number of its expected activities
-- that a receipt is linked to, when the activities have unique ids, although the query counts the rows
-- of a join. They are at most the expected ones, which are the agent's activities that expect a
-- receipt and are no older than the window, and the rate is absent exactly if none is expected.
pub coverage_of_lem :
    (now : ℕ) (did : String) (days : ℕ) (db : AuditTables)
    → HasUniqueIds db.activities
    → let c = coverage_of now did days db in
      (c.received_receipts
        ≡ length (
            where_rows
              (λ a. has_receipt db.receipts a.id)
              (where_rows (in_window now did days) db.activities)))
      × (c.received_receipts ≤ c.expected_receipts)
      × ((c.coverage_rate ≡ none) ↔ (c.expected_receipts ≡ 0))
      × (c.expected_receipts ≡ length (where_rows (in_window now did days) db.activities))
      × ((a : Activity) → (in_window now did days a ≡ true) ↔ IsExpected now did days a)
unfolding coverage_of rate_of
coverage_of_lem now did days db unique =
    let expected = where_rows (in_window now did days) db.activities in
    let counted =
      distinct-join_ids expected db.receipts
        (where_rows-HasUniqueIds (in_window now did days) db.activities unique) in
    (
      counted,
      rw counted (length-where_rows (λ a. has_receipt db.receipts a.id) expected),
      rate_of-none (length (distinct (join_ids expected db.receipts))) (length expected),
      refl,
      in_window_iff now did days,
    )
