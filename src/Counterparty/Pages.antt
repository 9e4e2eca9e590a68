-- ===== src/Counterparty/Pages.antt =====
-- The rows of a page of `list_counterparties` in api/counterparty_store.py.
use arp_spec.Common.{
  ℕ, zero, suc, ◌+◌, ◌-◌, String, ◌≡◌, refl, sym, ap, ◌↔◌, ◌⊎◌, inl, inr, Bool, true, ◌&&◌, ◌||◌,
  Option, none, some, List, [], ◌∷◌, ◌++◌, map, arith, length, All, if◌then◌else◌, ==_iff,
  Bool-cases, str_eq, eq_iff, min, ◌∙◌,
}
use mathlib.Core.Path.{subst}
use arp_spec.Counterparty.{Counterparty}
use arp_spec.Counterparty.Ordering.{
  IsOrdered, length-order_rows, length-page_of, order_rows-IsOrdered, page_of-IsOrdered,
  All-filter_rows, All-order_rows, All-page_of, length-map,
}
use arp_spec.Counterparty.Listing.{
  Page, item_of, listed, filter_rows, before, insert_ordered, order_rows, page_of,
  list_counterparties,
}

-- the rows that a predicate holds of
abbrev pub count_rows : (Counterparty → Bool) → List Counterparty → ℕ
count_rows p [] = 0
count_rows p (r ∷ rows) = (if p r then 1 else 0) + count_rows p rows

count_rows-insert_ordered :
    (p : Counterparty → Bool) (r : Counterparty) (rows : List Counterparty)
    → count_rows p (insert_ordered r rows) ≡ (if p r then 1 else 0) + count_rows p rows
unfolding insert_ordered
count_rows-insert_ordered p r [] = refl
count_rows-insert_ordered p r (s ∷ rows) =
    let rest = count_rows-insert_ordered p r rows in
    elim (Bool-cases (before r.last_transacted_at s.last_transacted_at)) [
      | inl first ↦ rw first refl
      | inr second ↦ rw second (omega (arith, rest))
    ]

count_rows-order_rows :
    (p : Counterparty → Bool) (rows : List Counterparty)
    → count_rows p (order_rows rows) ≡ count_rows p rows
unfolding order_rows
count_rows-order_rows p [] = refl
count_rows-order_rows p (r ∷ rows) =
    count_rows-insert_ordered p r (order_rows rows)
    ∙ ap (λ n. (if p r then 1 else 0) + n) (count_rows-order_rows p rows)

count_rows-filter_rows :
    (p q : Counterparty → Bool) (rows : List Counterparty)
    → count_rows p (filter_rows q rows) ≡ count_rows (λ r. p r && q r) rows
unfolding filter_rows
count_rows-filter_rows p q [] = refl
count_rows-filter_rows p q (r ∷ rows) =
    let rest = count_rows-filter_rows p q rows in
    elim (Bool-cases (q r)) [
      | inl chosen ↦ rw chosen (rw rest (ground arith))
      | inr other ↦ rw other (rw rest (ground arith))
    ]

-- a list as what is skipped, a page, and what is left
pub record Cut (limit offset : ℕ) (rows : List Counterparty) : Type 0 where
  pub skipped : List Counterparty
  pub rest : List Counterparty
  pub whole : rows ≡ skipped ++ (page_of limit offset rows ++ rest)
  pub skips : length skipped ≡ min offset (length rows)

page_of-Cut : (limit offset : ℕ) (rows : List Counterparty) → Cut limit offset rows
unfolding page_of
page_of-Cut limit offset [] = record { skipped = []; rest = []; whole = refl; skips = omega arith }
page_of-Cut zero zero (r ∷ rows) = record {
  skipped = [];
  rest = r ∷ rows;
  whole = refl;
  skips = omega arith;
}
page_of-Cut (suc limit) zero (r ∷ rows) =
    let later = page_of-Cut limit zero rows in
    let none_skipped = no_rows later.skipped (omega (arith, later.skips)) in
    record {
      skipped = [];
      rest = later.rest;
      whole = ap (λ xs. r ∷ xs) (rw none_skipped at later.whole);
      skips = omega arith;
    }
  where
    no_rows : (xs : List Counterparty) → length xs ≡ 0 → xs ≡ []
    no_rows [] e = refl
    no_rows (x ∷ xs) e = absurd (omega (arith, e))
page_of-Cut limit (suc offset) (r ∷ rows) =
    let later = page_of-Cut limit offset rows in
    record {
      skipped = r ∷ later.skipped;
      rest = later.rest;
      whole = ap (λ xs. r ∷ xs) later.whole;
      skips = omega (arith, later.skips);
    }

-- what the arguments ask of a row
unfoldable pub IsWanted : ℕ → Option String → Counterparty → Type 0
IsWanted org none r = r.org_id ≡ org
IsWanted org (some status) r = (r.org_id ≡ org) × ((status ≡ "") ⊎ (r.status ≡ status))

listed_iff :
    (org : ℕ) (status : Option String) (r : Counterparty)
    → (listed org status r ≡ true) ↔ IsWanted org status r
unfolding listed IsWanted
listed_iff org none r = ==_iff r.org_id org
listed_iff org (some status) r = (
  λ h. ((==_iff r.org_id org).0 (ground (arith, h)), either (ground (arith, h))),
  λ (same, h). rw ((==_iff r.org_id org).1 same) (back h),
)
  where
    either :
        (str_eq status "" || str_eq r.status status) ≡ true → (status ≡ "") ⊎ (r.status ≡ status)
    either h = elim (Bool-cases (str_eq status "")) [
      | inl no_status ↦ inl ((eq_iff status "").0 no_status)
      | inr full ↦ inr ((eq_iff r.status status).0 (rw full at h))
    ]

    back : (status ≡ "") ⊎ (r.status ≡ status) → (str_eq status "" || str_eq r.status status) ≡ true
    back (inl no_status) = rw ((eq_iff status "").1 no_status) refl
    back (inr same) = rw ((eq_iff r.status status).1 same) (ground arith)

-- a page of the rows that are asked for
pub record Lists (org : ℕ) (status : Option String) (limit offset : ℕ) (rows : List Counterparty)
    (page : Page) : Type 0 where
  pub skipped : List Counterparty
  pub shown : List Counterparty
  pub rest : List Counterparty
  pub ordered : IsOrdered (skipped ++ (shown ++ rest))
  pub counted :
      (p : Counterparty → Bool)
      → count_rows p (skipped ++ (shown ++ rest))
        ≡ count_rows (λ r. p r && listed org status r) rows
  pub wanted : (r : Counterparty) → (listed org status r ≡ true) ↔ IsWanted org status r
  pub all_wanted : All (λ r. listed org status r ≡ true) shown
  pub in_order : IsOrdered shown
  pub items : page.items ≡ map item_of shown
  pub total : page.total ≡ length (skipped ++ (shown ++ rest))
  pub skips : length skipped ≡ min offset page.total
  pub shows : length page.items ≡ min limit (page.total - offset)
  pub same_limit : page.page_limit ≡ limit
  pub same_offset : page.page_offset ≡ offset

-- The rows of the table that belong to the organisation and have the status that is asked for (any, if
-- none or the empty text is), each as often as it is in the table, the latest transaction first and
-- those without one last, are as many as the total that `list_counterparties` answers. Its items are
-- those of a stretch of them: as many are skipped as the offset says, or all, and there are as many
-- items as the limit and the total beyond the offset allow. The limit and the offset are given back.
pub list_counterparties_lem :
    (org : ℕ) (status : Option String) (limit offset : ℕ) (rows : List Counterparty)
    → Lists org status limit offset rows (list_counterparties org status limit offset rows)
unfolding list_counterparties
list_counterparties_lem org status limit offset rows =
    let chosen = filter_rows (listed org status) rows in
    let ordered = order_rows chosen in
    let shown = page_of limit offset ordered in
    let cut = page_of-Cut limit offset ordered in
    let same_length = length-order_rows chosen in
    record {
      skipped = cut.skipped;
      shown = shown;
      rest = cut.rest;
      ordered = subst IsOrdered cut.whole (order_rows-IsOrdered chosen);
      counted = λ p.
          ap (count_rows p) (sym cut.whole)
          ∙ count_rows-order_rows p chosen
          ∙ count_rows-filter_rows p (listed org status) rows;
      wanted = listed_iff org status;
      all_wanted =
          All-page_of _ limit offset _
            (All-order_rows _ chosen (All-filter_rows (listed org status) rows));
      in_order = page_of-IsOrdered limit offset (order_rows-IsOrdered chosen);
      items = refl;
      total = sym same_length ∙ ap length cut.whole;
      skips = cut.skips ∙ ap (min offset) same_length;
      shows =
          length-map item_of shown
          ∙ length-page_of limit offset ordered
          ∙ ap (λ n. min limit (n - offset)) same_length;
      same_limit = refl;
      same_offset = refl;
    }
