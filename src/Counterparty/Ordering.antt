-- ===== src/Counterparty/Ordering.antt =====
-- The order and the cut of the rows that `list_counterparties` of api/counterparty_store.py shows.
use arp_spec.Common.{
  ℕ, zero, suc, ◌-◌, ◌≡◌, refl, sym, ap, inl, inr, Bool, true, false, Option, none, some, List, [],
  ◌∷◌, map, arith, length, All, Bool-cases, false≢true, min, ◌∙◌,
}
use arp_spec.Counterparty.{Counterparty}
use arp_spec.Counterparty.Listing.{filter_rows, before, insert_ordered, order_rows, page_of}

length-insert_ordered :
    (r : Counterparty) (rows : List Counterparty)
    → length (insert_ordered r rows) ≡ suc (length rows)
unfolding insert_ordered
length-insert_ordered r [] = refl
length-insert_ordered r (s ∷ rows) =
    let rest = length-insert_ordered r rows in
    elim (Bool-cases (before r.last_transacted_at s.last_transacted_at)) [
      | inl first ↦ rw first refl
      | inr second ↦ rw second (ap suc rest)
    ]

pub length-order_rows : (rows : List Counterparty) → length (order_rows rows) ≡ length rows
unfolding order_rows
length-order_rows [] = refl
length-order_rows (r ∷ rows) =
    length-insert_ordered r (order_rows rows) ∙ ap suc (length-order_rows rows)

pub length-page_of :
    (limit offset : ℕ) (rows : List Counterparty)
    → length (page_of limit offset rows) ≡ min limit (length rows - offset)
unfolding page_of
length-page_of limit offset [] = omega arith
length-page_of zero zero (r ∷ rows) = omega arith
length-page_of (suc limit) zero (r ∷ rows) = omega (arith, length-page_of limit zero rows)
length-page_of limit (suc offset) (r ∷ rows) = omega (arith, length-page_of limit offset rows)

-- no row comes after one that the order puts first
pub data IsOrdered : List Counterparty → Type 0 where
  empty : IsOrdered []
  one : {r : Counterparty} → IsOrdered (r ∷ [])
  more :
      {r s : Counterparty} {rows : List Counterparty}
      → before r.last_transacted_at s.last_transacted_at ≡ true
      → IsOrdered (s ∷ rows)
      → IsOrdered (r ∷ s ∷ rows)

before-total : (a b : Option ℕ) → before a b ≡ false → before b a ≡ true
unfolding before
before-total none none e = refl
before-total none (some b) e = refl
before-total (some a) none e = absurd (false≢true (sym e))
before-total (some a) (some b) e = ground (arith, e)

insert_ordered-IsOrdered :
    (r : Counterparty) {rows : List Counterparty}
    → IsOrdered rows
    → IsOrdered (insert_ordered r rows)
unfolding insert_ordered
insert_ordered-IsOrdered r empty = one
insert_ordered-IsOrdered r (one {r = s}) =
    elim (Bool-cases (before r.last_transacted_at s.last_transacted_at)) [
      | inl first ↦ rw first (more first one)
      | inr second ↦
          rw second (more (before-total r.last_transacted_at s.last_transacted_at second) one)
    ]
insert_ordered-IsOrdered r (more {r = s} {s = s'} {rows = rows} h rest) =
    elim (Bool-cases (before r.last_transacted_at s.last_transacted_at)) [
      | inl first ↦ rw first (more first (more h rest))
      | inr second ↦
          let tail = insert_ordered-IsOrdered r rest in
          elim (Bool-cases (before r.last_transacted_at s'.last_transacted_at)) [
            | inl next ↦
                let swapped = before-total r.last_transacted_at s.last_transacted_at second in
                rw (second, next) (more swapped (rw next at tail))
            | inr later ↦ rw (second, later) (more h (rw later at tail))
          ]
    ]

pub order_rows-IsOrdered : (rows : List Counterparty) → IsOrdered (order_rows rows)
unfolding order_rows
order_rows-IsOrdered [] = empty
order_rows-IsOrdered (r ∷ rows) = insert_ordered-IsOrdered r (order_rows-IsOrdered rows)

tail-IsOrdered :
    {r : Counterparty} {rows : List Counterparty} → IsOrdered (r ∷ rows) → IsOrdered rows
tail-IsOrdered one = empty
tail-IsOrdered (more h rest) = rest

pub page_of-IsOrdered :
    (limit offset : ℕ) {rows : List Counterparty}
    → IsOrdered rows
    → IsOrdered (page_of limit offset rows)
unfolding page_of
page_of-IsOrdered limit offset empty = empty
page_of-IsOrdered zero zero one = empty
page_of-IsOrdered zero zero (more h rest) = empty
page_of-IsOrdered (suc limit) zero one = one
page_of-IsOrdered (suc zero) zero (more h rest) = one
page_of-IsOrdered (suc (suc limit)) zero (more h rest) =
    more h (page_of-IsOrdered (suc limit) zero rest)
page_of-IsOrdered zero (suc offset) one = empty
page_of-IsOrdered (suc limit) (suc offset) one = empty
page_of-IsOrdered zero (suc offset) (more h rest) = page_of-IsOrdered zero offset rest
page_of-IsOrdered (suc limit) (suc offset) (more h rest) = page_of-IsOrdered (suc limit) offset rest

module _ (P : Counterparty → Type 0) where
  All-insert_ordered :
      (r : Counterparty) (rows : List Counterparty)
      → P r
      → All P rows
      → All P (insert_ordered r rows)
  unfolding insert_ordered
  All-insert_ordered r [] h hs = (h, tt)
  All-insert_ordered r (s ∷ rows) h hs =
      let rest = All-insert_ordered r rows h hs.1 in
      elim (Bool-cases (before r.last_transacted_at s.last_transacted_at)) [
        | inl first ↦ rw first (h, hs)
        | inr second ↦ rw second (hs.0, rest)
      ]

  pub All-order_rows : (rows : List Counterparty) → All P rows → All P (order_rows rows)
  unfolding order_rows
  All-order_rows [] hs = tt
  All-order_rows (r ∷ rows) hs = All-insert_ordered r _ hs.0 (All-order_rows rows hs.1)

  pub All-page_of :
      (limit offset : ℕ) (rows : List Counterparty) → All P rows → All P (page_of limit offset rows)
  unfolding page_of
  All-page_of limit offset [] hs = tt
  All-page_of zero zero (r ∷ rows) hs = tt
  All-page_of (suc limit) zero (r ∷ rows) hs = (hs.0, All-page_of limit zero rows hs.1)
  All-page_of limit (suc offset) (r ∷ rows) hs = All-page_of limit offset rows hs.1

pub All-filter_rows :
    (p : Counterparty → Bool) (rows : List Counterparty)
    → All (λ r. p r ≡ true) (filter_rows p rows)
unfolding filter_rows
All-filter_rows p [] = tt
All-filter_rows p (r ∷ rows) =
    let rest = All-filter_rows p rows in
    elim (Bool-cases (p r)) [ inl chosen ↦ rw chosen (chosen, rest) | inr other ↦ rw other rest ]

pub length-map {ℓ κ} :
    {A : Type ℓ} {B : Type κ} (f : A → B) (xs : List A) → length (map f xs) ≡ length xs
length-map f [] = refl
length-map f (x ∷ xs) = ap suc (length-map f xs)
