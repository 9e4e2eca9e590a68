-- ===== src/Counterparty/Rows.antt =====
-- The rows of the table `counterparties`: which ones a WHERE clause selects after an UPDATE, and
-- that the ids and the pairs of organisation and DID stay apart.
use arp_spec.Common.{
  ◌≡◌, refl, sym, ◌≢◌, inl, inr, Bool, true, some, List, [], ◌∷◌, arith, All, if◌then◌else◌,
  Bool-cases, some-injective, ◌∙◌, false≢true, ℕ, String, ◌↔◌, eq_iff, eq_refl,
}
use arp_spec.Counterparty.{Counterparty, find_row, set_rows, option_map, has_id_and_org, has_pair}

-- two rows with their own id and their own pair
pub record Differs (r s : Counterparty) : Type 0 where
  pub other_id : r.id ≢ s.id
  pub other_pair : r.org_id ≡ s.org_id → r.counterparty_did ≢ s.counterparty_did

abbrev pub Apart : List Counterparty → Type 0
Apart [] = Unit
Apart (row ∷ rows) = All (Differs row) rows × Apart rows

-- an UPDATE of columns that name no row
pub record Keeps (f : Counterparty → Counterparty) : Type 0 where
  pub id : (r : Counterparty) → (f r).id ≡ r.id
  pub org : (r : Counterparty) → (f r).org_id ≡ r.org_id
  pub did : (r : Counterparty) → (f r).counterparty_did ≡ r.counterparty_did

pub find_row-set_rows :
    (q p : Counterparty → Bool) (f : Counterparty → Counterparty) (rows : List Counterparty)
    → ((r : Counterparty) → q (f r) ≡ q r)
    → find_row q (set_rows p f rows) ≡ option_map (λ r. if p r then f r else r) (find_row q rows)
unfolding find_row set_rows
find_row-set_rows q p f [] same = refl
find_row-set_rows q p f (r ∷ rows) same = elim (Bool-cases (p r)) [
  | inl hit ↦ elim (Bool-cases (q r)) [
    | inl chosen ↦ rw (hit, same r, chosen, hit) refl
    | inr other ↦ rw (hit, same r, other) (find_row-set_rows q p f rows same)
  ]
  | inr miss ↦ elim (Bool-cases (q r)) [
    | inl chosen ↦ rw (miss, chosen, miss) refl
    | inr other ↦ rw (miss, other) (find_row-set_rows q p f rows same)
  ]
]

pub find_row_selects :
    (p : Counterparty → Bool) (rows : List Counterparty) {row : Counterparty}
    → find_row p rows ≡ some row
    → p row ≡ true
unfolding find_row
find_row_selects p [] found = ground (arith, found)
find_row_selects p (r ∷ rows) found = elim (Bool-cases (p r)) [
  | inl chosen ↦ rw (some-injective _ _ (rw chosen at found)) at chosen
  | inr other ↦ find_row_selects p rows (rw other at found)
]

pub find_row-All {κ} :
    (P : Counterparty → Type κ) (p : Counterparty → Bool) (rows : List Counterparty)
    {row : Counterparty}
    → All P rows
    → find_row p rows ≡ some row
    → P row
unfolding find_row
find_row-All P p [] holds found = ground (arith, found)
find_row-All P p (r ∷ rows) holds found = elim (Bool-cases (p r)) [
  | inl chosen ↦ rw (some-injective _ _ (rw chosen at found)) at holds.0
  | inr other ↦ find_row-All P p rows holds.1 (rw other at found)
]

pub Differs-Keeps :
    {r s : Counterparty} (p : Counterparty → Bool) (f : Counterparty → Counterparty)
    → Keeps f
    → Differs r s
    → Differs (if p r then f r else r) (if p s then f s else s)
Differs-Keeps {r = r} {s = s} p f keeps apart = record {
  other_id = rw (same_id r, same_id s) apart.other_id;
  other_pair = rw (same_org r, same_org s, same_did r, same_did s) apart.other_pair;
}
  where
    same_id : (x : Counterparty) → (if p x then f x else x).id ≡ x.id
    same_id x = elim (Bool-cases (p x)) [ inl hit ↦ rw hit (keeps.id x) | inr miss ↦ rw miss refl ]

    same_org : (x : Counterparty) → (if p x then f x else x).org_id ≡ x.org_id
    same_org x = elim (Bool-cases (p x)) [
      | inl hit ↦ rw hit (keeps.org x)
      | inr miss ↦ rw miss refl
    ]

    same_did : (x : Counterparty) → (if p x then f x else x).counterparty_did ≡ x.counterparty_did
    same_did x = elim (Bool-cases (p x)) [
      | inl hit ↦ rw hit (keeps.did x)
      | inr miss ↦ rw miss refl
    ]

pub Apart-set_rows :
    (p : Counterparty → Bool) (f : Counterparty → Counterparty) (rows : List Counterparty)
    → Keeps f
    → Apart rows
    → Apart (set_rows p f rows)
unfolding set_rows
Apart-set_rows p f [] keeps apart = tt
Apart-set_rows p f (r ∷ rows) keeps apart =
    (others rows apart.0, Apart-set_rows p f rows keeps apart.1)
  where
    others :
        (rs : List Counterparty)
        → All (Differs r) rs
        → All (Differs (if p r then f r else r)) (set_rows p f rs)
    others [] h = tt
    others (s ∷ rs) h = (Differs-Keeps p f keeps h.0, others rs h.1)

Differs-sym : {r s : Counterparty} → Differs r s → Differs s r
Differs-sym apart = record {
  other_id = λ e. apart.other_id (sym e);
  other_pair = λ org did. apart.other_pair (sym org) (sym did);
}

-- two rows of the table that share their id or their pair are one row
pub find_row_unique :
    (p q : Counterparty → Bool) (rows : List Counterparty) {r s : Counterparty}
    → Apart rows
    → find_row p rows ≡ some r
    → find_row q rows ≡ some s
    → (Differs r s → ⊥)
    → r ≡ s
unfolding find_row
find_row_unique p q [] apart found found' clash = ground (arith, found)
find_row_unique p q (x ∷ rows) {r = r} {s = s} apart found found' clash = elim (Bool-cases (p x)) [
  | inl chosen ↦
      let here : x ≡ r = some-injective _ _ (rw chosen at found) in
      elim (Bool-cases (q x)) [
        | inl chosen' ↦ sym here ∙ some-injective _ _ (rw chosen' at found')
        | inr other ↦
            let away = find_row-All (Differs x) q rows apart.0 (rw other at found') in
            absurd (clash (rw here at away))
      ]
  | inr away ↦ elim (Bool-cases (q x)) [
    | inl chosen' ↦
        let here : x ≡ s = some-injective _ _ (rw chosen' at found') in
        let apart' = find_row-All (Differs x) p rows apart.0 (rw away at found) in
        absurd (clash (Differs-sym (rw here at apart')))
    | inr other ↦ find_row_unique p q rows apart.1 (rw away at found) (rw other at found') clash
  ]
]

-- a row of the table that a clause selects makes the clause find a row
pub find_row_finds :
    (p q : Counterparty → Bool) (rows : List Counterparty) {r : Counterparty}
    → find_row p rows ≡ some r
    → q r ≡ true
    → (s : Counterparty) × (find_row q rows ≡ some s)
unfolding find_row
find_row_finds p q [] found selected = ground (arith, found)
find_row_finds p q (x ∷ rows) found selected = elim (Bool-cases (q x)) [
  | inl chosen ↦ (x, rw chosen refl)
  | inr other ↦ elim (Bool-cases (p x)) [
    | inl here ↦
        absurd
          (false≢true (sym other ∙ rw (sym (some-injective _ _ (rw here at found))) at selected))
    | inr away ↦ let (s, e) = find_row_finds p q rows (rw away at found) selected in (s, rw other e)
  ]
]

pub has_pair_iff :
    (org : ℕ) (did : String) (r : Counterparty)
    → (has_pair org did r ≡ true) ↔ ((r.org_id ≡ org) × (r.counterparty_did ≡ did))
has_pair_iff org did r = (
  λ e. (ground (arith, e), (eq_iff r.counterparty_did did).0 (ground (arith, e))),
  λ (same_org, same_did). rw (same_org, same_did, eq_refl did) (ground arith),
)

pub has_id_and_org_iff :
    (id org : ℕ) (r : Counterparty)
    → (has_id_and_org id org r ≡ true) ↔ ((r.id ≡ id) × (r.org_id ≡ org))
has_id_and_org_iff id org r = (
  λ e. (ground (arith, e), ground (arith, e)),
  λ (same_id, same_org). ground (arith, same_id, same_org),
)

-- the row can be found again by a clause that selects its id
pub find_row_again :
    (p q : Counterparty → Bool) (rows : List Counterparty) {row : Counterparty}
    → Apart rows
    → find_row p rows ≡ some row
    → q row ≡ true
    → ((r : Counterparty) → q r ≡ true → r.id ≡ row.id)
    → find_row q rows ≡ some row
find_row_again p q rows {row = row} apart found selected one =
    let (s, e) = find_row_finds p q rows found selected in
    let same : s ≡ row =
      find_row_unique q p rows apart e found
        (λ differ. differ.other_id (one s (find_row_selects q rows e))) in
    rw same at e
