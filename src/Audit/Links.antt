-- ===== src/Audit/Links.antt =====
-- What `match_and_link` of api/audit_matcher.py returns and writes.
use arp_spec.Common.{
  ℕ, ◌≤◌, String, ◌≡◌, refl, sym, ◌⊎◌, inl, inr, false, none, some, List, [], ◌∷◌, All, ◌==◌,
  ==_iff, Bool-cases, Option-cases, false≢true, none_is_some, ◌∙◌,
}
use arp_spec.Audit.{Activity, ReceiptRow, AuditTables, where_rows}
use arp_spec.Audit.Matching.{
  Extracted, distance, is_candidate, nearest, find_matching_activity, given_text, attempt_match,
  set_receipt_match, match_and_link,
}
use arp_spec.Audit.Nearest.{
  Among, IsMatch, tolerance_floor, present_some, some_present, All-map, nearest-none, IsNearest,
  nearest-IsNearest, candidate-IsMatch, IsMatch-candidate, first, later,
}

every :
    (P : Activity → Type 0) (activities : List Activity) → ((b : Activity) → P b) → All P activities
every P [] f = tt
every P (b ∷ activities) f = (f b, every P activities f)

Among-map :
    (P Q : Activity → Type 0) {a : Activity} (activities : List Activity)
    → ((b : Activity) → P b → Q b)
    → Among P a activities
    → Among Q a activities
Among-map P Q {a = a} activities f (first h) = first (f a h)
Among-map P Q activities f (later h) = later (Among-map P Q _ f h)

-- nothing matches
IsUnmatched : Extracted → AuditTables → Type 0
IsUnmatched e db = (attempt_match e db ≡ none) × All (λ b. ¬ IsMatch e b) db.activities

IsMatched : Extracted → AuditTables → Type 0
IsMatched e db =
    (a : Activity) × (attempt_match e db ≡ some a)
    × Among (IsMatch e) a db.activities
    × All (λ b. IsMatch e b → distance e.activity_timestamp a ≤ distance e.activity_timestamp b)
        db.activities

searched :
    (e : Extracted) (db : AuditTables) (agent counterparty reference : String)
    → given_text e.agent_did ≡ some agent
    → given_text e.counterparty_did ≡ some counterparty
    → given_text e.transaction_reference ≡ some reference
    → IsMatched e db ⊎ IsUnmatched e db
unfolding attempt_match find_matching_activity IsMatched IsUnmatched IsNearest
searched e db agent counterparty reference h1 h2 h3 =
    let t1 = present_some e.agent_did h1 in
    let t2 = present_some e.counterparty_did h2 in
    let t3 = present_some e.transaction_reference h3 in
    let p = is_candidate agent counterparty reference e.activity_timestamp 120 in
    let to = candidate-IsMatch e agent counterparty reference t1 t2 t3 in
    let from = IsMatch-candidate e agent counterparty reference t1.0 t2.0 t3.0 in
    elim (Option-cases (nearest e.activity_timestamp (where_rows p db.activities))) [
      | inl nothing ↦ inr (
        rw (h1, h2, h3, tolerance_floor e.transaction_rail) nothing,
        All-map _ _ db.activities (λ b out m. false≢true (sym out ∙ from b m))
            (nearest-none e.activity_timestamp p db.activities nothing),
      )
      | inr (a, found) ↦
          let (among, least) = nearest-IsNearest e.activity_timestamp p db.activities found in
          inl (
            a,
            rw (h1, h2, h3, tolerance_floor e.transaction_rail) found,
            Among-map _ _ db.activities to among,
            All-map _ _ db.activities (λ b near m. near (from b m)) least,
          )
    ]

attempt_match-cases : (e : Extracted) (db : AuditTables) → IsMatched e db ⊎ IsUnmatched e db
unfolding attempt_match IsUnmatched
attempt_match-cases e db = elim (Option-cases (given_text e.agent_did)) [
  | inl missing ↦ inr (
    rw missing refl,
    every _ db.activities
        (λ b m. none_is_some (sym missing ∙ some_present _ m.same_agent m.has_agent)),
  )
  | inr (agent, h1) ↦ elim (Option-cases (given_text e.counterparty_did)) [
    | inl missing ↦ inr (
      rw (h1, missing) refl,
      every _ db.activities (λ b m.
          none_is_some (sym missing ∙ some_present _ m.same_counterparty.0 m.has_counterparty)),
    )
    | inr (counterparty, h2) ↦ elim (Option-cases (given_text e.transaction_reference)) [
      | inl missing ↦ inr (
        rw (h1, h2, missing) refl,
        every _ db.activities
            (λ b m. none_is_some (sym missing ∙ some_present _ m.same_reference.0 m.has_reference)),
      )
      | inr (reference, h3) ↦ searched e db agent counterparty reference h1 h2 h3
    ]
  ]
]

-- the receipts before and after the write of an activity's id to those with one id
pub data Sets (receipt_id activity_id : ℕ) : List ReceiptRow → List ReceiptRow → Type 0 where
  no_rows : Sets receipt_id activity_id [] []
  set_row :
      {r : ReceiptRow} {rs rs' : List ReceiptRow}
      → r.id ≡ receipt_id
      → Sets receipt_id activity_id rs rs'
      → Sets receipt_id activity_id
          (r ∷ rs)
          (record r { matched_activity_id = some activity_id } ∷ rs')
  same_row :
      {r : ReceiptRow} {rs rs' : List ReceiptRow}
      → (r.id == receipt_id) ≡ false
      → Sets receipt_id activity_id rs rs'
      → Sets receipt_id activity_id (r ∷ rs) (r ∷ rs')

set_receipt_match-Sets :
    (receipt_id activity_id : ℕ) (rs : List ReceiptRow)
    → Sets receipt_id activity_id rs (set_receipt_match receipt_id activity_id rs)
unfolding set_receipt_match
set_receipt_match-Sets receipt_id activity_id [] = no_rows
set_receipt_match-Sets receipt_id activity_id (r ∷ rs) =
    let rest = set_receipt_match-Sets receipt_id activity_id rs in
    elim (Bool-cases (r.id == receipt_id)) [
      | inl own ↦ rw own (set_row ((==_iff r.id receipt_id).0 own) rest)
      | inr other ↦ rw other (same_row other rest)
    ]

-- `match_and_link` returns the id of an activity of the table with the receipt's agent, counterparty
-- and reference, all present and not empty, that is at most 120 seconds from the receipt, whatever its
-- rail, and no other such activity is nearer; it then writes this id to the receipt, leaves the other
-- receipts as they are and changes nothing else. If there is no such activity, it returns None and changes nothing.
pub match_and_link_lem :
    (receipt_id : ℕ) (e : Extracted) (db : AuditTables)
    → let (found, after) = match_and_link receipt_id e db in
      ((a : Activity) × Among (IsMatch e) a db.activities
        × All
            (λ b. IsMatch e b → distance e.activity_timestamp a ≤ distance e.activity_timestamp b)
            db.activities
        × (found ≡ some a.id)
        × (after ≡ record db { receipts = set_receipt_match receipt_id a.id db.receipts })
        × Sets receipt_id a.id db.receipts after.receipts)
      ⊎ (All (λ b. ¬ IsMatch e b) db.activities × (found ≡ none) × (after ≡ db))
unfolding match_and_link IsMatched IsUnmatched
match_and_link_lem receipt_id e db = elim (attempt_match-cases e db) [
  | inl (a, found, among, least) ↦ inl (
    a,
    among,
    least,
    rw found refl,
    rw found refl,
    rw found (set_receipt_match-Sets receipt_id a.id db.receipts),
  )
  | inr (nothing, none_match) ↦ inr (none_match, rw nothing refl, rw nothing refl)
]
