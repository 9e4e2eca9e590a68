-- ===== src/Counterparty/Statuses.antt =====
-- The statuses that the table of api/counterparty_store.py holds, as a map, and what an UPDATE or an
-- INSERT does to them.
use arp_spec.Common.{
  ℕ, suc, String, ◌≡◌, refl, sym, ap, inl, inr, Bool, true, ◌&&◌, Option, none, some, ◌∷◌, arith,
  ◌==◌, if◌then◌else◌, Bool-cases, Option-cases, str_eq, false≢true, none_is_some, ◌∙◌,
}
use arp_spec.Counterparty.{
  References, Counterparty, Table, find_row, set_rows, has_id, has_id_and_org, has_pair, option_map,
}
use arp_spec.Counterparty.Rows.{
  Apart, Keeps, find_row-set_rows, find_row_selects, find_row_unique, find_row_finds, has_pair_iff,
}
use arp_spec.Counterparty.Calls.{is_user, Call, accept, revoke, update_metadata}

-- the specification: a status for an organisation and a DID

abbrev pub Statuses : Type 0
Statuses = ℕ → String → Option String

abbrev pub put : ℕ → String → String → Statuses → Statuses
put org did s v o d = if org == o && str_eq did d then some s else v o d

-- the status that the table holds
unfoldable pub statuses : Table → Statuses
statuses t org did = option_map (λ r. r.status) (find_row (has_pair org did) t.rows)

-- the DID that an id stands for in an organisation
unfoldable pub named : Table → ℕ → ℕ → Option String
named t id org = option_map (λ r. r.counterparty_did) (find_row (has_id_and_org id org) t.rows)

abbrev pub put_named : ℕ → Option String → String → Statuses → Statuses
put_named org none s v = v
put_named org (some did) s v = put org did s v

-- whether the database takes an acceptance: of a pair that has no row, the organisation must exist
abbrev pub may_accept : References → ℕ → String → Option String → Bool
may_accept refs org user none = is_user refs user && refs.org_exists org
may_accept refs org user (some status) = is_user refs user

-- what a call means for the statuses, where `who` is the DID that an id stands for
abbrev pub meaning : References → Call → (ℕ → ℕ → Option String) → Statuses → Statuses
meaning refs (accept now org did user tag notes) who v =
    if may_accept refs org user (v org did) then put org did "accepted" v else v
meaning refs (revoke now id org user reason) who v =
    if is_user refs user then put_named org (who id org) "revoked" v else v
meaning refs (update_metadata now id org tag notes) who v = v

has_pair-Keeps :
    (f : Counterparty → Counterparty) (org : ℕ) (did : String)
    → Keeps f
    → (r : Counterparty) → has_pair org did (f r) ≡ has_pair org did r
has_pair-Keeps f org did keeps r = rw (keeps.org r, keeps.did r) refl

-- an UPDATE that sets the status of the one row it selects
pub statuses-set_rows :
    (p : Counterparty → Bool) (f : Counterparty → Counterparty) (t : Table) (row : Counterparty)
    (s : String) (o : ℕ) (d : String)
    → Apart t.rows
    → Keeps f
    → ((r : Counterparty) → (f r).status ≡ s)
    → find_row p t.rows ≡ some row
    → ((r : Counterparty) → p r ≡ true → r.id ≡ row.id)
    → statuses (record t { rows = set_rows p f t.rows }) o d
      ≡ put row.org_id row.counterparty_did s (statuses t) o d
unfolding statuses
statuses-set_rows p f t row s o d apart keeps sets found one =
    rw (find_row-set_rows (has_pair o d) p f t.rows (has_pair-Keeps f o d keeps))
      (elim (Option-cases (find_row (has_pair o d) t.rows)) [
        | inl missing ↦ elim (Bool-cases (has_pair o d row)) [
          | inl here ↦
              let (x, e) = find_row_finds p (has_pair o d) t.rows found here in
              none_is_some (sym missing ∙ e)
          | inr away ↦ rw (missing, away) refl
        ]
        | inr (r, at_pair) ↦ elim (Bool-cases (p r)) [
          | inl hit ↦
              let same : r ≡ row =
                find_row_unique (has_pair o d) p t.rows apart at_pair found
                  (λ differ. differ.other_id (one r hit)) in
              let here : has_pair o d row ≡ true =
                rw same at (find_row_selects (has_pair o d) t.rows at_pair) in
              rw (at_pair, hit, here) (ap some (sets r))
          | inr miss ↦ elim (Bool-cases (has_pair o d row)) [
            | inl here ↦
                let r_pair =
                  (has_pair_iff o d r).0 (find_row_selects (has_pair o d) t.rows at_pair) in
                let row_pair = (has_pair_iff o d row).0 here in
                let same : r ≡ row =
                  find_row_unique (has_pair o d) p t.rows apart at_pair found (λ differ.
                    differ.other_pair (r_pair.0 ∙ sym row_pair.0) (r_pair.1 ∙ sym row_pair.1)) in
                absurd (false≢true (sym miss ∙ rw (sym same) at (find_row_selects p t.rows found)))
            | inr away ↦ rw (at_pair, miss, away) refl
          ]
        ]
      ])

-- an UPDATE that leaves the status alone
pub statuses-set_rows_same :
    (p : Counterparty → Bool) (f : Counterparty → Counterparty) (t : Table) (o : ℕ) (d : String)
    → Keeps f
    → ((r : Counterparty) → (f r).status ≡ r.status)
    → statuses (record t { rows = set_rows p f t.rows }) o d ≡ statuses t o d
unfolding statuses
statuses-set_rows_same p f t o d keeps same =
    rw (find_row-set_rows (has_pair o d) p f t.rows (has_pair-Keeps f o d keeps))
      (elim (Option-cases (find_row (has_pair o d) t.rows)) [
        | inl missing ↦ rw missing refl
        | inr (r, at_pair) ↦ elim (Bool-cases (p r)) [
          | inl hit ↦ rw (at_pair, hit) (ap some (same r))
          | inr miss ↦ rw (at_pair, miss) refl
        ]
      ])

pub row_of_id : (id : ℕ) (r row : Counterparty) → has_id id r ≡ true → row.id ≡ id → r.id ≡ row.id
row_of_id id r row h same = ground (arith, h, same)

pub statuses-insert :
    (t : Table) (row : Counterparty) (o : ℕ) (d : String)
    → statuses (record t { rows = row ∷ t.rows; next_id = suc t.next_id }) o d
      ≡ put row.org_id row.counterparty_did row.status (statuses t) o d
unfolding statuses find_row
statuses-insert t row o d = elim (Bool-cases (has_pair o d row)) [
  | inl here ↦ rw here refl
  | inr away ↦ rw away refl
]
