-- ===== src/Audit/Rollups.antt =====
-- What `get_coverage` of api/audit_coverage.py reads after the windows were computed.
use arp_spec.Common.{
  ℕ, String, ◌≡◌, refl, sym, ◌≢◌, ◌⊎◌, inl, inr, true, false, some, List, [], ◌∷◌, arith, ==_iff,
  Bool-cases, eq_iff, eq_refl, ◌∙◌,
}
use arp_spec.Audit.{
  Rollup, AuditTables, has_key, upsert_rollup, coverage_of, compute_coverage, find_rollup,
  get_coverage, compute_windows, compute_all_windows,
}

has_key_of_own :
    (did : String) (days : ℕ) (r : Rollup)
    → r.coverage.agent_did ≡ did
    → r.coverage.window_days ≡ days
    → has_key did days r ≡ true
unfolding has_key
has_key_of_own did days r same_did same_days = rw (same_did, same_days, eq_refl did) (ground arith)

find_rollup-upsert_rollup :
    (new : Rollup) (rs : List Rollup)
    → find_rollup new.coverage.agent_did new.coverage.window_days (upsert_rollup new rs) ≡ some new
unfolding find_rollup upsert_rollup
find_rollup-upsert_rollup new [] = rw (has_key_of_own _ _ new refl refl) refl
find_rollup-upsert_rollup new (r ∷ rs) =
    elim (Bool-cases (has_key new.coverage.agent_did new.coverage.window_days r)) [
      | inl here ↦ rw here (rw (has_key_of_own _ _ new refl refl) refl)
      | inr later ↦ rw (later, later) (find_rollup-upsert_rollup new rs)
    ]

-- another key
abbrev IsOther : String → ℕ → String → ℕ → Type 0
IsOther did days did' days' = (did' ≢ did) ⊎ (days' ≢ days)

key_of :
    (did : String) (days : ℕ) (r : Rollup)
    → has_key did days r ≡ true
    → (r.coverage.agent_did ≡ did) × (r.coverage.window_days ≡ days)
unfolding has_key
key_of did days r own = (
  (eq_iff r.coverage.agent_did did).0 (ground (arith, own)),
  (==_iff r.coverage.window_days days).0 (ground (arith, own)),
)

not_own :
    (did : String) (days : ℕ) (r : Rollup)
    → IsOther r.coverage.agent_did r.coverage.window_days did days
    → has_key did days r ≡ false
not_own did days r other = elim (Bool-cases (has_key did days r)) [
  | inl own ↦
      let (same_did, same_days) = key_of did days r own in
      elim other [ inl ne ↦ absurd (ne (sym same_did)) | inr ne ↦ absurd (ne (sym same_days)) ]
  | inr e ↦ e
]

-- no row has both keys
not_both :
    (did : String) (days : ℕ) (did' : String) (days' : ℕ) (r : Rollup)
    → IsOther did days did' days'
    → has_key did days r ≡ true
    → has_key did' days' r ≡ false
not_both did days did' days' r other own =
    let (same_did, same_days) = key_of did days r own in
    not_own did' days' r (rw (sym same_did, sym same_days) at other)

find_rollup-upsert_other :
    (did : String) (days : ℕ) (new : Rollup) (rs : List Rollup)
    → IsOther new.coverage.agent_did new.coverage.window_days did days
    → find_rollup did days (upsert_rollup new rs) ≡ find_rollup did days rs
unfolding find_rollup upsert_rollup
find_rollup-upsert_other did days new [] other = rw (not_own did days new other) refl
find_rollup-upsert_other did days new (r ∷ rs) other =
    elim (Bool-cases (has_key new.coverage.agent_did new.coverage.window_days r)) [
      | inl here ↦ rw (here, not_own did days new other, not_both _ _ did days r other here) refl
      | inr later ↦ elim (Bool-cases (has_key did days r)) [
        | inl found ↦ rw (later, found) refl
        | inr missing ↦ rw (later, missing) (find_rollup-upsert_other did days new rs other)
      ]
    ]

other_than : {A B C : Type 0} → A ⊎ B → (B → C) → A ⊎ C
other_than (inl a) f = inl a
other_than (inr b) f = inr (f b)

abbrev pub rollup_of : ℕ → String → ℕ → AuditTables → Rollup
unfolding coverage_of
rollup_of now did days db = record { coverage = coverage_of now did days db; computed_at = now }

-- After the three windows of an agent were computed, `get_coverage` reads for each of 7, 30 and 90 days
-- the coverage that the activities and receipts give at the time of its computation, with that time;
-- for another agent or another window it reads what it read before.
pub compute_all_windows-get_coverage :
    (first second third : ℕ) (did : String) (db : AuditTables) (did' : String) (days' : ℕ)
    → (did' ≢ did) ⊎ ((days' ≢ 7) × (days' ≢ 30) × (days' ≢ 90))
    → let after = (compute_all_windows first second third did db).1 in
      (get_coverage did 7 after ≡ some (rollup_of first did 7 db))
      × (get_coverage did 30 after ≡ some (rollup_of second did 30 db))
      × (get_coverage did 90 after ≡ some (rollup_of third did 90 db))
      × (get_coverage did' days' after ≡ get_coverage did' days' db)
unfolding compute_all_windows compute_windows compute_coverage get_coverage coverage_of
compute_all_windows-get_coverage first second third did db did' days' other =
    let c7 = rollup_of first did 7 db in
    let c30 = rollup_of second did 30 db in
    let c90 = rollup_of third did 90 db in
    let r7 = upsert_rollup c7 db.rollups in
    let r30 = upsert_rollup c30 r7 in
    (
      find_rollup-upsert_other did 7 c90 r30 (inr (omega arith))
          ∙ find_rollup-upsert_other did 7 c30 r7 (inr (omega arith))
          ∙ find_rollup-upsert_rollup c7 db.rollups,
      find_rollup-upsert_other did 30 c90 r30 (inr (omega arith))
          ∙ find_rollup-upsert_rollup c30 r7,
      find_rollup-upsert_rollup c90 r30,
      find_rollup-upsert_other did' days' c90 r30 (other_than other (λ h. h.2))
          ∙ find_rollup-upsert_other did' days' c30 r7 (other_than other (λ h. h.1))
          ∙ find_rollup-upsert_other did' days' c7 db.rollups (other_than other (λ h. h.0)),
    )
