-- ===== src/Policy/Limits.antt =====
-- The rate limit of api/policy_client.py and the engine table of api/policy_engine_store.py.
use arp_spec.Common.{
  ℕ, suc, ◌+◌, ◌-◌, ◌≤◌, ◌<◌, ◌≡◌, refl, sym, ◌≢◌, inl, inr, true, false, none, some, List, [], ◌∷◌,
  arith, length, All, leb, ◌==◌, if◌then◌else◌, ==_iff, Bool-cases, min,
}
use arp_spec.Policy.{
  EngineRow, Window, rate_limit_per_sec, get_engine, register_engine, deactivate_engine,
  update_engines, engine_of_org, is_some,
}
use arp_spec.Policy.Client.{window_of, set_window, judge_window, check_rate_limit}

window_of-set_window : (w : Window) (ws : List Window) → window_of w.org (set_window w ws) ≡ some w
unfolding window_of set_window
window_of-set_window w [] = let same = (==_iff w.org w.org).1 refl in rw same refl
window_of-set_window w (v ∷ vs) = elim (Bool-cases (v.org == w.org)) [
  | inl hit ↦ let same = (==_iff w.org w.org).1 refl in rw (hit, same) refl
  | inr miss ↦ rw (miss, miss) (window_of-set_window w vs)
]

-- how many of the calls at these times are within the limit
unfoldable pub passed : ℕ → List ℕ → List Window → ℕ
unfolding check_rate_limit
passed org [] ws = 0
passed org (now ∷ times) ws =
    let (within, next) = check_rate_limit org now ws in
    let rest = passed org times next in if within then suc rest else rest

-- For an org with a window whose count is at most 100, and calls at times less than a second after
-- the start of that window, exactly as many calls pass as are left of the 100, or all of them if
-- they are fewer.
pub passed_in_window :
    (org : ℕ) (times : List ℕ) (ws : List Window) (w : Window)
    → window_of org ws ≡ some w
    → w.count ≤ rate_limit_per_sec
    → All (λ now. now - w.window_start < 1000000) times
    → passed org times ws ≡ min (length times) (rate_limit_per_sec - w.count)
unfolding passed check_rate_limit judge_window
passed_in_window org [] ws w found fits early = omega arith
passed_in_window org (now ∷ times) ws w found fits early =
    let fresh : leb 1000000 (now - w.window_start) ≡ false = ground (arith, early.0) in
    elim (Bool-cases (leb rate_limit_per_sec w.count)) [
      | inl full ↦
          let same = passed_in_window org times ws w found fits early.1 in
          rw (found, fresh, full) (ground (arith, same, full, fits))
      | inr room ↦
          let bumped : Window = record {
            org = org;
            count = w.count + 1;
            window_start = w.window_start;
          } in
          let same =
            passed_in_window org times (set_window bumped ws) bumped
              (window_of-set_window bumped ws) (ground (arith, room)) early.1 in
          rw (found, fresh, room) (ground (arith, same, room, fits))
    ]

get_engine-update_engines_ne :
    (org other : ℕ) (f : EngineRow → EngineRow) (rows : List EngineRow)
    → ((row : EngineRow) → row.org_id ≡ other → (f row).org_id ≡ other)
    → org ≢ other
    → get_engine org (update_engines other f rows) ≡ get_engine org rows
unfolding get_engine update_engines
get_engine-update_engines_ne org other f [] keeps ne = refl
get_engine-update_engines_ne org other f (row ∷ rows) keeps ne =
    let rest = get_engine-update_engines_ne org other f rows keeps ne in
    elim (Bool-cases (row.org_id == other)) [
      | inr miss ↦ rw (miss, rest) refl
      | inl hit ↦
          let at_other : row.org_id ≡ other = (==_iff _ _).0 hit in
          let new_id : (f row).org_id ≡ other = keeps row at_other in
          let away : (other == org) ≡ false = elim (Bool-cases (other == org)) [
            | inr no_match ↦ no_match
            | inl match ↦ absurd (ne (sym ((==_iff _ _).0 match)))
          ] in
          rw (hit, new_id, at_other, away, rest) refl
    ]

get_engine-register_existing :
    (new : EngineRow) (rows : List EngineRow)
    → is_some (engine_of_org new.org_id rows) ≡ true
    → get_engine new.org_id (update_engines new.org_id (λ _. record new { is_active = true }) rows)
      ≡ some (record new { is_active = true })
unfolding get_engine update_engines engine_of_org
get_engine-register_existing new [] h = cc h
get_engine-register_existing new (row ∷ rows) h =
    let same = (==_iff new.org_id new.org_id).1 refl in
    elim (Bool-cases (row.org_id == new.org_id)) [
      | inl hit ↦ rw (hit, same) refl
      | inr miss ↦ rw (miss, miss) (get_engine-register_existing new rows (rw miss at h))
    ]

get_engine-deactivated :
    (org : ℕ) (rows : List EngineRow)
    → get_engine org (update_engines org (λ row. record row { is_active = false }) rows) ≡ none
unfolding get_engine update_engines
get_engine-deactivated org [] = refl
get_engine-deactivated org (row ∷ rows) =
    let rest = get_engine-deactivated org rows in
    elim (Bool-cases (row.org_id == org)) [
      | inl hit ↦ rw (hit, hit, rest) refl
      | inr miss ↦ rw (miss, miss, rest) refl
    ]

-- Registering an engine, whether the org had one or not, makes it the org's engine, and active;
-- deactivating leaves the org without one, and reports whether it had one; and neither changes the
-- engine of another org.
get_engine_lem :
    (new : EngineRow) (rows : List EngineRow)
    → (get_engine new.org_id (register_engine new rows) ≡ some (record new { is_active = true }))
      × (get_engine new.org_id ((deactivate_engine new.org_id rows).1) ≡ none)
      × ((deactivate_engine new.org_id rows).0 ≡ is_some (get_engine new.org_id rows))
      × ((org : ℕ)
          → org ≢ new.org_id
          → (get_engine org (register_engine new rows) ≡ get_engine org rows)
            × (get_engine org ((deactivate_engine new.org_id rows).1) ≡ get_engine org rows))
unfolding register_engine deactivate_engine get_engine
get_engine_lem new rows =
    let same = (==_iff new.org_id new.org_id).1 refl in
    (
      elim (Bool-cases (is_some (engine_of_org new.org_id rows))) [
        | inl had ↦ rw had (get_engine-register_existing new rows had)
        | inr lacked ↦ rw (lacked, same) refl
      ],
      get_engine-deactivated new.org_id rows,
      refl,
      λ org ne. (
        registered org ne,
        get_engine-update_engines_ne org new.org_id (λ row. record row { is_active = false }) rows
            (λ row e. e) ne,
      ),
    )
  where
    registered :
        (org : ℕ)
        → org ≢ new.org_id
        → get_engine org (register_engine new rows) ≡ get_engine org rows
    registered org ne = elim (Bool-cases (is_some (engine_of_org new.org_id rows))) [
      | inl had ↦ rw had (
          get_engine-update_engines_ne org new.org_id (λ _. record new { is_active = true }) rows
            (λ row e. refl) ne)
      | inr lacked ↦
          let away : (new.org_id == org) ≡ false = elim (Bool-cases (new.org_id == org)) [
            | inr no_match ↦ no_match
            | inl match ↦ absurd (ne (sym ((==_iff _ _).0 match)))
          ] in
          rw (lacked, away) refl
    ]
