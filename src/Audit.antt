-- ===== src/Audit.antt =====
-- The tables of api/audit_store.py that receipts are matched in, and api/audit_coverage.py: the share of an agent's activities that expect a receipt of the counterparty
-- and have one, over windows of days. The tables are lists of rows, times are microseconds, the rate
-- is the exact fraction, and NOW() is an argument.
pub mod Figures
pub mod Rollups
pub mod Matching
pub mod Nearest
pub mod Links
pub mod Anomalies
pub mod Settles
pub mod Tests
use arp_spec.Common.{
  ℕ, zero, suc, ◌+◌, ◌-◌, ◌*◌, ◌/◌, ◌%◌, ◌≤◌, ◌<◌, String, ◌≡◌, refl, sym, ap, ◌≢◌, ◌↔◌, ◌⊎◌, inl,
  inr, Bool, true, false, not, ◌&&◌, ◌||◌, Option, none, some, List, [], ◌∷◌, ◌++◌, map, arith,
  length, get_or, All, any, all, ltb, leb, ◌==◌, if◌then◌else◌, ==_iff, ltb_iff, leb_iff,
  Bool-cases, Option-cases, Outcome, ok, err, ◌>>=◌, ◌>>◌, ℤ, pos, negsuc, subz, str_eq, eq_iff,
  false≢true,
}

pub record Activity : Type 0 where
  pub id : ℕ
  pub agent_did : String
  pub counterparty_did : Option String
  pub transaction_reference : Option String
  pub activity_timestamp : ℕ
  pub expects_counterparty_receipt : Bool

pub record ReceiptRow : Type 0 where
  pub id : ℕ
  pub matched_activity_id : Option ℕ

pub record Coverage : Type 0 where
  pub agent_did : String
  pub window_days : ℕ
  pub expected_receipts : ℕ
  pub received_receipts : ℕ
  -- the dividend and the divisor
  pub coverage_rate : Option (ℕ × ℕ)

pub record Rollup : Type 0 where
  pub coverage : Coverage
  pub computed_at : ℕ

pub record AuditTables : Type 0 where
  pub activities : List Activity
  pub receipts : List ReceiptRow
  pub rollups : List Rollup

abbrev pub day : ℕ
day = 86400000000

unfoldable pub where_rows {ℓ} : {A : Type ℓ} → (A → Bool) → List A → List A
where_rows p [] = []
where_rows p (x ∷ xs) = let rest = where_rows p xs in if p x then x ∷ rest else rest

-- the activity is the agent's, expects a receipt, and is not older than the window
unfoldable pub in_window : ℕ → String → ℕ → Activity → Bool
in_window now did days a =
    str_eq a.agent_did did
    && a.expects_counterparty_receipt
    && leb now (a.activity_timestamp + days * day)

abbrev pub is_id : ℕ → Option ℕ → Bool
is_id id none = false
is_id id (some other) = other == id

-- the rows that the join makes of one activity
unfoldable pub ids_matched : ℕ → List ReceiptRow → List ℕ
ids_matched id [] = []
ids_matched id (r ∷ rs) =
    let rest = ids_matched id rs in if is_id id r.matched_activity_id then id ∷ rest else rest

unfoldable pub join_ids : List Activity → List ReceiptRow → List ℕ
unfolding ids_matched
join_ids [] rs = []
join_ids (a ∷ activities) rs = ids_matched a.id rs ++ join_ids activities rs

-- each number once
unfoldable pub distinct : List ℕ → List ℕ
distinct [] = []
distinct (n ∷ ns) = let rest = distinct ns in if any (λ k. k == n) ns then rest else n ∷ rest

unfoldable pub rate_of : ℕ → ℕ → Option (ℕ × ℕ)
rate_of received expected = if ltb 0 expected then some (received, expected) else none

unfoldable pub has_key : String → ℕ → Rollup → Bool
has_key did days r = str_eq r.coverage.agent_did did && (r.coverage.window_days == days)

-- `INSERT ... ON CONFLICT (agent_did, window_days) DO UPDATE`
unfoldable pub upsert_rollup : Rollup → List Rollup → List Rollup
unfolding has_key
upsert_rollup new [] = new ∷ []
upsert_rollup new (r ∷ rs) =
    let rest = upsert_rollup new rs in
    if has_key new.coverage.agent_did new.coverage.window_days r then new ∷ rs else r ∷ rest

unfoldable pub coverage_of : ℕ → String → ℕ → AuditTables → Coverage
unfolding where_rows in_window join_ids distinct rate_of
coverage_of now did days db =
    let expected = where_rows (in_window now did days) db.activities in
    let received = length (distinct (join_ids expected db.receipts)) in
    record {
      agent_did = did;
      window_days = days;
      expected_receipts = length expected;
      received_receipts = received;
      coverage_rate = rate_of received (length expected);
    }

unfoldable pub compute_coverage : ℕ → String → ℕ → AuditTables → Coverage × AuditTables
unfolding coverage_of upsert_rollup
compute_coverage now did days db =
    let coverage = coverage_of now did days db in
    (
      coverage,
      record db {
        rollups = upsert_rollup (record { coverage = coverage; computed_at = now }) db.rollups;
      },
    )

unfoldable pub find_rollup : String → ℕ → List Rollup → Option Rollup
unfolding has_key
find_rollup did days [] = none
find_rollup did days (r ∷ rs) =
    let rest = find_rollup did days rs in if has_key did days r then some r else rest

unfoldable pub get_coverage : String → ℕ → AuditTables → Option Rollup
unfolding find_rollup
get_coverage did days db = find_rollup did days db.rollups

-- each window at the time of its transaction
unfoldable pub compute_windows : String → List (ℕ × ℕ) → AuditTables → List Coverage × AuditTables
unfolding compute_coverage
compute_windows did [] db = ([], db)
compute_windows did ((days, now) ∷ windows) db =
    let (coverage, db') = compute_coverage now did days db in
    let (rest, db'') = compute_windows did windows db' in (coverage ∷ rest, db'')

unfoldable pub compute_all_windows : ℕ → ℕ → ℕ → String → AuditTables → List Coverage × AuditTables
unfolding compute_windows
compute_all_windows first second third did db =
    compute_windows did ((7, first) ∷ (30, second) ∷ (90, third) ∷ []) db
