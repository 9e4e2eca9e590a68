-- ===== src/Audit/Tests.antt =====
-- An agent with two receipts for one activity and one activity without.
use arp_spec.Common.{
  ℕ, ◌+◌, ◌*◌, ◌≤◌, String, ◌≡◌, refl, ◌↔◌, ◌⊎◌, inr, Bool, true, false, Option, none, some, [],
  ◌∷◌, arith, length, All, Outcome, ok, err,
}
use arp_spec.Audit.{
  Activity, ReceiptRow, AuditTables, day, where_rows, in_window, coverage_of, get_coverage,
  compute_all_windows,
}
use arp_spec.Audit.Matching.{Extracted, distance, set_receipt_match, match_and_link}
use arp_spec.Audit.Nearest.{Among, IsMatch}
use arp_spec.Json.{PyError}
use arp_spec.Audit.Matching.{given_text}
use arp_spec.Audit.Anomalies.{AnomalyTable, Acknowledgment, detect_receipt_rejected, settle_receipt}
use arp_spec.Audit.Settles.{unmatched_row, settlement, settle_receipt_lem}
use arp_spec.Audit.Links.{Sets, match_and_link_lem}
use arp_spec.Audit.Figures.{IsExpected, has_receipt, coverage_of_lem, HasUniqueIds}
use arp_spec.Audit.Rollups.{rollup_of, compute_all_windows-get_coverage}

abbrev activity : ℕ → ℕ → Bool → Activity
activity id days expects = record {
  id = id;
  agent_did = "agent";
  counterparty_did = some "seller";
  transaction_reference = some "tx";
  activity_timestamp = days * day;
  expects_counterparty_receipt = expects;
}

abbrev receipt_for : Option ℕ → ReceiptRow
receipt_for id = record { id = 5; matched_activity_id = id }

abbrev tables : AuditTables
tables = record {
  activities =
      activity 1 95 true ∷ activity 2 99 true ∷ activity 3 50 true ∷ activity 4 98 false ∷ [];
  receipts = receipt_for (some 1) ∷ receipt_for none ∷ receipt_for (some 1) ∷ [];
  rollups = [];
}

coverage_of_lem_example :
    let c = coverage_of (100 * day) "agent" 7 tables in
    (c.received_receipts
      ≡ length (
          where_rows
            (λ a. has_receipt tables.receipts a.id)
            (where_rows (in_window (100 * day) "agent" 7) tables.activities)))
    × (c.received_receipts ≤ c.expected_receipts)
    × ((c.coverage_rate ≡ none) ↔ (c.expected_receipts ≡ 0))
    × (c.expected_receipts
        ≡ length (where_rows (in_window (100 * day) "agent" 7) tables.activities))
    × ((a : Activity)
        → (in_window (100 * day) "agent" 7 a ≡ true) ↔ IsExpected (100 * day) "agent" 7 a)
unfolding HasUniqueIds
coverage_of_lem_example = coverage_of_lem (100 * day) "agent" 7 tables (
  (omega arith, (omega arith, (omega arith, tt))),
  ((omega arith, (omega arith, tt)), ((omega arith, tt), (tt, tt))),
)

half : (coverage_of (100 * day) "agent" 7 tables).coverage_rate ≡ some (1, 2)
unfolding coverage_of
half = refl

third_of_all : (coverage_of (100 * day) "agent" 90 tables).coverage_rate ≡ some (1, 3)
unfolding coverage_of
third_of_all = refl

nothing_expected : (coverage_of (100 * day) "other" 7 tables).coverage_rate ≡ none
unfolding coverage_of
nothing_expected = refl

compute_all_windows-get_coverage_example :
    let after = (compute_all_windows (100 * day) (100 * day) (101 * day) "agent" tables).1 in
    (get_coverage "agent" 7 after ≡ some (rollup_of (100 * day) "agent" 7 tables))
    × (get_coverage "agent" 30 after ≡ some (rollup_of (100 * day) "agent" 30 tables))
    × (get_coverage "agent" 90 after ≡ some (rollup_of (101 * day) "agent" 90 tables))
    × (get_coverage "agent" 8 after ≡ get_coverage "agent" 8 tables)
compute_all_windows-get_coverage_example =
    compute_all_windows-get_coverage (100 * day) (100 * day) (101 * day) "agent" tables "agent" 8
      (inr (omega arith, omega arith, omega arith))

abbrev extracted : Option String → Extracted
extracted reference = record {
  credential_id = some "receipt";
  activity_type = none;
  timestamp_text = "then";
  agent_did = some "agent";
  counterparty_did = some "seller";
  transaction_reference = reference;
  transaction_rail = some "solana";
  activity_timestamp = 99 * day + 60000000;
}

match_and_link_lem_example :
    let e = extracted (some "tx") in
    let (found, after) = match_and_link 5 e tables in
    ((a : Activity) × Among (IsMatch e) a tables.activities
      × All
          (λ b. IsMatch e b → distance e.activity_timestamp a ≤ distance e.activity_timestamp b)
          tables.activities
      × (found ≡ some a.id)
      × (after ≡ record tables { receipts = set_receipt_match 5 a.id tables.receipts })
      × Sets 5 a.id tables.receipts after.receipts)
    ⊎ (All (λ b. ¬ IsMatch e b) tables.activities × (found ≡ none) × (after ≡ tables))
match_and_link_lem_example = match_and_link_lem 5 (extracted (some "tx")) tables

links_nearest : (match_and_link 5 (extracted (some "tx")) tables).0 ≡ some 2
unfolding match_and_link
links_nearest = refl

no_reference : (match_and_link 5 (extracted (some "")) tables).0 ≡ none
unfolding match_and_link
no_reference = refl

abbrev anomaly_table : AnomalyTable
anomaly_table = record { anomalies = []; next_id = 1 }

settle_receipt_lem_example :
    let e = extracted (some "unknown") in
    ((a : Activity) × Among (IsMatch e) a tables.activities
      × (settle_receipt 9 5 e tables anomaly_table
          ≡ ok (
              settlement
                (some a.id)
                none
                (record tables { receipts = set_receipt_match 5 a.id tables.receipts })
                anomaly_table)))
    ⊎ (All (λ b. ¬ IsMatch e b) tables.activities
        × (given_text (some "unknown") ≡ none)
        × (settle_receipt 9 5 e tables anomaly_table
            ≡ ok (settlement none none tables anomaly_table)))
    ⊎ (All (λ b. ¬ IsMatch e b) tables.activities
        × ((reference : String) × (given_text (some "unknown") ≡ some reference))
        × (settle_receipt 9 5 e tables anomaly_table
            ≡ ok (
                settlement none (some 1) tables (record {
                  anomalies = unmatched_row 9 5 "agent" e anomaly_table ∷ [];
                  next_id = 2;
                }))))
settle_receipt_lem_example =
    settle_receipt_lem 9 5 "agent" (extracted (some "unknown")) tables anomaly_table refl tt

abbrev denial : Acknowledgment
denial = record {
  credential_id = some "ack";
  agent_did = some "agent";
  counterparty_did = some "seller";
  in_response_to_request_id = none;
  status = some "rejected";
  reject_reason = none;
}

abbrev anomaly_of : Outcome PyError (Option ℕ × AnomalyTable) → Option ℕ
anomaly_of (ok r) = r.0
anomaly_of (err e) = none

rejection_is_recorded : anomaly_of (detect_receipt_rejected 9 denial anomaly_table) ≡ some 1
unfolding detect_receipt_rejected
rejection_is_recorded = refl
