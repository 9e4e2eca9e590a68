-- ===== src/Audit/Settles.antt =====
-- What becomes of a new receipt in api/audit_routes.py: a link to an activity or an anomaly.
use arp_spec.Common.{
  ℕ, suc, ◌<◌, String, ◌≡◌, refl, ◌⊎◌, inl, inr, false, ◌&&◌, Option, none, some, List, [], ◌∷◌,
  ◌++◌, arith, All, ltb, Bool-cases, Option-cases, ok, str_eq, eq_refl,
}
use arp_spec.Json.{Json}
use arp_spec.Audit.{Activity, AuditTables}
use arp_spec.Audit.Matching.{Extracted, given_text, set_receipt_match}
use arp_spec.Audit.Nearest.{Among, IsMatch}
use arp_spec.Audit.Links.{match_and_link_lem}
use arp_spec.Audit.Anomalies.{
  Anomaly, AnomalyTable, newer, latest, anomaly_row, record_anomaly, unmatched_payload,
  detect_unmatched_receipt, Settlement, settle_receipt,
}

-- the newest row of the type and agent is the one appended
latest-append :
    (anomaly_type agent : String) (new : Anomaly) (rows : List Anomaly)
    → All (λ r. r.detected_at < new.detected_at) rows
    → new.anomaly_type ≡ anomaly_type
    → new.agent_did ≡ agent
    → latest anomaly_type agent (rows ++ (new ∷ [])) ≡ some new
unfolding latest newer
latest-append anomaly_type agent new [] older h1 h2 =
    rw (h1, h2, eq_refl anomaly_type, eq_refl agent) refl
latest-append anomaly_type agent new (r ∷ rows) older h1 h2 =
    let rest = latest-append anomaly_type agent new rows older.1 h1 h2 in
    elim (Bool-cases (str_eq r.anomaly_type anomaly_type && str_eq r.agent_did agent)) [
      | inl same ↦
          let before : ltb new.detected_at r.detected_at ≡ false = ground (arith, older.0) in
          rw (same, rest) (rw before refl)
      | inr other ↦ rw other rest
    ]

recorded :
    (now : ℕ) (anomaly_type agent severity : String) (payload : Json) (org : Option ℕ)
    (t : AnomalyTable) (holder : Option String)
    → holder ≡ some agent
    → All (λ r. r.detected_at < now) t.anomalies
    → record_anomaly now anomaly_type holder severity payload org t
      ≡ ok (
        t.next_id,
        record {
          anomalies =
              t.anomalies ++ (anomaly_row now anomaly_type agent severity payload org t ∷ []);
          next_id = suc t.next_id;
        },
      )
unfolding record_anomaly
recorded now anomaly_type agent severity payload org t holder held older =
    rw
      (
        held,
        latest-append anomaly_type agent (anomaly_row now anomaly_type agent severity payload org t)
            t.anomalies older refl refl,
      )
      refl

-- the anomaly of an unmatched receipt
abbrev pub unmatched_row : ℕ → ℕ → String → Extracted → AnomalyTable → Anomaly
unfolding unmatched_payload
unmatched_row now receipt_id agent e t =
    anomaly_row now "UnmatchedReceiptAnomaly" agent "high" (unmatched_payload receipt_id e) none t

abbrev pub settlement : Option ℕ → Option ℕ → AuditTables → AnomalyTable → Settlement
settlement found anomaly db t = record {
  matched_activity_id = found;
  anomaly_id = anomaly;
  tables = db;
  anomaly_table = t;
}

-- A new receipt with an agent, at a time after every anomaly of the table, has one of three outcomes,
-- and none raises. An activity matches it: then it is linked to one that matches, and no anomaly is
-- recorded. No activity matches it and its reference is missing or empty: then nothing changes. No
-- activity matches it and it has a reference: then the tables of the audit stay, one anomaly of the type
-- UnmatchedReceiptAnomaly for the agent is appended, and its id is the one that is returned.
pub settle_receipt_lem :
    (now receipt_id : ℕ) (agent : String) (e : Extracted) (db : AuditTables) (t : AnomalyTable)
    → e.agent_did ≡ some agent
    → All (λ r. r.detected_at < now) t.anomalies
    → ((a : Activity) × Among (IsMatch e) a db.activities
        × (settle_receipt now receipt_id e db t
            ≡ ok (
                settlement
                  (some a.id)
                  none
                  (record db { receipts = set_receipt_match receipt_id a.id db.receipts })
                  t)))
      ⊎ (All (λ b. ¬ IsMatch e b) db.activities
          × (given_text e.transaction_reference ≡ none)
          × (settle_receipt now receipt_id e db t ≡ ok (settlement none none db t)))
      ⊎ (All (λ b. ¬ IsMatch e b) db.activities
          × ((reference : String) × (given_text e.transaction_reference ≡ some reference))
          × (settle_receipt now receipt_id e db t
              ≡ ok (
                  settlement none (some t.next_id) db (record {
                    anomalies = t.anomalies ++ (unmatched_row now receipt_id agent e t ∷ []);
                    next_id = suc t.next_id;
                  }))))
unfolding settle_receipt detect_unmatched_receipt
settle_receipt_lem now receipt_id agent e db t has_agent older =
    elim (match_and_link_lem receipt_id e db) [
      | inl (a, among, least, found, after, _) ↦ inl (a, among, rw (found, after) refl)
      | inr (unmatched, found, after) ↦ elim (Option-cases (given_text e.transaction_reference)) [
        | inl missing ↦ inr (inl (unmatched, missing, rw (found, after, missing) refl))
        | inr (reference, given) ↦ inr (
            inr (
              unmatched,
              (reference, given),
              rw
                  (
                    found,
                    after,
                    given,
                    recorded now "UnmatchedReceiptAnomaly" agent "high"
                        (unmatched_payload receipt_id e) none t e.agent_did has_agent older,
                  )
                  refl,
            ))
      ]
    ]
