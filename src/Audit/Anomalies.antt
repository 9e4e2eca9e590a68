-- ===== src/Audit/Anomalies.antt =====
-- api/audit_anomalies.py, and the part of `ingest_receipt_endpoint` of api/audit_routes.py that
-- matches a new receipt. A row's id is the next of the table's sequence; a failed insert is rolled
-- back.
use Prim.Native.String.{◌++◌ as str_append}
use arp_spec.Common.{
  ℕ, suc, String, Bool, false, ◌&&◌, Option, none, some, List, [], ◌∷◌, ◌++◌, ltb, if◌then◌else◌,
  Outcome, ok, err, ◌>>=◌, pos, str_eq,
}
use arp_spec.Json.{Json, null, num, str, obj, field, end, PyError, type_error, other_error}
use arp_spec.Audit.{AuditTables}
use arp_spec.Audit.Matching.{Extracted, given_text, match_and_link}

pub record Anomaly : Type 0 where
  pub id : ℕ
  pub anomaly_type : String
  pub agent_did : String
  pub org_id : Option ℕ
  pub severity : String
  pub payload : Json
  pub detected_at : ℕ

pub record AnomalyTable : Type 0 where
  pub anomalies : List Anomaly
  pub next_id : ℕ

-- what is extracted of a ReceiptAcknowledgment
pub record Acknowledgment : Type 0 where
  pub credential_id : Option String
  pub agent_did : Option String
  pub counterparty_did : Option String
  pub in_response_to_request_id : Option String
  pub status : Option String
  pub reject_reason : Option String

unfoldable pub newer : Anomaly → Option Anomaly → Anomaly
newer r none = r
newer r (some s) = if ltb s.detected_at r.detected_at then r else s

-- `ORDER BY detected_at DESC LIMIT 1`
unfoldable pub latest : String → String → List Anomaly → Option Anomaly
unfolding newer
latest anomaly_type agent [] = none
latest anomaly_type agent (r ∷ rs) =
    let rest = latest anomaly_type agent rs in
    if str_eq r.anomaly_type anomaly_type && str_eq r.agent_did agent
    then some (newer r rest)
    else rest

abbrev pub id_of : Option Anomaly → Outcome PyError ℕ
id_of none = err type_error
id_of (some r) = ok r.id

abbrev pub anomaly_row : ℕ → String → String → String → Json → Option ℕ → AnomalyTable → Anomaly
anomaly_row now anomaly_type agent severity payload org t = record {
  id = t.next_id;
  anomaly_type = anomaly_type;
  agent_did = agent;
  org_id = org;
  severity = severity;
  payload = payload;
  detected_at = now;
}

-- the agent's column is NOT NULL
unfoldable pub record_anomaly :
    ℕ
    → String
    → Option String
    → String
    → Json
    → Option ℕ
    → AnomalyTable
    → Outcome PyError (ℕ × AnomalyTable)
unfolding latest
record_anomaly now anomaly_type none severity payload org t = err other_error
record_anomaly now anomaly_type (some agent) severity payload org t =
    let rows = t.anomalies ++ (anomaly_row now anomaly_type agent severity payload org t ∷ []) in
    id_of (latest anomaly_type agent rows) >>= λ id.
    ok (id, record { anomalies = rows; next_id = suc t.next_id })

abbrev pub json_of_text : Option String → Json
json_of_text none = null
json_of_text (some s) = str s

-- as an f-string shows it
abbrev pub shown : Option String → String
shown none = "None"
shown (some s) = s

unfoldable pub unmatched_payload : ℕ → Extracted → Json
unmatched_payload receipt_id e = obj (
    field "receipt_id" (num (pos receipt_id)) (
      field "receipt_credential_id" (json_of_text e.credential_id) (
        field "counterparty_did" (json_of_text e.counterparty_did) (
          field "transaction_reference" (json_of_text e.transaction_reference) (
            field "activity_type" (json_of_text e.activity_type) (
              field "activity_timestamp" (str e.timestamp_text) (
                field "description"
                  (str (
                    str_append "Counterparty " (
                      str_append (shown e.counterparty_did) (
                        str_append " signed a receipt for transaction " (
                          str_append (shown e.transaction_reference) (
                            str_append " but no corresponding AgentActivityCredential exists from "
                              (str_append (shown e.agent_did) ".")))))))
                  end)))))))

-- a missing or empty reference cannot be matched
abbrev pub when_given :
    Option String
    → Outcome PyError (ℕ × AnomalyTable)
    → AnomalyTable
    → Outcome PyError (Option ℕ × AnomalyTable)
when_given none recorded t = ok (none, t)
when_given (some reference) recorded t = recorded >>= λ r. ok (some r.0, r.1)

unfoldable pub detect_unmatched_receipt :
    ℕ → ℕ → Extracted → Option ℕ → AnomalyTable → Outcome PyError (Option ℕ × AnomalyTable)
unfolding record_anomaly unmatched_payload
detect_unmatched_receipt now receipt_id e (some activity_id) t = ok (none, t)
detect_unmatched_receipt now receipt_id e none t =
    when_given (given_text e.transaction_reference)
      (record_anomaly now "UnmatchedReceiptAnomaly" e.agent_did "high"
        (unmatched_payload receipt_id e) none t)
      t

unfoldable pub rejected_payload : Acknowledgment → Json
rejected_payload a = obj (
    field "ack_credential_id" (json_of_text a.credential_id) (
      field "counterparty_did" (json_of_text a.counterparty_did) (
        field "in_response_to_request_id" (json_of_text a.in_response_to_request_id) (
          field "reject_reason" (json_of_text a.reject_reason) (
            field "description"
              (str (
                str_append "Counterparty " (
                  str_append (shown a.counterparty_did) (
                    str_append " rejected receipt request " (
                      str_append (shown a.in_response_to_request_id)
                        (str_append ": " (str_append (shown a.reject_reason) ".")))))))
              end)))))

abbrev pub is_rejected : Option String → Bool
is_rejected none = false
is_rejected (some s) = str_eq s "rejected"

unfoldable pub detect_receipt_rejected :
    ℕ → Acknowledgment → AnomalyTable → Outcome PyError (Option ℕ × AnomalyTable)
unfolding record_anomaly rejected_payload
detect_receipt_rejected now a t =
    if is_rejected a.status
    then (record_anomaly now "ReceiptRejectedAnomaly" a.agent_did "high" (rejected_payload a) none t
        >>= λ r. ok (some r.0, r.1))
    else ok (none, t)

-- the ids of the activity and of the anomaly for a new receipt
pub record Settlement : Type 0 where
  pub matched_activity_id : Option ℕ
  pub anomaly_id : Option ℕ
  pub tables : AuditTables
  pub anomaly_table : AnomalyTable

unfoldable pub settle_receipt :
    ℕ → ℕ → Extracted → AuditTables → AnomalyTable → Outcome PyError Settlement
unfolding match_and_link detect_unmatched_receipt
settle_receipt now receipt_id e db t =
    let (found, after) = match_and_link receipt_id e db in
    detect_unmatched_receipt now receipt_id e found t >>= λ r.
    ok (record {
      matched_activity_id = found;
      anomaly_id = r.0;
      tables = after;
      anomaly_table = r.1;
    })
