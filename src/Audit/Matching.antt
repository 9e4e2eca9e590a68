-- ===== src/Audit/Matching.antt =====
-- api/audit_matcher.py, and the two statements of api/audit_store.py that it uses: a receipt is linked
-- to the activity with its parties and reference that is nearest in time.
use arp_spec.Common.{
  ℕ, ◌+◌, ◌-◌, ◌*◌, ◌/◌, String, Bool, false, ◌&&◌, ◌||◌, Option, none, some, List, [], ◌∷◌, leb,
  ◌==◌, if◌then◌else◌, str_eq,
}
use arp_spec.Audit.{Activity, ReceiptRow, AuditTables, where_rows}

-- what is extracted of a receipt
pub record Extracted : Type 0 where
  pub credential_id : Option String
  pub activity_type : Option String
  pub agent_did : Option String
  pub counterparty_did : Option String
  pub transaction_reference : Option String
  pub transaction_rail : Option String
  -- the text of the time, and the instant it denotes
  pub timestamp_text : String
  pub activity_timestamp : ℕ

-- RAIL_FINALITY_SECONDS, in half seconds
unfoldable pub finality_of : String → Option ℕ
finality_of rail =
    if str_eq rail "trc20" || str_eq rail "tron"
    then some 6
    else if str_eq rail "lightning"
    then some 2
    else if str_eq rail "solana"
    then some 5
    else none

-- `max(120, int(5 * finality))`, in seconds
unfoldable pub get_match_tolerance : Option String → ℕ
unfolding finality_of
get_match_tolerance none = 120
get_match_tolerance (some rail) = at_least (finality_of rail)
  where
    at_least : Option ℕ → ℕ
    at_least none = 120
    at_least (some halves) = if leb (5 * halves / 2) 120 then 120 else 5 * halves / 2

unfoldable pub distance : ℕ → Activity → ℕ
distance at a = (a.activity_timestamp - at) + (at - a.activity_timestamp)

abbrev pub is_given : String → Option String → Bool
is_given text none = false
is_given text (some other) = str_eq other text

-- the rows of the query
unfoldable pub is_candidate : String → String → String → ℕ → ℕ → Activity → Bool
unfolding distance
is_candidate agent counterparty reference at tolerance a =
    str_eq a.agent_did agent
    && is_given counterparty a.counterparty_did
    && is_given reference a.transaction_reference
    && leb (distance at a) (tolerance * 1000000)

abbrev pub nearer : ℕ → Activity → Option Activity → Option Activity
unfolding distance
nearer at a none = some a
nearer at a (some b) = if leb (distance at a) (distance at b) then some a else some b

-- `ORDER BY ... ASC LIMIT 1`
unfoldable pub nearest : ℕ → List Activity → Option Activity
unfolding nearer
nearest at [] = none
nearest at (a ∷ activities) = nearer at a (nearest at activities)

unfoldable pub find_matching_activity :
    String → String → String → ℕ → ℕ → AuditTables → Option Activity
unfolding nearest is_candidate where_rows
find_matching_activity agent counterparty reference at tolerance db =
    nearest at (where_rows (is_candidate agent counterparty reference at tolerance) db.activities)

-- a text that is present and not empty
abbrev pub given_text : Option String → Option String
given_text none = none
given_text (some s) = if str_eq s "" then none else some s

abbrev pub search_for :
    Extracted → AuditTables → Option String → Option String → Option String → Option Activity
unfolding find_matching_activity get_match_tolerance
search_for e db (some agent) (some counterparty) (some reference) =
    find_matching_activity agent counterparty reference e.activity_timestamp
      (get_match_tolerance e.transaction_rail) db
search_for e db _ _ _ = none

-- with all three texts
unfoldable pub attempt_match : Extracted → AuditTables → Option Activity
unfolding search_for
attempt_match e db =
    search_for e db (given_text e.agent_did) (given_text e.counterparty_did)
      (given_text e.transaction_reference)

unfoldable pub set_receipt_match : ℕ → ℕ → List ReceiptRow → List ReceiptRow
set_receipt_match receipt_id activity_id [] = []
set_receipt_match receipt_id activity_id (r ∷ rs) =
    let rest = set_receipt_match receipt_id activity_id rs in
    if r.id == receipt_id
    then record r { matched_activity_id = some activity_id } ∷ rest
    else r ∷ rest

abbrev pub link : ℕ → AuditTables → Option Activity → Option ℕ × AuditTables
unfolding set_receipt_match
link receipt_id db none = (none, db)
link receipt_id db (some a) =
    (some a.id, record db { receipts = set_receipt_match receipt_id a.id db.receipts })

unfoldable pub match_and_link : ℕ → Extracted → AuditTables → Option ℕ × AuditTables
unfolding attempt_match link
match_and_link receipt_id e db = link receipt_id db (attempt_match e db)
