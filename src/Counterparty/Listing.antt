-- ===== src/Counterparty/Listing.antt =====
-- `list_counterparties` of api/counterparty_store.py: a page of the rows of an organisation. Rows that
-- were last used at the same time, or never, stay in the order of the table, which SQL leaves open.
use arp_spec.Common.{
  ℕ, zero, suc, String, Bool, true, false, ◌&&◌, ◌||◌, Option, none, some, List, [], ◌∷◌, map,
  length, leb, ◌==◌, if◌then◌else◌, str_eq,
}
use arp_spec.Counterparty.{Counterparty}

-- an item of the page
pub record Item : Type 0 where
  pub id : ℕ
  pub counterparty_did : String
  pub status : String
  pub tag : Option String
  pub first_seen_at : Option ℕ
  pub last_transacted_at : Option ℕ
  pub transaction_count : ℕ
  pub trust_score : Option ℕ
  pub trust_score_as_of : Option ℕ

pub record Page : Type 0 where
  pub items : List Item
  pub total : ℕ
  pub page_limit : ℕ
  pub page_offset : ℕ

unfoldable pub item_of : Counterparty → Item
item_of r = record {
  id = r.id;
  counterparty_did = r.counterparty_did;
  status = r.status;
  tag = r.tag;
  first_seen_at = r.first_seen_at;
  last_transacted_at = r.last_transacted_at;
  transaction_count = r.transaction_count;
  trust_score = r.trust_score_cache;
  trust_score_as_of = r.trust_score_cached_at;
}

-- WHERE org_id = org AND status = status, where an empty status is no filter
unfoldable pub listed : ℕ → Option String → Counterparty → Bool
listed org none r = r.org_id == org
listed org (some status) r = r.org_id == org && (str_eq status "" || str_eq r.status status)

unfoldable pub filter_rows : (Counterparty → Bool) → List Counterparty → List Counterparty
filter_rows p [] = []
filter_rows p (r ∷ rows) = let rest = filter_rows p rows in if p r then r ∷ rest else rest

-- whether a row comes before another: the later time, and a time before none
unfoldable pub before : Option ℕ → Option ℕ → Bool
before none none = true
before none (some _) = false
before (some _) none = true
before (some a) (some b) = leb b a

unfoldable pub insert_ordered : Counterparty → List Counterparty → List Counterparty
unfolding before
insert_ordered r [] = r ∷ []
insert_ordered r (s ∷ rows) =
    let later = insert_ordered r rows in
    if before r.last_transacted_at s.last_transacted_at then r ∷ s ∷ rows else s ∷ later

unfoldable pub order_rows : List Counterparty → List Counterparty
order_rows [] = []
order_rows (r ∷ rows) = insert_ordered r (order_rows rows)

-- LIMIT limit OFFSET offset
unfoldable pub page_of : ℕ → ℕ → List Counterparty → List Counterparty
page_of limit offset [] = []
page_of zero zero (r ∷ rows) = []
page_of (suc limit) zero (r ∷ rows) = r ∷ page_of limit zero rows
page_of limit (suc offset) (r ∷ rows) = page_of limit offset rows

unfoldable pub list_counterparties : ℕ → Option String → ℕ → ℕ → List Counterparty → Page
unfolding listed filter_rows order_rows page_of item_of
list_counterparties org status limit offset rows =
    let chosen = filter_rows (listed org status) rows in
    record {
      items = map item_of (page_of limit offset (order_rows chosen));
      total = length chosen;
      page_limit = limit;
      page_offset = offset;
    }
