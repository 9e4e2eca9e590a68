-- ===== src/Webhook/Registry.antt =====
-- The registry of api/webhook_delivery.py: the table webhook_registry, the subscribers of an event and
-- `notify_event`, which delivers to each of their URLs once and records the deliveries.
use arp_spec.Common.{
  ℕ, String, Bool, true, ◌&&◌, Option, none, some, List, [], ◌∷◌, ◌++◌, any, if◌then◌else◌, Outcome,
  ok, ◌>>=◌, str_eq,
}
use arp_spec.Json.{str, Fields, field, end, PyError, insert}
use arp_spec.Webhook.{WebhookPayload, WebhookDelivery, Outside, Deliverer, send_with_retry, matches}

pub record WebhookRow : Type 0 where
  pub webhook_id : String
  pub entity_id : String
  pub entity_type : String
  pub url : String
  pub events : List String
  pub secret : Option String
  pub is_active : Bool
  pub created_at : ℕ

-- the dict of a subscriber
pub record Webhook : Type 0 where
  pub webhook_id : String
  pub entity_id : String
  pub entity_type : String
  pub url : String
  pub events : List String
  pub secret : Option String

-- a row of webhook_deliveries, which has the delivery with the id of the subscriber
pub record Recorded : Type 0 where
  pub delivery : WebhookDelivery
  pub subscriber_id : String

-- `recorded` has the newest row first
pub record WebhookState : Type 0 where
  pub webhook_registry : List WebhookRow
  pub webhook_deliveries : List Recorded
  pub deliverer : Deliverer

-- the driver, and the clock of an event: what `json.loads` makes of the column `events`, and whether
-- the INSERT of a delivery succeeds
pub record Database : Type 0 where
  pub loads_events : List String → Outcome PyError (List String)
  pub insert_succeeds : WebhookDelivery → Bool

-- what `register_webhook` returns
pub record Registered : Type 0 where
  pub webhook_id : String
  pub entity_id : String
  pub entity_type : String
  pub url : String
  pub events : List String
  pub created_at : ℕ

unfoldable pub register_webhook :
    String
    → ℕ
    → String
    → String
    → String
    → List String
    → Option String
    → WebhookState
    → Registered × WebhookState
register_webhook id now entity_id entity_type url events secret s = (
  record {
    webhook_id = id;
    entity_id = entity_id;
    entity_type = entity_type;
    url = url;
    events = events;
    created_at = now;
  },
  record s {
    webhook_registry =
        s.webhook_registry
        ++ (record {
          webhook_id = id;
          entity_id = entity_id;
          entity_type = entity_type;
          url = url;
          events = events;
          secret = secret;
          is_active = true;
          created_at = now;
        }
            ∷ []);
  },
)

-- WHERE is_active = TRUE AND events @> [event_type] AND entity_id = entity
unfoldable pub subscribes : String → Option String → WebhookRow → Bool
subscribes event_type entity row =
    row.is_active && (any (str_eq event_type) row.events && matches entity row.entity_id)

module _ (db : Database) where
  unfoldable pub webhook_of : WebhookRow → List String → Webhook
  webhook_of row events = record {
    webhook_id = row.webhook_id;
    entity_id = row.entity_id;
    entity_type = row.entity_type;
    url = row.url;
    events = events;
    secret = row.secret;
  }

  unfoldable pub get_webhooks_for_event :
      String → Option String → List WebhookRow → Outcome PyError (List Webhook)
  unfolding subscribes webhook_of
  get_webhooks_for_event event_type entity [] = ok []
  get_webhooks_for_event event_type entity (row ∷ rows) =
      let rest = get_webhooks_for_event event_type entity rows in
      if subscribes event_type entity row
      then (db.loads_events row.events >>= λ events.
          rest >>= λ webhooks. ok (webhook_of row events ∷ webhooks))
      else rest

  -- an exception of the INSERT is printed only
  unfoldable pub record_delivery : WebhookDelivery → String → WebhookState → WebhookState
  record_delivery d id s =
      let row : Recorded = record { delivery = d; subscriber_id = id } in
      if db.insert_succeeds d
      then record s { webhook_deliveries = row ∷ s.webhook_deliveries }
      else s

  -- `if webhook.get("secret")`: the deliverer keeps its signer otherwise
  unfoldable pub use_secret : Option String → Deliverer → Deliverer
  use_secret none w = w
  use_secret (some secret) w = if str_eq secret "" then w else record w { secret = secret }

  module _ (o : Outside) where
    -- one subscriber: the delivery, and the state with its row
    unfoldable pub deliver_to :
        WebhookPayload → Webhook → WebhookState → WebhookDelivery × WebhookState
    unfolding use_secret record_delivery
    deliver_to p h s =
        let (d, w) = send_with_retry o h.url p [] (use_secret h.secret s.deliverer) in
        (d, record_delivery d h.webhook_id (record s { deliverer = w }))

    -- the loop of `notify_event`, with the URLs it has seen
    unfoldable pub notify_webhooks :
        WebhookPayload
        → List Webhook
        → List String
        → WebhookState
        → List WebhookDelivery × WebhookState
    unfolding deliver_to
    notify_webhooks p [] seen s = ([], s)
    notify_webhooks p (h ∷ hs) seen s =
        let skipped = notify_webhooks p hs seen s in
        let (d, s') = deliver_to p h s in
        let (ds, s'') = notify_webhooks p hs (h.url ∷ seen) s' in
        if any (str_eq h.url) seen then skipped else (d ∷ ds, s'')

    unfoldable pub notify_event :
        String
        → Fields
        → Option String
        → String
        → String
        → WebhookState
        → Outcome PyError (List WebhookDelivery × WebhookState)
    unfolding get_webhooks_for_event notify_webhooks
    notify_event event_type fields entity timestamp id s =
        let p : WebhookPayload = record {
          event_type = event_type;
          timestamp = timestamp;
          event_data = fields;
          webhook_id = id;
        } in
        get_webhooks_for_event event_type entity s.webhook_registry >>= λ webhooks.
        ok (notify_webhooks p webhooks [] s)

    -- `if revoked_by`
    unfoldable pub with_revoker : Option String → Fields → Fields
    with_revoker none fs = fs
    with_revoker (some by) fs = if str_eq by "" then fs else insert "revoked_by" (str by) fs

    unfoldable pub notify_vac_revoked :
        String
        → String
        → String
        → Option String
        → String
        → String
        → String
        → WebhookState
        → Outcome PyError (List WebhookDelivery × WebhookState)
    unfolding notify_event with_revoker
    notify_vac_revoked credential_id agent_id reason revoked_by revoked_at timestamp id s =
        let fs = field "credential_id" (str credential_id) (
          field "agent_id" (str agent_id)
            (field "reason" (str reason) (field "revoked_at" (str revoked_at) end))) in
        notify_event "vac.revoked" (with_revoker revoked_by fs) (some agent_id) timestamp id s

    -- the hooks of the application: an event of any subscriber
    unfoldable pub on_vc_issued :
        String
        → String
        → String
        → String
        → String
        → String
        → WebhookState
        → Outcome PyError (List WebhookDelivery × WebhookState)
    unfolding notify_event
    on_vc_issued credential_id agent_did credential_type issued_at timestamp id s =
        let fs = field "credential_id" (str credential_id) (
          field "agent_did" (str agent_did) (
            field "credential_type" (str credential_type)
              (field "issued_at" (str issued_at) end))) in
        notify_event "vc.issued" fs none timestamp id s

    unfoldable pub on_vp_submitted :
        String
        → String
        → String
        → String
        → String
        → WebhookState
        → Outcome PyError (List WebhookDelivery × WebhookState)
    unfolding notify_event
    on_vp_submitted vp_id holder_did submitted_at timestamp id s =
        let fs =
          field "vp_id" (str vp_id)
            (field "holder_did" (str holder_did) (field "submitted_at" (str submitted_at) end)) in
        notify_event "vp.submitted" fs none timestamp id s

    -- `on_did_registered` and `on_did_rotated`, by the event and the field of its time
    unfoldable pub on_did_event :
        String
        → String
        → String
        → String
        → String
        → String
        → WebhookState
        → Outcome PyError (List WebhookDelivery × WebhookState)
    unfolding notify_event
    on_did_event event_type time_field agent_did at timestamp id s =
        notify_event event_type (field "agent_did" (str agent_did) (field time_field (str at) end))
          none timestamp id s
