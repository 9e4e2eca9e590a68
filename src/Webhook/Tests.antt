-- ===== src/Webhook/Tests.antt =====
-- The webhook theorems at an endpoint that fails twice, and two tests of the secrets.
use arp_spec.Common.{
  ℕ, zero, suc, String, ◌≡◌, refl, true, Option, none, some, List, [], ◌∷◌, map, arith, length, any,
  ok, err, str_eq,
}
use arp_spec.Json.{end}
use arp_spec.Webhook.{
  delivered, retrying, WebhookPayload, WebhookDelivery, Outside, Deliverer, Reply, responded,
  not_sent, timeout_error, send_with_retry, verify,
}
use arp_spec.Webhook.Retries.{Retried, send_with_retry-Retried}
use arp_spec.Webhook.Delivers.{Succeeds, send_with_retry_delivers}
use arp_spec.Webhook.Registry.{
  WebhookRow, Webhook, WebhookState, Database, get_webhooks_for_event, notify_event,
}
use arp_spec.Webhook.Notify.{notifies_url, Notifies, notify_event-Notifies}

-- an endpoint that times out, then answers 503, then 200
abbrev answers : ℕ → Reply
answers zero = not_sent timeout_error
answers (suc zero) = responded 503 (ok "")
answers (suc (suc n)) = responded 200 (ok "thanks")

abbrev outside : Outside
outside = record {
  aiohttp_available = true;
  network = λ before r. answers (length before);
  uuid4 = λ history. "id";
  created_now = λ history. length history;
  delivered_now = λ history. length history;
  json_dumps = λ fs. "{}";
  hmac_base64 = λ secret payload. secret;
}

abbrev deliverer : Deliverer
deliverer = record {
  max_retries = 2;
  retry_delay = 1;
  secret = "";
  history = [];
  requests = [];
  slept = [];
}

abbrev payload : WebhookPayload
payload = record { event_type = "vc.issued"; timestamp = "t"; event_data = end; webhook_id = "w" }

send_with_retry-Retried_example :
    let (d, w') = send_with_retry outside "https://a" payload [] deliverer in
    Retried 2 0 deliverer d w'
send_with_retry-Retried_example = send_with_retry-Retried outside "https://a" payload [] deliverer

third_attempt : (send_with_retry outside "https://a" payload [] deliverer).1.slept ≡ 2 ∷ 1 ∷ []
unfolding send_with_retry
third_attempt = refl

two_retried :
    map (λ d. d.status) (send_with_retry outside "https://a" payload [] deliverer).1.history
    ≡ delivered ∷ retrying ∷ retrying ∷ []
unfolding send_with_retry
two_retried = refl

answers-Succeeds : (n : ℕ) → n ≡ 2 → Succeeds (answers n)
answers-Succeeds n e =
    rw e
      (record { code = 200; body = "thanks"; answer = refl; low = omega arith; high = omega arith })

send_with_retry_delivers_example :
    (send_with_retry outside "https://a" payload [] deliverer).0.status ≡ delivered
send_with_retry_delivers_example =
    send_with_retry_delivers outside "https://a" payload [] deliverer 2 refl (omega arith)
      (λ before r e. answers-Succeeds (length before) e)

abbrev subscriber : String → String → Option String → WebhookRow
subscriber id url secret = record {
  webhook_id = id;
  entity_id = "agent";
  entity_type = "agent";
  url = url;
  events = "vc.issued" ∷ [];
  secret = secret;
  is_active = true;
  created_at = 0;
}

abbrev state : WebhookState
state = record {
  webhook_registry =
      subscriber "1" "https://a" (some "s")
      ∷ subscriber "2" "https://b" none
      ∷ subscriber "3" "https://a" none
      ∷ [];
  webhook_deliveries = [];
  deliverer = deliverer;
}

abbrev database : Database
database = record { loads_events = λ events. ok events; insert_succeeds = λ d. true }

abbrev notified : List WebhookDelivery × WebhookState
notified = elim (notify_event database outside "vc.issued" end none "t" "w" state) [
  | ok r ↦ r
  | err e ↦ ([], state)
]

notify_event-Notifies_example :
    (hs : List Webhook) × (get_webhooks_for_event database "vc.issued" none state.webhook_registry
      ≡ ok hs)
    × ((u : String)
        → any (λ h. str_eq u h.url) hs
          ≡ any (notifies_url "vc.issued" none u) state.webhook_registry)
    × Notifies hs state notified.0 notified.1
unfolding notify_event
notify_event-Notifies_example =
    notify_event-Notifies database outside "vc.issued" end none "t" "w" state refl

notified_urls : map (λ d. d.url) notified.0 ≡ "https://a" ∷ "https://b" ∷ []
unfolding notify_event send_with_retry
notified_urls = refl

-- without a secret, the empty signature verifies
unsigned_verifies : verify outside "" "{}" "" ≡ true
unfolding verify
unsigned_verifies = refl
