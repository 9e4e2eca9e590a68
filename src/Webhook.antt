-- ===== src/Webhook.antt =====
-- api/webhook_delivery.py: the signer and the deliverer, with the registry in Webhook/Registry.
-- The network, the fresh ids, the clock, the HMAC and `json.dumps` are the record Outside; times are
-- numbers, and the delays between two attempts are collected in the unit of `retry_delay`.
pub mod Attempts
pub mod Retries
pub mod Delivers
pub mod Registry
pub mod Notify
pub mod Tests
use Prim.Native.Nat.{◌^◌}
use arp_spec.Common.{
  ℕ, zero, suc, ◌+◌, ◌-◌, ◌*◌, ◌/◌, ◌%◌, ◌≤◌, ◌<◌, String, ◌≡◌, refl, sym, ap, ◌≢◌, ◌↔◌, ◌⊎◌, inl,
  inr, Bool, true, false, not, ◌&&◌, ◌||◌, Option, none, some, List, [], ◌∷◌, ◌++◌, map, arith,
  length, get_or, All, any, all, ltb, leb, ◌==◌, if◌then◌else◌, ==_iff, ltb_iff, leb_iff,
  Bool-cases, Option-cases, Outcome, ok, err, ◌>>=◌, ◌>>◌, ℤ, pos, negsuc, str_eq, eq_iff,
  false≢true, set,
}
use arp_spec.Json.{Json, str, obj, Fields, field, end}

pub data WebhookStatus : Type 0 where
  pending delivered failed retrying : WebhookStatus

pub record WebhookPayload : Type 0 where
  pub event_type : String
  pub timestamp : String
  pub event_data : Fields
  pub webhook_id : String

-- `to_dict`
unfoldable pub to_dict : WebhookPayload → Fields
to_dict p = field "event_type" (str p.event_type) (
    field "timestamp" (str p.timestamp)
      (field "webhook_id" (str p.webhook_id) (field "data" (obj p.event_data) end)))

-- the texts that the code writes as `error_message`; an exception has its own
pub data ErrorMessage : Type 0 where
  aiohttp_not_installed request_timeout : ErrorMessage
  http_status : ℕ → ErrorMessage
  exception_text : String → ErrorMessage

pub record WebhookDelivery : Type 0 where
  pub delivery_id : String
  pub webhook_id : String
  pub event_type : String
  pub url : String
  pub payload : String
  pub status : WebhookStatus
  pub created_at : ℕ
  pub delivered_at : Option ℕ
  pub response_status : Option ℕ
  pub response_body : Option String
  pub error_message : Option ErrorMessage
  pub retry_count : ℕ

pub record Header : Type 0 where
  pub header_name : String
  pub header_value : String

pub record PostRequest : Type 0 where
  pub url : String
  pub body : String
  pub headers : List Header

-- what `session.post` and `response.text()` do: the body may fail after the status has been read
pub data PostError : Type 0 where
  timeout_error : PostError
  exception : String → PostError

pub data Reply : Type 0 where
  responded : ℕ → Outcome PostError String → Reply
  not_sent : PostError → Reply

-- what the code takes from elsewhere; the network answers by the requests before, and the ids and
-- the clock by the deliveries before
pub record Outside : Type 0 where
  pub aiohttp_available : Bool
  pub network : List PostRequest → PostRequest → Reply
  pub uuid4 : List WebhookDelivery → String
  pub created_now : List WebhookDelivery → ℕ
  pub delivered_now : List WebhookDelivery → ℕ
  pub json_dumps : Fields → String
  pub hmac_base64 : String → String → String

-- `requests`, `slept` and `history` have the newest entry first
pub record Deliverer : Type 0 where
  pub max_retries : ℕ
  pub retry_delay : ℕ
  pub secret : String
  pub history : List WebhookDelivery
  pub requests : List PostRequest
  pub slept : List ℕ

-- `headers[name] = value`
unfoldable pub put_header : Header → List Header → List Header
put_header h [] = h ∷ []
put_header h (g ∷ gs) =
    let rest = put_header h gs in if str_eq g.header_name h.header_name then h ∷ gs else g ∷ rest

-- `headers.update(more)`
unfoldable pub update_headers : List Header → List Header → List Header
unfolding put_header
update_headers [] hs = hs
update_headers (m ∷ more) hs = update_headers more (put_header m hs)

abbrev pub message_of : PostError → ErrorMessage
message_of timeout_error = request_timeout
message_of (exception text) = exception_text text

-- the delivery that was appended last is the object that the loop writes to
abbrev pub change_last : WebhookDelivery → Deliverer → Deliverer
change_last d w = record w { history = set w.history 0 d }

abbrev pub is_delivered : WebhookStatus → Bool
is_delivered delivered = true
is_delivered _ = false

module _ (o : Outside) where
  -- `WebhookSigner.sign`: without a secret, the signature is the empty text
  unfoldable pub sign : String → String → String
  sign secret payload = if str_eq secret "" then "" else o.hmac_base64 secret payload

  -- `WebhookSigner.verify`
  unfoldable pub verify : String → String → String → Bool
  unfolding sign
  verify secret payload signature = str_eq (sign secret payload) signature

  unfoldable pub request_headers : String → WebhookPayload → String → String → List Header
  unfolding sign
  request_headers secret p delivery_id payload_json =
      record { header_name = "Content-Type"; header_value = "application/json" }
      ∷ record { header_name = "X-Webhook-ID"; header_value = p.webhook_id }
      ∷ record { header_name = "X-Event-Type"; header_value = p.event_type }
      ∷ record { header_name = "X-Delivery-ID"; header_value = delivery_id }
      ∷ record { header_name = "X-Signature"; header_value = sign secret payload_json }
      ∷ record { header_name = "User-Agent"; header_value = "ObserverProtocol-Webhook/1.0" }
      ∷ []

  unfoldable pub new_delivery : String → WebhookPayload → List WebhookDelivery → WebhookDelivery
  unfolding to_dict
  new_delivery url p history = record {
    delivery_id = o.uuid4 history;
    webhook_id = p.webhook_id;
    event_type = p.event_type;
    url = url;
    payload = o.json_dumps (to_dict p);
    status = pending;
    created_at = o.created_now history;
    delivered_at = none;
    response_status = none;
    response_body = none;
    error_message = none;
    retry_count = 0;
  }

  -- the delivery after the reply
  unfoldable pub after_reply : ℕ → Reply → WebhookDelivery → WebhookDelivery
  after_reply now (responded code (ok body)) d =
      if leb 200 code && ltb code 300
      then record d {
        response_status = some code;
        response_body = some body;
        status = delivered;
        delivered_at = some now;
      }
      else record d {
        response_status = some code;
        response_body = some body;
        status = failed;
        error_message = some (http_status code);
      }
  after_reply now (responded code (err e)) d = record d {
    response_status = some code;
    status = failed;
    error_message = some (message_of e);
  }
  after_reply now (not_sent e) d = record d { status = failed; error_message = some (message_of e) }

  unfoldable pub request_of : String → WebhookPayload → List Header → Deliverer → PostRequest
  unfolding request_headers update_headers to_dict
  request_of url p headers w = record {
    url = url;
    body = o.json_dumps (to_dict p);
    headers =
        update_headers headers
          (request_headers w.secret p (o.uuid4 w.history) (o.json_dumps (to_dict p)));
  }

  -- no headers is the empty list
  unfoldable pub send_webhook :
      String → WebhookPayload → List Header → Deliverer → WebhookDelivery × Deliverer
  unfolding new_delivery after_reply request_of
  send_webhook url p headers w =
      let d = new_delivery url p w.history in
      let request = request_of url p headers w in
      let refused = record d { status = failed; error_message = some aiohttp_not_installed } in
      let answered = after_reply (o.delivered_now w.history) (o.network w.requests request) d in
      if o.aiohttp_available
      then (answered, record w { history = answered ∷ w.history; requests = request ∷ w.requests })
      else (refused, record w { history = refused ∷ w.history })

  -- the attempts from the given one on, of which `left` come after it
  unfoldable pub attempts :
      ℕ → ℕ → String → WebhookPayload → List Header → Deliverer → WebhookDelivery × Deliverer
  unfolding send_webhook
  attempts zero attempt url p headers w =
      let (d, w') = send_webhook url p headers w in
      let last = record d { status = failed } in
      if is_delivered d.status then (d, w') else (last, change_last last w')
  attempts (suc left) attempt url p headers w =
      let (d, w') = send_webhook url p headers w in
      let again = record d { status = retrying; retry_count = suc attempt } in
      let marked = change_last again w' in
      let rested = record marked { slept = (w.retry_delay * 2 ^ attempt) ∷ w'.slept } in
      let rest = attempts left (suc attempt) url p headers rested in
      if is_delivered d.status then (d, w') else rest

  unfoldable pub send_with_retry :
      String → WebhookPayload → List Header → Deliverer → WebhookDelivery × Deliverer
  unfolding attempts
  send_with_retry url p headers w = attempts w.max_retries 0 url p headers w

unfoldable pub filter_deliveries :
    (WebhookDelivery → Bool) → List WebhookDelivery → List WebhookDelivery
filter_deliveries p [] = []
filter_deliveries p (d ∷ ds) = let rest = filter_deliveries p ds in if p d then d ∷ rest else rest

abbrev pub matches : Option String → String → Bool
matches none text = true
matches (some wanted) text = str_eq wanted "" || str_eq text wanted

-- newest first, as the history
unfoldable pub get_delivery_history :
    Option String → Option String → Deliverer → List WebhookDelivery
unfolding filter_deliveries
get_delivery_history webhook_id event_type w =
    filter_deliveries (λ d. matches event_type d.event_type)
      (filter_deliveries (λ d. matches webhook_id d.webhook_id) w.history)
