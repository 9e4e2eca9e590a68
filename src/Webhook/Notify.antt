-- ===== src/Webhook/Notify.antt =====
-- `notify_event` of api/webhook_delivery.py: each URL is notified once, its delivery is settled, and
-- which secret signs it.
use arp_spec.Common.{
  ℕ, zero, suc, String, ◌≡◌, refl, sym, ap, inl, inr, Bool, true, false, not, ◌&&◌, ◌||◌, Option,
  none, some, List, [], ◌∷◌, map, arith, All, any, ltb, leb, if◌then◌else◌, Bool-cases, ok, err,
  str_eq, eq_iff, eq_refl, ok-injective, >>=-eq-ok, ◌∙◌, ok-first, ok-second,
}
use arp_spec.Webhook.{
  WebhookPayload, WebhookDelivery, Header, Outside, Deliverer, send_webhook, new_delivery,
  request_of, after_reply, Reply, responded, not_sent, is_delivered, attempts, send_with_retry,
  Fields, matches,
}
use arp_spec.Webhook.Attempts.{IsSettled}
use arp_spec.Webhook.Retries.{send_with_retry-Retried, send_with_retry-IsSettled}
use arp_spec.Webhook.Registry.{
  Webhook, WebhookState, Database, record_delivery, use_secret, deliver_to, notify_webhooks,
  notify_event, get_webhooks_for_event, WebhookRow, subscribes, webhook_of,
}

-- the URLs of the subscribers in order, each one the first time, but for those seen before
unfoldable pub new_urls : List Webhook → List String → List String
new_urls [] seen = []
new_urls (h ∷ hs) seen =
    let skipped = new_urls hs seen in
    let kept = new_urls hs (h.url ∷ seen) in
    if any (str_eq h.url) seen then skipped else h.url ∷ kept

abbrev pub given_secret : Option String → String → String
given_secret none old = old
given_secret (some secret) old = if str_eq secret "" then old else secret

-- the secret after the subscribers that are notified: the one of the last that has one
unfoldable pub last_secret : List Webhook → List String → String → String
last_secret [] seen secret = secret
last_secret (h ∷ hs) seen secret =
    let skipped = last_secret hs seen secret in
    let kept = last_secret hs (h.url ∷ seen) (given_secret h.secret secret) in
    if any (str_eq h.url) seen then skipped else kept

-- no URL stands twice
abbrev pub Unique : List String → Type 0
Unique [] = Unit
Unique (u ∷ us) = (any (str_eq u) us ≡ false) × Unique us

any-new_urls :
    (u : String) (hs : List Webhook) (seen : List String)
    → any (str_eq u) (new_urls hs seen)
      ≡ (any (λ h. str_eq u h.url) hs && not (any (str_eq u) seen))
unfolding new_urls
any-new_urls u [] seen = refl
any-new_urls u (h ∷ hs) seen =
    let skipped = any-new_urls u hs seen in
    let kept = any-new_urls u hs (h.url ∷ seen) in
    elim (Bool-cases (any (str_eq h.url) seen)) [
      | inl again ↦ elim (Bool-cases (str_eq u h.url)) [
        | inl same ↦
            let again' : any (str_eq u) seen ≡ true = rw ((eq_iff u h.url).0 same) again in
            rw (again, skipped, same, again') (ground arith)
        | inr other ↦ rw (again, skipped, other) refl
      ]
      | inr first ↦ elim (Bool-cases (str_eq u h.url)) [
        | inl same ↦
            let first' : any (str_eq u) seen ≡ false = rw ((eq_iff u h.url).0 same) first in
            rw (first, same, first') refl
        | inr other ↦ rw (first, other) (rw other at kept)
      ]
    ]

new_urls-Unique : (hs : List Webhook) (seen : List String) → Unique (new_urls hs seen)
unfolding new_urls
new_urls-Unique [] seen = tt
new_urls-Unique (h ∷ hs) seen =
    let skipped = new_urls-Unique hs seen in
    let kept = new_urls-Unique hs (h.url ∷ seen) in
    let apart : any (str_eq h.url) (new_urls hs (h.url ∷ seen)) ≡ false =
      rw (any-new_urls h.url hs (h.url ∷ seen), eq_refl h.url) (ground arith) in
    elim (Bool-cases (any (str_eq h.url) seen)) [
      | inl again ↦ rw again skipped
      | inr first ↦ rw first (apart, kept)
    ]

module _ (o : Outside) (p : WebhookPayload) where
  after_reply-url :
      (now : ℕ) (r : Reply) (d : WebhookDelivery) → (after_reply o now r d).url ≡ d.url
  unfolding after_reply
  after_reply-url now (responded code (ok body)) d =
      elim (Bool-cases (leb 200 code && ltb code 300)) [
        | inl success ↦ rw success refl
        | inr other ↦ rw other refl
      ]
  after_reply-url now (responded code (err e)) d = refl
  after_reply-url now (not_sent e) d = refl

  send_webhook-url :
      (url : String) (headers : List Header) (w : Deliverer)
      → (send_webhook o url p headers w).0.url ≡ url
  unfolding send_webhook new_delivery
  send_webhook-url url headers w = elim (Bool-cases o.aiohttp_available) [
    | inl available ↦ rw available (
        after_reply-url (o.delivered_now w.history)
          (o.network w.requests (request_of o url p headers w)) (new_delivery o url p w.history))
    | inr missing ↦ rw missing refl
  ]

  attempts-url :
      (left attempt : ℕ) (url : String) (headers : List Header) (w : Deliverer)
      → (attempts o left attempt url p headers w).0.url ≡ url
  unfolding attempts
  attempts-url zero attempt url headers w =
      elim (Bool-cases (is_delivered (send_webhook o url p headers w).0.status)) [
        | inl success ↦ rw success (send_webhook-url url headers w)
        | inr failure ↦ rw failure (send_webhook-url url headers w)
      ]
  attempts-url (suc left) attempt url headers w =
      elim (Bool-cases (is_delivered (send_webhook o url p headers w).0.status)) [
        | inl success ↦ rw success (send_webhook-url url headers w)
        | inr failure ↦ rw failure (attempts-url left (suc attempt) url headers _)
      ]

  module _ (db : Database) where
    deliver_to-url : (h : Webhook) (s : WebhookState) → (deliver_to db o p h s).0.url ≡ h.url
    unfolding deliver_to send_with_retry
    deliver_to-url h s = attempts-url _ 0 h.url [] _

    notify_webhooks-urls :
        (hs : List Webhook) (seen : List String) (s : WebhookState)
        → map (λ d. d.url) (notify_webhooks db o p hs seen s).0 ≡ new_urls hs seen
    unfolding notify_webhooks new_urls
    notify_webhooks-urls [] seen s = refl
    notify_webhooks-urls (h ∷ hs) seen s = elim (Bool-cases (any (str_eq h.url) seen)) [
      | inl again ↦ rw again (notify_webhooks-urls hs seen s)
      | inr first ↦
          let rest = notify_webhooks-urls hs (h.url ∷ seen) (deliver_to db o p h s).1 in
          rw (first, deliver_to-url h s) (ap (λ us. h.url ∷ us) rest)
    ]

    record_delivery-deliverer :
        (d : WebhookDelivery) (id : String) (s : WebhookState)
        → (record_delivery db d id s).deliverer ≡ s.deliverer
    unfolding record_delivery
    record_delivery-deliverer d id s = elim (Bool-cases (db.insert_succeeds d)) [
      | inl written ↦ rw written refl
      | inr lost ↦ rw lost refl
    ]

    use_secret-secret :
        (given : Option String) (w : Deliverer)
        → (use_secret db given w).secret ≡ given_secret given w.secret
    unfolding use_secret
    use_secret-secret none w = refl
    use_secret-secret (some secret) w = elim (Bool-cases (str_eq secret "")) [
      | inl empty ↦ rw empty refl
      | inr filled ↦ rw filled refl
    ]

    use_secret-history :
        (given : Option String) (w : Deliverer) → (use_secret db given w).history ≡ w.history
    unfolding use_secret
    use_secret-history none w = refl
    use_secret-history (some secret) w = elim (Bool-cases (str_eq secret "")) [
      | inl empty ↦ rw empty refl
      | inr filled ↦ rw filled refl
    ]

    deliver_to-secret :
        (h : Webhook) (s : WebhookState)
        → (deliver_to db o p h s).1.deliverer.secret ≡ given_secret h.secret s.deliverer.secret
    unfolding deliver_to
    deliver_to-secret h s =
        let w = use_secret db h.secret s.deliverer in
        let run = send_with_retry-Retried o h.url p [] w in
        ap (λ x. x.secret) (record_delivery-deliverer _ h.webhook_id _)
        ∙ run.same_secret
        ∙ use_secret-secret h.secret s.deliverer

    deliver_to-IsSettled :
        (h : Webhook) (s : WebhookState)
        → All IsSettled s.deliverer.history
        → All IsSettled (deliver_to db o p h s).1.deliverer.history
    unfolding deliver_to
    deliver_to-IsSettled h s before =
        let w = use_secret db h.secret s.deliverer in
        let settled : All IsSettled w.history =
          rw (use_secret-history h.secret s.deliverer) before in
        rw
          (record_delivery-deliverer (send_with_retry o h.url p [] w).0 h.webhook_id
            (record s { deliverer = (send_with_retry o h.url p [] w).1 }))
          (send_with_retry-IsSettled o h.url p [] w settled)

    notify_webhooks-secret :
        (hs : List Webhook) (seen : List String) (s : WebhookState)
        → (notify_webhooks db o p hs seen s).1.deliverer.secret
          ≡ last_secret hs seen s.deliverer.secret
    unfolding notify_webhooks last_secret
    notify_webhooks-secret [] seen s = refl
    notify_webhooks-secret (h ∷ hs) seen s =
        let skipped = notify_webhooks-secret hs seen s in
        let kept = notify_webhooks-secret hs (h.url ∷ seen) (deliver_to db o p h s).1 in
        elim (Bool-cases (any (str_eq h.url) seen)) [
          | inl again ↦ rw again skipped
          | inr first ↦ rw first (rw (deliver_to-secret h s) at kept)
        ]

    notify_webhooks-IsSettled :
        (hs : List Webhook) (seen : List String) (s : WebhookState)
        → All IsSettled s.deliverer.history
        → All IsSettled (notify_webhooks db o p hs seen s).1.deliverer.history
    unfolding notify_webhooks
    notify_webhooks-IsSettled [] seen s before = before
    notify_webhooks-IsSettled (h ∷ hs) seen s before =
        let skipped = notify_webhooks-IsSettled hs seen s before in
        let kept =
          notify_webhooks-IsSettled hs (h.url ∷ seen) (deliver_to db o p h s).1
            (deliver_to-IsSettled h s before) in
        elim (Bool-cases (any (str_eq h.url) seen)) [
          | inl again ↦ rw again skipped
          | inr first ↦ rw first kept
        ]

-- what `notify_event` did for the subscribers
pub record Notifies (hs : List Webhook) (s : WebhookState) (ds : List WebhookDelivery)
    (s' : WebhookState) : Type 0 where
  pub unique : Unique (map (λ d. d.url) ds)
  pub covers : (u : String) → any (str_eq u) (map (λ d. d.url) ds) ≡ any (λ h. str_eq u h.url) hs
  pub settled : All IsSettled s.deliverer.history → All IsSettled s'.deliverer.history
  pub secret : s'.deliverer.secret ≡ last_secret hs [] s.deliverer.secret

-- whether an active row that is subscribed to the event, for the entity if one is given, has the URL
abbrev pub notifies_url : String → Option String → String → WebhookRow → Bool
notifies_url event_type entity u row =
    row.is_active
    && (any (str_eq event_type) row.events && (matches entity row.entity_id && str_eq u row.url))

get_webhooks_for_event-urls :
    (db : Database) (event_type : String) (entity : Option String) (rows : List WebhookRow)
    {hs : List Webhook} (u : String)
    → get_webhooks_for_event db event_type entity rows ≡ ok hs
    → any (λ h. str_eq u h.url) hs ≡ any (notifies_url event_type entity u) rows
unfolding get_webhooks_for_event subscribes webhook_of
get_webhooks_for_event-urls db event_type entity [] u e =
    ap (any (λ h. str_eq u h.url)) (sym (ok-injective e))
get_webhooks_for_event-urls db event_type entity (row ∷ rows) u e =
    elim (Bool-cases (subscribes event_type entity row)) [
      | inl chosen ↦
          let (events, _, e1) = >>=-eq-ok (db.loads_events row.events) _ (rw chosen at e) in
          let (rest, read, e2) =
            >>=-eq-ok (get_webhooks_for_event db event_type entity rows) _ e1 in
          ap (any (λ h. str_eq u h.url)) (sym (ok-injective e2))
          ∙ ap (λ b. str_eq u row.url || b)
              (get_webhooks_for_event-urls db event_type entity rows u read)
          ∙ chosen_url row chosen _
      | inr other ↦
          get_webhooks_for_event-urls db event_type entity rows u (rw other at e)
          ∙ other_url row other _
    ]
  where
    chosen_url :
        (row : WebhookRow)
        → (row.is_active && (any (str_eq event_type) row.events && matches entity row.entity_id))
          ≡ true
        → (b : Bool) → (str_eq u row.url || b) ≡ (notifies_url event_type entity u row || b)
    chosen_url row h b = ground (arith, h)

    other_url :
        (row : WebhookRow)
        → (row.is_active && (any (str_eq event_type) row.events && matches entity row.entity_id))
          ≡ false
        → (b : Bool) → b ≡ (notifies_url event_type entity u row || b)
    other_url row h b = ground (arith, h)

-- If `notify_event` returns, then subscribers were read whose URLs are those of the active rows
-- that are subscribed to the event (and belong to the entity, if one is given); each URL among them
-- has one delivery in the result and no other URL has any; if every delivery of the history before
-- agrees with its reply ("delivered" exactly with a status of 200 to 299 and a time, else with an
-- error message), then so does every one after; and the deliverer is left with the secret of the
-- last notified subscriber that has one, or its secret before if none has.
pub notify_event-Notifies :
    (db : Database) (o : Outside) (event_type : String) (fields : Fields) (entity : Option String)
    (timestamp id : String) (s : WebhookState) {ds : List WebhookDelivery} {s' : WebhookState}
    → notify_event db o event_type fields entity timestamp id s ≡ ok (ds, s')
    → (hs : List Webhook) × (get_webhooks_for_event db event_type entity s.webhook_registry ≡ ok hs)
      × ((u : String)
          → any (λ h. str_eq u h.url) hs
            ≡ any (notifies_url event_type entity u) s.webhook_registry)
      × Notifies hs s ds s'
unfolding notify_event
notify_event-Notifies db o event_type fields entity timestamp id s {ds = ds} {s' = s'} returned =
    let (hs, read, sent) =
      >>=-eq-ok (get_webhooks_for_event db event_type entity s.webhook_registry) _ returned in
    let p : WebhookPayload = record {
      event_type = event_type;
      timestamp = timestamp;
      event_data = fields;
      webhook_id = id;
    } in
    let urls : map (λ d. d.url) ds ≡ new_urls hs [] =
      rw (ok-first refl sent) at (notify_webhooks-urls o p db hs [] s) in
    let after : (notify_webhooks db o p hs [] s).1 ≡ s' = ok-second refl sent in
    (
      hs,
      read,
      λ u. get_webhooks_for_event-urls db event_type entity s.webhook_registry u read,
      record {
        unique = rw urls (new_urls-Unique hs []);
        covers = λ u. rw (urls, any-new_urls u hs []) (ground arith);
        settled = λ before. rw after at (notify_webhooks-IsSettled o p db hs [] s before);
        secret = rw after at (notify_webhooks-secret o p db hs [] s);
      },
    )
