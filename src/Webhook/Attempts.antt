-- ===== src/Webhook/Attempts.antt =====
-- One attempt of api/webhook_delivery.py: `send_webhook` settles its delivery and appends it to the
-- history.
use arp_spec.Common.{
  ℕ, ◌≤◌, ◌<◌, String, ◌≡◌, refl, ◌⊎◌, inl, inr, ◌&&◌, none, some, List, ◌∷◌, arith, ltb, leb,
  Bool-cases, ok, err,
}
use arp_spec.Webhook.{
  delivered, failed, retrying, WebhookPayload, ErrorMessage, WebhookDelivery, Header, Reply,
  responded, not_sent, Outside, Deliverer, new_delivery, after_reply, request_of, send_webhook,
}

-- a delivery whose status agrees with what is recorded of the reply
pub data IsSettled (d : WebhookDelivery) : Type 0 where
  got_2xx :
      (code now : ℕ)
      → d.status ≡ delivered
      → d.response_status ≡ some code
      → 200 ≤ code
      → code < 300
      → d.delivered_at ≡ some now
      → IsSettled d
  got_error :
      (message : ErrorMessage)
      → (d.status ≡ failed) ⊎ (d.status ≡ retrying)
      → d.error_message ≡ some message
      → d.delivered_at ≡ none
      → IsSettled d

-- what one attempt leaves
pub record Attempted (w : Deliverer) (d : WebhookDelivery) (w' : Deliverer) : Type 0 where
  pub appended : w'.history ≡ d ∷ w.history
  pub same_max_retries : w'.max_retries ≡ w.max_retries
  pub same_retry_delay : w'.retry_delay ≡ w.retry_delay
  pub same_secret : w'.secret ≡ w.secret
  pub same_slept : w'.slept ≡ w.slept
  pub settled : IsSettled d
  pub ended : (d.status ≡ delivered) ⊎ (d.status ≡ failed)

module _ (o : Outside) where
  after_reply-IsSettled :
      (now : ℕ) (r : Reply) (d : WebhookDelivery)
      → d.delivered_at ≡ none
      → IsSettled (after_reply o now r d)
  unfolding after_reply
  after_reply-IsSettled now (responded code (ok body)) d fresh =
      elim (Bool-cases (leb 200 code && ltb code 300)) [
        | inl success ↦
            rw success
              (got_2xx code now refl refl (ground (arith, success)) (ground (arith, success)) refl)
        | inr other ↦ rw other (got_error _ (inl refl) refl fresh)
      ]
  after_reply-IsSettled now (responded code (err e)) d fresh = got_error _ (inl refl) refl fresh
  after_reply-IsSettled now (not_sent e) d fresh = got_error _ (inl refl) refl fresh

  after_reply_ended :
      (now : ℕ) (r : Reply) (d : WebhookDelivery)
      → ((after_reply o now r d).status ≡ delivered) ⊎ ((after_reply o now r d).status ≡ failed)
  unfolding after_reply
  after_reply_ended now (responded code (ok body)) d =
      elim (Bool-cases (leb 200 code && ltb code 300)) [
        | inl success ↦ rw success (inl refl)
        | inr other ↦ rw other (inr refl)
      ]
  after_reply_ended now (responded code (err e)) d = inr refl
  after_reply_ended now (not_sent e) d = inr refl

  pub send_webhook-Attempted :
      (url : String) (p : WebhookPayload) (headers : List Header) (w : Deliverer)
      → let (d, w') = send_webhook o url p headers w in Attempted w d w'
  unfolding send_webhook new_delivery
  send_webhook-Attempted url p headers w = elim (Bool-cases o.aiohttp_available) [
    | inl available ↦
        let reply = o.network w.requests (request_of o url p headers w) in
        rw available (record {
          appended = refl;
          same_max_retries = refl;
          same_retry_delay = refl;
          same_secret = refl;
          same_slept = refl;
          settled =
              after_reply-IsSettled (o.delivered_now w.history) reply
                (new_delivery o url p w.history) refl;
          ended =
              after_reply_ended (o.delivered_now w.history) reply (new_delivery o url p w.history);
        })
    | inr missing ↦ rw missing (record {
      appended = refl;
      same_max_retries = refl;
      same_retry_delay = refl;
      same_secret = refl;
      same_slept = refl;
      settled = got_error _ (inl refl) refl refl;
      ended = inr refl;
    })
  ]
