-- ===== src/Webhook/Delivers.antt =====
-- The retry loop of api/webhook_delivery.py delivers to an endpoint that comes back in time.
use arp_spec.Common.{
  ℕ, zero, suc, ◌+◌, ◌≤◌, ◌<◌, String, ◌≡◌, refl, inl, inr, true, ◌&&◌, List, arith, length, ltb,
  leb, Bool-cases, ok,
}
use arp_spec.Webhook.{
  delivered, WebhookPayload, Header, PostRequest, Reply, responded, Outside, Deliverer, after_reply,
  request_of, send_webhook, is_delivered, attempts, send_with_retry,
}
use arp_spec.Webhook.Retries.{is_delivered_iff, rested_after}

-- an answer with a status of 200 to 299 and a body
pub record Succeeds (r : Reply) : Type 0 where
  pub code : ℕ
  pub body : String
  pub answer : r ≡ responded code (ok body)
  pub low : 200 ≤ code
  pub high : code < 300

module _ (o : Outside) (url : String) (p : WebhookPayload) (headers : List Header) where
  send_webhook-delivered :
      (w : Deliverer)
      → o.aiohttp_available ≡ true
      → Succeeds (o.network w.requests (request_of o url p headers w))
      → (send_webhook o url p headers w).0.status ≡ delivered
  unfolding send_webhook after_reply
  send_webhook-delivered w available success =
      let in_range : (leb 200 success.code && ltb success.code 300) ≡ true =
        ground (arith, success.low, success.high) in
      rw (available, success.answer, in_range) refl

  length-requests :
      (w : Deliverer)
      → o.aiohttp_available ≡ true
      → length (send_webhook o url p headers w).1.requests ≡ suc (length w.requests)
  unfolding send_webhook
  length-requests w available = rw available refl

  attempts_delivers :
      (left attempt k : ℕ) (w : Deliverer)
      → o.aiohttp_available ≡ true
      → k ≤ left
      → ((before : List PostRequest) (r : PostRequest)
          → length before ≡ length w.requests + k
          → Succeeds (o.network before r))
      → (attempts o left attempt url p headers w).0.status ≡ delivered
  unfolding attempts rested_after
  attempts_delivers zero attempt k w available bound back =
      let now : (send_webhook o url p headers w).0.status ≡ delivered =
        send_webhook-delivered w available (back w.requests _ (omega (arith, bound))) in
      let success : is_delivered (send_webhook o url p headers w).0.status ≡ true = rw now refl in
      rw success now
  attempts_delivers (suc left) attempt zero w available bound back =
      let now : (send_webhook o url p headers w).0.status ≡ delivered =
        send_webhook-delivered w available (back w.requests _ (omega arith)) in
      let success : is_delivered (send_webhook o url p headers w).0.status ≡ true = rw now refl in
      rw success now
  attempts_delivers (suc left) attempt (suc k) w available bound back =
      let (d, w') = send_webhook o url p headers w in
      let rested = rested_after attempt w d w' in
      let longer : length w'.requests ≡ suc (length w.requests) = length-requests w available in
      let rest : (attempts o left (suc attempt) url p headers rested).0.status ≡ delivered =
        attempts_delivers left (suc attempt) k rested available (omega (arith, bound))
          (λ before r e. back before r (omega (arith, e, longer))) in
      elim (Bool-cases (is_delivered d.status)) [
        | inl success ↦ rw success (is_delivered_iff d.status success)
        | inr failure ↦ rw failure rest
      ]

  -- If aiohttp is installed and the network answers, from the start of `send_with_retry` on, the
  -- request after k others with a status of 200 to 299 and a body, for some k up to `max_retries`,
  -- then the delivery that `send_with_retry` returns is "delivered".
  pub send_with_retry_delivers :
      (w : Deliverer) (k : ℕ)
      → o.aiohttp_available ≡ true
      → k ≤ w.max_retries
      → ((before : List PostRequest) (r : PostRequest)
          → length before ≡ length w.requests + k
          → Succeeds (o.network before r))
      → (send_with_retry o url p headers w).0.status ≡ delivered
  unfolding send_with_retry
  send_with_retry_delivers w k available bound back =
      attempts_delivers w.max_retries 0 k w available bound back
