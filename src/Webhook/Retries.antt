-- ===== src/Webhook/Retries.antt =====
-- The retry loop of api/webhook_delivery.py, `send_with_retry`: how many attempts it makes, how long
-- it sleeps, and how the deliveries end.
use Prim.Native.Nat.{◌^◌}
use arp_spec.Common.{
  ℕ, zero, suc, ◌+◌, ◌*◌, ◌≤◌, String, ◌≡◌, refl, sym, ap, ◌⊎◌, inl, inr, true, false, List, [],
  ◌∷◌, ◌++◌, arith, length, All, Bool-cases, false≢true, ◌∙◌, length-append, set,
}
use arp_spec.Webhook.{
  WebhookStatus, pending, delivered, failed, retrying, WebhookPayload, WebhookDelivery, Header,
  Outside, Deliverer, send_webhook, is_delivered, change_last, attempts, send_with_retry,
}
use arp_spec.Webhook.Attempts.{IsSettled, got_2xx, got_error, Attempted, send_webhook-Attempted}

abbrev pub total : List ℕ → ℕ
total [] = 0
total (n ∷ ns) = n + total ns

-- what a loop of at most `left` further attempts leaves, where `made` are the deliveries of all its
-- attempts but the last, newest first
pub record Retried (left attempt : ℕ) (w : Deliverer) (d : WebhookDelivery) (w' : Deliverer)
    : Type 0 where
  pub made : List WebhookDelivery
  pub appended : w'.history ≡ d ∷ (made ++ w.history)
  pub made_retrying : All (λ x. (x.status ≡ retrying) × IsSettled x) made
  pub few : length made ≤ left
  pub settled : IsSettled d
  pub ended : (d.status ≡ delivered) ⊎ ((d.status ≡ failed) × (length made ≡ left))
  pub slept :
      total w'.slept + w.retry_delay * 2 ^ attempt
      ≡ total w.slept + w.retry_delay * 2 ^ (attempt + length made)
  pub same_max_retries : w'.max_retries ≡ w.max_retries
  pub same_retry_delay : w'.retry_delay ≡ w.retry_delay
  pub same_secret : w'.secret ≡ w.secret

-- a got_error delivery under another status
refused_again :
    (d : WebhookDelivery) (status : WebhookStatus) (count : ℕ)
    → IsSettled d
    → is_delivered d.status ≡ false
    → (status ≡ failed) ⊎ (status ≡ retrying)
    → IsSettled (record d { status = status; retry_count = count })
refused_again d status count (got_2xx code now e r l u at) failure s =
    absurd (false≢true (sym failure ∙ ap is_delivered e))
refused_again d status count (got_error m e r at) failure s = got_error m s r at

pub is_delivered_iff : (s : WebhookStatus) → is_delivered s ≡ true → s ≡ delivered
is_delivered_iff delivered e = refl
is_delivered_iff pending e = cc e
is_delivered_iff failed e = cc e
is_delivered_iff retrying e = cc e

at_once :
    {left attempt : ℕ} {w w' : Deliverer} {d : WebhookDelivery}
    → Attempted w d w'
    → d.status ≡ delivered
    → Retried left attempt w d w'
at_once {attempt = attempt} {w = w} once success = record {
  made = [];
  appended = once.appended;
  made_retrying = tt;
  few = omega arith;
  settled = once.settled;
  ended = inl success;
  slept =
      let none_more : attempt + 0 ≡ attempt = omega arith in rw (once.same_slept, none_more) refl;
  same_max_retries = once.same_max_retries;
  same_retry_delay = once.same_retry_delay;
  same_secret = once.same_secret;
}

-- the last attempt of the loop fails
given_up :
    {attempt : ℕ} {w w' : Deliverer} {d : WebhookDelivery}
    → Attempted w d w'
    → is_delivered d.status ≡ false
    → let last = record d { status = failed } in Retried zero attempt w last (change_last last w')
given_up {attempt = attempt} {w = w} {w' = w'} {d = d} once failure = record {
  made = [];
  appended = rw once.appended refl;
  made_retrying = tt;
  few = omega arith;
  settled = refused_again d failed d.retry_count once.settled failure (inl refl);
  ended = inr (refl, refl);
  slept =
      let none_more : attempt + 0 ≡ attempt = omega arith in rw (once.same_slept, none_more) refl;
  same_max_retries = once.same_max_retries;
  same_retry_delay = once.same_retry_delay;
  same_secret = once.same_secret;
}

-- the deliverer that goes on to the next attempt
unfoldable pub rested_after : ℕ → Deliverer → WebhookDelivery → Deliverer → Deliverer
rested_after attempt w d w' =
    let again = record d { status = retrying; retry_count = suc attempt } in
    record (change_last again w') { slept = (w.retry_delay * 2 ^ attempt) ∷ w'.slept }

append_last {ℓ} :
    {A : Type ℓ} (xs : List A) (a : A) (ys : List A) → xs ++ (a ∷ ys) ≡ (xs ++ (a ∷ [])) ++ ys
append_last [] a ys = refl
append_last (x ∷ xs) a ys = ap (λ zs. x ∷ zs) (append_last xs a ys)

pub All-append {ℓ κ} :
    {A : Type ℓ} (P : A → Type κ) (xs ys : List A) → All P xs → All P ys → All P (xs ++ ys)
All-append P [] ys hs ks = ks
All-append P (x ∷ xs) ys hs ks = (hs.0, All-append P xs ys hs.1 ks)

slept_more :
    (delay attempt made before after : ℕ)
    → after + delay * 2 ^ suc attempt
      ≡ (delay * 2 ^ attempt + before) + delay * 2 ^ (suc attempt + made)
    → after + delay * 2 ^ attempt ≡ before + delay * 2 ^ (attempt + suc made)
slept_more delay attempt made before after e =
    let twice : delay * 2 ^ suc attempt ≡ 2 * (delay * 2 ^ attempt) = grind arith in
    let same : suc attempt + made ≡ attempt + suc made = omega arith in
    omega (arith, rw same at e, twice)

ended_at :
    (d : WebhookDelivery) {n : ℕ} (left made : ℕ)
    → (d.status ≡ delivered) ⊎ ((d.status ≡ failed) × (made ≡ left))
    → n ≡ suc made
    → (d.status ≡ delivered) ⊎ ((d.status ≡ failed) × (n ≡ suc left))
ended_at d left made (inl success) e = inl success
ended_at d left made (inr (failure, all_made)) e = inr (failure, omega (arith, e, all_made))

went_on :
    {left attempt : ℕ} {w w' w'' : Deliverer} {d d' : WebhookDelivery}
    → Attempted w d w'
    → is_delivered d.status ≡ false
    → Retried left (suc attempt) (rested_after attempt w d w') d' w''
    → Retried (suc left) attempt w d' w''
unfolding rested_after
went_on {left = left} {attempt = attempt} {w = w} {w' = w'} {w'' = w''} {d = d} {d' = d'} once
      failure rest =
    let again = record d { status = retrying; retry_count = suc attempt } in
    let length_made : length (rest.made ++ (again ∷ [])) ≡ suc (length rest.made) =
      omega (arith, length-append rest.made (again ∷ [])) in
    record {
      made = rest.made ++ (again ∷ []);
      appended =
          rest.appended
          ∙ ap (λ hs. d' ∷ hs)
              (ap (λ hs. rest.made ++ set hs 0 again) once.appended
                ∙ append_last rest.made again w.history);
      made_retrying =
          All-append _ rest.made (again ∷ []) rest.made_retrying
            ((refl, refused_again d retrying (suc attempt) once.settled failure (inr refl)), tt);
      few = omega (arith, rest.few, length_made);
      settled = rest.settled;
      ended = ended_at d' left (length rest.made) rest.ended length_made;
      slept = rw length_made (
          slept_more w.retry_delay attempt (length rest.made) (total w.slept) (total w''.slept)
            (rw (once.same_slept, once.same_retry_delay) at rest.slept));
      same_max_retries = rest.same_max_retries ∙ once.same_max_retries;
      same_retry_delay = rest.same_retry_delay ∙ once.same_retry_delay;
      same_secret = rest.same_secret ∙ once.same_secret;
    }

module _ (o : Outside) (url : String) (p : WebhookPayload) (headers : List Header) where
  attempts-Retried :
      (left attempt : ℕ) (w : Deliverer)
      → let (d, w') = attempts o left attempt url p headers w in Retried left attempt w d w'
  unfolding attempts rested_after
  attempts-Retried zero attempt w =
      let (d, w') = send_webhook o url p headers w in
      let once : Attempted w d w' = send_webhook-Attempted o url p headers w in
      elim (Bool-cases (is_delivered d.status)) [
        | inl success ↦ rw success (at_once once (is_delivered_iff d.status success))
        | inr failure ↦ rw failure (given_up once failure)
      ]
  attempts-Retried (suc left) attempt w =
      let (d, w') = send_webhook o url p headers w in
      let once : Attempted w d w' = send_webhook-Attempted o url p headers w in
      elim (Bool-cases (is_delivered d.status)) [
        | inl success ↦ rw success (at_once once (is_delivered_iff d.status success))
        | inr failure ↦ rw failure (
            went_on once failure
              (attempts-Retried left (suc attempt) (rested_after attempt w d w')))
      ]

  -- `send_with_retry` ends after at most `max_retries` + 1 attempts. Each attempt adds one delivery to
  -- the history: the one it returns is the newest and is "delivered" or "failed", and "failed" only
  -- after `max_retries` + 1 attempts; those before it are "retrying"; every one agrees with its reply
  -- ("delivered" exactly with a status of 200 to 299 and a time, else with an error message). The
  -- sleeps after k failed attempts add up to `retry_delay` * (2 ^ k - 1).
  pub send_with_retry-Retried :
      (w : Deliverer)
      → let (d, w') = send_with_retry o url p headers w in Retried w.max_retries 0 w d w'
  unfolding send_with_retry
  send_with_retry-Retried w = attempts-Retried w.max_retries 0 w

  pub send_with_retry-IsSettled :
      (w : Deliverer)
      → All IsSettled w.history
      → All IsSettled (send_with_retry o url p headers w).1.history
  send_with_retry-IsSettled w before =
      let run = send_with_retry-Retried w in
      rw run.appended (
        run.settled,
        All-append IsSettled run.made w.history (made run.made run.made_retrying) before,
      )
    where
      made :
          (ds : List WebhookDelivery)
          → All (λ x. (x.status ≡ retrying) × IsSettled x) ds
          → All IsSettled ds
      made [] h = tt
      made (d ∷ ds) h = (h.0.1, made ds h.1)
