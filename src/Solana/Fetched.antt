-- ===== src/Solana/Fetched.antt =====
-- What `fetch_transaction` of rails/solana/solana_verify.py returns, and which exceptions it raises.
use arp_spec.Common.{
  ℕ, zero, suc, ◌+◌, ◌≤◌, ◌<◌, String, ◌≡◌, refl, sym, ap, ◌≢◌, ◌⊎◌, inl, inr, Bool, true, false,
  not, ◌&&◌, none, some, List, [], ◌∷◌, arith, All, any, Bool-cases, Option-cases, Outcome, ok, err,
  ◌>>=◌, str_eq, false≢true, not_raised, >>=-eq-ok, Outcome-cases, err-injective, some-injective,
  none_is_some, ok-injective, eq_refl, ◌∙◌,
}
use arp_spec.Json.{
  Json, null, bool, num, str, arr, obj, end, PyError, value_error, attribute_error, type_error,
  other_error, get, get_default, truthy, is_text, is_text_iff,
}
use arp_spec.StatusLists.Http.{contains, occurs_in}
use arp_spec.Solana.{
  FetchError, request_exception, raised, Rpc, lift, is_caught, status_of, judge_meta, judge_present,
  judge_result, error_of, text_of, rpc_error, judge_rpc_reply, next_attempt, after_attempt, try_url,
  after_url, try_urls, rpc_urls, fetch_transaction, connection_error,
}

-- a transaction that a reply reports as final and successful
pub record IsFinal (result : Json) : Type 0 where
  pub meta : Json
  pub has_meta : get_default "meta" (obj end) result ≡ ok meta
  pub failure : Json
  pub has_failure : get "err" meta ≡ ok failure
  pub succeeded : truthy failure ≡ false
  pub status : Json
  pub finalized : (truthy status ≡ false) ⊎ (status ≡ str "finalized")
  pub own : Json
  pub has_own : get "confirmationStatus" result ≡ ok own
  pub has_status : status_of own meta ≡ ok status

pub lift-eq-ok : {A : Type 0} (o : Outcome PyError A) {a : A} → lift o ≡ ok a → o ≡ ok a
lift-eq-ok (ok a) e = ground (arith, e)
lift-eq-ok (err x) e = not_raised e

judge_meta-IsFinal :
    (result meta status own : Json) {found : Json}
    → get_default "meta" (obj end) result ≡ ok meta
    → get "confirmationStatus" result ≡ ok own
    → status_of own meta ≡ ok status
    → judge_meta result meta status ≡ ok found
    → (found ≡ result) × IsFinal result
unfolding judge_meta
judge_meta-IsFinal result meta status own has_meta has_own has_status e =
    elim (Bool-cases (truthy status && not (is_text "finalized" status))) [
      | inl pending ↦ not_raised (rw pending at e)
      | inr final ↦
          let (failure, has_failure, e1) = >>=-eq-ok (lift (get "err" meta)) _ (rw final at e) in
          elim (Bool-cases (truthy failure)) [
            | inl failed ↦ not_raised (rw failed at e1)
            | inr succeeded ↦
                let same : ok result ≡ ok _ = rw succeeded at e1 in
                (
                  cc same,
                  record {
                    meta = meta;
                    has_meta = has_meta;
                    failure = failure;
                    has_failure = lift-eq-ok (get "err" meta) has_failure;
                    succeeded = succeeded;
                    status = status;
                    finalized = either status final;
                    own = own;
                    has_own = has_own;
                    has_status = has_status;
                  },
                )
          ]
    ]
  where
    either :
        (status : Json)
        → (truthy status && not (is_text "finalized" status)) ≡ false
        → (truthy status ≡ false) ⊎ (status ≡ str "finalized")
    either status final = elim (Bool-cases (is_text "finalized" status)) [
      | inl text ↦ inr (is_text_iff "finalized" status text)
      | inr other ↦ inl (ground (arith, final, other))
    ]

judge_present-IsFinal :
    (result : Json) {found : Json}
    → judge_present result ≡ ok found
    → (found ≡ result) × IsFinal result
unfolding judge_present
judge_present-IsFinal result e =
    let (meta, has_meta, e1) = >>=-eq-ok (lift (get_default "meta" (obj end) result)) _ e in
    let (own, has_own, e2) = >>=-eq-ok (lift (get "confirmationStatus" result)) _ e1 in
    let (status, has_status, e3) = >>=-eq-ok (lift (status_of own meta)) _ e2 in
    judge_meta-IsFinal result meta status own (lift-eq-ok _ has_meta) (lift-eq-ok _ has_own)
      (lift-eq-ok _ has_status) e3

judge_result-IsFinal :
    (result : Json) {found : Json}
    → judge_result result ≡ ok found
    → (found ≡ result) × IsFinal result
unfolding judge_result
judge_result-IsFinal null e = not_raised e
judge_result-IsFinal (bool b) e = judge_present-IsFinal (bool b) e
judge_result-IsFinal (num n) e = judge_present-IsFinal (num n) e
judge_result-IsFinal (str s) e = judge_present-IsFinal (str s) e
judge_result-IsFinal (arr xs) e = judge_present-IsFinal (arr xs) e
judge_result-IsFinal (obj fs) e = judge_present-IsFinal (obj fs) e

-- a text, as `any` sees it
abbrev pub among : String → List String → Bool
among u us = any (str_eq u) us

module _ (env : Rpc) where
  rpc_error_raises : {A : Type 0} (reply found : Json) → rpc_error env reply ≡ ok found → A
  unfolding rpc_error
  rpc_error_raises reply found e =
      let (problem, _, e1) = >>=-eq-ok (lift (error_of reply)) _ e in
      let (message, _, e2) =
        >>=-eq-ok (lift (get_default "message" (str "Unknown RPC error") problem)) _ e1 in
      let (text, _, e3) = >>=-eq-ok (lift (text_of message)) _ e2 in
      elim (Bool-cases (occurs_in "not found" (env.lower text))) [
        | inl unknown ↦ not_raised (rw unknown at e3)
        | inr other ↦ not_raised (rw other at e3)
      ]

  -- a reply without an error, whose result is final
  pub record Replied (url : String) (attempt : ℕ) (found : Json) : Type 0 where
    pub reply : Json
    pub answered : env.post url attempt ≡ ok reply
    pub no_error : contains "error" reply ≡ ok false
    pub result : get "result" reply ≡ ok found
    pub final : IsFinal found

  judge_rpc_reply-Replied :
      (url : String) (attempt : ℕ) {found : Json}
      → (env.post url attempt >>= judge_rpc_reply env) ≡ ok found
      → Replied url attempt found
  unfolding judge_rpc_reply
  judge_rpc_reply-Replied url attempt e =
      let (reply, answered, e1) = >>=-eq-ok (env.post url attempt) _ e in
      let (has_error, contained, e2) = >>=-eq-ok (lift (contains "error" reply)) _ e1 in
      elim (Bool-cases has_error) [
        | inl failed ↦ rpc_error_raises reply _ (rw failed at e2)
        | inr clean ↦
            let (result, has_result, e3) =
              >>=-eq-ok (lift (get "result" reply)) _ (rw clean at e2) in
            let (same, final) = judge_result-IsFinal result e3 in
            record {
              reply = reply;
              answered = answered;
              no_error = rw clean at (lift-eq-ok (contains "error" reply) contained);
              result = rw (sym same) at (lift-eq-ok (get "result" reply) has_result);
              final = rw (sym same) at final;
            }
      ]

  -- an attempt in a range that was answered
  pub record Attempt (url : String) (from left : ℕ) (found : Json) : Type 0 where
    pub attempt : ℕ
    pub low : from ≤ attempt
    pub high : attempt < from + left
    pub replied : Replied url attempt found

  try_url-Attempt :
      (url : String) (left attempt : ℕ) {found : Json}
      → try_url env url left attempt ≡ ok (some found)
      → Attempt url attempt left found
  unfolding try_url after_attempt next_attempt
  try_url-Attempt url zero attempt e = ground (arith, e)
  try_url-Attempt url (suc left) attempt e =
      elim (Outcome-cases (env.post url attempt >>= judge_rpc_reply env)) [
        | inl (result, returned) ↦
            let same = some-injective _ _ (ok-injective (rw returned at e)) in
            record {
              attempt = attempt;
              low = omega arith;
              high = omega arith;
              replied = judge_rpc_reply-Replied url attempt (rw same at returned);
            }
        | inr (failure, failed) ↦
            let e1 = rw failed at e in
            elim (Bool-cases (is_caught failure)) [
              | inr uncaught ↦ not_raised (rw uncaught at e1)
              | inl caught ↦
                  let later = try_url-Attempt url left (suc attempt) (rw caught at e1) in
                  record {
                    attempt = later.attempt;
                    low = omega (arith, later.low);
                    high = omega (arith, later.high);
                    replied = later.replied;
                  }
            ]
      ]

  -- an attempt of a range that raised what the loop does not catch
  pub record RaisedIn (url : String) (from left : ℕ) (e : FetchError) : Type 0 where
    pub attempt : ℕ
    pub low : from ≤ attempt
    pub high : attempt < from + left
    pub raises : (env.post url attempt >>= judge_rpc_reply env) ≡ err e
    pub no_value_error : e ≢ raised value_error
    pub no_request_exception : e ≢ request_exception

  -- each attempt of a range raised a ValueError or a `requests.RequestException`
  pub data Exhausted (url : String) : ℕ → ℕ → Type 0 where
    no_attempt : {attempt : ℕ} → Exhausted url zero attempt
    another :
        {left attempt : ℕ} {e : FetchError}
        → (env.post url attempt >>= judge_rpc_reply env) ≡ err e
        → (e ≡ raised value_error) ⊎ (e ≡ request_exception)
        → Exhausted url left (suc attempt)
        → Exhausted url (suc left) attempt

  caught-either :
      (e : FetchError) → is_caught e ≡ true → (e ≡ raised value_error) ⊎ (e ≡ request_exception)
  caught-either request_exception h = inr refl
  caught-either connection_error h = absurd (false≢true h)
  caught-either (raised value_error) h = inl refl
  caught-either (raised attribute_error) h = absurd (false≢true h)
  caught-either (raised type_error) h = absurd (false≢true h)
  caught-either (raised other_error) h = absurd (false≢true h)

  try_url-Exhausted :
      (url : String) (left attempt : ℕ)
      → try_url env url left attempt ≡ ok none
      → Exhausted url left attempt
  unfolding try_url after_attempt next_attempt
  try_url-Exhausted url zero attempt nothing = no_attempt
  try_url-Exhausted url (suc left) attempt nothing =
      elim (Outcome-cases (env.post url attempt >>= judge_rpc_reply env)) [
        | inl (result, returned) ↦ none_is_some (sym (ok-injective (rw returned at nothing)))
        | inr (failure, failed) ↦
            let rest = rw failed at nothing in
            elim (Bool-cases (is_caught failure)) [
              | inr uncaught ↦ not_raised (rw uncaught at rest)
              | inl caught ↦
                  another failed (caught-either failure caught)
                    (try_url-Exhausted url left (suc attempt) (rw caught at rest))
            ]
      ]

  try_url-RaisedIn :
      (url : String) (left attempt : ℕ) {e : FetchError}
      → try_url env url left attempt ≡ err e
      → RaisedIn url attempt left e
  unfolding try_url after_attempt next_attempt
  try_url-RaisedIn url zero attempt raises = not_raised (sym raises)
  try_url-RaisedIn url (suc left) attempt raises =
      elim (Outcome-cases (env.post url attempt >>= judge_rpc_reply env)) [
        | inl (result, returned) ↦ not_raised (sym (rw returned at raises))
        | inr (failure, failed) ↦
            let raises1 = rw failed at raises in
            elim (Bool-cases (is_caught failure)) [
              | inr uncaught ↦
                  let same = err-injective (rw uncaught at raises1) in
                  let missed = rw same at uncaught in
                  record {
                    attempt = attempt;
                    low = omega arith;
                    high = omega arith;
                    raises = rw same at failed;
                    no_value_error = λ h. false≢true (sym missed ∙ ap is_caught h);
                    no_request_exception = λ h. false≢true (sym missed ∙ ap is_caught h);
                  }
              | inl caught ↦
                  let later = try_url-RaisedIn url left (suc attempt) (rw caught at raises1) in
                  record {
                    attempt = later.attempt;
                    low = omega (arith, later.low);
                    high = omega (arith, later.high);
                    raises = later.raises;
                    no_value_error = later.no_value_error;
                    no_request_exception = later.no_request_exception;
                  }
            ]
      ]

  -- a transaction that one of the URLs reported
  pub record Fetched (max_retries : ℕ) (urls : List String) (found : Json) : Type 0 where
    pub url : String
    pub asked : among url urls ≡ true
    pub attempt : Attempt url 0 max_retries found

  try_urls-Fetched :
      (max_retries : ℕ) (urls : List String) {found : Json}
      → try_urls env max_retries urls ≡ ok found
      → Fetched max_retries urls found
  unfolding try_urls after_url
  try_urls-Fetched max_retries [] e = not_raised e
  try_urls-Fetched max_retries (url ∷ urls) e =
      let (o, tried, e1) = >>=-eq-ok (try_url env url max_retries 0) _ e in
      elim (Option-cases o) [
        | inl nothing ↦
            let rest = try_urls-Fetched max_retries urls (rw nothing at e1) in
            record { url = rest.url; asked = rw rest.asked (ground arith); attempt = rest.attempt }
        | inr (result, something) ↦
            let same = ok-injective (rw something at e1) in
            record {
              url = url;
              asked = rw (eq_refl url) refl;
              attempt = try_url-Attempt url max_retries 0 (rw (something, same) at tried);
            }
      ]

  -- If `fetch_transaction` returns a document, then one of the URLs replied with it as the `result` in
  -- an attempt below `max_retries`, without an `error`, with no `err` in its `meta`, and with a
  -- `confirmationStatus` that is "finalized" or missing or empty.
  pub fetch_transaction-Fetched :
      (max_retries : ℕ) {found : Json}
      → fetch_transaction env max_retries ≡ ok found
      → Fetched max_retries (rpc_urls env) found
  unfolding fetch_transaction
  fetch_transaction-Fetched max_retries e = try_urls-Fetched max_retries (rpc_urls env) e

  -- why no URL gave a transaction
  pub data Raises (max_retries : ℕ) (urls : List String) (e : FetchError) : Type 0 where
    exhausted :
        e ≡ connection_error
        → All (λ url. Exhausted url max_retries 0) urls
        → Raises max_retries urls e
    escaped :
        (url : String)
        → among url urls ≡ true
        → RaisedIn url 0 max_retries e
        → Raises max_retries urls e

  after-Raises :
      (max_retries : ℕ) (url : String) (urls : List String) {e : FetchError}
      → Exhausted url max_retries 0
      → Raises max_retries urls e
      → Raises max_retries (url ∷ urls) e
  after-Raises max_retries url urls failed (exhausted same all_failed) =
      exhausted same (failed, all_failed)
  after-Raises max_retries url urls failed (escaped other asked raises) =
      escaped other (rw asked (ground arith)) raises

  try_urls-Raises :
      (max_retries : ℕ) (urls : List String) {e : FetchError}
      → try_urls env max_retries urls ≡ err e
      → Raises max_retries urls e
  unfolding try_urls after_url
  try_urls-Raises max_retries [] raises = exhausted (sym (err-injective raises)) tt
  try_urls-Raises max_retries (url ∷ urls) raises =
      elim (Outcome-cases (try_url env url max_retries 0)) [
        | inr (failure, failed) ↦
            let same = err-injective (rw failed at raises) in
            escaped url (rw (eq_refl url) refl)
              (try_url-RaisedIn url max_retries 0 (rw same at failed))
        | inl (o, tried) ↦ elim (Option-cases o) [
          | inl nothing ↦
              after-Raises max_retries url urls
                (try_url-Exhausted url max_retries 0 (rw nothing at tried))
                (try_urls-Raises max_retries urls (rw (tried, nothing) at raises))
          | inr (result, something) ↦ not_raised (sym (rw (tried, something) at raises))
        ]
      ]

  -- If `fetch_transaction` raises an exception, then either it is a ConnectionError, and at every URL each
  -- of the `max_retries` attempts raised a ValueError or a `requests.RequestException`; or an attempt at
  -- one of the URLs raised it, and it is neither of these two.
  pub fetch_transaction-Raises :
      (max_retries : ℕ) {e : FetchError}
      → fetch_transaction env max_retries ≡ err e
      → Raises max_retries (rpc_urls env) e
  unfolding fetch_transaction
  fetch_transaction-Raises max_retries raises = try_urls-Raises max_retries (rpc_urls env) raises
