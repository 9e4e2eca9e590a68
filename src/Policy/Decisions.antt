-- ===== src/Policy/Decisions.antt =====
-- What a consultation in api/policy_client.py permits, and what it logs.
use arp_spec.Common.{
  ℕ, String, ◌≡◌, refl, sym, ap, ◌≢◌, ◌⊎◌, inl, inr, true, Option, none, some, ◌∷◌, arith, ◌==◌,
  if◌then◌else◌, ==_iff, Bool-cases, Option-cases, Outcome, ok, err, str_eq, eq_iff, ok-first,
  >>=-eq-ok, ◌∙◌, ok-second,
}
use arp_spec.Json.{Json, str, obj, Fields, PyError, get, get_default, null}
use arp_spec.Policy.{
  EngineRow, permit, unavailable, from_engine, PolicyResult, LogRow, PolicyState, log_consultation,
  get_engine,
}
use arp_spec.Policy.Client.{
  EngineReply, replied, timed_out, connection_failed, Callbacks, Request, log_row, logged,
  parse_decision, response_after, text_of, dict_of, check_rate_limit, signature_passes, conclude,
  judge_response, judge_reply, consult_engine, consult_found, consult_policy_engine, invalid_result,
}

-- an engine that permits: a reply with status 200 whose JSON is a dict that passes the signature
-- test and whose lowered decision is "permit"
pub record Permits (c : Callbacks) (q : Request) (reply : EngineReply) (engine : EngineRow)
    : Type 0 where
  pub response : Fields
  pub signature : Json
  pub decision_text : String
  pub in_reply : reply ≡ replied 200 (ok (obj response))
  pub has_signature : get "signature" (obj response) ≡ ok signature
  pub passes : signature_passes c response signature engine.engine_public_key_did ≡ true
  pub has_decision : get_default "decision" (str "") (obj response) ≡ ok (str decision_text)
  pub is_permit : c.lower decision_text ≡ "permit"

text_of-str : (v : Json) {s : String} → text_of v ≡ ok s → v ≡ str s
text_of-str v h = ground (arith, h)

-- one new entry of the log, with the result's request id and decision
pub record Logs (r : PolicyResult) (s s' : PolicyState) : Type 0 where
  pub row : LogRow
  pub added : s'.consultation_log ≡ row ∷ s.consultation_log
  pub same_decision : row.decision ≡ r.decision
  pub same_request : row.request_id ≡ r.request_id

logged-Logs :
    (q : Request) (url : String) (r : PolicyResult) (signature : Json) (d : Option ℕ)
    (s : PolicyState) {o : Outcome PyError (PolicyResult × PolicyState)} {r' : PolicyResult}
    {s' : PolicyState}
    → r.request_id ≡ q.request_id
    → o ≡ ok (logged q url r signature d s)
    → o ≡ ok (r', s')
    → (r ≡ r') × Logs r' s s'
unfolding log_consultation
logged-Logs q url r signature d s {r' = r'} {s' = s'} id e0 e =
    let same = ok-first e0 e in
    let same_state = ok-second e0 e in
    (
      same,
      record {
        row = log_row q url r signature d;
        added = sym (ap (λ t. t.consultation_log) same_state);
        same_decision = ap (λ t. t.decision) same;
        same_request = sym id ∙ ap (λ t. t.request_id) same;
      },
    )

module _ (c : Callbacks) where
  -- a returned result is logged, and is a permit only if the engine permits
  record Answers (q : Request) (reply : EngineReply) (engine : EngineRow) (r : PolicyResult)
      (s s' : PolicyState) : Type 0 where
    logs : Logs r s s'
    permits : r.decision ≡ permit → Permits c q reply engine

  refusal-Answers :
      (q : Request) (reply : EngineReply) (engine : EngineRow) (url : String)
      (refused : PolicyResult) (signature : Json) (d : Option ℕ) (s : PolicyState)
      {o : Outcome PyError (PolicyResult × PolicyState)} {r : PolicyResult} {s' : PolicyState}
      → refused.request_id ≡ q.request_id
      → refused.decision ≢ permit
      → o ≡ ok (logged q url refused signature d s)
      → o ≡ ok (r, s')
      → Answers q reply engine r s s'
  refusal-Answers q reply engine url refused signature d s id ne e0 e =
      let (same, logs) = logged-Logs q url refused signature d s id e0 e in
      record { logs = logs; permits = λ p. absurd (ne (ap (λ t. t.decision) same ∙ p)) }

  parse_decision-permit : (d : String) → parse_decision d ≡ permit → d ≡ "permit"
  parse_decision-permit d h = elim (Bool-cases (str_eq d "permit")) [
    | inl is_permit ↦ (eq_iff d "permit").0 is_permit
    | inr other ↦ ground (arith, h, other)
  ]

  conclude-Answers :
      (q : Request) (engine : EngineRow) (response : Fields) (signature : Json) (s : PolicyState)
      {r : PolicyResult} {s' : PolicyState}
      → get "signature" (obj response) ≡ ok signature
      → signature_passes c response signature engine.engine_public_key_did ≡ true
      → conclude c q engine response signature s ≡ ok (r, s')
      → Answers q (replied 200 (ok (obj response))) engine r s s'
  unfolding conclude
  conclude-Answers q engine response signature s has_signature passes e =
      let (v, has_decision, r1) = >>=-eq-ok (get_default "decision" (str "") (obj response)) _ e in
      let (text, is_text, r2) = >>=-eq-ok (text_of v) _ r1 in
      let after = response_after (c.lower text) response in
      let (policy_id, _, r3) = >>=-eq-ok (get "policy_id" (obj after)) _ r2 in
      let (reason, _, r4) = >>=-eq-ok (get "reason" (obj after)) _ r3 in
      let (violations, _, r5) = >>=-eq-ok (get "violations" (obj after)) _ r4 in
      let (approval, _, r6) = >>=-eq-ok (get "approval_status_url" (obj after)) _ r5 in
      let (same, logs) =
        logged-Logs q engine.engine_url
          (record {
            decision = parse_decision (c.lower text);
            request_id = q.request_id;
            policy_id = policy_id;
            reason = from_engine reason;
            violations = violations;
            approval_status_url = approval;
            engine_signature = signature;
            raw_response = some after;
          })
          signature (some q.elapsed_ms) s refl refl r6 in
      record {
        logs = logs;
        permits = λ p. record {
          response = response;
          signature = signature;
          decision_text = text;
          in_reply = refl;
          has_signature = has_signature;
          passes = passes;
          has_decision = rw (text_of-str v is_text) at has_decision;
          is_permit = parse_decision-permit (c.lower text) (ap (λ t. t.decision) same ∙ p);
        };
      }

  judge_response-Answers :
      (q : Request) (engine : EngineRow) (v : Json) (s : PolicyState) {r : PolicyResult}
      {s' : PolicyState}
      → judge_response c q engine v s ≡ ok (r, s')
      → Answers q (replied 200 (ok v)) engine r s s'
  unfolding judge_response
  judge_response-Answers q engine v s {r = r} {s' = s'} e =
      let (response, is_dict, r1) = >>=-eq-ok (dict_of v) _ e in
      let (signature, has_signature, r2) = >>=-eq-ok (get "signature" (obj response)) _ r1 in
      let same : obj response ≡ v = dict_of-obj v is_dict in
      rw same at (by_signature response signature has_signature r2)
    where
      dict_of-obj : (w : Json) {fs : Fields} → dict_of w ≡ ok fs → obj fs ≡ w
      dict_of-obj w h = ground (arith, h)

      by_signature :
          (response : Fields) (signature : Json)
          → get "signature" (obj response) ≡ ok signature
          → (if signature_passes c response signature engine.engine_public_key_did
              then conclude c q engine response signature s
              else ok (
                  logged q engine.engine_url
                    (invalid_result c q response)
                    signature
                    (some q.elapsed_ms)
                    s))
            ≡ ok (r, s')
          → Answers q (replied 200 (ok (obj response))) engine r s s'
      by_signature response signature has_signature k =
          elim (Bool-cases (signature_passes c response signature engine.engine_public_key_did)) [
            | inl passes ↦
                conclude-Answers q engine response signature s has_signature passes (rw passes at k)
            | inr fails ↦
                refusal-Answers q _ engine engine.engine_url (invalid_result c q response) signature
                  (some q.elapsed_ms) s refl (λ p. cc p) refl (rw fails at k)
          ]

  judge_reply-Answers :
      (q : Request) (engine : EngineRow) (reply : EngineReply) (s : PolicyState) {r : PolicyResult}
      {s' : PolicyState}
      → judge_reply c q engine reply s ≡ ok (r, s')
      → Answers q reply engine r s s'
  unfolding judge_reply
  judge_reply-Answers q engine timed_out s e =
      refusal-Answers q timed_out engine engine.engine_url _ null (some q.elapsed_ms) s refl
        (λ p. cc p) refl e
  judge_reply-Answers q engine connection_failed s e =
      refusal-Answers q connection_failed engine engine.engine_url _ null (some q.elapsed_ms) s refl
        (λ p. cc p) refl e
  judge_reply-Answers q engine (replied status (err x)) s e = elim (Bool-cases (status == 200)) [
    | inl fine ↦
        refusal-Answers q _ engine engine.engine_url _ null (some q.elapsed_ms) s refl (λ p. cc p)
          refl (rw fine at e)
    | inr failed ↦
        refusal-Answers q _ engine engine.engine_url _ null (some q.elapsed_ms) s refl (λ p. cc p)
          refl (rw failed at e)
  ]
  judge_reply-Answers q engine (replied status (ok v)) s e = elim (Bool-cases (status == 200)) [
    | inl fine ↦
        let is_200 : status ≡ 200 = (==_iff status 200).0 fine in
        rw is_200 (judge_response-Answers q engine v s (rw fine at e))
    | inr failed ↦
        refusal-Answers q _ engine engine.engine_url _ null (some q.elapsed_ms) s refl (λ p. cc p)
          refl (rw failed at e)
  ]

  consult_engine-Answers :
      (q : Request) (reply : EngineReply) (engine : EngineRow) (s : PolicyState) {r : PolicyResult}
      {s' : PolicyState}
      → consult_engine c q reply engine s ≡ ok (r, s')
      → Answers q reply engine r s s'
        × (r.decision ≡ permit → (check_rate_limit q.org_id q.now s.rate_limits).0 ≡ true)
  unfolding consult_engine
  consult_engine-Answers q reply engine s e =
      let (within, windows) = check_rate_limit q.org_id q.now s.rate_limits in
      elim (Bool-cases within) [
        | inl passes ↦
            let a =
              judge_reply-Answers q engine reply (record s { rate_limits = windows })
                (rw passes at e) in
            (record { logs = moved a.logs; permits = a.permits }, λ _. passes)
        | inr over ↦
            let a =
              refusal-Answers q reply engine engine.engine_url _ null none
                (record s { rate_limits = windows }) refl (λ p. cc p) refl (rw over at e) in
            (
              record { logs = moved a.logs; permits = a.permits },
              λ p. absurd (not_permitted (ok-first refl (rw over at e)) refl p),
            )
      ]
    where
      moved :
          {r : PolicyResult} {s' : PolicyState}
          → Logs r (record s { rate_limits = (check_rate_limit q.org_id q.now s.rate_limits).1 }) s'
          → Logs r s s'
      moved l = record {
        row = l.row;
        added = l.added;
        same_decision = l.same_decision;
        same_request = l.same_request;
      }

      not_permitted : {x y : PolicyResult} → x ≡ y → x.decision ≡ unavailable → y.decision ≢ permit
      not_permitted same u p = cc (ap (λ t. t.decision) same, u, p)

  -- A consultation that returns a result has added one entry to the log, with the result's request
  -- id and decision.
  pub consult_policy_engine-Logs :
      (q : Request) (reply : EngineReply) (s : PolicyState) {r : PolicyResult} {s' : PolicyState}
      → consult_policy_engine c q reply s ≡ ok (r, s')
      → Logs r s s'
  unfolding consult_policy_engine consult_found
  consult_policy_engine-Logs q reply s e =
      elim (Option-cases (get_engine q.org_id s.policy_engines)) [
        | inl missing ↦ (logged-Logs q "none" _ null none s refl refl (rw missing at e)).1
        | inr (engine, found) ↦ (consult_engine-Answers q reply engine s (rw found at e)).0.logs
      ]

  -- A consultation permits the action only if the org has no active engine, or if the call is
  -- within the rate limit and the engine has replied with status 200 and a JSON dict that passes
  -- the signature test and whose decision, lowered, is "permit". Every timeout, error, other
  -- status or other decision is thus no permit.
  pub consult_policy_engine_permit :
      (q : Request) (reply : EngineReply) (s : PolicyState) {r : PolicyResult} {s' : PolicyState}
      → consult_policy_engine c q reply s ≡ ok (r, s')
      → r.decision ≡ permit
      → (get_engine q.org_id s.policy_engines ≡ none)
        ⊎ ((engine : EngineRow) × (get_engine q.org_id s.policy_engines ≡ some engine)
            × ((check_rate_limit q.org_id q.now s.rate_limits).0 ≡ true)
            × Permits c q reply engine)
  unfolding consult_policy_engine consult_found
  consult_policy_engine_permit q reply s e p =
      elim (Option-cases (get_engine q.org_id s.policy_engines)) [
        | inl missing ↦ inl missing
        | inr (engine, found) ↦
            let (a, within) = consult_engine-Answers q reply engine s (rw found at e) in
            inr (engine, found, within p, a.permits p)
      ]
