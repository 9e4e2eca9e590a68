-- ===== src/Policy/Client.antt =====
-- api/policy_client.py: the rate limit of an organisation, and the consultation of its engine.
use Prim.Native.String.{◌++◌ as str_append}
use arp_spec.Common.{
  ℕ, ◌+◌, ◌-◌, String, Bool, true, false, not, Option, none, some, List, [], ◌∷◌, leb, ◌==◌,
  if◌then◌else◌, Outcome, ok, err, ◌>>=◌, str_eq,
}
use arp_spec.Bitstring.{Bytes}
use arp_spec.Json.{
  Json, null, str, obj, Fields, PyError, attribute_error, get, get_default, truthy, without, insert,
}
use arp_spec.Policy.{
  EngineRow, PolicyDecision, PolicyReason, PolicyResult, LogRow, Window, PolicyState,
  rate_limit_per_sec, get_engine, log_consultation, permit, deny, pending_approval, unavailable,
  signature_invalid, no_engine_registered, rate_limit_exceeded, engine_timeout, engine_error,
  signature_verification_failed, engine_signature_verification_failed, engine_returned, from_engine,
}

unfoldable pub window_of : ℕ → List Window → Option Window
window_of org [] = none
window_of org (w ∷ ws) = if w.org == org then some w else window_of org ws

-- `_rate_limits[org_id] = ...`
unfoldable pub set_window : Window → List Window → List Window
set_window w [] = w ∷ []
set_window w (v ∷ vs) = let rest = set_window w vs in if v.org == w.org then w ∷ vs else v ∷ rest

-- `_check_rate_limit`: whether the call is within the limit, and the dict
unfoldable pub judge_window : ℕ → ℕ → Option Window → List Window → Bool × List Window
unfolding set_window
judge_window org now none ws =
    (true, set_window (record { org = org; count = 1; window_start = now }) ws)
judge_window org now (some w) ws =
    if leb 1000000 (now - w.window_start)
    then (true, set_window (record { org = org; count = 1; window_start = now }) ws)
    else if leb rate_limit_per_sec w.count
    then (false, ws)
    else (
      true,
      set_window (record { org = org; count = w.count + 1; window_start = w.window_start }) ws,
    )

unfoldable pub check_rate_limit : ℕ → ℕ → List Window → Bool × List Window
unfolding window_of judge_window
check_rate_limit org now ws = judge_window org now (window_of org ws) ws

-- what the POST to the engine gives: a status with a body that may be no JSON, a timeout, or
-- another exception
pub data EngineReply : Type 0 where
  replied : ℕ → Outcome PyError Json → EngineReply
  timed_out connection_failed : EngineReply

-- the functions the client uses that are not its own: json.dumps(sort_keys=True, ...).encode(),
-- str.lower, and the two optional callbacks
pub record Callbacks : Type 0 where
  pub json_dumps : Fields → Bytes
  pub lower : String → String
  pub verify_signature : Option (Bytes → Json → String → Outcome PyError Bool)

-- the request: the org, the action, the request id, the clock and the elapsed milliseconds
pub record Request : Type 0 where
  pub org_id : ℕ
  pub action_type : String
  pub request_id : String
  pub now : ℕ
  pub elapsed_ms : ℕ

-- a result that carries a reason only
abbrev pub plain_result : Request → PolicyDecision → PolicyReason → PolicyResult
plain_result q decision reason = record {
  decision = decision;
  request_id = q.request_id;
  policy_id = null;
  reason = reason;
  violations = null;
  approval_status_url = null;
  engine_signature = null;
  raw_response = none;
}

-- the reason in the payload of the log, which differs from the result's for a refused signature
abbrev pub logged_reason : PolicyReason → PolicyReason
logged_reason engine_signature_verification_failed = signature_verification_failed
logged_reason reason = reason

abbrev pub log_row : Request → String → PolicyResult → Json → Option ℕ → LogRow
log_row q engine_url r signature duration = record {
  org_id = q.org_id;
  engine_url = engine_url;
  request_id = q.request_id;
  action_type = q.action_type;
  decision = r.decision;
  payload_reason = logged_reason r.reason;
  payload_response = r.raw_response;
  policy_id = r.policy_id;
  engine_signature = signature;
  eval_duration_ms = duration;
}

abbrev pub logged :
    Request → String → PolicyResult → Json → Option ℕ → PolicyState → PolicyResult × PolicyState
logged q engine_url r signature duration s =
    (r, log_consultation (log_row q engine_url r signature duration) s)

-- step 6 on the lowered text
abbrev pub parse_decision : String → PolicyDecision
parse_decision d =
    if str_eq d "permit"
    then permit
    else if str_eq d "deny"
    then deny
    else if str_eq d "pending_approval"
    then pending_approval
    else unavailable

-- an unknown decision sets the response's "reason"
abbrev pub response_after : String → Fields → Fields
response_after d response = elim (parse_decision d) [
  | unavailable ↦ insert "reason" (str (str_append "unknown_decision: " d)) response
  | _ ↦ response
]

-- `.lower()`, which only a text has
abbrev pub text_of : Json → Outcome PyError String
text_of (str s) = ok s
text_of _ = err attribute_error

abbrev pub dict_of : Json → Outcome PyError Fields
dict_of (obj fs) = ok fs
dict_of _ = err attribute_error

module _ (c : Callbacks) where
  -- step 5: whether the signature test lets the response through; a raise counts as invalid, and
  -- without a callback or a signature there is no test
  unfoldable pub signature_passes : Fields → Json → String → Bool
  signature_passes response signature key_did =
      if not (truthy signature) then true else elim c.verify_signature [
        | none ↦ true
        | some verify ↦
            elim (verify (c.json_dumps (without "signature" response)) signature key_did) [
              | ok valid ↦ valid
              | err _ ↦ false
            ]
      ]

  -- step 6 and the log entry
  unfoldable pub conclude :
      Request
      → EngineRow
      → Fields
      → Json
      → PolicyState
      → Outcome PyError (PolicyResult × PolicyState)
  conclude q engine response signature s = do
    decision_value ← get_default "decision" (str "") (obj response)
    decision_text ← text_of decision_value
    let d = c.lower decision_text
    let after = response_after d response
    policy_id ← get "policy_id" (obj after)
    reason ← get "reason" (obj after)
    violations ← get "violations" (obj after)
    approval_status_url ← get "approval_status_url" (obj after)
    ok (
        logged q engine.engine_url
          (record {
            decision = parse_decision d;
            request_id = q.request_id;
            policy_id = policy_id;
            reason = from_engine reason;
            violations = violations;
            approval_status_url = approval_status_url;
            engine_signature = signature;
            raw_response = some after;
          })
          signature (some q.elapsed_ms) s)

  abbrev pub invalid_result : Request → Fields → PolicyResult
  invalid_result q response =
      record (plain_result q signature_invalid engine_signature_verification_failed) {
        raw_response = some response;
      }

  -- from the parsed JSON on; a reply that is no dict has no `get`
  unfoldable pub judge_response :
      Request → EngineRow → Json → PolicyState → Outcome PyError (PolicyResult × PolicyState)
  unfolding signature_passes conclude
  judge_response q engine response_data s = do
    response ← dict_of response_data
    signature ← get "signature" (obj response)
    if signature_passes response signature engine.engine_public_key_did
        then conclude q engine response signature s
        else ok
            (logged q engine.engine_url (invalid_result q response) signature (some q.elapsed_ms) s)

  -- step 4
  unfoldable pub judge_reply :
      Request → EngineRow → EngineReply → PolicyState → Outcome PyError (PolicyResult × PolicyState)
  unfolding judge_response
  judge_reply q engine timed_out s = ok (
      logged q engine.engine_url (plain_result q unavailable engine_timeout) null
        (some q.elapsed_ms) s)
  judge_reply q engine connection_failed s = ok (
      logged q engine.engine_url (plain_result q unavailable engine_error) null (some q.elapsed_ms)
        s)
  judge_reply q engine (replied status body) s =
      if not (status == 200)
      then ok (
          logged q engine.engine_url (plain_result q unavailable (engine_returned status)) null
            (some q.elapsed_ms) s)
      else elim body [
        | err _ ↦ ok (
            logged q engine.engine_url (plain_result q unavailable engine_error) null
              (some q.elapsed_ms) s)
        | ok response_data ↦ judge_response q engine response_data s
      ]

  -- steps 2 to 6, with the engine that was found
  unfoldable pub consult_engine :
      Request → EngineReply → EngineRow → PolicyState → Outcome PyError (PolicyResult × PolicyState)
  unfolding check_rate_limit judge_reply
  consult_engine q reply engine s =
      let (within, windows) = check_rate_limit q.org_id q.now s.rate_limits in
      if within
      then judge_reply q engine reply (record s { rate_limits = windows })
      else ok (
          logged q engine.engine_url (plain_result q unavailable rate_limit_exceeded) null none
            (record s { rate_limits = windows }))

  -- no engine permits by default
  unfoldable pub consult_found :
      Request
      → EngineReply
      → Option EngineRow
      → PolicyState
      → Outcome PyError (PolicyResult × PolicyState)
  unfolding consult_engine
  consult_found q reply none s =
      ok (logged q "none" (plain_result q permit no_engine_registered) null none s)
  consult_found q reply (some engine) s = consult_engine q reply engine s

  unfoldable pub consult_policy_engine :
      Request → EngineReply → PolicyState → Outcome PyError (PolicyResult × PolicyState)
  unfolding get_engine consult_found
  consult_policy_engine q reply s = consult_found q reply (get_engine q.org_id s.policy_engines) s
