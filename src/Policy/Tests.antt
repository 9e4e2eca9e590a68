-- ===== src/Policy/Tests.antt =====
-- The policy theorems at one engine and its replies.
use arp_spec.Common.{
  ◌≡◌, refl, ◌⊎◌, true, none, some, [], ◌∷◌, arith, if◌then◌else◌, ok, err, str_eq, min,
}
use arp_spec.Json.{Json, null, str, obj, Fields, field, end, PyError, attribute_error}
use arp_spec.Policy.{
  EngineRow, permit, from_engine, PolicyResult, LogRow, PolicyState, Window, get_engine,
  register_engine, deactivate_engine, is_some,
}
use arp_spec.Policy.Client.{
  EngineReply, replied, Callbacks, Request, check_rate_limit, consult_policy_engine, window_of,
}
use arp_spec.Policy.Limits.{passed, passed_in_window}
use arp_spec.Policy.Decisions.{
  Permits, Logs, consult_policy_engine-Logs, consult_policy_engine_permit,
}

abbrev engine : EngineRow
engine = record {
  org_id = 1;
  engine_url = "https://engine";
  engine_public_key_did = "did:web:engine";
  engine_name = "engine";
  engine_version = none;
  registered_at = 1;
  registered_by = none;
  is_active = true;
}

abbrev callbacks : Callbacks
callbacks = record {
  json_dumps = λ fs. [];
  lower = λ s. if str_eq s "Permit" then "permit" else s;
  verify_signature = some (λ bytes signature did. ok true);
}

abbrev state : PolicyState
state = record { policy_engines = engine ∷ []; consultation_log = []; rate_limits = [] }

abbrev request : Request
request = record {
  org_id = 1;
  action_type = "delegation.grant";
  request_id = "r-1";
  now = 5;
  elapsed_ms = 2;
}

abbrev permitting : Fields
permitting = field "decision" (str "Permit") (field "signature" (str "sig") end)

abbrev permit_result : PolicyResult
permit_result = record {
  decision = permit;
  request_id = "r-1";
  policy_id = null;
  reason = from_engine null;
  violations = null;
  approval_status_url = null;
  engine_signature = str "sig";
  raw_response = some permitting;
}

abbrev permit_row : LogRow
permit_row = record {
  org_id = 1;
  engine_url = "https://engine";
  request_id = "r-1";
  action_type = "delegation.grant";
  decision = permit;
  payload_reason = from_engine null;
  payload_response = some permitting;
  policy_id = null;
  engine_signature = str "sig";
  eval_duration_ms = some 2;
}

abbrev state_after : PolicyState
state_after = record {
  policy_engines = engine ∷ [];
  consultation_log = permit_row ∷ [];
  rate_limits = record { org = 1; count = 1; window_start = 5 } ∷ [];
}

permitted :
    consult_policy_engine callbacks request (replied 200 (ok (obj permitting))) state
    ≡ ok (permit_result, state_after)
unfolding consult_policy_engine arp_spec.Policy.log_consultation arp_spec.Json.get
    arp_spec.Json.truthy arp_spec.Json.lookup_or
permitted = refl

consult_policy_engine-Logs_example : Logs permit_result state state_after
consult_policy_engine-Logs_example =
    consult_policy_engine-Logs callbacks request (replied 200 (ok (obj permitting))) state permitted

consult_policy_engine_permit_example :
    (get_engine 1 (engine ∷ []) ≡ none)
    ⊎ ((e : EngineRow) × (get_engine 1 (engine ∷ []) ≡ some e)
        × ((check_rate_limit 1 5 []).0 ≡ true)
        × Permits callbacks request (replied 200 (ok (obj permitting))) e)
consult_policy_engine_permit_example =
    consult_policy_engine_permit callbacks request (replied 200 (ok (obj permitting))) state
      permitted refl

finds_engine : get_engine 1 (engine ∷ []) ≡ some engine
unfolding get_engine
finds_engine = refl

first_call : (check_rate_limit 1 5 []).0 ≡ true
unfolding check_rate_limit
first_call = refl

no_decision_text :
    arp_spec.Json.get_default "decision" (str "") (obj (field "decision" null end)) ≡ ok null
unfolding arp_spec.Json.get_default arp_spec.Json.lookup_or
no_decision_text = refl

no_signature : arp_spec.Json.get "signature" (obj (field "decision" null end)) ≡ ok null
unfolding arp_spec.Json.get arp_spec.Json.lookup_or
no_signature = refl

unsigned_passes :
    arp_spec.Policy.Client.signature_passes callbacks
      (field "decision" null end)
      null
      "did:web:engine"
    ≡ true
unfolding arp_spec.Policy.Client.signature_passes arp_spec.Json.truthy
unsigned_passes = refl

not_a_text_raises :
    consult_policy_engine callbacks request
      (replied 200 (ok (obj (field "decision" null end))))
      state
    ≡ err attribute_error
unfolding consult_policy_engine arp_spec.Json.get arp_spec.Json.lookup_or arp_spec.Json.truthy
not_a_text_raises = refl

abbrev nearly_full : Window
nearly_full = record { org = 1; count = 98; window_start = 0 }

finds_window : window_of 1 (nearly_full ∷ []) ≡ some nearly_full
unfolding window_of
finds_window = refl

passed_in_window_example : passed 1 (1 ∷ 2 ∷ 3 ∷ []) (nearly_full ∷ []) ≡ min 3 2
passed_in_window_example =
    passed_in_window 1 (1 ∷ 2 ∷ 3 ∷ []) (nearly_full ∷ []) nearly_full finds_window (omega arith)
      (omega arith, (omega arith, (omega arith, tt)))
