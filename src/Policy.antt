-- ===== src/Policy.antt =====
-- api/policy_engine_store.py: the registered policy engine of an organisation and the log; with the
-- results of api/policy_client.py, whose functions are in Policy/Client.
-- Times are microseconds; the request id, the clock and the engine's reply are arguments.
pub mod Client
pub mod Limits
pub mod Decisions
pub mod Tests
use Prim.Native.String.{◌++◌ as str_append}
use arp_spec.Common.{
  ℕ, zero, suc, ◌+◌, ◌-◌, ◌*◌, ◌/◌, ◌%◌, ◌≤◌, ◌<◌, String, ◌≡◌, refl, sym, ap, ◌≢◌, ◌↔◌, ◌⊎◌, inl,
  inr, Bool, true, false, not, ◌&&◌, ◌||◌, Option, none, some, List, [], ◌∷◌, ◌++◌, map, arith,
  length, get_or, All, any, all, ltb, leb, ◌==◌, if◌then◌else◌, ==_iff, ltb_iff, leb_iff,
  Bool-cases, Option-cases, Outcome, ok, err, ◌>>=◌, ◌>>◌, ℤ, pos, negsuc, str_eq, eq_iff,
  false≢true,
}
use arp_spec.Bitstring.{Bytes}
use arp_spec.Json.{
  Json, null, str, obj, Fields, PyError, attribute_error, get, get_default, truthy, without, insert,
}

pub record EngineRow : Type 0 where
  pub org_id : ℕ
  pub engine_url : String
  pub engine_public_key_did : String
  pub engine_name : String
  pub engine_version : Option String
  pub registered_at : ℕ
  pub registered_by : Option String
  pub is_active : Bool

pub data PolicyDecision : Type 0 where
  permit deny pending_approval unavailable signature_invalid : PolicyDecision

-- the texts that the code gives as reason; `from_engine` is the engine's own
pub data PolicyReason : Type 0 where
  no_engine_registered rate_limit_exceeded engine_timeout engine_error : PolicyReason
  engine_signature_verification_failed signature_verification_failed : PolicyReason
  engine_returned : ℕ → PolicyReason
  from_engine : Json → PolicyReason

pub record PolicyResult : Type 0 where
  pub decision : PolicyDecision
  pub request_id : String
  pub policy_id : Json
  pub reason : PolicyReason
  pub violations : Json
  pub approval_status_url : Json
  pub engine_signature : Json
  pub raw_response : Option Fields

-- a row of policy_consultation_log; the payload is the reason with the response, if there is one, and
-- without the text of a reply of another status
pub record LogRow : Type 0 where
  pub org_id : ℕ
  pub engine_url : String
  pub request_id : String
  pub action_type : String
  pub decision : PolicyDecision
  pub payload_reason : PolicyReason
  pub payload_response : Option Fields
  pub policy_id : Json
  pub engine_signature : Json
  pub eval_duration_ms : Option ℕ

pub record Window : Type 0 where
  pub org : ℕ
  pub count : ℕ
  pub window_start : ℕ

-- the two tables, and the module's `_rate_limits`
pub record PolicyState : Type 0 where
  pub policy_engines : List EngineRow
  pub consultation_log : List LogRow
  pub rate_limits : List Window

abbrev pub rate_limit_per_sec : ℕ
rate_limit_per_sec = 100

-- the store

unfoldable pub engine_of_org : ℕ → List EngineRow → Option EngineRow
engine_of_org org [] = none
engine_of_org org (row ∷ rows) = if row.org_id == org then some row else engine_of_org org rows

unfoldable pub get_engine : ℕ → List EngineRow → Option EngineRow
get_engine org [] = none
get_engine org (row ∷ rows) =
    if row.org_id == org && row.is_active then some row else get_engine org rows

unfoldable pub update_engines : ℕ → (EngineRow → EngineRow) → List EngineRow → List EngineRow
update_engines org f [] = []
update_engines org f (row ∷ rows) =
    (if row.org_id == org then f row else row) ∷ update_engines org f rows

abbrev pub is_some {ℓ} : {A : Type ℓ} → Option A → Bool
is_some none = false
is_some (some _) = true

-- every column but `org_id` is set again, `is_active` to TRUE
unfoldable pub register_engine : EngineRow → List EngineRow → List EngineRow
unfolding engine_of_org update_engines
register_engine new rows =
    if is_some (engine_of_org new.org_id rows)
    then update_engines new.org_id (λ _. record new { is_active = true }) rows
    else record new { is_active = true } ∷ rows

-- whether a row was affected, and the rows
unfoldable pub deactivate_engine : ℕ → List EngineRow → Bool × List EngineRow
unfolding get_engine update_engines
deactivate_engine org rows = (
  is_some (get_engine org rows),
  update_engines org (λ row. record row { is_active = false }) rows,
)

unfoldable pub log_consultation : LogRow → PolicyState → PolicyState
log_consultation row s = record s { consultation_log = row ∷ s.consultation_log }
