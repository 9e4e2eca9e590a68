-- ===== src/Cache.antt =====
-- api/cache_invalidation.py: the status of a cached credential on a read, and the write-back.
-- Timestamps are microseconds since the epoch; a text or naive timestamp stands for its instant.
pub mod Revoked
pub mod Verdict
pub mod Tests
use arp_spec.Common.{
  ℕ, zero, suc, ◌+◌, ◌-◌, ◌*◌, ◌/◌, ◌%◌, ◌≤◌, ◌<◌, String, ◌≡◌, refl, sym, ap, ◌≢◌, ◌↔◌, ◌⊎◌, inl,
  inr, Bool, true, false, not, ◌&&◌, ◌||◌, Option, none, some, List, [], ◌∷◌, ◌++◌, map, arith,
  length, get_or, All, any, all, ltb, leb, ◌==◌, if◌then◌else◌, ==_iff, ltb_iff, leb_iff,
  Bool-cases, Option-cases, Outcome, ok, err, ◌>>=◌, ◌>>◌, ℤ, pos, negsuc, subz, str_eq, eq_iff,
  false≢true,
}
use arp_spec.Json.{Json, str, PyError, value_error, truthy, is_text}
use arp_spec.StatusCheck.{StatusCheckResult, StatusReport, Environment, check_credential_status}

-- RECHECK_THRESHOLD_HOURS, in microseconds
abbrev pub recheck_threshold : ℕ
recheck_threshold = 24 * 3600 * 1000000

-- a row of partner_attestations or delegation_credentials, with the columns that the code reads; its
-- `credential_id` is not empty, so that the code does not fall back to an `id`
pub record CachedRow : Type 0 where
  pub credential_id : String
  pub credential_jsonld : Json
  pub last_verified_at : Option ℕ
  pub revoked_at : Option ℕ
  pub suspended_at : Option ℕ

pub record Tables : Type 0 where
  pub partner_attestations : List CachedRow
  pub delegation_credentials : List CachedRow

pub record CacheStatusResult : Type 0 where
  pub credential_id : String
  pub is_valid : Bool
  pub revoked : Bool
  pub suspended : Bool
  pub checked_upstream : Bool
  pub no_credential_json : Bool

unfoldable pub needs_recheck : ℕ → Option ℕ → Bool
needs_recheck now none = true
needs_recheck now (some last_verified_at) = ltb (last_verified_at + recheck_threshold) now

-- the three local flags of the loop over the status checks
pub record Flags : Type 0 where
  pub newly_revoked : Bool
  pub newly_suspended : Bool
  pub suspension_lifted : Bool

abbrev pub is_set {ℓ} : {A : Type ℓ} → Option A → Bool
is_set none = false
is_set (some _) = true

-- one round of the loop; `was_suspended` is `suspended_at is not None`
unfoldable pub note_check : Bool → Flags → StatusCheckResult → Flags
note_check was_suspended f c =
    let revocation = is_text "revocation" c.status_purpose in
    let suspension = is_text "suspension" c.status_purpose in
    record {
      newly_revoked = f.newly_revoked || (revocation && not c.valid_for_purpose);
      newly_suspended = f.newly_suspended || (suspension && not c.valid_for_purpose);
      suspension_lifted =
          f.suspension_lifted || (suspension && (c.valid_for_purpose && was_suspended));
    }

unfoldable pub note_checks : Bool → Flags → List StatusCheckResult → Flags
unfolding note_check
note_checks was_suspended f [] = f
note_checks was_suspended f (c ∷ cs) = note_checks was_suspended (note_check was_suspended f c) cs

abbrev pub no_flags : Flags
no_flags = record { newly_revoked = false; newly_suspended = false; suspension_lifted = false }

-- `now.strftime(...)`, in whole seconds
abbrev pub written_time : ℕ → ℕ
written_time now = now / 1000000 * 1000000

-- the four UPDATE statements, on the row that they match
unfoldable pub updated_row : ℕ → Flags → CachedRow → CachedRow
updated_row now f row =
    if f.newly_revoked
    then record row {
      last_verified_at = some (written_time now);
      revoked_at = some (written_time now);
    }
    else if f.newly_suspended
    then record row {
      last_verified_at = some (written_time now);
      suspended_at = some (written_time now);
    }
    else if f.suspension_lifted
    then record row { last_verified_at = some (written_time now); suspended_at = none }
    else record row { last_verified_at = some (written_time now) }

-- WHERE credential_id = id
unfoldable pub update_rows : String → (CachedRow → CachedRow) → List CachedRow → List CachedRow
update_rows id f [] = []
update_rows id f (row ∷ rows) =
    (if str_eq row.credential_id id then f row else row) ∷ update_rows id f rows

-- `_update_cache`
unfoldable pub update_cache : String → String → ℕ → Flags → Tables → Outcome PyError Tables
unfolding update_rows updated_row
update_cache table_name credential_id now f db =
    if str_eq table_name "partner_attestations"
    then ok (record db {
      partner_attestations = update_rows credential_id (updated_row now f) db.partner_attestations;
    })
    else if str_eq table_name "delegation_credentials"
    then ok (record db {
      delegation_credentials =
          update_rows credential_id (updated_row now f) db.delegation_credentials;
    })
    else err value_error

-- the verdict after an upstream check; the last test looks at the suspension alone
unfoldable pub verdict : String → Flags → CacheStatusResult
verdict credential_id f = record {
  credential_id = credential_id;
  is_valid =
      if f.suspension_lifted && not f.newly_suspended
      then true
      else not f.newly_revoked && not f.newly_suspended;
  revoked = f.newly_revoked;
  suspended = f.newly_suspended;
  checked_upstream = true;
  no_credential_json = false;
}

abbrev pub cached_result : String → Bool → Bool → Bool → Bool → CacheStatusResult
cached_result id valid revoked suspended no_json = record {
  credential_id = id;
  is_valid = valid;
  revoked = revoked;
  suspended = suspended;
  checked_upstream = false;
  no_credential_json = no_json;
}

module _ (env : Environment) (json_loads : String → Outcome PyError Json) where
  -- a credential that is cached as text is parsed
  abbrev pub loaded : Json → Outcome PyError Json
  loaded (str s) = json_loads s
  loaded v = ok v

  -- from the upstream check on
  unfoldable pub recheck :
      ℕ → String → CachedRow → Tables → Json → Outcome PyError (CacheStatusResult × Tables)
  unfolding check_credential_status note_checks update_cache verdict
  recheck now table_name row db credential = do
    report ← check_credential_status env credential
    let f = note_checks (is_set row.suspended_at) no_flags report.status_checks
    db' ← update_cache table_name row.credential_id now f db
    ok (verdict row.credential_id f, db')

  unfoldable pub check_cached_credential :
      ℕ → String → Bool → CachedRow → Tables → Outcome PyError (CacheStatusResult × Tables)
  unfolding needs_recheck recheck
  check_cached_credential now table_name force_recheck row db =
      if is_set row.revoked_at
      then ok (cached_result row.credential_id false true false false, db)
      else if not (force_recheck || needs_recheck now row.last_verified_at)
      then ok (
        cached_result row.credential_id (not (is_set row.suspended_at)) false
            (is_set row.suspended_at) false,
        db,
      )
      else do
        credential ← loaded row.credential_jsonld
        if truthy credential
            then recheck now table_name row db credential
            else ok (cached_result row.credential_id false false false true, db)
