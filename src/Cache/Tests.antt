-- ===== src/Cache/Tests.antt =====
-- The cache theorems at a concrete row and status list.
use arp_spec.Common.{
  ℕ, zero, suc, ◌+◌, ◌-◌, ◌*◌, ◌/◌, ◌%◌, ◌≤◌, ◌<◌, String, ◌≡◌, refl, sym, ap, ◌≢◌, ◌↔◌, ◌⊎◌, inl,
  inr, Bool, true, false, not, ◌&&◌, ◌||◌, Option, none, some, List, [], ◌∷◌, ◌++◌, map, arith,
  length, get_or, All, any, all, ltb, leb, ◌==◌, if◌then◌else◌, ==_iff, ltb_iff, leb_iff,
  Bool-cases, Option-cases, Outcome, ok, err, ◌>>=◌, ◌>>◌, ℤ, pos, negsuc, str_eq, eq_iff,
  false≢true,
}
use arp_spec.Json.{
  Json, null, str, num, arr, obj, nil, cons, Fields, field, end, PyError, value_error,
}
use arp_spec.StatusCheck.{StatusCheckResult, StatusReport, check_credential_status}
use arp_spec.StatusCheck.Tests.{world}
use arp_spec.Cache.{
  CachedRow, Tables, CacheStatusResult, is_set, check_cached_credential, cached_result,
}
use arp_spec.Cache.Revoked.{
  attestations, IsRevoked, Reads, answered, done, next, find_row, rows_of, revoked_stays,
}
use arp_spec.Cache.Verdict.{
  fails, Rechecks, check_cached_credential_verdict, check_cached_credential_lifted,
}

abbrev entry_of : String → ℕ → Json
entry_of purpose i = obj (
    field "type" (str "BitstringStatusListEntry") (
      field "statusPurpose" (str purpose) (
        field "statusListIndex" (num (pos i))
          (field "statusListCredential" (str "https://lists/1") end))))

abbrev no_text : String → Outcome PyError Json
no_text s = err value_error

-- index 5 of the list is set and index 3 is clear
abbrev revoked_vc : Json
revoked_vc = obj (
    field "id" (str "vc-1") (
      field "credentialStatus"
        (arr (cons (entry_of "revocation" 5) (cons (entry_of "suspension" 3) nil))) end))

abbrev clear_vc : Json
clear_vc = obj (
    field "id" (str "vc-1")
      (field "credentialStatus" (arr (cons (entry_of "revocation" 3) nil)) end))

abbrev row_of : Json → Option ℕ → Option ℕ → CachedRow
row_of vc revoked_at suspended_at = record {
  credential_id = "vc-1";
  credential_jsonld = vc;
  last_verified_at = none;
  revoked_at = revoked_at;
  suspended_at = suspended_at;
}

abbrev tables_of : CachedRow → Tables
tables_of row = record { partner_attestations = row ∷ []; delegation_credentials = [] }

abbrev result_of : String → Json → ℕ → ℤ → Bool → StatusCheckResult
result_of purpose url i value valid = record {
  status_purpose = str purpose;
  status_list_url = url;
  status_list_index = pos i;
  current_value = value;
  valid_for_purpose = valid;
  error = none;
}

abbrev revoked_report : StatusReport
revoked_report = record {
  credential_id = str "vc-1";
  status_checks =
      result_of "revocation" (str "https://lists/1") 5 (pos 1) false
      ∷ result_of "suspension" (str "https://lists/1") 3 (pos 0) true
      ∷ [];
  overall_valid = false;
}

reports_revoked : check_credential_status world revoked_vc ≡ ok revoked_report
unfolding check_credential_status arp_spec.Json.get_default arp_spec.Json.get arp_spec.Json.truthy
    arp_spec.Json.lookup_or arp_spec.Json.is_text arp_spec.Bitstring.Tests.four_back
    arp_spec.Bitstring.Tests.four_of arp_spec.Common.Bits.shr
reports_revoked = refl

Rechecks-held : Rechecks world no_text 7 true (row_of revoked_vc none (some 1)) revoked_report
unfolding arp_spec.Json.truthy
Rechecks-held = record {
  credential = revoked_vc;
  live = refl;
  due = refl;
  parsed = refl;
  present = refl;
  reported = reports_revoked;
}

check_cached_credential_lifted_example :
    (r : CacheStatusResult) × (db' : Tables) × (check_cached_credential world no_text 7
        "partner_attestations" true
        (row_of revoked_vc none (some 1))
        (tables_of (row_of revoked_vc none (some 1)))
      ≡ ok (r, db'))
    × (r.revoked ≡ true)
    × (r.is_valid ≡ true)
unfolding fails arp_spec.Cache.Verdict.passes arp_spec.Json.is_text
check_cached_credential_lifted_example =
    check_cached_credential_lifted world no_text 7 true (row_of revoked_vc none (some 1))
      (tables_of (row_of revoked_vc none (some 1))) revoked_report Rechecks-held refl refl refl refl

abbrev passed_row : CachedRow
passed_row = record (row_of clear_vc none none) { last_verified_at = some 0 }

abbrev valid_result : CacheStatusResult
valid_result = record {
  credential_id = "vc-1";
  is_valid = true;
  revoked = false;
  suspended = false;
  checked_upstream = true;
  no_credential_json = false;
}

passes_clear :
    check_cached_credential world no_text 7 "partner_attestations" false
      (row_of clear_vc none none)
      (tables_of (row_of clear_vc none none))
    ≡ ok (valid_result, tables_of passed_row)
unfolding check_cached_credential arp_spec.Json.truthy arp_spec.Json.get_default arp_spec.Json.get
    arp_spec.Json.lookup_or arp_spec.Json.is_text arp_spec.Bitstring.Tests.four_back
    arp_spec.Bitstring.Tests.four_of arp_spec.Common.Bits.shr
passes_clear = refl

check_cached_credential_verdict_example :
    (report : StatusReport) × Rechecks world no_text 7 false (row_of clear_vc none none) report
    × (true ≡ (
        not (any (fails "revocation") report.status_checks)
        && not (any (fails "suspension") report.status_checks)))
    × (false ≡ any (fails "revocation") report.status_checks)
    × (false ≡ any (fails "suspension") report.status_checks)
check_cached_credential_verdict_example =
    check_cached_credential_verdict world no_text 7 "partner_attestations" false
      (row_of clear_vc none none) (tables_of (row_of clear_vc none none)) passes_clear refl refl

abbrev gone_row : CachedRow
gone_row = row_of clear_vc (some 5) none

-- the row as it was before the revocation, read again from an old copy
rereads_once :
    check_cached_credential world no_text 7 "partner_attestations" false
      (row_of clear_vc none none)
      (tables_of gone_row)
    ≡ ok (valid_result, tables_of (record gone_row { last_verified_at = some 0 }))
unfolding check_cached_credential arp_spec.Json.truthy arp_spec.Json.get_default arp_spec.Json.get
    arp_spec.Json.lookup_or arp_spec.Json.is_text arp_spec.Bitstring.Tests.four_back
    arp_spec.Bitstring.Tests.four_of arp_spec.Common.Bits.shr
rereads_once = refl

rereads :
    Reads world no_text
      (tables_of gone_row)
      (tables_of (record gone_row { last_verified_at = some 0 }))
rereads =
    next
      (answered 7 "partner_attestations" false (row_of clear_vc none none) valid_result
        rereads_once)
      done

is_gone : IsRevoked "vc-1" ((tables_of gone_row).partner_attestations)
unfolding find_row
is_gone = record { row = gone_row; found = refl; revoked = refl }

revoked_stays_example :
    (row : CachedRow) × (find_row "vc-1"
        (rows_of attestations (tables_of (record gone_row { last_verified_at = some 0 })))
      ≡ some row)
    × ((now : ℕ) (table : String) (force : Bool)
        → check_cached_credential world no_text now table force row
            (tables_of (record gone_row { last_verified_at = some 0 }))
          ≡ ok (
            cached_result row.credential_id false true false false,
            tables_of (record gone_row { last_verified_at = some 0 }),
          ))
revoked_stays_example = revoked_stays world no_text attestations "vc-1" is_gone rereads
