-- ===== src/Cache/Verdict.antt =====
-- What a re-check in api/cache_invalidation.py concludes from the upstream status checks.
use arp_spec.Common.{
  ℕ, String, ◌≡◌, refl, ◌≢◌, inl, inr, Bool, true, false, not, ◌&&◌, ◌||◌, List, [], ◌∷◌, arith,
  any, Bool-cases, Outcome, ok, ok-first, >>=-eq-ok,
}
use arp_spec.Json.{Json, PyError, truthy, is_text}
use arp_spec.StatusCheck.{StatusCheckResult, StatusReport, Environment, check_credential_status}
use arp_spec.Cache.{
  CachedRow, Tables, update_rows, updated_row, CacheStatusResult, Flags, is_set, update_cache,
  note_check, verdict, recheck, check_cached_credential, note_checks, no_flags, loaded,
  needs_recheck,
}

-- an upstream check that failed for the purpose
unfoldable pub fails : String → StatusCheckResult → Bool
fails purpose c = is_text purpose c.status_purpose && not c.valid_for_purpose

-- an upstream check that passed for the purpose
unfoldable pub passes : String → StatusCheckResult → Bool
passes purpose c = is_text purpose c.status_purpose && c.valid_for_purpose

or_assoc : (a b c : Bool) → ((a || b) || c) ≡ (a || (b || c))
or_assoc a b c = ground arith

note_checks_lem :
    (was_suspended : Bool) (f : Flags) (cs : List StatusCheckResult)
    → ((note_checks was_suspended f cs).newly_revoked
        ≡ (f.newly_revoked || any (fails "revocation") cs))
      × ((note_checks was_suspended f cs).newly_suspended
          ≡ (f.newly_suspended || any (fails "suspension") cs))
      × ((note_checks was_suspended f cs).suspension_lifted
          ≡ (f.suspension_lifted || (was_suspended && any (passes "suspension") cs)))
unfolding note_checks note_check fails passes
note_checks_lem was_suspended f [] = (ground arith, ground arith, ground arith)
note_checks_lem was_suspended f (c ∷ cs) =
    let (a, b, d) = note_checks_lem was_suspended (note_check was_suspended f c) cs in
    (ground (arith, a), ground (arith, b), ground (arith, d))

module _ (env : Environment) (json_loads : String → Outcome PyError Json) where
  -- an upstream check of the row is due, and gives a report
  pub record Rechecks (now : ℕ) (force : Bool) (row : CachedRow) (report : StatusReport)
      : Type 0 where
    pub credential : Json
    pub live : is_set row.revoked_at ≡ false
    pub due : (force || needs_recheck now row.last_verified_at) ≡ true
    pub parsed : loaded env json_loads row.credential_jsonld ≡ ok credential
    pub present : truthy credential ≡ true
    pub reported : check_credential_status env credential ≡ ok report

  -- An answer that was checked upstream, of a row that the cache does not hold as suspended, is
  -- valid exactly if the report of that check has no failed revocation check and no failed
  -- suspension check; and it is marked revoked, or suspended, exactly if there is a failed check
  -- of that purpose.
  pub check_cached_credential_verdict :
      (now : ℕ) (table : String) (force : Bool) (row : CachedRow) (db : Tables)
      {r : CacheStatusResult} {db' : Tables}
      → check_cached_credential env json_loads now table force row db ≡ ok (r, db')
      → r.checked_upstream ≡ true
      → is_set row.suspended_at ≡ false
      → (report : StatusReport) × Rechecks now force row report
        × (r.is_valid ≡ (
            not (any (fails "revocation") report.status_checks)
            && not (any (fails "suspension") report.status_checks)))
        × (r.revoked ≡ any (fails "revocation") report.status_checks)
        × (r.suspended ≡ any (fails "suspension") report.status_checks)
  unfolding check_cached_credential recheck verdict
  check_cached_credential_verdict now table force row db {r = r} {db' = db'} e up clear =
      elim (Bool-cases (is_set row.revoked_at)) [
        | inl gone ↦ absurd (unchecked (ok-first refl (rw gone at e)) refl)
        | inr live ↦ elim (Bool-cases (force || needs_recheck now row.last_verified_at)) [
          | inr fresh ↦ absurd (unchecked (ok-first refl (rw (live, fresh) at e)) refl)
          | inl due ↦
              let (v, parsed, r1) =
                >>=-eq-ok (loaded env json_loads row.credential_jsonld) _ (rw (live, due) at e) in
              elim (Bool-cases (truthy v)) [
                | inr empty ↦ absurd (unchecked (ok-first refl (rw empty at r1)) refl)
                | inl present ↦
                    let (report, reported, r2) =
                      >>=-eq-ok (check_credential_status env v) _ (rw present at r1) in
                    let f = note_checks (is_set row.suspended_at) no_flags report.status_checks in
                    let (db1, wrote, r3) =
                      >>=-eq-ok (update_cache table row.credential_id now f db) _ r2 in
                    let (a, b, d) =
                      note_checks_lem (is_set row.suspended_at) no_flags report.status_checks in
                    let same : verdict row.credential_id f ≡ r = ok-first refl r3 in
                    (
                      report,
                      record {
                        credential = v;
                        live = live;
                        due = due;
                        parsed = parsed;
                        present = present;
                        reported = reported;
                      },
                      ground (arith, same, a, b, d, clear),
                      ground (arith, same, a),
                      ground (arith, same, b),
                    )
              ]
        ]
      ]
    where
      unchecked : {q : CacheStatusResult} → q ≡ r → q.checked_upstream ≢ false
      unchecked same no' = ground (arith, same, no', up)

  -- When a row of partner_attestations that is not revoked is held as suspended, its re-check is
  -- due and gives a report, and the report has a failed revocation check, a passed suspension
  -- check and no failed suspension check, the answer is at once revoked and valid.
  pub check_cached_credential_lifted :
      (now : ℕ) (force : Bool) (row : CachedRow) (db : Tables) (report : StatusReport)
      → Rechecks now force row report
      → is_set row.suspended_at ≡ true
      → any (fails "revocation") report.status_checks ≡ true
      → any (passes "suspension") report.status_checks ≡ true
      → any (fails "suspension") report.status_checks ≡ false
      → (r : CacheStatusResult) × (db' : Tables) × (check_cached_credential env json_loads now
            "partner_attestations" force row db
          ≡ ok (r, db'))
        × (r.revoked ≡ true)
        × (r.is_valid ≡ true)
  unfolding check_cached_credential recheck verdict update_cache
  check_cached_credential_lifted now force row db report h held revoked lifted unsuspended =
      let f = note_checks (is_set row.suspended_at) no_flags report.status_checks in
      let (a, b, d) = note_checks_lem (is_set row.suspended_at) no_flags report.status_checks in
      (
        verdict row.credential_id f,
        record db {
          partner_attestations =
              update_rows row.credential_id (updated_row now f) db.partner_attestations;
        },
        rw (h.live, h.due, h.parsed) (rw h.present (rw h.reported refl)),
        ground (arith, a, revoked),
        ground (arith, a, b, d, held, revoked, lifted, unsuspended),
      )
