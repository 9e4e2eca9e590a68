-- ===== src/Cache/Revoked.antt =====
-- Revocation in the cache of api/cache_invalidation.py is terminal, whatever reads follow.
use arp_spec.Common.{
  ℕ, String, ◌≡◌, refl, ◌⊎◌, inl, inr, Bool, true, false, ◌||◌, Option, none, some, List, [], ◌∷◌,
  arith, if◌then◌else◌, Bool-cases, Outcome, ok, err, str_eq, >>=-eq-ok, ok-second,
}
use arp_spec.Json.{Json, PyError, truthy}
use arp_spec.StatusCheck.{Environment, check_credential_status}
use arp_spec.Cache.{
  CachedRow, Tables, CacheStatusResult, Flags, is_set, updated_row, update_rows, update_cache,
  cached_result, recheck, check_cached_credential, note_checks, no_flags, loaded, needs_recheck,
}

pub data Table : Type 0 where
  attestations delegations : Table

abbrev pub rows_of : Table → Tables → List CachedRow
rows_of attestations db = db.partner_attestations
rows_of delegations db = db.delegation_credentials

-- the row that a read by the credential's id finds
unfoldable pub find_row : String → List CachedRow → Option CachedRow
find_row id [] = none
find_row id (row ∷ rows) = if str_eq row.credential_id id then some row else find_row id rows

-- the row of an id is in the table and has a revocation time
pub record IsRevoked (id : String) (rows : List CachedRow) : Type 0 where
  pub row : CachedRow
  pub found : find_row id rows ≡ some row
  pub revoked : is_set row.revoked_at ≡ true

updated_row_id :
    (now : ℕ) (f : Flags) (row : CachedRow)
    → (updated_row now f row).credential_id ≡ row.credential_id
unfolding updated_row
updated_row_id now f row = ground arith

updated_row_revoked :
    (now : ℕ) (f : Flags) (row : CachedRow)
    → is_set row.revoked_at ≡ true
    → is_set (updated_row now f row).revoked_at ≡ true
unfolding updated_row
updated_row_revoked now f row h = ground arith

update_rows-IsRevoked :
    (id key : String) (now : ℕ) (f : Flags) (rows : List CachedRow)
    → IsRevoked id rows
    → IsRevoked id (update_rows key (updated_row now f) rows)
unfolding update_rows find_row
update_rows-IsRevoked id key now f [] h = cc (h.found)
update_rows-IsRevoked id key now f (row ∷ rows) h =
    elim (Bool-cases (str_eq row.credential_id id)) [
      | inl here ↦ elim (Bool-cases (str_eq row.credential_id key)) [
        | inl hit ↦ record {
          row = updated_row now f row;
          found = rw (hit, updated_row_id now f row, here) refl;
          revoked = updated_row_revoked now f row (ground (arith, h.found, h.revoked, here));
        }
        | inr miss ↦ record {
          row = row;
          found = rw (miss, here) refl;
          revoked = ground (arith, h.found, h.revoked, here);
        }
      ]
      | inr away ↦
          let rest =
            update_rows-IsRevoked id key now f rows
              (record { row = h.row; found = rw away at h.found; revoked = h.revoked }) in
          elim (Bool-cases (str_eq row.credential_id key)) [
            | inl hit ↦ record {
              row = rest.row;
              found = rw (hit, updated_row_id now f row, away) rest.found;
              revoked = rest.revoked;
            }
            | inr miss ↦ record {
              row = rest.row;
              found = rw (miss, away) rest.found;
              revoked = rest.revoked;
            }
          ]
    ]

with_attestations : String → ℕ → Flags → Tables → Tables
with_attestations key now f db = record db {
  partner_attestations = update_rows key (updated_row now f) db.partner_attestations;
}

with_delegations : String → ℕ → Flags → Tables → Tables
with_delegations key now f db = record db {
  delegation_credentials = update_rows key (updated_row now f) db.delegation_credentials;
}

written_cases :
    (table key : String) (now : ℕ) (f : Flags) (db : Tables) {db' : Tables}
    → update_cache table key now f db ≡ ok db'
    → (db' ≡ with_attestations key now f db) ⊎ (db' ≡ with_delegations key now f db)
unfolding update_cache with_attestations with_delegations
written_cases table key now f db e = elim (Bool-cases (str_eq table "partner_attestations")) [
  | inl first ↦ inl (ground (arith, e, first))
  | inr other ↦ elim (Bool-cases (str_eq table "delegation_credentials")) [
    | inl second ↦ inr (ground (arith, e, other, second))
    | inr neither ↦ ground (arith, e, other, neither)
  ]
]

update_cache-IsRevoked :
    (t : Table) (id table key : String) (now : ℕ) (f : Flags) (db : Tables) {db' : Tables}
    → update_cache table key now f db ≡ ok db'
    → IsRevoked id (rows_of t db)
    → IsRevoked id (rows_of t db')
unfolding with_attestations with_delegations
update_cache-IsRevoked t id table key now f db {db' = db'} e h =
    by_table t h (written_cases table key now f db e)
  where
    by_table :
        (t : Table)
        → IsRevoked id (rows_of t db)
        → (db' ≡ with_attestations key now f db) ⊎ (db' ≡ with_delegations key now f db)
        → IsRevoked id (rows_of t db')
    by_table attestations h (inl w) =
        rw w (update_rows-IsRevoked id key now f db.partner_attestations h)
    by_table attestations h (inr w) = rw w h
    by_table delegations h (inl w) = rw w h
    by_table delegations h (inr w) =
        rw w (update_rows-IsRevoked id key now f db.delegation_credentials h)

module _ (env : Environment) (json_loads : String → Outcome PyError Json) where
  recheck-IsRevoked :
      (t : Table) (id : String) (now : ℕ) (table : String) (row : CachedRow) (db : Tables)
      (v : Json) {r : CacheStatusResult} {db' : Tables}
      → recheck env json_loads now table row db v ≡ ok (r, db')
      → IsRevoked id (rows_of t db)
      → IsRevoked id (rows_of t db')
  unfolding recheck
  recheck-IsRevoked t id now table row db v {db' = db'} e h =
      let (report, _, r1) = >>=-eq-ok (check_credential_status env v) _ e in
      let f = note_checks (is_set row.suspended_at) no_flags report.status_checks in
      let (db1, wrote, r2) = >>=-eq-ok (update_cache table row.credential_id now f db) _ r1 in
      let same : db1 ≡ db' = ok-second refl r2 in
      rw same at (update_cache-IsRevoked t id table row.credential_id now f db wrote h)

  check_cached_credential-IsRevoked :
      (t : Table) (id : String) (now : ℕ) (table : String) (force : Bool) (row : CachedRow)
      (db : Tables) {r : CacheStatusResult} {db' : Tables}
      → check_cached_credential env json_loads now table force row db ≡ ok (r, db')
      → IsRevoked id (rows_of t db)
      → IsRevoked id (rows_of t db')
  unfolding check_cached_credential
  check_cached_credential-IsRevoked t id now table force row db {db' = db'} e h =
      elim (Bool-cases (is_set row.revoked_at)) [
        | inl gone ↦ rw (ok-second refl (rw gone at e)) at h
        | inr live ↦ elim (Bool-cases (force || needs_recheck now row.last_verified_at)) [
          | inr fresh ↦ rw (ok-second refl (rw (live, fresh) at e)) at h
          | inl due ↦
              let (v, _, r1) =
                >>=-eq-ok (loaded env json_loads row.credential_jsonld) _ (rw (live, due) at e) in
              elim (Bool-cases (truthy v)) [
                | inl full ↦ recheck-IsRevoked t id now table row db v (rw full at r1) h
                | inr empty ↦ rw (ok-second refl (rw empty at r1)) at h
              ]
        ]
      ]

  -- a read of any row, at any time, against either table; a read that raises leaves the tables
  pub data Read : Tables → Tables → Type 0 where
    answered :
        (now : ℕ) (table : String) (force : Bool) (row : CachedRow) {db db' : Tables}
        (r : CacheStatusResult)
        → check_cached_credential env json_loads now table force row db ≡ ok (r, db')
        → Read db db'
    raised :
        (now : ℕ) (table : String) (force : Bool) (row : CachedRow) {db : Tables} (e : PyError)
        → check_cached_credential env json_loads now table force row db ≡ err e
        → Read db db

  pub data Reads : Tables → Tables → Type 0 where
    done : {db : Tables} → Reads db db
    next : {db db' db'' : Tables} → Read db db' → Reads db' db'' → Reads db db''

  Reads-IsRevoked :
      (t : Table) (id : String) {db db' : Tables}
      → Reads db db'
      → IsRevoked id (rows_of t db)
      → IsRevoked id (rows_of t db')
  Reads-IsRevoked t id done h = h
  Reads-IsRevoked t id (next (answered now table force row r e) rest) h =
      Reads-IsRevoked t id rest (check_cached_credential-IsRevoked t id now table force row _ e h)
  Reads-IsRevoked t id (next (raised _ _ _ _ _ _) rest) h = Reads-IsRevoked t id rest h

  -- Once a row of either table has a revocation time, then after any sequence of reads of any rows
  -- (each with its own time, table name and force flag, some of them raising) the row of that id is
  -- still found with a revocation time, and a further read of it, forced or not, answers "revoked,
  -- not valid, not checked upstream" and leaves both tables as they are.
  pub revoked_stays :
      (t : Table) (id : String) {db db' : Tables}
      → IsRevoked id (rows_of t db)
      → Reads db db'
      → (row : CachedRow) × (find_row id (rows_of t db') ≡ some row)
        × ((now : ℕ) (table : String) (force : Bool)
            → check_cached_credential env json_loads now table force row db'
              ≡ ok (cached_result row.credential_id false true false false, db'))
  unfolding check_cached_credential
  revoked_stays t id {db' = db'} h reads =
      let last = Reads-IsRevoked t id reads h in
      (last.row, last.found, λ now table force. rw last.revoked refl)
