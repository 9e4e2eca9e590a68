-- ===== src/Counterparty/Calls.antt =====
-- The calls of api/counterparty_store.py that write to the table, and that each keeps the ids and the
-- pairs of organisation and DID apart.
use arp_spec.Common.{
  ℕ, suc, ◌<◌, String, ◌≡◌, refl, sym, inl, inr, Bool, true, false, Option, none, some, List, [],
  ◌∷◌, arith, All, Bool-cases, Option-cases, Outcome, ok, err, false≢true, none_is_some, ◌∙◌,
}
use arp_spec.Json.{PyError, other_error}
use arp_spec.Counterparty.{
  References, accept_as, revoke_found, Counterparty, Table, find_row, set_rows, has_id,
  has_id_and_org, has_pair, CounterpartyDict, accepted_row, inserted_row, read_back,
  accept_selected, accept_counterparty, revoked_row, update_scoped, revoke_counterparty,
  metadata_row, update_counterparty_metadata, get_counterparty,
}
use arp_spec.Counterparty.Rows.{Differs, Apart, Keeps, Apart-set_rows, has_pair_iff}

pub record IsValid (t : Table) : Type 0 where
  pub ids_below : All (λ r. r.id < t.next_id) t.rows
  pub apart : Apart t.rows

-- a call that writes to the table
pub data Call : Type 0 where
  accept : ℕ → ℕ → String → String → Option String → Option String → Call
  revoke : ℕ → ℕ → ℕ → String → Option String → Call
  update_metadata : ℕ → ℕ → ℕ → Option String → Option String → Call

unfoldable pub committed : Table → Outcome PyError (Option CounterpartyDict × Table) → Table
committed t (ok (_, t')) = t'
committed t (err _) = t

-- the table after a call; one that raises is rolled back
unfoldable pub run : Call → Table → Table
unfolding committed
run (accept now org did user tag notes) t =
    committed t (accept_counterparty now org did user tag notes t)
run (revoke now id org user reason) t = committed t (revoke_counterparty now id org user reason t)
run (update_metadata now id org tag notes) t =
    (update_counterparty_metadata now id org tag notes t).1

unfoldable pub run_all : List Call → Table → Table
run_all [] t = t
run_all (c ∷ cs) t = run_all cs (run c t)

pub accepted_row-Keeps :
    (now : ℕ) (user : String) (tag notes : Option String) → Keeps (accepted_row now user tag notes)
unfolding accepted_row
accepted_row-Keeps now user tag notes = record { id = λ r. refl; org = λ r. refl; did = λ r. refl }

pub revoked_row-Keeps :
    (now : ℕ) (user : String) (reason : Option String) → Keeps (revoked_row now user reason)
unfolding revoked_row
revoked_row-Keeps now user reason = record { id = λ r. refl; org = λ r. refl; did = λ r. refl }

pub metadata_row-Keeps : (now : ℕ) (tag notes : Option String) → Keeps (metadata_row now tag notes)
unfolding metadata_row
metadata_row-Keeps now tag notes = record { id = λ r. refl; org = λ r. refl; did = λ r. refl }

ids_below-set_rows :
    (p : Counterparty → Bool) (f : Counterparty → Counterparty) (bound : ℕ)
    (rows : List Counterparty)
    → Keeps f
    → All (λ r. r.id < bound) rows
    → All (λ r. r.id < bound) (set_rows p f rows)
unfolding set_rows
ids_below-set_rows p f bound [] keeps below = tt
ids_below-set_rows p f bound (r ∷ rows) keeps below =
    let rest = ids_below-set_rows p f bound rows keeps below.1 in
    elim (Bool-cases (p r)) [
      | inl hit ↦ rw hit (rw (keeps.id r) below.0, rest)
      | inr miss ↦ rw miss (below.0, rest)
    ]

set_rows-IsValid :
    (p : Counterparty → Bool) (f : Counterparty → Counterparty) (t : Table)
    → Keeps f
    → IsValid t
    → IsValid (record t { rows = set_rows p f t.rows })
set_rows-IsValid p f t keeps valid = record {
  ids_below = ids_below-set_rows p f t.next_id t.rows keeps valid.ids_below;
  apart = Apart-set_rows p f t.rows keeps valid.apart;
}

update_scoped-IsValid :
    (id org : ℕ) (f : Counterparty → Counterparty) (t : Table) (o : Option Counterparty)
    → Keeps f
    → IsValid t
    → IsValid (update_scoped id org f t o).1
unfolding update_scoped
update_scoped-IsValid id org f t none keeps valid = valid
update_scoped-IsValid id org f t (some _) keeps valid =
    set_rows-IsValid (has_id_and_org id org) f t keeps valid

-- the inserted row has a new id, and a pair that no row has
insert-IsValid :
    (t : Table) (row : Counterparty)
    → row.id ≡ t.next_id
    → find_row (has_pair row.org_id row.counterparty_did) t.rows ≡ none
    → IsValid t
    → IsValid (record t { rows = row ∷ t.rows; next_id = suc t.next_id })
unfolding find_row
insert-IsValid t row fresh missing valid = record {
  ids_below = (omega (arith, fresh), below t.rows valid.ids_below);
  apart = (differs t.rows valid.ids_below missing, valid.apart);
}
  where
    below :
        (rows : List Counterparty)
        → All (λ r. r.id < t.next_id) rows
        → All (λ r. r.id < suc t.next_id) rows
    below [] h = tt
    below (r ∷ rows) h = (omega (arith, h.0), below rows h.1)

    differs :
        (rows : List Counterparty)
        → All (λ r. r.id < t.next_id) rows
        → find_row (has_pair row.org_id row.counterparty_did) rows ≡ none
        → All (Differs row) rows
    differs [] h gone = tt
    differs (r ∷ rows) h gone = elim (Bool-cases (has_pair row.org_id row.counterparty_did r)) [
      | inl taken ↦ none_is_some (sym (rw taken at gone))
      | inr free ↦ (
        record {
          other_id = λ e. absurd (omega (arith, fresh, e, h.0));
          other_pair = λ org did.
              false≢true
                (sym free ∙ (has_pair_iff row.org_id row.counterparty_did r).1 (sym org, sym did));
        },
        differs rows h.1 (rw free at gone),
      )
    ]

pub accept_existing :
    (now org : ℕ) (did user : String) (tag notes : Option String) (t : Table) {row : Counterparty}
    {id : String}
    → t.refs.uuid user ≡ some id
    → t.refs.user_exists id ≡ true
    → find_row (has_pair org did) t.rows ≡ some row
    → let rows = set_rows (has_id row.id) (accepted_row now id tag notes) t.rows in
      accept_counterparty now org did user tag notes t
      ≡ ok (get_counterparty row.id org rows, record t { rows = rows })
unfolding accept_counterparty accept_as accept_selected read_back
accept_existing now org did user tag notes t is_uuid exists found = rw (is_uuid, exists, found) refl

pub accept_missing :
    (now org : ℕ) (did user : String) (tag notes : Option String) (t : Table) {id : String}
    → t.refs.uuid user ≡ some id
    → t.refs.user_exists id ≡ true
    → t.refs.org_exists org ≡ true
    → find_row (has_pair org did) t.rows ≡ none
    → let rows = inserted_row t.next_id now org did id tag notes ∷ t.rows in
      accept_counterparty now org did user tag notes t
      ≡ ok (get_counterparty t.next_id org rows, record t { rows = rows; next_id = suc t.next_id })
unfolding accept_counterparty accept_as accept_selected read_back find_row inserted_row
accept_missing now org did user tag notes t {id = id} is_uuid exists has_org missing =
    let own : has_pair org did (inserted_row t.next_id now org did id tag notes) ≡ true =
      (has_pair_iff org did (inserted_row t.next_id now org did id tag notes)).1 (refl, refl) in
    rw (is_uuid, exists, missing, has_org, own) refl

abbrev exists_as : References → Option String → Bool
exists_as refs none = false
exists_as refs (some id) = refs.user_exists id

-- whether the foreign key of a user holds
unfoldable pub is_user : References → String → Bool
is_user refs user = exists_as refs (refs.uuid user)

pub is_user-true :
    (refs : References) (user : String)
    → is_user refs user ≡ true
    → (id : String) × (refs.uuid user ≡ some id) × (refs.user_exists id ≡ true)
unfolding is_user
is_user-true refs user h = elim (Option-cases (refs.uuid user)) [
  | inl nothing ↦ absurd (false≢true (rw nothing at h))
  | inr (id, is_uuid) ↦ (id, is_uuid, rw is_uuid at h)
]

pub accept_no_user :
    (now org : ℕ) (did user : String) (tag notes : Option String) (t : Table)
    → is_user t.refs user ≡ false
    → accept_counterparty now org did user tag notes t ≡ err other_error
unfolding accept_counterparty accept_as is_user
accept_no_user now org did user tag notes t missing = elim (Option-cases (t.refs.uuid user)) [
  | inl nothing ↦ rw nothing refl
  | inr (id, is_uuid) ↦ rw (is_uuid, rw is_uuid at missing) refl
]

pub accept_no_org :
    (now org : ℕ) (did user : String) (tag notes : Option String) (t : Table)
    → is_user t.refs user ≡ true
    → find_row (has_pair org did) t.rows ≡ none
    → t.refs.org_exists org ≡ false
    → accept_counterparty now org did user tag notes t ≡ err other_error
unfolding accept_counterparty accept_as accept_selected
accept_no_org now org did user tag notes t known missing no_org =
    let (id, is_uuid, exists) = is_user-true t.refs user known in
    rw (is_uuid, exists, missing, no_org) refl

-- the table after a revocation
pub revoke_known :
    (now id org : ℕ) (user : String) (reason : Option String) (t : Table) {user_id : String}
    → t.refs.uuid user ≡ some user_id
    → t.refs.user_exists user_id ≡ true
    → run (revoke now id org user reason) t
      ≡ (update_scoped id org
          (revoked_row now user_id reason)
          t
          (find_row (has_id_and_org id org) t.rows)).1
unfolding run committed revoke_counterparty revoke_found update_scoped
revoke_known now id org user reason t is_uuid exists =
    elim (Option-cases (find_row (has_id_and_org id org) t.rows)) [
      | inl missing ↦ rw (is_uuid, missing) refl
      | inr (row, found) ↦ rw (is_uuid, found, exists) refl
    ]

pub revoke_unknown :
    (now id org : ℕ) (user : String) (reason : Option String) (t : Table)
    → is_user t.refs user ≡ false
    → run (revoke now id org user reason) t ≡ t
unfolding run committed revoke_counterparty revoke_found is_user
revoke_unknown now id org user reason t unknown = elim (Option-cases (t.refs.uuid user)) [
  | inl nothing ↦ rw nothing refl
  | inr (user_id, is_uuid) ↦ elim (Option-cases (find_row (has_id_and_org id org) t.rows)) [
    | inl missing ↦ rw (is_uuid, missing) refl
    | inr (row, found) ↦ rw (is_uuid, found, rw is_uuid at unknown) refl
  ]
]

accept-IsValid :
    (now org : ℕ) (did user : String) (tag notes : Option String) (t : Table)
    → IsValid t
    → IsValid (run (accept now org did user tag notes) t)
unfolding run committed inserted_row
accept-IsValid now org did user tag notes t valid = elim (Bool-cases (is_user t.refs user)) [
  | inr unknown ↦ rw (accept_no_user now org did user tag notes t unknown) valid
  | inl known ↦
      let (id, is_uuid, exists) = is_user-true t.refs user known in
      elim (Option-cases (find_row (has_pair org did) t.rows)) [
        | inr (row, found) ↦
            rw (accept_existing now org did user tag notes t is_uuid exists found) (
              set_rows-IsValid (has_id row.id) (accepted_row now id tag notes) t
                (accepted_row-Keeps now id tag notes) valid)
        | inl missing ↦ elim (Bool-cases (t.refs.org_exists org)) [
          | inr no_org ↦ rw (accept_no_org now org did user tag notes t known missing no_org) valid
          | inl has_org ↦
              rw (accept_missing now org did user tag notes t is_uuid exists has_org missing) (
                insert-IsValid t (inserted_row t.next_id now org did id tag notes) refl missing
                  valid)
        ]
      ]
]

revoke-IsValid :
    (now id org : ℕ) (user : String) (reason : Option String) (t : Table)
    → IsValid t
    → IsValid (run (revoke now id org user reason) t)
revoke-IsValid now id org user reason t valid = elim (Bool-cases (is_user t.refs user)) [
  | inr unknown ↦ rw (revoke_unknown now id org user reason t unknown) valid
  | inl known ↦
      let (user_id, is_uuid, exists) = is_user-true t.refs user known in
      rw (revoke_known now id org user reason t is_uuid exists) (
        update_scoped-IsValid id org (revoked_row now user_id reason) t _
          (revoked_row-Keeps now user_id reason) valid)
]

pub run-IsValid : (c : Call) (t : Table) → IsValid t → IsValid (run c t)
unfolding run revoke_counterparty update_counterparty_metadata
run-IsValid (accept now org did user tag notes) t valid =
    accept-IsValid now org did user tag notes t valid
run-IsValid (revoke now id org user reason) t valid = revoke-IsValid now id org user reason t valid
run-IsValid (update_metadata now id org none none) t valid = valid
run-IsValid (update_metadata now id org none (some notes)) t valid =
    update_scoped-IsValid id org (metadata_row now none (some notes)) t _
      (metadata_row-Keeps now none (some notes)) valid
run-IsValid (update_metadata now id org (some tag) notes) t valid =
    update_scoped-IsValid id org (metadata_row now (some tag) notes) t _
      (metadata_row-Keeps now (some tag) notes) valid

pub run_all-IsValid : (cs : List Call) (t : Table) → IsValid t → IsValid (run_all cs t)
unfolding run_all
run_all-IsValid [] t valid = valid
run_all-IsValid (c ∷ cs) t valid = run_all-IsValid cs (run c t) (run-IsValid c t valid)
