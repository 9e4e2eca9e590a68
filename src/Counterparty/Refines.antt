-- ===== src/Counterparty/Refines.antt =====
-- The table of api/counterparty_store.py implements a map from an organisation and a DID to a status,
-- which the policy context reads.
use arp_spec.Common.{
  ℕ, String, ◌≡◌, refl, sym, inl, inr, Bool, true, false, ◌&&◌, ◌||◌, Option, none, some, List, [],
  ◌∷◌, arith, any, ◌==◌, if◌then◌else◌, Bool-cases, Option-cases, str_eq, false≢true, ◌∙◌,
}
use arp_spec.Counterparty.{
  References, Counterparty, Table, find_row, set_rows, has_id, has_id_and_org, has_pair,
  accepted_row, inserted_row, revoked_row, update_scoped, revoke_counterparty, metadata_row,
  update_counterparty_metadata, policy_status, get_counterparty_status_for_policy,
}
use arp_spec.Counterparty.Rows.{
  Keeps, find_row_selects, find_row_again, has_pair_iff, has_id_and_org_iff,
}
use arp_spec.Counterparty.Calls.{
  is_user, is_user-true, accept_no_user, accept_no_org, revoke_known, revoke_unknown, IsValid, Call,
  accept, revoke, update_metadata, run, run_all, committed, accepted_row-Keeps, revoked_row-Keeps,
  metadata_row-Keeps, accept_existing, accept_missing, run-IsValid,
}
use arp_spec.Counterparty.Statuses.{
  Statuses, may_accept, put, statuses, named, put_named, meaning, statuses-set_rows,
  statuses-set_rows_same, row_of_id, statuses-insert,
}

-- the cases of an acceptance in the specification
module _ (t : Table) (org : ℕ) (did user : String) where
  accepted_if : Bool → ℕ → String → Option String
  accepted_if b o d = (if b then put org did "accepted" (statuses t) else statuses t) o d

  refused :
      (o : ℕ) (d : String)
      → is_user t.refs user ≡ false
      → accepted_if (may_accept t.refs org user (statuses t org did)) o d ≡ statuses t o d
  unfolding accepted_if
  refused o d unknown = elim (Option-cases (statuses t org did)) [
    | inl nothing ↦ rw (nothing, unknown) refl
    | inr (status, known) ↦ rw (known, unknown) refl
  ]

  status_found :
      {row : Counterparty}
      → find_row (has_pair org did) t.rows ≡ some row
      → statuses t org did ≡ some row.status
  unfolding statuses
  status_found h = rw h refl

  accepts_existing :
      (row : Counterparty) (o : ℕ) (d : String)
      → is_user t.refs user ≡ true
      → find_row (has_pair org did) t.rows ≡ some row
      → accepted_if (may_accept t.refs org user (statuses t org did)) o d
        ≡ put org did "accepted" (statuses t) o d
  unfolding accepted_if
  accepts_existing row o d known found = rw (status_found found, known) refl

  status_missing : find_row (has_pair org did) t.rows ≡ none → statuses t org did ≡ none
  unfolding statuses
  status_missing h = rw h refl

  no_place :
      (o : ℕ) (d : String)
      → find_row (has_pair org did) t.rows ≡ none
      → t.refs.org_exists org ≡ false
      → accepted_if (may_accept t.refs org user (statuses t org did)) o d ≡ statuses t o d
  unfolding accepted_if
  no_place o d missing no_org =
      let none_allowed : (is_user t.refs user && false) ≡ false = ground arith in
      rw (status_missing missing, no_org, none_allowed) refl

  accepts_new :
      (o : ℕ) (d : String)
      → is_user t.refs user ≡ true
      → find_row (has_pair org did) t.rows ≡ none
      → t.refs.org_exists org ≡ true
      → accepted_if (may_accept t.refs org user (statuses t org did)) o d
        ≡ put org did "accepted" (statuses t) o d
  unfolding accepted_if
  accepts_new o d known missing has_org = rw (status_missing missing, known, has_org) refl

accept-refines :
    (now org : ℕ) (did user : String) (tag notes : Option String) (t : Table)
    → IsValid t
    → (o : ℕ) (d : String)
    → statuses (run (accept now org did user tag notes) t) o d
      ≡ meaning t.refs (accept now org did user tag notes) (named t) (statuses t) o d
unfolding run committed accepted_row inserted_row statuses accepted_if
accept-refines now org did user tag notes t valid o d = elim (Bool-cases (is_user t.refs user)) [
  | inr unknown ↦
      rw (accept_no_user now org did user tag notes t unknown)
        (sym (refused t org did user o d unknown))
  | inl known ↦
      let (id, is_uuid, exists) = is_user-true t.refs user known in
      elim (Option-cases (find_row (has_pair org did) t.rows)) [
        | inr (row, found) ↦
            let (same_org, same_did) =
              (has_pair_iff org did row).0 (find_row_selects _ t.rows found) in
            let f = accepted_row now id tag notes in
            let one : statuses (record t { rows = set_rows (has_id row.id) f t.rows }) o d
                ≡ put row.org_id row.counterparty_did "accepted" (statuses t) o d =
              statuses-set_rows (has_id row.id) f t row "accepted" o d valid.apart
                (accepted_row-Keeps now id tag notes) (λ r. refl)
                (find_row_again _ (has_id row.id) t.rows valid.apart found (ground arith)
                  (λ r h. row_of_id row.id r row h refl))
                (λ r h. row_of_id row.id r row h refl) in
            rw (accept_existing now org did user tag notes t is_uuid exists found) (
              rw (same_org, same_did) at one
              ∙ sym (accepts_existing t org did user row o d known found))
        | inl missing ↦ elim (Bool-cases (t.refs.org_exists org)) [
          | inr no_org ↦
              rw (accept_no_org now org did user tag notes t known missing no_org)
                (sym (no_place t org did user o d missing no_org))
          | inl has_org ↦
              rw (accept_missing now org did user tag notes t is_uuid exists has_org missing) (
                statuses-insert t (inserted_row t.next_id now org did id tag notes) o d
                ∙ sym (accepts_new t org did user o d known missing has_org))
        ]
      ]
]

update_scoped-refines :
    (id org : ℕ) (f : Counterparty → Counterparty) (t : Table) (s : String)
    → IsValid t
    → Keeps f
    → ((r : Counterparty) → (f r).status ≡ s)
    → (o : ℕ) (d : String)
    → statuses (update_scoped id org f t (find_row (has_id_and_org id org) t.rows)).1 o d
      ≡ put_named org (named t id org) s (statuses t) o d
unfolding update_scoped named
update_scoped-refines id org f t s valid keeps sets o d =
    elim (Option-cases (find_row (has_id_and_org id org) t.rows)) [
      | inl missing ↦ rw missing refl
      | inr (row, found) ↦
          let (same_id, same_org) =
            (has_id_and_org_iff id org row).0 (find_row_selects _ t.rows found) in
          rw found (
            rw same_org at (
              statuses-set_rows (has_id_and_org id org) f t row s o d valid.apart keeps sets found
                (λ r h. ((has_id_and_org_iff id org r).0 h).0 ∙ sym same_id)))
    ]

revoke-refines :
    (now id org : ℕ) (user : String) (reason : Option String) (t : Table)
    → IsValid t
    → (o : ℕ) (d : String)
    → statuses (run (revoke now id org user reason) t) o d
      ≡ meaning t.refs (revoke now id org user reason) (named t) (statuses t) o d
unfolding revoked_row
revoke-refines now id org user reason t valid o d = elim (Bool-cases (is_user t.refs user)) [
  | inr unknown ↦ rw (revoke_unknown now id org user reason t unknown, unknown) refl
  | inl known ↦
      let (user_id, is_uuid, exists) = is_user-true t.refs user known in
      rw (revoke_known now id org user reason t is_uuid exists, known)
        (update_scoped-refines id org (revoked_row now user_id reason) t "revoked" valid
          (revoked_row-Keeps now user_id reason) (λ r. refl) o d)
]

no_meaning :
    (now id org : ℕ) (tag notes : Option String) (t : Table) (o : ℕ) (d : String)
    → statuses
        (update_scoped id org
          (metadata_row now tag notes)
          t
          (find_row (has_id_and_org id org) t.rows)).1
        o
        d
      ≡ statuses t o d
unfolding update_scoped metadata_row
no_meaning now id org tag notes t o d =
    elim (Option-cases (find_row (has_id_and_org id org) t.rows)) [
      | inl missing ↦ rw missing refl
      | inr (row, found) ↦ rw found (
          statuses-set_rows_same (has_id_and_org id org) (metadata_row now tag notes) t o d
            (metadata_row-Keeps now tag notes) (λ r. refl))
    ]

-- In a valid table, the status of every organisation and DID after a call of
-- `accept_counterparty`, `revoke_counterparty` or `update_counterparty_metadata` is the one that the
-- map of statuses has after its step: an acceptance sets the named pair to "accepted", if the user
-- exists and, for a pair without a status, the organisation does; a revocation by a user that exists
-- sets the pair of the row with that id in that organisation to "revoked", if there is one; and
-- nothing else changes.
pub run-refines :
    (c : Call) (t : Table) (o : ℕ) (d : String)
    → IsValid t
    → statuses (run c t) o d ≡ meaning t.refs c (named t) (statuses t) o d
unfolding run revoke_counterparty update_counterparty_metadata revoked_row
run-refines (accept now org did user tag notes) t o d valid =
    accept-refines now org did user tag notes t valid o d
run-refines (revoke now id org user reason) t o d valid =
    revoke-refines now id org user reason t valid o d
run-refines (update_metadata now id org none none) t o d valid = refl
run-refines (update_metadata now id org none (some notes)) t o d valid =
    no_meaning now id org none (some notes) t o d
run-refines (update_metadata now id org (some tag) notes) t o d valid =
    no_meaning now id org (some tag) notes t o d

unfoldable pub accepts : ℕ → String → Call → Bool
accepts org did (accept now o d user tag notes) = o == org && str_eq d did
accepts org did (revoke now id o user reason) = false
accepts org did (update_metadata now id o tag notes) = false

unfoldable is_accepted : Option String → Bool
is_accepted none = false
is_accepted (some s) = str_eq s "accepted"

accepted_by_org-statuses :
    (org : ℕ) (did : String) (t : Table)
    → (get_counterparty_status_for_policy org did t.rows).1 ≡ is_accepted (statuses t org did)
unfolding get_counterparty_status_for_policy policy_status statuses is_accepted
accepted_by_org-statuses org did t = elim (Option-cases (find_row (has_pair org did) t.rows)) [
  | inl missing ↦ rw missing refl
  | inr (row, found) ↦ rw found refl
]

meaning_accepted :
    (refs : References) (org : ℕ) (did : String) (c : Call) (who : ℕ → ℕ → Option String)
    (v : Statuses)
    → accepts org did c ≡ false
    → is_accepted (meaning refs c who v org did) ≡ true
    → is_accepted (v org did) ≡ true
unfolding accepts is_accepted
meaning_accepted refs org did (accept now o d user tag notes) who v other holds =
    elim (Bool-cases (may_accept refs o user (v o d))) [
      | inl allowed ↦ rw (allowed, other) at holds
      | inr barred ↦ rw barred at holds
    ]
meaning_accepted refs org did (revoke now id o user reason) who v other holds =
    elim (Bool-cases (is_user refs user)) [
      | inr unknown ↦ rw unknown at holds
      | inl known ↦ elim (Option-cases (who id o)) [
        | inl nobody ↦ rw (known, nobody) at holds
        | inr (d, named_did) ↦
            let set = rw (known, named_did) at holds in
            elim (Bool-cases (o == org && str_eq d did)) [
              | inl here ↦ absurd (false≢true (rw here at set))
              | inr away ↦ rw away at set
            ]
      ]
    ]
meaning_accepted refs org did (update_metadata now id o tag notes) who v other holds = holds

or_false-left : (a b : Bool) → (a || b) ≡ false → a ≡ false
or_false-left a b e = ground (arith, e)

or_false-right : (a b : Bool) → (a || b) ≡ false → b ≡ false
or_false-right a b e = ground (arith, e)

-- If a sequence of calls on a valid table has no `accept_counterparty` for an organisation and a DID,
-- and `get_counterparty_status_for_policy` says `accepted_by_org` for them after it, then it said so
-- before it: no revocation, no metadata update and no acceptance of another pair makes a
-- counterparty accepted.
pub run_all_accepted :
    (cs : List Call) (t : Table) (org : ℕ) (did : String)
    → IsValid t
    → any (accepts org did) cs ≡ false
    → (get_counterparty_status_for_policy org did (run_all cs t).rows).1 ≡ true
    → (get_counterparty_status_for_policy org did t.rows).1 ≡ true
unfolding run_all
run_all_accepted [] t org did valid none_accepts holds = holds
run_all_accepted (c ∷ cs) t org did valid none_accepts holds =
    let later =
      run_all_accepted cs (run c t) org did (run-IsValid c t valid)
        (or_false-right _ _ none_accepts) holds in
    let stated : is_accepted (statuses (run c t) org did) ≡ true =
      sym (accepted_by_org-statuses org did (run c t)) ∙ later in
    let before =
      meaning_accepted t.refs org did c (named t) (statuses t) (or_false-left _ _ none_accepts)
        (rw (run-refines c t org did valid) at stated) in
    accepted_by_org-statuses org did t ∙ before
