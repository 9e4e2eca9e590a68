-- ===== src/Counterparty/Answers.antt =====
-- What the operations of api/counterparty_store.py answer.
use arp_spec.Common.{
  ℕ, suc, String, ◌≡◌, refl, sym, ap, inl, inr, true, false, Option, none, some, ◌∷◌, arith, ◌==◌,
  Bool-cases, Option-cases, ok, err,
}
use arp_spec.Json.{other_error}
use arp_spec.Counterparty.{
  Counterparty, Table, find_row, set_rows, has_id, has_id_and_org, has_pair, CounterpartyDict,
  accepted_row, inserted_row, accept_counterparty, dict_of, get_counterparty, coalesce,
  text_or_none,
}
use arp_spec.Counterparty.Rows.{
  find_row-set_rows, find_row_selects, find_row_again, has_pair_iff, has_id_and_org_iff,
}
use arp_spec.Counterparty.Calls.{
  IsValid, accept_existing, accept_missing, is_user, is_user-true, accept_no_user, accept_no_org,
}

abbrev pub column : (Counterparty → Option String) → Option Counterparty → Option String
column f none = none
column f (some row) = f row

-- what an acceptance answers, with the new table
pub record Accepts (now org : ℕ) (did user : String) (tag notes : Option String) (t : Table)
    (d : CounterpartyDict) (t' : Table) : Type 0 where
  pub status : d.status ≡ "accepted"
  pub org_id : d.org_id ≡ org
  pub counterparty_did : d.counterparty_did ≡ did
  pub accepted_at : d.accepted_at ≡ some now
  pub accepted_by : d.accepted_by ≡ text_or_none (t.refs.uuid user)
  pub same_tag : d.tag ≡ coalesce tag (column (λ r. r.tag) (find_row (has_pair org did) t.rows))
  pub same_notes :
      d.notes ≡ coalesce notes (column (λ r. r.notes) (find_row (has_pair org did) t.rows))
  pub readable : get_counterparty d.id org t'.rows ≡ some d

coalesce-none : (given : Option String) → given ≡ coalesce given none
coalesce-none none = refl
coalesce-none (some s) = refl

accept_missing-Accepts :
    (now org : ℕ) (did user : String) (tag notes : Option String) (t : Table) {id : String}
    → t.refs.uuid user ≡ some id
    → t.refs.user_exists id ≡ true
    → t.refs.org_exists org ≡ true
    → find_row (has_pair org did) t.rows ≡ none
    → (d : CounterpartyDict) × (t' : Table) × (accept_counterparty now org did user tag notes t
        ≡ ok (some d, t'))
      × Accepts now org did user tag notes t d t'
unfolding get_counterparty inserted_row dict_of find_row
accept_missing-Accepts now org did user tag notes t {id = id} is_uuid exists has_org missing =
    let row = inserted_row t.next_id now org did id tag notes in
    let t' : Table = record t { rows = row ∷ t.rows; next_id = suc t.next_id } in
    let read : get_counterparty t.next_id org t'.rows ≡ some (dict_of row) =
      rw ((has_id_and_org_iff t.next_id org row).1 (refl, refl)) refl in
    (
      dict_of row,
      t',
      rw (accept_missing now org did user tag notes t is_uuid exists has_org missing, read) refl,
      record {
        status = refl;
        org_id = refl;
        counterparty_did = refl;
        accepted_at = refl;
        accepted_by = ap text_or_none (sym is_uuid);
        same_tag = rw missing (coalesce-none tag);
        same_notes = rw missing (coalesce-none notes);
        readable = read;
      },
    )

accept_existing-Accepts :
    (now org : ℕ) (did user : String) (tag notes : Option String) (t : Table) {id : String}
    {row : Counterparty}
    → IsValid t
    → t.refs.uuid user ≡ some id
    → t.refs.user_exists id ≡ true
    → find_row (has_pair org did) t.rows ≡ some row
    → (d : CounterpartyDict) × (t' : Table) × (accept_counterparty now org did user tag notes t
        ≡ ok (some d, t'))
      × Accepts now org did user tag notes t d t'
unfolding get_counterparty accepted_row dict_of
accept_existing-Accepts now org did user tag notes t {id = id} {row = row} valid is_uuid exists
      found =
    let (same_org, same_did) = (has_pair_iff org did row).0 (find_row_selects _ t.rows found) in
    let f = accepted_row now id tag notes in
    let t' : Table = record t { rows = set_rows (has_id row.id) f t.rows } in
    let own : (row.id == row.id) ≡ true = ground arith in
    let again : find_row (has_id_and_org row.id org) t.rows ≡ some row =
      find_row_again _ (has_id_and_org row.id org) t.rows valid.apart found
        ((has_id_and_org_iff row.id org row).1 (refl, same_org))
        (λ r h. ((has_id_and_org_iff row.id org r).0 h).0) in
    let read : get_counterparty row.id org t'.rows ≡ some (dict_of (f row)) =
      rw
        (
          find_row-set_rows (has_id_and_org row.id org) (has_id row.id) f t.rows (λ r. refl),
          again,
          own,
        )
        refl in
    (
      dict_of (f row),
      t',
      rw (accept_existing now org did user tag notes t is_uuid exists found, read) refl,
      record {
        status = refl;
        org_id = same_org;
        counterparty_did = same_did;
        accepted_at = refl;
        accepted_by = ap text_or_none (sym is_uuid);
        same_tag = rw found refl;
        same_notes = rw found refl;
        readable = read;
      },
    )

-- what `accept_counterparty` does: it answers, or the database refuses a foreign key
pub data Answers (now org : ℕ) (did user : String) (tag notes : Option String) (t : Table)
    : Type 0 where
  answers :
      (d : CounterpartyDict) (t' : Table)
      → is_user t.refs user ≡ true
      → accept_counterparty now org did user tag notes t ≡ ok (some d, t')
      → Accepts now org did user tag notes t d t'
      → Answers now org did user tag notes t
  no_user :
      is_user t.refs user ≡ false
      → accept_counterparty now org did user tag notes t ≡ err other_error
      → Answers now org did user tag notes t
  no_org :
      find_row (has_pair org did) t.rows ≡ none
      → t.refs.org_exists org ≡ false
      → accept_counterparty now org did user tag notes t ≡ err other_error
      → Answers now org did user tag notes t

-- For a valid table, `accept_counterparty` has one of three outcomes. The user is no UUID of a row of
-- `users`: it raises. The pair has no row and the organisation does not exist: it raises. Else it
-- returns the dict of the row that it has updated or inserted, which `get_counterparty` of its id then
-- returns too: of the organisation and the DID, with the status "accepted", the time of the call and
-- the user's UUID, and the tag and the notes that are given, or else those that the row had before.
pub accept_counterparty-Accepts :
    (now org : ℕ) (did user : String) (tag notes : Option String) (t : Table)
    → IsValid t
    → Answers now org did user tag notes t
accept_counterparty-Accepts now org did user tag notes t valid =
    elim (Bool-cases (is_user t.refs user)) [
      | inr unknown ↦ no_user unknown (accept_no_user now org did user tag notes t unknown)
      | inl known ↦
          let (id, is_uuid, exists) = is_user-true t.refs user known in
          elim (Option-cases (find_row (has_pair org did) t.rows)) [
            | inr (row, found) ↦
                let (d, t', returned, accepts) =
                  accept_existing-Accepts now org did user tag notes t valid is_uuid exists found in
                answers d t' known returned accepts
            | inl missing ↦ elim (Bool-cases (t.refs.org_exists org)) [
              | inr absent ↦
                  no_org missing absent
                    (accept_no_org now org did user tag notes t known missing absent)
              | inl has_org ↦
                  let (d, t', returned, accepts) =
                    accept_missing-Accepts now org did user tag notes t is_uuid exists has_org
                      missing in
                  answers d t' known returned accepts
            ]
          ]
    ]
