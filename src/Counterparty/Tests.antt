-- ===== src/Counterparty/Tests.antt =====
-- The counterparty theorems at a table of two rows.
use arp_spec.Common.{
  String, ◌≡◌, refl, ap, true, ◌||◌, none, some, List, [], ◌∷◌, arith, ◌==◌, if◌then◌else◌, err,
  str_eq, false≢true,
}
use arp_spec.Counterparty.{
  Counterparty, Table, inserted_row, accepted_row, CounterpartyDict, accept_counterparty,
  get_counterparty_status_for_policy, References, other_error,
}
use arp_spec.Counterparty.Calls.{IsValid, Call, accept, revoke, update_metadata, run, run_all}
use arp_spec.Counterparty.Statuses.{statuses, named, meaning}
use arp_spec.Counterparty.Refines.{run-refines, run_all_accepted}
use arp_spec.Counterparty.Listing.{list_counterparties}
use arp_spec.Counterparty.Pages.{Lists, list_counterparties_lem}
use arp_spec.Counterparty.Answers.{Answers, accept_counterparty-Accepts}

abbrev first_row : Counterparty
unfolding inserted_row
first_row = inserted_row 1 10 7 "did:a" "u" none (some "n")

-- two users, and the organisation 7
abbrev references : References
references = record {
  uuid = λ s. if str_eq s "u" || str_eq s "v" then some s else none;
  user_exists = λ s. true;
  org_exists = λ org. org == 7;
}

abbrev table : Table
table = record {
  refs = references;
  rows =
      inserted_row 2 11 7 "did:b" "u" none none
      ∷ inserted_row 1 10 7 "did:a" "u" none (some "n")
      ∷ [];
  next_id = 3;
}

table-IsValid : IsValid table
unfolding inserted_row
table-IsValid = record {
  ids_below = (omega arith, (omega arith, tt));
  apart = (
    (record { other_id = λ e. absurd (omega (arith, e)); other_pair = λ org did. differ did }, tt),
    (tt, tt),
  );
}
  where
    differ : (Path String "did:b" "did:a") → ⊥
    differ e = false≢true (ap (str_eq "did:a") e)

run-refines_example :
    statuses (run (revoke 12 1 7 "u" none) table) 7 "did:a"
    ≡ meaning references (revoke 12 1 7 "u" none) (named table) (statuses table) 7 "did:a"
run-refines_example = run-refines (revoke 12 1 7 "u" none) table 7 "did:a" table-IsValid

revoked_status : statuses (run (revoke 12 1 7 "u" none) table) 7 "did:a" ≡ some "revoked"
unfolding statuses arp_spec.Counterparty.find_row run arp_spec.Counterparty.revoke_counterparty
    inserted_row arp_spec.Counterparty.set_rows arp_spec.Counterparty.revoked_row
revoked_status = refl

abbrev calls : List Call
calls = accept 12 7 "did:b" "u" none none ∷ update_metadata 13 1 7 (some "t") none ∷ []

run_all_accepted_example : (get_counterparty_status_for_policy 7 "did:a" table.rows).1 ≡ true
unfolding arp_spec.Counterparty.Refines.accepts get_counterparty_status_for_policy
    arp_spec.Counterparty.find_row run_all run arp_spec.Counterparty.update_counterparty_metadata
    accept_counterparty arp_spec.Counterparty.accept_selected inserted_row
    arp_spec.Counterparty.set_rows accepted_row arp_spec.Counterparty.metadata_row
    arp_spec.Counterparty.accept_as
run_all_accepted_example = run_all_accepted calls table 7 "did:a" table-IsValid refl refl

accept_counterparty-Accepts_example : Answers 12 7 "did:a" "v" (some "t") none table
accept_counterparty-Accepts_example =
    accept_counterparty-Accepts 12 7 "did:a" "v" (some "t") none table table-IsValid

unknown_org : accept_counterparty 12 8 "did:a" "v" none none table ≡ err other_error
unfolding accept_counterparty inserted_row arp_spec.Counterparty.find_row
    arp_spec.Counterparty.accept_as
unknown_org = refl

not_a_uuid : accept_counterparty 12 7 "did:a" "w" none none table ≡ err other_error
unfolding accept_counterparty arp_spec.Counterparty.accept_as
not_a_uuid = refl

list_counterparties_lem_example :
    Lists 7
      (some "accepted")
      1
      1
      table.rows
      (list_counterparties 7 (some "accepted") 1 1 table.rows)
list_counterparties_lem_example = list_counterparties_lem 7 (some "accepted") 1 1 table.rows
