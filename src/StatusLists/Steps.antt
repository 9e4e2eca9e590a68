-- ===== src/StatusLists/Steps.antt =====
-- Sequences of calls of api/status_list_store.py, and what they leave of a row.
use arp_spec.Common.{
  ℕ, ◌-◌, ◌≤◌, ◌<◌, String, ◌≡◌, refl, sym, ap, inl, inr, true, some, List, arith, leb, Bool-cases,
  Option-cases, ok, str_eq, eq_iff, ok-first, >>=-eq-ok, ◌∙◌, ok-second,
}
use arp_spec.Common.{not_raised}
use arp_spec.Bitstring.{Bytes, create_bitstring}
use arp_spec.Json.{Json}
use arp_spec.StatusLists.{
  ListRow, Registry, ListCodec, Created, AllocatedIndex, find_list, update_where, insert_row,
  new_row, create_status_list, allocate_index, allocate_from, next_index, update_status_list,
  replaced, or_bad_size, known_purpose,
}
use arp_spec.StatusLists.Find.{
  find_list-update_where_ne, find_list-update_where_self, find_list-insert_row,
}

-- a later state of a row
pub record Grows (row row' : ListRow) : Type 0 where
  pub same_owner : row'.owner_did ≡ row.owner_did
  pub same_purpose : row'.status_purpose ≡ row.status_purpose
  pub same_capacity : row'.total_capacity ≡ row.total_capacity
  pub no_reset : row.next_available_index ≤ row'.next_available_index

pub Grows-refl : (row : ListRow) → Grows row row
Grows-refl row = record {
  same_owner = refl;
  same_purpose = refl;
  same_capacity = refl;
  no_reset = omega arith;
}

-- the row of an id in a later registry
pub record Later (id : String) (row : ListRow) (db : Registry) : Type 0 where
  pub now_row : ListRow
  pub found : find_list id db ≡ some now_row
  pub grows : Grows row now_row

-- what a successful allocation did
pub record Allocates (list_id owner : String) (a : AllocatedIndex) (db db' : Registry)
    : Type 0 where
  pub row : ListRow
  pub found : find_list list_id db ≡ some row
  pub owned : str_eq row.owner_did owner ≡ true
  pub room : row.next_available_index < row.total_capacity
  pub index : a.allocated_index ≡ row.next_available_index
  pub remaining : a.remaining_capacity ≡ row.total_capacity - row.next_available_index - 1
  pub written : db' ≡ update_where list_id next_index db

pub allocate_index-Allocates :
    (list_id owner : String) (db : Registry) {a : AllocatedIndex} {db' : Registry}
    → allocate_index list_id owner db ≡ ok (a, db')
    → Allocates list_id owner a db db'
unfolding allocate_index allocate_from
allocate_index-Allocates list_id owner db {a = a} {db' = db'} e =
    elim (Option-cases (find_list list_id db)) [
      | inl missing ↦ not_raised (rw missing at e)
      | inr (row, found) ↦
          let e1 = rw found at e in
          elim (Bool-cases (str_eq row.owner_did owner)) [
            | inr other ↦ not_raised (rw other at e1)
            | inl owned ↦ elim (Bool-cases (leb row.total_capacity row.next_available_index)) [
              | inl full ↦ not_raised (rw (owned, full) at e1)
              | inr room ↦
                  let e2 = rw (owned, room) at e1 in
                  let made = ok-first refl e2 in
                  record {
                    row = row;
                    found = found;
                    owned = owned;
                    room = ground (arith, room);
                    index = sym (ap (λ x. x.allocated_index) made);
                    remaining = sym (ap (λ x. x.remaining_capacity) made);
                    written = sym (ok-second refl e2);
                  }
            ]
          ]
    ]

module _ (c : ListCodec) where
  pub data StoreStep : Registry → Registry → Type 0 where
    created :
        (list_id : String) (now : ℕ) (owner purpose base_url : String) (capacity : ℕ)
        {db db' : Registry} (r : Created)
        → create_status_list c list_id now owner purpose base_url capacity db ≡ ok (r, db')
        → StoreStep db db'
    allocated :
        (list_id owner : String) {db db' : Registry} (a : AllocatedIndex)
        → allocate_index list_id owner db ≡ ok (a, db')
        → StoreStep db db'
    updated :
        (list_id : String) (now : ℕ) (credential : Json) (encoded : List ℕ) {db db' : Registry}
        → update_status_list list_id now credential encoded db ≡ ok db'
        → StoreStep db db'

  pub data StoreSteps : Registry → Registry → Type 0 where
    done : {db : Registry} → StoreSteps db db
    next : {db db' db'' : Registry} → StoreStep db db' → StoreSteps db' db'' → StoreSteps db db''

  pub create_status_list-inserts :
      (list_id : String) (now : ℕ) (owner purpose base_url : String) (capacity : ℕ) (db : Registry)
      {r : Created} {db' : Registry}
      → create_status_list c list_id now owner purpose base_url capacity db ≡ ok (r, db')
      → (raw : Bytes) × (create_bitstring capacity ≡ ok raw)
        × (insert_row (new_row c list_id now owner purpose base_url capacity raw) db ≡ ok db')
  unfolding create_status_list
  create_status_list-inserts list_id now owner purpose base_url capacity db {r = r} {db' = db'} e =
      elim (Bool-cases (known_purpose purpose)) [
        | inr other ↦ not_raised (rw other at e)
        | inl known ↦
            let (raw, sized, r1) =
              >>=-eq-ok (or_bad_size (create_bitstring capacity)) _ (rw known at e) in
            let (db1, inserted, r2) =
              >>=-eq-ok (insert_row (new_row c list_id now owner purpose base_url capacity raw) db)
                _ r1 in
            (raw, ground (arith, sized), rw (ok-second refl r2) at inserted)
      ]

  pub update_status_list-writes :
      (list_id : String) (now : ℕ) (credential : Json) (encoded : List ℕ) (db : Registry)
      {db' : Registry}
      → update_status_list list_id now credential encoded db ≡ ok db'
      → db' ≡ update_where list_id (replaced now credential encoded) db
  unfolding update_status_list
  update_status_list-writes list_id now credential encoded db e =
      elim (Option-cases (find_list list_id db)) [
        | inl missing ↦ ground (arith, e, missing)
        | inr (row, found) ↦ ground (arith, e, found)
      ]

updated-Later :
    (id key : String) (f : ListRow → ListRow) (db : Registry) {row : ListRow}
    → ((row : ListRow) → (f row).status_list_id ≡ row.status_list_id)
    → ((row : ListRow) → Grows row (f row))
    → find_list id db ≡ some row
    → Later id row (update_where key f db)
updated-Later id key f db {row = row} keeps grows found = elim (Bool-cases (str_eq id key)) [
  | inr ne ↦ record {
    now_row = row;
    found = find_list-update_where_ne id key f db keeps ne ∙ found;
    grows = Grows-refl row;
  }
  | inl e ↦ record {
    now_row = f row;
    found =
        rw ((eq_iff id key).0 e)
          (find_list-update_where_self key f db keeps (rw ((eq_iff id key).0 e) at found));
    grows = grows row;
  }
]

module _ (c : ListCodec) where
  StoreStep-Later :
      (id : String) {db db' : Registry} {row : ListRow}
      → StoreStep c db db'
      → find_list id db ≡ some row
      → Later id row db'
  StoreStep-Later id {row = row} (created list_id now owner purpose base_url capacity r e) found =
      let (raw, _, inserted) =
        create_status_list-inserts c list_id now owner purpose base_url capacity _ e in
      record {
        now_row = row;
        found = find_list-insert_row id _ _ inserted found;
        grows = Grows-refl row;
      }
  StoreStep-Later id {db = db} {row = row} (allocated list_id owner a e) found =
      rw (allocate_index-Allocates list_id owner db e).written
        (updated-Later id list_id next_index db (λ _. refl) next_grows found)
    where
      next_grows : (r : ListRow) → Grows r (next_index r)
      next_grows r = record {
        same_owner = refl;
        same_purpose = refl;
        same_capacity = refl;
        no_reset = omega arith;
      }
  StoreStep-Later id {db = db} (updated list_id now credential encoded e) found =
      rw (update_status_list-writes c list_id now credential encoded db e) (
        updated-Later id list_id (replaced now credential encoded) db (λ _. refl) replaced_grows
          found)
    where
      replaced_grows : (r : ListRow) → Grows r (replaced now credential encoded r)
      replaced_grows r = record {
        same_owner = refl;
        same_purpose = refl;
        same_capacity = refl;
        no_reset = omega arith;
      }

  Grows-trans : {a b d : ListRow} → Grows a b → Grows b d → Grows a d
  Grows-trans {a = a} {b = b} {d = d} h k = record {
    same_owner = k.same_owner ∙ h.same_owner;
    same_purpose = k.same_purpose ∙ h.same_purpose;
    same_capacity = k.same_capacity ∙ h.same_capacity;
    no_reset = omega (arith, h.no_reset, k.no_reset);
  }

  pub StoreSteps-Later :
      (id : String) {db db' : Registry} {row : ListRow}
      → StoreSteps c db db'
      → find_list id db ≡ some row
      → Later id row db'
  StoreSteps-Later id {row = row} done found = record {
    now_row = row;
    found = found;
    grows = Grows-refl row;
  }
  StoreSteps-Later id (next step rest) found =
      let once = StoreStep-Later id step found in
      let last = StoreSteps-Later id rest once.found in
      record {
        now_row = last.now_row;
        found = last.found;
        grows = Grows-trans once.grows last.grows;
      }
