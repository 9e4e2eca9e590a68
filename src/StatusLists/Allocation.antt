-- ===== src/StatusLists/Allocation.antt =====
-- Allocation of indices in api/status_list_store.py: what is handed out once is not handed out
-- again, whatever calls come between.
use arp_spec.Common.{
  ℕ, zero, suc, ◌+◌, ◌-◌, ◌≤◌, ◌<◌, String, ◌≡◌, refl, sym, inl, inr, true, false, some, List, [],
  ◌∷◌, arith, leb, Bool-cases, Outcome, ok, err, ◌>>=◌, str_eq, ◌∙◌,
}
use arp_spec.StatusLists.{
  ListRow, Registry, ListCodec, AllocatedIndex, StoreError, find_list, update_where, allocate_index,
  allocate_from, next_index, capacity_exhausted,
}
use arp_spec.StatusLists.Find.{find_list-update_where_self}
use arp_spec.StatusLists.Steps.{allocate_index-Allocates, StoreSteps, StoreSteps-Later}

module _ (c : ListCodec) where
  -- Two successful allocations on one list, with any successful calls of the store in between, give
  -- different indices, the later one the larger, and both below the capacity of the list's row.
  pub allocate_index_fresh :
      (id owner owner' : String) (db db2 : Registry) {db1 db3 : Registry} {a b : AllocatedIndex}
      → allocate_index id owner db ≡ ok (a, db1)
      → StoreSteps c db1 db2
      → allocate_index id owner' db2 ≡ ok (b, db3)
      → (row : ListRow) × (find_list id db ≡ some row)
        × (a.allocated_index < b.allocated_index)
        × (b.allocated_index < row.total_capacity)
  allocate_index_fresh id owner owner' db db2 {db1 = db1} {a = a} {b = b} first between second =
      let one = allocate_index-Allocates id owner db first in
      let moved : find_list id db1 ≡ some (next_index one.row) =
        rw one.written (find_list-update_where_self id next_index db (λ _. refl) one.found) in
      let later = StoreSteps-Later c id between moved in
      let two = allocate_index-Allocates id owner' db2 second in
      let same : some later.now_row ≡ some two.row = sym later.found ∙ two.found in
      let same_next : later.now_row.next_available_index ≡ two.row.next_available_index = cc same in
      let same_cap : later.now_row.total_capacity ≡ two.row.total_capacity = cc same in
      let grew = later.grows.no_reset in
      let cap = later.grows.same_capacity in
      (
        one.row,
        one.found,
        ground (arith, one.index, two.index, same_next, grew),
        ground (arith, two.index, two.room, same_cap, cap),
      )

-- the owner's allocations, one after another
unfoldable pub allocate_many :
    ℕ → String → String → Registry → Outcome StoreError (List ℕ × Registry)
unfolding allocate_index
allocate_many zero id owner db = ok ([], db)
allocate_many (suc k) id owner db = do
  (a, db1) ← allocate_index id owner db
  (rest, db2) ← allocate_many k id owner db1
  ok (a.allocated_index ∷ rest, db2)

pub count_from : ℕ → ℕ → List ℕ
count_from n zero = []
count_from n (suc k) = n ∷ count_from (n + 1) k

allocate_index_room :
    (id owner : String) (db : Registry) (row : ListRow)
    → find_list id db ≡ some row
    → str_eq row.owner_did owner ≡ true
    → row.next_available_index < row.total_capacity
    → (a : AllocatedIndex) × (allocate_index id owner db ≡ ok (a, update_where id next_index db))
      × (a.allocated_index ≡ row.next_available_index)
unfolding allocate_index allocate_from
allocate_index_room id owner db row found owned room =
    let free : leb row.total_capacity row.next_available_index ≡ false = ground (arith, room) in
    (
      record {
        list_id = id;
        allocated_index = row.next_available_index;
        remaining_capacity = row.total_capacity - row.next_available_index - 1;
      },
      rw found (rw (owned, free) refl),
      refl,
    )

allocate_index_full :
    (id owner : String) (db : Registry) (row : ListRow)
    → find_list id db ≡ some row
    → str_eq row.owner_did owner ≡ true
    → leb row.total_capacity row.next_available_index ≡ true
    → allocate_index id owner db ≡ err capacity_exhausted
unfolding allocate_index allocate_from
allocate_index_full id owner db row found owned full = rw found (rw (owned, full) refl)

-- A list hands out every free index in order and then no more: as long as there is room, k
-- allocations by the owner give the k indices from the next one on; with one allocation more than
-- there is room for, the run raises that the capacity is exhausted.
pub allocate_many_lem :
    (id owner : String) (k : ℕ) (db : Registry) (row : ListRow)
    → find_list id db ≡ some row
    → str_eq row.owner_did owner ≡ true
    → row.next_available_index ≤ row.total_capacity
    → (row.next_available_index + k ≤ row.total_capacity
        → (db' : Registry) × (allocate_many k id owner db
            ≡ ok (count_from row.next_available_index k, db')))
      × (row.total_capacity < row.next_available_index + k
          → allocate_many k id owner db ≡ err capacity_exhausted)
unfolding allocate_many count_from
allocate_many_lem id owner zero db row found owned fits =
    (λ room. (db, refl), λ over. absurd (ground (arith, over, fits)))
allocate_many_lem id owner (suc k) db row found owned fits =
    elim (Bool-cases (leb row.total_capacity row.next_available_index)) [
      | inl full ↦ (
        λ room. absurd (ground (arith, full, room)),
        λ over. rw (allocate_index_full id owner db row found owned full) refl,
      )
      | inr free ↦
          let room : row.next_available_index < row.total_capacity = ground (arith, free) in
          let (a, once, index) = allocate_index_room id owner db row found owned room in
          let moved = find_list-update_where_self id next_index db (λ _. refl) found in
          let later =
            allocate_many_lem id owner k (update_where id next_index db) (next_index row) moved
              owned (omega (arith, room)) in
          (
            λ h.
                let (db', rest) = later.0 (omega (arith, h)) in
                (db', rw once (rw (rest, index) refl)),
            λ h. rw once (rw (later.1 (omega (arith, h))) refl),
          )
    ]
