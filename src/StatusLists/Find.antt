-- ===== src/StatusLists/Find.antt =====
-- Finding a row of the registry of api/status_list_store.py after an insert or an update.
use arp_spec.Common.{
  String, ◌≡◌, refl, sym, ap, ◌≢◌, inl, inr, true, false, some, [], ◌∷◌, arith, any, Bool-cases, ok,
  str_eq, eq_iff, false≢true, eq_refl, ◌∙◌,
}
use arp_spec.StatusLists.{ListRow, Registry, find_list, update_where, insert_row, clashes}

-- a found row is the one of the id
pub find_list-id :
    (id : String) (db : Registry) {row : ListRow}
    → find_list id db ≡ some row
    → str_eq row.status_list_id id ≡ true
unfolding find_list
find_list-id id [] h = cc
find_list-id id (r ∷ rs) {row = row} h = elim (Bool-cases (str_eq r.status_list_id id)) [
  | inl here ↦ ground (arith, h, here)
  | inr away ↦ find_list-id id rs (rw away at h)
]

pub find_list-update_where_ne :
    (id key : String) (f : ListRow → ListRow) (db : Registry)
    → ((row : ListRow) → (f row).status_list_id ≡ row.status_list_id)
    → str_eq id key ≡ false
    → find_list id (update_where key f db) ≡ find_list id db
unfolding find_list update_where
find_list-update_where_ne id key f [] keeps ne = refl
find_list-update_where_ne id key f (r ∷ rs) keeps ne =
    let rest = find_list-update_where_ne id key f rs keeps ne in
    elim (Bool-cases (str_eq r.status_list_id key)) [
      | inr miss ↦ rw (miss, rest) refl
      | inl hit ↦
          let same : r.status_list_id ≡ key = (eq_iff r.status_list_id key).0 hit in
          let away : str_eq r.status_list_id id ≡ false =
            elim (Bool-cases (str_eq r.status_list_id id)) [
              | inr no_match ↦ no_match
              | inl match ↦ absurd (differ (sym ((eq_iff r.status_list_id id).0 match) ∙ same))
            ] in
          rw (hit, keeps r, away, rest) refl
    ]
  where
    differ : id ≢ key
    differ e = false≢true (sym ne ∙ ap (str_eq id) (sym e) ∙ eq_refl id)

pub find_list-update_where_self :
    (id : String) (f : ListRow → ListRow) (db : Registry) {row : ListRow}
    → ((row : ListRow) → (f row).status_list_id ≡ row.status_list_id)
    → find_list id db ≡ some row
    → find_list id (update_where id f db) ≡ some (f row)
unfolding find_list update_where
find_list-update_where_self id f [] keeps h = cc
find_list-update_where_self id f (r ∷ rs) {row = row} keeps h =
    elim (Bool-cases (str_eq r.status_list_id id)) [
      | inl here ↦
          let same : some r ≡ some row = rw here at h in
          let kept : str_eq (f r).status_list_id id ≡ true = simp (keeps r, here) in
          simp (here, kept) (cc same)
      | inr away ↦ rw (away, away) (find_list-update_where_self id f rs keeps (rw away at h))
    ]

clashes_found :
    (id : String) (new : ListRow) (db : Registry) {row : ListRow}
    → find_list id db ≡ some row
    → any (clashes new) db ≡ false
    → str_eq new.status_list_id id ≡ false
unfolding find_list clashes
clashes_found id new [] h fresh = cc
clashes_found id new (r ∷ rs) h fresh = elim (Bool-cases (str_eq r.status_list_id id)) [
  | inr away ↦ clashes_found id new rs (rw away at h) (ground (arith, fresh))
  | inl here ↦ elim (Bool-cases (str_eq new.status_list_id id)) [
    | inr no_match ↦ no_match
    | inl match ↦
        let same : r.status_list_id ≡ new.status_list_id =
          (eq_iff r.status_list_id id).0 here ∙ sym ((eq_iff new.status_list_id id).0 match) in
        let both : str_eq r.status_list_id new.status_list_id ≡ true =
          (eq_iff r.status_list_id new.status_list_id).1 same in
        ground (arith, both, fresh)
  ]
]

-- an accepted insert hides no row
pub find_list-insert_row :
    (id : String) (new : ListRow) (db : Registry) {row : ListRow} {db' : Registry}
    → insert_row new db ≡ ok db'
    → find_list id db ≡ some row
    → find_list id db' ≡ some row
unfolding insert_row find_list
find_list-insert_row id new db e h = elim (Bool-cases (any (clashes new) db)) [
  | inl clash ↦ ground (arith, e, clash)
  | inr fresh ↦ let away = clashes_found id new db h fresh in ground (arith, e, fresh, h, away)
]

-- and the new row is found
pub find_list-insert_row_new :
    (new : ListRow) (db : Registry) {db' : Registry}
    → insert_row new db ≡ ok db'
    → find_list new.status_list_id db' ≡ some new
unfolding insert_row find_list
find_list-insert_row_new new db e = elim (Bool-cases (any (clashes new) db)) [
  | inl clash ↦ ground (arith, e, clash)
  | inr fresh ↦ ground (arith, e, fresh, eq_refl new.status_list_id)
]
