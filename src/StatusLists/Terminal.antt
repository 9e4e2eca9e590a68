-- ===== src/StatusLists/Terminal.antt =====
-- No call of the endpoints of api/status_list_routes.py clears a revoked bit.
use arp_spec.Common.{
  ℕ, String, ◌≡◌, refl, sym, inl, inr, some, arith, Bool-cases, Outcome, ok, str_eq, eq_iff,
  Outcome-cases, ◌∙◌, >>=-eq-ok,
}
use arp_spec.Bitstring.{Bytes, minimum_bitstring_size}
use arp_spec.Bitstring.Reads.{bit_of}
use arp_spec.Bitstring.Codec.{decode_bitstring}
use arp_spec.Bitstring.Update.{validate_status_list_update_sound}
use arp_spec.Json.{Fields, Json, obj, get}
use arp_spec.StatusLists.{
  ListRow, Registry, Created, AllocatedIndex, StoreError, find_list, update_where, next_index,
  replaced, create_status_list, allocate_index,
}
use arp_spec.StatusLists.Find.{
  find_list-update_where_ne, find_list-update_where_self, find_list-insert_row,
}
use arp_spec.StatusLists.Steps.{allocate_index-Allocates, create_status_list-inserts}
use arp_spec.StatusLists.Routes.{
  Server, authenticate, allocate_status_list_endpoint, allocate_index_endpoint,
  update_status_list_endpoint,
}
use arp_spec.StatusLists.Http.{raising, of_allocation, list_purpose}
use arp_spec.StatusLists.Signed.{of_store-eq-ok}
use arp_spec.StatusLists.Updates.{IsUpdate, update_status_list_endpoint_authorised}

-- the bit of a list for revocation is set
pub record HasRevoked (s : Server) (id : String) (i : ℕ) (db : Registry) : Type 0 where
  pub row : ListRow
  pub raw : Bytes
  pub found : find_list id db ≡ some row
  pub purpose : row.status_purpose ≡ "revocation"
  pub decoded : decode_bitstring s.lists.codec row.current_bitstring ≡ ok raw
  pub set_at : bit_of raw i ≡ 1

module _ (server : Server) where
  updated-HasRevoked :
      (id key : String) (i : ℕ) (f : ListRow → ListRow) (db : Registry) (row : ListRow)
      → ((r : ListRow) → (f r).status_list_id ≡ r.status_list_id)
      → ((r : ListRow) → (f r).status_purpose ≡ r.status_purpose)
      → find_list key db ≡ some row
      → ((raw : Bytes)
          → row.status_purpose ≡ "revocation"
          → decode_bitstring server.lists.codec row.current_bitstring ≡ ok raw
          → bit_of raw i ≡ 1
          → (raw' : Bytes) × (decode_bitstring server.lists.codec (f row).current_bitstring
              ≡ ok raw')
            × (bit_of raw' i ≡ 1))
      → HasRevoked server id i db
      → HasRevoked server id i (update_where key f db)
  updated-HasRevoked id key i f db row keeps same_purpose at_key bits h =
      elim (Bool-cases (str_eq id key)) [
        | inr ne ↦ record {
          row = h.row;
          raw = h.raw;
          found = find_list-update_where_ne id key f db keeps ne ∙ h.found;
          purpose = h.purpose;
          decoded = h.decoded;
          set_at = h.set_at;
        }
        | inl e ↦
            let here : find_list id db ≡ some row = rw ((eq_iff id key).0 e) at_key in
            let same : some h.row ≡ some row = sym h.found ∙ here in
            let same_row : h.row ≡ row = cc same in
            let (raw', decoded, set_at) =
              bits h.raw (rw same_row at h.purpose) (rw same_row at h.decoded) h.set_at in
            record {
              row = f row;
              raw = raw';
              found = rw ((eq_iff id key).0 e) (find_list-update_where_self key f db keeps at_key);
              purpose = same_purpose row ∙ rw same_row at h.purpose;
              decoded = decoded;
              set_at = set_at;
            }
      ]

  update-HasRevoked :
      (now : ℕ) (id key signer : String) (credential : Fields) (encoded purpose : Json) (i : ℕ)
      (db : Registry) {db' : Registry}
      → IsUpdate server now key credential encoded purpose signer db db'
      → HasRevoked server id i db
      → HasRevoked server id i db'
  update-HasRevoked now id key signer credential encoded purpose i db u h = rw u.written (
      updated-HasRevoked id key i (replaced now (obj credential) (server.lists.codes u.new_text)) db
        u.row (λ _. refl) (λ _. refl) u.found bits h)
    where
      bits :
          (raw : Bytes)
          → u.row.status_purpose ≡ "revocation"
          → decode_bitstring server.lists.codec u.row.current_bitstring ≡ ok raw
          → bit_of raw i ≡ 1
          → (raw' : Bytes) × (decode_bitstring server.lists.codec (server.lists.codes u.new_text)
              ≡ ok raw')
            × (bit_of raw' i ≡ 1)
      bits raw is_revocation decoded set_at =
          let (old, new, old_is, new_is, allowed) =
            validate_status_list_update_sound server.lists.codec u.row.current_bitstring
              (server.lists.codes u.new_text) u.row.status_purpose u.valid in
          let same_ok : ok raw ≡ ok old = sym decoded ∙ old_is in
          let same : raw ≡ old = cc same_ok in
          (new, new_is, allowed.terminal is_revocation i (rw same at set_at))

  allocate_index_endpoint-inner :
      (now : ℕ) (key : String) (body : Json) (db : Registry) {a : AllocatedIndex} {db' : Registry}
      → allocate_index_endpoint server now key body db ≡ ok (a, db')
      → (signer : String) × (authenticate server now body ≡ ok signer)
        × (allocate_index key signer db ≡ ok (a, db'))
  unfolding allocate_index_endpoint
  allocate_index_endpoint-inner now key body db e =
      let (signer, known, r1) = >>=-eq-ok (authenticate server now body) _ e in
      (signer, known, of_allocation-eq-ok (allocate_index key signer db) r1)
    where
      of_allocation-eq-ok :
          (o : Outcome StoreError (AllocatedIndex × Registry)) {r : AllocatedIndex × Registry}
          → of_allocation o ≡ ok r
          → o ≡ ok r
      of_allocation-eq-ok o h = elim (Outcome-cases o) [
        | inl (d, is_ok) ↦ ground (arith, h, is_ok)
        | inr (x, is_err) ↦ ground (arith, h, is_err)
      ]

  allocated-HasRevoked :
      (id key owner : String) (i : ℕ) (db : Registry) {a : AllocatedIndex} {db' : Registry}
      → allocate_index key owner db ≡ ok (a, db')
      → HasRevoked server id i db
      → HasRevoked server id i db'
  allocated-HasRevoked id key owner i db e h =
      let done_so = allocate_index-Allocates key owner db e in
      rw done_so.written (
        updated-HasRevoked id key i next_index db done_so.row (λ _. refl) (λ _. refl) done_so.found
          (λ raw _ decoded set_at. (raw, decoded, set_at)) h)

  created-HasRevoked :
      (id list_id : String) (now : ℕ) (owner purpose base_url : String) (capacity i : ℕ)
      (db : Registry) {r : Created} {db' : Registry}
      → create_status_list server.lists list_id now owner purpose base_url capacity db ≡ ok (r, db')
      → HasRevoked server id i db
      → HasRevoked server id i db'
  created-HasRevoked id list_id now owner purpose base_url capacity i db e h =
      let (raw, _, inserted) =
        create_status_list-inserts server.lists list_id now owner purpose base_url capacity db e in
      record {
        row = h.row;
        raw = h.raw;
        found = find_list-insert_row id _ db inserted h.found;
        purpose = h.purpose;
        decoded = h.decoded;
        set_at = h.set_at;
      }

  allocate_status_list_endpoint-HasRevoked :
      (id list_id : String) (now i : ℕ) (body : Json) (db : Registry) {r : Created} {db' : Registry}
      → allocate_status_list_endpoint server now list_id body db ≡ ok (r, db')
      → HasRevoked server id i db
      → HasRevoked server id i db'
  unfolding allocate_status_list_endpoint
  allocate_status_list_endpoint-HasRevoked id list_id now i body db {r = r} {db' = db'} e h =
      let (v, _, r1) = >>=-eq-ok (raising (get "statusPurpose" body)) _ e in
      let (purpose, _, r2) = >>=-eq-ok (list_purpose v) _ r1 in
      let (signer, _, r3) = >>=-eq-ok (authenticate server now body) _ r2 in
      created-HasRevoked id list_id now signer purpose server.base_url minimum_bitstring_size i db
        (of_store-eq-ok _ r3) h

  -- one request that changes the registry; the other requests, and those that fail, leave it
  pub data RouteStep : Registry → Registry → Type 0 where
    allocates_list :
        (now : ℕ) (list_id : String) (body : Json) {db db' : Registry} (r : Created)
        → allocate_status_list_endpoint server now list_id body db ≡ ok (r, db')
        → RouteStep db db'
    allocates_index :
        (now : ℕ) (list_id : String) (body : Json) {db db' : Registry} (a : AllocatedIndex)
        → allocate_index_endpoint server now list_id body db ≡ ok (a, db')
        → RouteStep db db'
    updates_list :
        (now : ℕ) (list_id : String) (body : Json) {db db' : Registry} (bits_changed : ℕ)
        → update_status_list_endpoint server now list_id body db ≡ ok (bits_changed, db')
        → RouteStep db db'

  pub data RouteSteps : Registry → Registry → Type 0 where
    done : {db : Registry} → RouteSteps db db
    next : {db db' db'' : Registry} → RouteStep db db' → RouteSteps db' db'' → RouteSteps db db''

  RouteStep-HasRevoked :
      (id : String) (i : ℕ) {db db' : Registry}
      → RouteStep db db'
      → HasRevoked server id i db
      → HasRevoked server id i db'
  RouteStep-HasRevoked id i (allocates_list now list_id body r e) h =
      allocate_status_list_endpoint-HasRevoked id list_id now i body _ e h
  RouteStep-HasRevoked id i (allocates_index now list_id body a e) h =
      let (signer, _, inner) = allocate_index_endpoint-inner now list_id body _ e in
      allocated-HasRevoked id list_id signer i _ inner h
  RouteStep-HasRevoked id i (updates_list now list_id body n e) h =
      let (credential, encoded, purpose, _, signer, _, _, update) =
        update_status_list_endpoint_authorised server now list_id body _ e in
      update-HasRevoked now id list_id signer credential encoded purpose i _ update h

  -- Once a bit of a hosted list for revocation is set, it stays set through any sequence of
  -- accepted requests to the endpoints, whoever sends them and whichever lists they are for: the
  -- list is still in the registry, is still for revocation, and its stored encoding still decodes
  -- to a bitstring with that bit set.
  pub revoked_bit_stays :
      (id : String) (i : ℕ) {db db' : Registry}
      → HasRevoked server id i db
      → RouteSteps db db'
      → HasRevoked server id i db'
  revoked_bit_stays id i h done = h
  revoked_bit_stays id i h (next step rest) =
      revoked_bit_stays id i (RouteStep-HasRevoked id i step h) rest
