-- ===== src/StatusLists/Updates.antt =====
-- Updates through api/status_list_routes.py: who may make them, and what they write.
use arp_spec.Common.{
  ℕ, String, ◌≡◌, refl, ap, inl, inr, Bool, true, false, Option, none, some, List, arith,
  if◌then◌else◌, Bool-cases, Option-cases, Outcome, ok, str_eq, eq_iff, not_raised, >>=-eq-ok,
  ok-injective, ◌∙◌, ok-second,
}
use arp_spec.Bitstring.Codec.{validate_status_list_update}
use arp_spec.Json.{
  Json, nil, end, field, str, arr, obj, num, bool, null, Fields, PyError, get, get_default, truthy,
  is_text, is_text_iff,
}
use arp_spec.StatusLists.{
  ListRow, Registry, find_list, update_where, replaced, get_status_list, update_status_list,
  loaded_row, loaded_dict,
}
use arp_spec.StatusLists.Signed.{raising-eq-ok, of_store-eq-ok, IsSigned, authorise-IsSigned}
use arp_spec.StatusLists.Find.{find_list-update_where_self, find_list-update_where_ne}
use arp_spec.StatusLists.Steps.{update_status_list-writes}
use arp_spec.StatusLists.Routes.{
  Server, authorise, apply_update, update_found, update_with_subject, update_status_list_endpoint,
}
use arp_spec.StatusLists.Http.{raising, given, given_dict, of_store, found_row, require, contains}

module _ (server : Server) where
  -- what an accepted update writes: the credential and the encoded list to the row of the list
  pub record IsUpdate (now : ℕ) (id : String) (credential : Fields) (encoded purpose : Json)
      (signer : String) (db db' : Registry) : Type 0 where
    pub row : ListRow
    pub new_text : String
    pub is_text_list : encoded ≡ str new_text
    pub same_purpose : purpose ≡ str row.status_purpose
    pub found : find_list id db ≡ some row
    pub owned : signer ≡ row.owner_did
    pub valid :
        (validate_status_list_update server.lists.codec row.current_bitstring
          (server.lists.codes new_text)
          row.status_purpose).valid
        ≡ true
    pub written :
        db' ≡ update_where id (replaced now (obj credential) (server.lists.codes new_text)) db
    pub rows_after :
        (other : String)
        → find_list other db' ≡ (
            if str_eq other id
            then some (record row {
              current_credential_jsonld = obj credential;
              current_bitstring = server.lists.codes new_text;
              last_updated_at = now;
            })
            else find_list other db)

  apply_update-writes :
      (now : ℕ) (id : String) (credential : Fields) (encoded : Json) (row : ListRow) (db : Registry)
      {n : ℕ} {db' : Registry}
      → apply_update server now id credential encoded row db ≡ ok (n, db')
      → (text : String) × (encoded ≡ str text)
        × ((validate_status_list_update server.lists.codec row.current_bitstring
              (server.lists.codes text)
              row.status_purpose).valid
            ≡ true)
        × (db' ≡ update_where id (replaced now (obj credential) (server.lists.codes text)) db)
  unfolding apply_update
  apply_update-writes now id credential (str text) row db {n = n} {db' = db'} e =
      let v =
        validate_status_list_update server.lists.codec row.current_bitstring
          (server.lists.codes text) row.status_purpose in
      elim (Bool-cases v.valid) [
        | inr bad ↦ not_raised (rw bad at e)
        | inl good ↦
            let (db1, stored, r1) =
              >>=-eq-ok
                (of_store (update_status_list id now (obj credential) (server.lists.codes text) db))
                _ (rw good at e) in
            let same = ok-second refl r1 in
            (
              text,
              refl,
              good,
              rw same at (
                  update_status_list-writes server.lists id now (obj credential)
                    (server.lists.codes text) db (of_store-eq-ok _ stored)),
            )
      ]
  apply_update-writes now id credential (arr vs) row db e = not_raised e
  apply_update-writes now id credential (obj fs) row db e = not_raised e
  apply_update-writes now id credential (num n) row db e = not_raised e
  apply_update-writes now id credential (bool b) row db e = not_raised e
  apply_update-writes now id credential null row db e = not_raised e

  get_status_list-found :
      (id : String) (db : Registry) {current : ListRow}
      → get_status_list server.lists.json_loads id db ≡ ok (some current)
      → (row : ListRow) × (find_list id db ≡ some row)
        × (current.current_bitstring ≡ row.current_bitstring)
        × (current.status_purpose ≡ row.status_purpose)
        × (current.owner_did ≡ row.owner_did)
  unfolding get_status_list loaded_row
  get_status_list-found id db {current = current} e = elim (Option-cases (find_list id db)) [
    | inl missing ↦ ground (arith, e, missing)
    | inr (row, found) ↦
        let (cred, _, r) =
          >>=-eq-ok (loaded_dict server.lists.json_loads row.current_credential_jsonld) _
            (rw found at e) in
        let same : some (record row { current_credential_jsonld = cred }) ≡ some current = cc r in
        (row, found, cc same, cc same, cc same)
  ]

  found_after :
      (now : ℕ) (id : String) (credential : Json) (bits : List ℕ) (db : Registry) {row : ListRow}
      → find_list id db ≡ some row
      → (other : String)
      → find_list other (update_where id (replaced now credential bits) db)
        ≡ (if str_eq other id then some (replaced now credential bits row) else find_list other db)
  found_after now id credential bits db found other = elim (Bool-cases (str_eq other id)) [
    | inl own ↦
        rw (own, (eq_iff other id).0 own)
          (find_list-update_where_self id (replaced now credential bits) db (λ r. refl) found)
    | inr away ↦
        find_list-update_where_ne other id (replaced now credential bits) db (λ r. refl) away
        ∙ rw away refl
  ]

  update_found-IsUpdate :
      (now : ℕ) (id : String) (credential : Fields) (encoded purpose : Json) (signer : String)
      (db : Registry) {n : ℕ} {db' : Registry}
      → update_found server now id credential encoded purpose signer db ≡ ok (n, db')
      → IsUpdate now id credential encoded purpose signer db db'
  unfolding update_found
  update_found-IsUpdate now id credential encoded purpose signer db {n = n} {db' = db'} e =
      let (found, loaded, r1) =
        >>=-eq-ok (raising (get_status_list server.lists.json_loads id db)) _ e in
      let (current, is_found, r2) = >>=-eq-ok (found_row found) _ r1 in
      let loaded_some = raising-eq-ok (get_status_list server.lists.json_loads id db) loaded in
      let (row, has_row, same_bits, same_purpose, same_owner) =
        get_status_list-found id db (rw (found_row-some found is_found) at loaded_some) in
      elim (Bool-cases (is_text current.status_purpose purpose)) [
        | inr other ↦ not_raised (rw other at r2)
        | inl matching ↦ elim (Bool-cases (str_eq signer current.owner_did)) [
          | inr stranger ↦ not_raised (rw (matching, stranger) at r2)
          | inl owner ↦
              let (text, is_list, valid, written) =
                apply_update-writes now id credential encoded current db
                  (rw (matching, owner) at r2) in
              record {
                row = row;
                new_text = text;
                is_text_list = is_list;
                same_purpose =
                    is_text_iff current.status_purpose purpose matching ∙ ap str same_purpose;
                found = has_row;
                owned = (eq_iff signer current.owner_did).0 owner ∙ same_owner;
                valid = rw (same_bits, same_purpose) at valid;
                written = written;
                rows_after = λ other.
                    ap (find_list other) written
                    ∙ found_after now id (obj credential) (server.lists.codes text) db has_row
                        other;
              }
        ]
      ]
    where
      found_row-some : (o : Option ListRow) {c : ListRow} → found_row o ≡ ok c → o ≡ some c
      found_row-some (some r) h = cc h
      found_row-some none h = not_raised h

  -- what the subject and the credential of an update name, given and not empty
  pub record Names (credential : Fields) (subject encoded purpose proof : Json) : Type 0 where
    pub has_encoded : get "encodedList" subject ≡ ok encoded
    pub has_purpose : get "statusPurpose" subject ≡ ok purpose
    pub has_proof : get "proof" (obj credential) ≡ ok proof

  -- what the body of an update submits
  pub record Submits (body : Json) (credential : Fields) (encoded purpose proof : Json)
      : Type 0 where
    pub in_body : get "credential" body ≡ ok (obj credential)
    pub types : Json
    pub has_types : get_default "type" (arr nil) (obj credential) ≡ ok types
    pub is_list_credential : contains "BitstringStatusListCredential" types ≡ ok true
    pub subject : Json
    pub has_subject : get_default "credentialSubject" (obj end) (obj credential) ≡ ok subject
    pub is_list : get "type" subject ≡ ok (str "BitstringStatusList")
    pub names : Names credential subject encoded purpose proof

  required : (b : Bool) (code : ℕ) {u : Unit {0}} → require b code ≡ ok u → b ≡ true
  required true code e = refl
  required false code e = not_raised e

  given-same :
      (v : Json) {w : Json} {o : Outcome PyError Json} → given v ≡ ok w → o ≡ ok v → o ≡ ok w
  given-same v h k = elim (Bool-cases (truthy v)) [
    | inl full ↦ cc (rw full at h)
    | inr empty ↦ not_raised (rw empty at h)
  ]

  given_dict-same : (v : Json) {fs : Fields} → given_dict v ≡ ok fs → v ≡ obj fs
  given_dict-same (obj (field k v fs)) h = ap obj (ok-injective h)
  given_dict-same (obj end) h = not_raised h
  given_dict-same null h = not_raised h
  given_dict-same (bool b) h = not_raised h
  given_dict-same (num n) h = not_raised h
  given_dict-same (str s) h = not_raised h
  given_dict-same (arr xs) h = not_raised h

  given_field :
      (o : Outcome PyError Json) {v w : Json} → raising o ≡ ok v → given v ≡ ok w → o ≡ ok w
  given_field o {v = v} read is_given = given-same v is_given (raising-eq-ok o read)

  -- an accepted update of a credential with a subject
  record Accepted (now : ℕ) (id : String) (credential : Fields) (subject : Json) (db db' : Registry)
      : Type 0 where
    encoded : Json
    purpose : Json
    proof : Json
    signer : String
    names : Names credential subject encoded purpose proof
    authorised : authorise server credential proof ≡ ok signer
    update : IsUpdate now id credential encoded purpose signer db db'

  update_with_subject-Accepted :
      (now : ℕ) (id : String) (credential : Fields) (subject : Json) (db : Registry) {n : ℕ}
      {db' : Registry}
      → update_with_subject server now id credential subject db ≡ ok (n, db')
      → Accepted now id credential subject db db'
  unfolding update_with_subject
  update_with_subject-Accepted now id credential subject db e =
      let (encoded_value, has_encoded, r1) = >>=-eq-ok (raising (get "encodedList" subject)) _ e in
      let (encoded, encoded_given, r2) = >>=-eq-ok (given encoded_value) _ r1 in
      let (purpose_value, has_purpose, r3) =
        >>=-eq-ok (raising (get "statusPurpose" subject)) _ r2 in
      let (purpose, purpose_given, r4) = >>=-eq-ok (given purpose_value) _ r3 in
      let (proof_value, has_proof, r5) = >>=-eq-ok (raising (get "proof" (obj credential))) _ r4 in
      let (proof, proof_given, r6) = >>=-eq-ok (given proof_value) _ r5 in
      let (signer, authorised, r7) = >>=-eq-ok (authorise server credential proof) _ r6 in
      record {
        encoded = encoded;
        purpose = purpose;
        proof = proof;
        signer = signer;
        names = record {
          has_encoded = given_field (get "encodedList" subject) has_encoded encoded_given;
          has_purpose = given_field (get "statusPurpose" subject) has_purpose purpose_given;
          has_proof = given_field (get "proof" (obj credential)) has_proof proof_given;
        };
        authorised = authorised;
        update = update_found-IsUpdate now id credential encoded purpose signer db r7;
      }

  update_status_list_endpoint-Submits :
      (now : ℕ) (id : String) (body : Json) (db : Registry) {n : ℕ} {db' : Registry}
      → update_status_list_endpoint server now id body db ≡ ok (n, db')
      → (credential : Fields) × (encoded : Json) × (purpose : Json) × (proof : Json)
        × (signer : String) × Submits body credential encoded purpose proof
        × (authorise server credential proof ≡ ok signer)
        × IsUpdate now id credential encoded purpose signer db db'
  unfolding update_status_list_endpoint
  update_status_list_endpoint-Submits now id body db e =
      let (v, in_body, r1) = >>=-eq-ok (raising (get "credential" body)) _ e in
      let (credential, is_dict, r2) = >>=-eq-ok (given_dict v) _ r1 in
      let (types, has_types, r3) =
        >>=-eq-ok (raising (get_default "type" (arr nil) (obj credential))) _ r2 in
      let (named, contained, r4) =
        >>=-eq-ok (raising (contains "BitstringStatusListCredential" types)) _ r3 in
      let (_, of_type, r5) = >>=-eq-ok (require named 400) _ r4 in
      let (subject, has_subject, r6) =
        >>=-eq-ok (raising (get_default "credentialSubject" (obj end) (obj credential))) _ r5 in
      let (kind, has_kind, r7) = >>=-eq-ok (raising (get "type" subject)) _ r6 in
      let (_, of_kind, r8) = >>=-eq-ok (require (is_text "BitstringStatusList" kind) 400) _ r7 in
      let later = update_with_subject-Accepted now id credential subject db r8 in
      (
        credential,
        later.encoded,
        later.purpose,
        later.proof,
        later.signer,
        record {
          in_body =
              raising-eq-ok (get "credential" body) in_body ∙ ap ok (given_dict-same v is_dict);
          types = types;
          has_types = raising-eq-ok (get_default "type" (arr nil) (obj credential)) has_types;
          is_list_credential =
              raising-eq-ok (contains "BitstringStatusListCredential" types) contained
              ∙ ap ok (required named 400 of_type);
          subject = subject;
          has_subject =
              raising-eq-ok (get_default "credentialSubject" (obj end) (obj credential))
                has_subject;
          is_list =
              raising-eq-ok (get "type" subject) has_kind
              ∙ ap ok (
                  is_text_iff "BitstringStatusList" kind
                    (required (is_text "BitstringStatusList" kind) 400 of_kind));
          names = later.names;
        },
        later.authorised,
        later.update,
      )

  -- An update that the endpoint accepts has in its body a credential of a status list that is signed
  -- under a key of a method in the DID document of the list's owner. The list that the credential
  -- encodes is for the purpose of the row, and its change has passed `validate_status_list_update`. The
  -- registry afterwards is the one before with this credential, this list and the time in that one row.
  pub update_status_list_endpoint_authorised :
      (now : ℕ) (id : String) (body : Json) (db : Registry) {n : ℕ} {db' : Registry}
      → update_status_list_endpoint server now id body db ≡ ok (n, db')
      → (credential : Fields) × (encoded : Json) × (purpose : Json) × (proof : Json)
        × (signer : String) × Submits body credential encoded purpose proof
        × IsSigned server credential proof signer
        × IsUpdate now id credential encoded purpose signer db db'
  update_status_list_endpoint_authorised now id body db e =
      let (credential, encoded, purpose, proof, signer, submits, authorised, update) =
        update_status_list_endpoint-Submits now id body db e in
      (
        credential,
        encoded,
        purpose,
        proof,
        signer,
        submits,
        authorise-IsSigned server credential proof authorised,
        update,
      )
