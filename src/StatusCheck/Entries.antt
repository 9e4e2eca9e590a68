-- ===== src/StatusCheck/Entries.antt =====
-- What an entry that api/status_checker.py calls valid has gone through, and what a set bit does.
use arp_spec.Common.{
  ℕ, String, ◌≡◌, refl, ap, inl, inr, true, ◌&&◌, Option, none, some, List, arith, all, ==_iff,
  Bool-cases, Outcome, ok, err, ◌>>=◌, ℤ, negsuc, str_eq, >>=-eq-ok, ◌∙◌,
}
use arp_spec.Bitstring.{Bytes, BitError, get_bit}
use arp_spec.Bitstring.Codec.{decode_bitstring}
use arp_spec.Json.{
  is_text_iff, Json, null, str, num, arr, obj, bool, Items, nil, cons, Fields, field, end, get,
  get_default, truthy, is_text,
}
use arp_spec.Crypto.{Check}
use arp_spec.StatusCheck.{
  StatusCheckResult, Environment, to_int, bit_result, raw_result, read_list, decode_list,
  list_signature, after_signature, check_fetched, check_at, check_single_entry, check_entries,
}

abbrev pub AllEntries : (Json → Type 0) → Items → Type 0
AllEntries P nil = Unit
AllEntries P (cons x xs) = P x × AllEntries P xs

module _ (env : Environment) where
  -- the status list credential holds a readable list whose bit at the index is 0
  pub record ListClears (list_cred : Fields) (index : ℤ) : Type 0 where
    pub subject : Json
    pub text : String
    pub raw : Bytes
    pub has_subject : get_default "credentialSubject" (obj end) (obj list_cred) ≡ ok subject
    pub has_list : get "encodedList" subject ≡ ok (str text)
    pub decoded : decode_bitstring env.codec (env.codes text) ≡ ok raw
    pub clear : get_bit raw index ≡ ok 0

  bit_result_valid :
      (purpose url : Json) (index : ℤ) (r : Outcome BitError ℕ)
      → (bit_result purpose url index r).valid_for_purpose ≡ true
      → r ≡ ok 0
  bit_result_valid purpose url index (err e) h = cc
  bit_result_valid purpose url index (ok value) h = ap ok ((==_iff value 0).0 h)

  raw_result_valid :
      (purpose url : Json) (index : ℤ) (r : Outcome BitError Bytes)
      → (raw_result purpose url index r).valid_for_purpose ≡ true
      → (raw : Bytes) × (r ≡ ok raw) × (get_bit raw index ≡ ok 0)
  raw_result_valid purpose url index (err e) h = cc
  raw_result_valid purpose url index (ok raw) h =
      (raw, refl, bit_result_valid purpose url index (get_bit raw index) h)

  decode_list_valid :
      (purpose url : Json) (index : ℤ) (encoded : Json) {r : StatusCheckResult}
      → decode_list env purpose url index encoded ≡ ok r
      → r.valid_for_purpose ≡ true
      → (text : String) × (encoded ≡ str text)
        × (let result =
              raw_result purpose url index (decode_bitstring env.codec (env.codes text)) in
            result.valid_for_purpose ≡ true)
  unfolding decode_list truthy
  decode_list_valid purpose url index (str s) {r = r} h v = elim (Bool-cases (str_eq s "")) [
    | inl e ↦ ground (arith, h, v, e)
    | inr e ↦
        let same : raw_result purpose url index (decode_bitstring env.codec (env.codes s)) ≡ r =
          ground (arith, h, e) in
        (s, refl, rw same v)
  ]
  decode_list_valid purpose url index null h v = ground arith
  decode_list_valid purpose url index (bool b) h v = ground arith
  decode_list_valid purpose url index (num n) h v = ground arith
  decode_list_valid purpose url index (arr nil) h v = ground arith
  decode_list_valid purpose url index (arr (cons x xs)) h v = ground arith
  decode_list_valid purpose url index (obj end) h v = ground arith
  decode_list_valid purpose url index (obj (field k w fs)) h v = ground arith

  read_list_valid :
      (purpose url : Json) (index : ℤ) (list_cred : Fields) {r : StatusCheckResult}
      → read_list env purpose url index list_cred ≡ ok r
      → r.valid_for_purpose ≡ true
      → ListClears list_cred index
  unfolding read_list
  read_list_valid purpose url index list_cred h v =
      let (subject, has_subject, after) =
        >>=-eq-ok (get_default "credentialSubject" (obj end) (obj list_cred)) _ h in
      let (encoded, has_encoded, last) = >>=-eq-ok (get "encodedList" subject) _ after in
      let (text, is_str, valid) = decode_list_valid purpose url index encoded last v in
      let (raw, decoded, clear) =
        raw_result_valid purpose url index (decode_bitstring env.codec (env.codes text)) valid in
      record {
        subject = subject;
        text = text;
        raw = raw;
        has_subject = has_subject;
        has_list = rw (← is_str) has_encoded;
        decoded = decoded;
        clear = clear;
      }

  -- the status list credential of the URL passed the signature check and clears the index
  pub record Cleared (url : Json) (index : ℤ) : Type 0 where
    pub list_cred : Fields
    pub fetched : env.fetch url ≡ ok (some (obj list_cred))
    pub signed : list_signature env list_cred ≡ ok (ok tt)
    pub clears : ListClears list_cred index

  after_signature_valid :
      (purpose url : Json) (index : ℤ) (list_cred : Fields) (c : Check) {r : StatusCheckResult}
      → after_signature env purpose url index list_cred c ≡ ok r
      → r.valid_for_purpose ≡ true
      → (c ≡ ok tt) × ListClears list_cred index
  after_signature_valid purpose url index list_cred (ok _) h v =
      (refl, read_list_valid purpose url index list_cred h v)
  after_signature_valid purpose url index list_cred (err reason) h v = ground arith

  check_fetched_valid :
      (purpose url : Json) (index : ℤ) (o : Option Json) {r : StatusCheckResult}
      → check_fetched env purpose url index o ≡ ok r
      → r.valid_for_purpose ≡ true
      → (list_cred : Fields) × (o ≡ some (obj list_cred))
        × (list_signature env list_cred ≡ ok (ok tt))
        × ListClears list_cred index
  unfolding check_fetched
  check_fetched_valid purpose url index none h v = ground arith
  check_fetched_valid purpose url index (some (obj list_cred)) h v =
      let (c, checked, after) = >>=-eq-ok (list_signature env list_cred) _ h in
      let (passed, clears) = after_signature_valid purpose url index list_cred c after v in
      (list_cred, refl, checked ∙ ap ok passed, clears)
  check_fetched_valid purpose url index (some null) h v = cc
  check_fetched_valid purpose url index (some (bool b)) h v = cc
  check_fetched_valid purpose url index (some (num n)) h v = cc
  check_fetched_valid purpose url index (some (str s)) h v = cc
  check_fetched_valid purpose url index (some (arr xs)) h v = cc

  check_at_valid :
      (purpose url : Json) (i : Option ℤ) {r : StatusCheckResult}
      → check_at env purpose url i ≡ ok r
      → r.valid_for_purpose ≡ true
      → (index : ℤ) × (i ≡ some index) × Cleared url index
  unfolding check_at
  check_at_valid purpose url none h v = ground arith
  check_at_valid purpose url (some index) {r = r} h v = elim (Bool-cases (truthy url)) [
    | inl given ↦
        let run : (env.fetch url >>= check_fetched env purpose url index) ≡ ok r = rw given at h in
        let (o, fetched, after) = >>=-eq-ok (env.fetch url) _ run in
        let (list_cred, is_cred, signed, clears) =
          check_fetched_valid purpose url index o after v in
        (
          index,
          refl,
          record {
            list_cred = list_cred;
            fetched = fetched ∙ ap ok is_cred;
            signed = signed;
            clears = clears;
          },
        )
    | inr missing ↦ ground (arith, h, v, missing)
  ]

  -- what an entry that was found valid names
  pub record ValidEntry (entry : Json) : Type 0 where
    pub url : Json
    pub index_json : Json
    pub index : ℤ
    pub entry_type : get "type" entry ≡ ok (str "BitstringStatusListEntry")
    pub named_url : get_default "statusListCredential" (str "") entry ≡ ok url
    pub named_index : get_default "statusListIndex" (num (negsuc 0)) entry ≡ ok index_json
    pub is_index : to_int env index_json ≡ some index
    pub cleared : Cleared url index

  -- The check fails closed: an entry is called valid only if it has the right type, its list was
  -- fetched and passed the signature check where one is made, and the bit at its index is there and
  -- is 0.
  pub check_single_entry_valid :
      (entry : Json) {r : StatusCheckResult}
      → check_single_entry env entry ≡ ok r
      → r.valid_for_purpose ≡ true
      → ValidEntry entry
  unfolding check_single_entry
  check_single_entry_valid entry {r = r} h v =
      let (entry_type, has_type, rest) = >>=-eq-ok (get "type" entry) _ h in
      elim (Bool-cases (is_text "BitstringStatusListEntry" entry_type)) [
        | inl right_type ↦
            let run = rw right_type at rest in
            let (purpose, _, r1) = >>=-eq-ok (get_default "statusPurpose" (str "") entry) _ run in
            let (url, named_url, r2) =
              >>=-eq-ok (get_default "statusListCredential" (str "") entry) _ r1 in
            let (index_json, named_index, r3) =
              >>=-eq-ok (get_default "statusListIndex" (num (negsuc 0)) entry) _ r2 in
            let (index, is_index, cleared) =
              check_at_valid purpose url (to_int env index_json) r3 v in
            record {
              url = url;
              index_json = index_json;
              index = index;
              entry_type =
                  has_type ∙ ap ok (is_text_iff "BitstringStatusListEntry" entry_type right_type);
              named_url = named_url;
              named_index = named_index;
              is_index = is_index;
              cleared = cleared;
            }
        | inr wrong ↦
            let run = rw wrong at rest in
            let (purpose, _, r1) =
              >>=-eq-ok (get_default "statusPurpose" (str "unknown") entry) _ run in
            let (url, _, r2) =
              >>=-eq-ok (get_default "statusListCredential" (str "unknown") entry) _ r1 in
            ground (arith, r2, v)
      ]

  pub check_entries_valid :
      (entries : Items) (results : List StatusCheckResult)
      → check_entries env entries ≡ ok results
      → all (λ r. r.valid_for_purpose) results ≡ true
      → AllEntries ValidEntry entries
  unfolding check_entries
  check_entries_valid nil results h v = tt
  check_entries_valid (cons entry entries) results h v =
      let (first, checked, r1) = >>=-eq-ok (check_single_entry env entry) _ h in
      let (rest, others, r2) = >>=-eq-ok (check_entries env entries) _ r1 in
      let both : (first.valid_for_purpose && all (λ r. r.valid_for_purpose) rest) ≡ true =
        ground (arith, r2, v) in
      (
        check_single_entry_valid entry checked (ground (arith, both)),
        check_entries_valid entries rest others (ground (arith, both)),
      )
