-- ===== src/StatusCheck/Report.antt =====
-- The report of api/status_checker.py on a whole credential, and the way from a bit that an issuer
-- sets to the verdict on its entry.
use arp_spec.Common.{
  ℕ, ◌*◌, ◌<◌, String, ◌≡◌, refl, ap, ◌⊎◌, inl, inr, true, false, some, arith, length, ◌==◌,
  Bool-cases, ok, pos, negsuc, str_eq, >>=-eq-ok,
}
use arp_spec.Bitstring.{Bytes, get_bit, set_bit}
use arp_spec.Bitstring.Reads.{get_bit-set_bit}
use arp_spec.Bitstring.Codec.{IsCodec, encode_bitstring, decode_bitstring-encode_bitstring}
use arp_spec.Json.{Json, str, num, obj, Items, Fields, end, get, get_default, truthy, is_text}
use arp_spec.StatusCheck.{
  StatusCheckResult, Environment, bit_result, read_list, decode_list, list_signature, check_fetched,
  check_at, to_int, check_single_entry, check_entries, entries_of, check_credential_status,
  StatusReport, report_on,
}
use arp_spec.StatusCheck.Entries.{ValidEntry, AllEntries, check_entries_valid}

module _ (env : Environment) where
  report_on_valid :
      (id status : Json) {report : StatusReport}
      → report_on env id status ≡ ok report
      → report.overall_valid ≡ true
      → (truthy status ≡ false)
        ⊎ ((entries : Items) × (entries_of status ≡ ok entries)
            × AllEntries (ValidEntry env) entries)
  unfolding report_on
  report_on_valid id status {report = report} h v = elim (Bool-cases (truthy status)) [
    | inr absent ↦ inl absent
    | inl present ↦
        let run = rw present at h in
        let (entries, listed, r1) = >>=-eq-ok (entries_of status) _ run in
        let (results, checked, r2) = >>=-eq-ok (check_entries env entries) _ r1 in
        inr
          (entries, listed, check_entries_valid env entries results checked (ground (arith, r2, v)))
  ]

  -- A credential is reported valid only if it names no status at all, or every entry of its status
  -- is one that `check_single_entry_valid` describes.
  pub check_credential_status_valid :
      (credential : Json) {report : StatusReport}
      → check_credential_status env credential ≡ ok report
      → report.overall_valid ≡ true
      → (status : Json) × (get "credentialStatus" credential ≡ ok status)
        × ((truthy status ≡ false)
            ⊎ ((entries : Items) × (entries_of status ≡ ok entries)
                × AllEntries (ValidEntry env) entries))
  unfolding check_credential_status
  check_credential_status_valid credential h v =
      let (id, _, r1) = >>=-eq-ok (get_default "id" (str "unknown") credential) _ h in
      let (status, named, r2) = >>=-eq-ok (get "credentialStatus" credential) _ r1 in
      (status, named, report_on_valid id status r2 v)

  -- an entry of a list that is served as the encoding of some bytes
  pub record Serves (entry : Json) (raw : Bytes) (i : ℕ) : Type 0 where
    pub purpose : Json
    pub url : Json
    pub list_cred : Fields
    pub subject : Json
    pub text : String
    pub has_type : get "type" entry ≡ ok (str "BitstringStatusListEntry")
    pub has_purpose : get_default "statusPurpose" (str "") entry ≡ ok purpose
    pub has_url : get_default "statusListCredential" (str "") entry ≡ ok url
    pub url_given : truthy url ≡ true
    pub has_index : get_default "statusListIndex" (num (negsuc 0)) entry ≡ ok (num (pos i))
    pub fetched : env.fetch url ≡ ok (some (obj list_cred))
    pub signed : list_signature env list_cred ≡ ok (ok tt)
    pub has_subject : get_default "credentialSubject" (obj end) (obj list_cred) ≡ ok subject
    pub has_list : get "encodedList" subject ≡ ok (str text)
    pub text_given : str_eq text "" ≡ false
    pub encoded : env.codes text ≡ encode_bitstring env.codec raw

  module _ (laws : IsCodec env.codec) where
    read_served :
        (entry : Json) (raw : Bytes) (i : ℕ)
        → (s : Serves entry raw i)
        → read_list env s.purpose s.url (pos i) s.list_cred
          ≡ ok (bit_result s.purpose s.url (pos i) (get_bit raw (pos i)))
    unfolding read_list decode_list
    read_served entry raw i s =
        rw (s.has_subject, s.has_list, s.text_given, s.encoded)
          (rw (decode_bitstring-encode_bitstring env.codec laws raw) refl)

    check_served :
        (entry : Json) (raw : Bytes) (i : ℕ)
        → (s : Serves entry raw i)
        → check_single_entry env entry
          ≡ ok (bit_result s.purpose s.url (pos i) (get_bit raw (pos i)))
    unfolding check_single_entry check_at check_fetched to_int is_text
    check_served entry raw i s =
        rw (s.has_type, s.has_purpose, s.has_url, s.has_index, s.url_given, s.fetched, s.signed)
          (read_served entry raw i s)

    -- With a codec that satisfies IsCodec, for a list that is served as its issuer encoded it
    -- after setting the bit of an index in range to v (0 or 1), and that passes the signature
    -- check, the entry at that index is reported with the value v, and as valid exactly if v is 0.
    pub check_single_entry-set_bit :
        (entry : Json) (old raw : Bytes) (i v : ℕ)
        → i < length old * 8
        → v < 2
        → set_bit old (pos i) (pos v) ≡ ok raw
        → Serves entry raw i
        → (result : StatusCheckResult) × (check_single_entry env entry ≡ ok result)
          × (result.current_value ≡ pos v)
          × (result.valid_for_purpose ≡ (v == 0))
    check_single_entry-set_bit entry old raw i v hi hv wrote s =
        let (raw', wrote', _, reads) = get_bit-set_bit old i i v hi hv in
        let same : raw' ≡ raw = cc in
        let bit : get_bit raw (pos i) ≡ ok v =
          ground (arith, reads, ap (λ t. get_bit t (pos i)) same) in
        (
          bit_result s.purpose s.url (pos i) (ok v),
          rw bit at (check_served entry raw i s),
          refl,
          refl,
        )
