-- ===== src/StatusCheck/Tests.antt =====
-- The status theorems at concrete credentials and lists.
use arp_spec.Common.{
  ℕ, zero, suc, ◌+◌, ◌-◌, ◌*◌, ◌/◌, ◌%◌, ◌≤◌, ◌<◌, String, ◌≡◌, refl, sym, ap, ◌≢◌, ◌↔◌, ◌⊎◌, inl,
  inr, Bool, true, false, not, ◌&&◌, ◌||◌, Option, none, some, List, [], ◌∷◌, ◌++◌, map, arith,
  length, get_or, All, any, all, ltb, leb, ◌==◌, if◌then◌else◌, ==_iff, ltb_iff, leb_iff,
  Bool-cases, Option-cases, Outcome, ok, err, ◌>>=◌, ◌>>◌, ℤ, pos, negsuc, str_eq, eq_iff,
  false≢true,
}
use arp_spec.Bitstring.{Bytes, set_bit}
use arp_spec.Bitstring.Codec.{encode_bitstring}
use arp_spec.Bitstring.Tests.{plain_codec, plain_codec-IsCodec, four_of}
use arp_spec.Json.{
  Json, null, str, num, arr, obj, nil, cons, Fields, field, end, PyError, Items, get, truthy,
}
use arp_spec.Crypto.Tests.{accepting}
use arp_spec.StatusCheck.{
  StatusCheckResult, StatusReport, Environment, check_single_entry, check_credential_status,
  entries_of,
}
use arp_spec.StatusCheck.Entries.{ValidEntry, AllEntries, check_single_entry_valid}
use arp_spec.StatusCheck.Report.{Serves, check_credential_status_valid, check_single_entry-set_bit}

-- the list of one byte 4, so that only index 5 is set
abbrev served_list : Fields
served_list = field "credentialSubject" (obj (field "encodedList" (str "list") end)) end

abbrev pub world : Environment
world = record {
  codec = plain_codec;
  primitives = accepting;
  codes = λ s. four_of (4 ∷ []);
  int_of_text = λ s. some (pos 3);
  fetch = λ url. ok (some (obj served_list));
  resolve = none;
}

abbrev entry_at : ℕ → Json
entry_at i = obj (
    field "type" (str "BitstringStatusListEntry") (
      field "statusPurpose" (str "revocation") (
        field "statusListIndex" (num (pos i))
          (field "statusListCredential" (str "https://lists/1") end))))

abbrev clear_result : StatusCheckResult
clear_result = record {
  status_purpose = str "revocation";
  status_list_url = str "https://lists/1";
  status_list_index = pos 3;
  current_value = pos 0;
  valid_for_purpose = true;
  error = none;
}

clear_entry : check_single_entry world (entry_at 3) ≡ ok clear_result
unfolding check_single_entry four_of get arp_spec.Json.is_text arp_spec.Json.lookup_or truthy
    arp_spec.Bitstring.Tests.four_back arp_spec.Common.Bits.shr
clear_entry = refl

check_single_entry_valid_example : ValidEntry world (entry_at 3)
check_single_entry_valid_example = check_single_entry_valid world (entry_at 3) clear_entry refl

abbrev credential : Json
credential =
    obj (field "id" (str "vc-1") (field "credentialStatus" (arr (cons (entry_at 3) nil)) end))

abbrev clear_report : StatusReport
clear_report = record {
  credential_id = str "vc-1";
  status_checks = clear_result ∷ [];
  overall_valid = true;
}

clear_credential : check_credential_status world credential ≡ ok clear_report
unfolding check_credential_status four_of arp_spec.Json.get_default get truthy
    arp_spec.Json.lookup_or arp_spec.Json.is_text arp_spec.Bitstring.Tests.four_back
    arp_spec.Common.Bits.shr
clear_credential = refl

check_credential_status_valid_example :
    (status : Json) × (get "credentialStatus" credential ≡ ok status)
    × ((truthy status ≡ false)
        ⊎ ((entries : Items) × (entries_of status ≡ ok entries)
            × AllEntries (ValidEntry world) entries))
check_credential_status_valid_example =
    check_credential_status_valid world credential clear_credential refl

sets_five : set_bit (0 ∷ []) (pos 5) (pos 1) ≡ ok (4 ∷ [])
unfolding set_bit arp_spec.Bitstring.put_bit arp_spec.Common.Bits.one_shl
sets_five = refl

Serves-five : Serves world (entry_at 5) (4 ∷ []) 5
unfolding get arp_spec.Json.lookup_or truthy arp_spec.StatusCheck.list_signature encode_bitstring
    four_of
Serves-five = record {
  purpose = str "revocation";
  url = str "https://lists/1";
  list_cred = served_list;
  subject = obj (field "encodedList" (str "list") end);
  text = "list";
  has_type = refl;
  has_purpose = refl;
  has_url = refl;
  url_given = refl;
  has_index = refl;
  fetched = refl;
  signed = refl;
  has_subject = refl;
  has_list = refl;
  text_given = refl;
  encoded = refl;
}

check_single_entry-set_bit_example :
    (result : StatusCheckResult) × (check_single_entry world (entry_at 5) ≡ ok result)
    × (result.current_value ≡ pos 1)
    × (result.valid_for_purpose ≡ false)
check_single_entry-set_bit_example =
    check_single_entry-set_bit world plain_codec-IsCodec (entry_at 5) (0 ∷ []) (4 ∷ []) 5 1
      (omega arith) (omega arith) sets_five Serves-five
