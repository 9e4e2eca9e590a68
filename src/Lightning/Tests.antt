-- ===== src/Lightning/Tests.antt =====
-- The Lightning theorems at one payment.
use arp_spec.Common.{
  String, ◌≡◌, refl, ◌⊎◌, true, false, none, some, [], if◌then◌else◌, ok, pos, str_eq,
}
use arp_spec.Json.{Json, null, bool, num, str, obj, Fields, field, end, PyError, lookup_or, truthy}
use arp_spec.Lightning.{
  Outside, Payment, lnd_query, no_conflict, verified, verify_transaction, verify_preimage,
  verify_payee_attestation, query_lnd, settled_of, hash_text,
}
use arp_spec.Lightning.Tiers.{Evidence, verify_transaction-Evidence, verify_transaction_payer}

-- "bb" is the hash of "aa"; the node has settled "bb" only
abbrev outside : Outside
outside = record {
  sha256_hex = λ s. if str_eq s "aa" then some "bb" else some "cc";
  lower = λ s. s;
  to_int = λ v. some (pos 7);
  to_msat = λ v. none;
  lnd_data = λ h. if str_eq h "bb" then some (obj (field "state" (str "SETTLED") end)) else none;
  validate_receipt = λ v. none;
  json_dumps = λ fs. [];
  b58decode = λ s. none;
  issuer_key = λ v. none;
  verify = λ key sig message. false;
  now_iso = "now";
}

abbrev presented : String → String → Fields
presented hash preimage =
    field "payment_hash" (str hash)
      (field "preimage" (str preimage) (field "presenter_role" (str "payer") end))

abbrev payment : Payment
payment = record {
  tier = some lnd_query;
  payee_attestation_verified = false;
  lnd_settlement_confirmed = bool true;
  amount_msat = some (pos 7);
  settled_at = str "now";
  conflict = no_conflict;
}

settled_payment : verify_transaction outside end (presented "bb" "aa") ≡ ok (verified payment)
unfolding verify_transaction truthy lookup_or arp_spec.Json.is_text
settled_payment = refl

verify_transaction-Evidence_example : Evidence outside end (presented "bb" "aa") payment
verify_transaction-Evidence_example =
    verify_transaction-Evidence outside end (presented "bb" "aa") settled_payment

is_payer : lookup_or "presenter_role" null (presented "bb" "aa") ≡ str "payer"
unfolding lookup_or
is_payer = refl

verify_transaction_payer_example :
    (verify_payee_attestation outside
        (lookup_or "payee_attestation" null (presented "bb" "aa"))
        (hash_text (lookup_or "payment_hash" null (presented "bb" "aa")))
      ≡ ok true)
    ⊎ (truthy (
          settled_of
            (query_lnd outside (hash_text (lookup_or "payment_hash" null (presented "bb" "aa")))))
        ≡ true)
verify_transaction_payer_example =
    verify_transaction_payer outside end (presented "bb" "aa") settled_payment is_payer

hashes :
    verify_preimage outside
      (lookup_or "preimage" null (presented "cc" "dd"))
      (lookup_or "payment_hash" null (presented "cc" "dd"))
    ≡ ok true
unfolding lookup_or verify_preimage
hashes = refl

given_hash : truthy (lookup_or "payment_hash" null (presented "cc" "dd")) ≡ true
unfolding lookup_or truthy
given_hash = refl

given_preimage : truthy (lookup_or "preimage" null (presented "cc" "dd")) ≡ true
unfolding lookup_or truthy
given_preimage = refl

payer_role : lookup_or "presenter_role" null (presented "cc" "dd") ≡ str "payer"
unfolding lookup_or
payer_role = refl

no_attestation : truthy (lookup_or "payee_attestation" null (presented "cc" "dd")) ≡ false
unfolding lookup_or truthy
no_attestation = refl

unsettled :
    truthy (
      settled_of
        (query_lnd outside (hash_text (lookup_or "payment_hash" null (presented "cc" "dd")))))
    ≡ false
unfolding lookup_or truthy query_lnd
unsettled = refl
