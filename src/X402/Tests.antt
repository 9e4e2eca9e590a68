-- ===== src/X402/Tests.antt =====
-- A payment that the chain confirms and no facilitator answers for.
use arp_spec.Common.{
  String, ◌≡◌, refl, true, false, none, some, if◌then◌else◌, Outcome, ok, err, pos, str_eq,
}
use arp_spec.Json.{
  Json, null, num, bool, str, arr, obj, nil, cons, Fields, field, end, PyError, value_error,
  other_error,
}
use arp_spec.X402.{
  Rail, FacilitatorReply, no_connection, answered_with, transfer_topic, could_not_connect,
}
use arp_spec.X402.Pipeline.{X402Payment, Attested, verify_and_attest}
use arp_spec.X402.Attests.{Attests, verify_and_attest-Attests}

abbrev receipt_of : String → Json
receipt_of status = obj (
    field "status" (str status) (
      field "blockNumber" (str "7") (
        field "logs"
          (arr (
            cons
              (obj (
                field "address" (str "0x833589fCD6eDb6E08f4c7C32D4f71b54bdA02913") (
                  field "topics"
                    (arr (cons (str transfer_topic) (cons (str "payer") (cons (str "payee") nil))))
                    (field "data" (str "100") end))))
              nil))
          end)))

-- a chain whose receipt has this status, and a facilitator
abbrev rail : String → FacilitatorReply → Rail
rail status facilitator = record {
  post_facilitator = λ url payload. facilitator;
  rpc_json = λ url method params.
      if str_eq method "eth_blockNumber"
      then ok (obj (field "result" (str "9") end))
      else ok (obj (field "result" (receipt_of status) end));
  lower = λ s. s;
  int16 =
      λ s. if str_eq s "100" then ok (pos 256) else if str_eq s "9" then ok (pos 9) else ok (pos 7);
  text_of_int = λ n. "256";
  last40 = λ s. s;
  payload_hash = λ payload. "hash";
  timestamp = "now";
  issue_vc = λ did claims. ok (obj claims);
}

abbrev payment : X402Payment
payment = record {
  agent_did = "did:web:agent";
  agent_id = "agent";
  counterparty = "seller";
  payment_scheme = "exact";
  network = "eip155:8453";
  asset_address = "usdc";
  asset_symbol = "USDC";
  amount = "256";
  resource_uri = "/report";
  facilitator_url = "https://facilitator.example";
  payment_payload = obj end;
}

abbrev attested_or_none : Outcome PyError Attested → Attested
attested_or_none (ok a) = a
attested_or_none (err e) = record {
  credential = null;
  verification = record {
    facilitator_verified = false;
    facilitator_error = none;
    onchain_verified = false;
    onchain_error = none;
    onchain_confirmations = pos 0;
    discrepancy = false;
  };
}

abbrev found : Attested
found = attested_or_none (verify_and_attest (rail "0x1" no_connection) payment "0xabc")

verify_and_attest-Attests_example :
    Attests (rail "0x1" no_connection) payment "0xabc" found.verification found.credential
unfolding verify_and_attest arp_spec.Json.get arp_spec.Json.truthy arp_spec.Json.lookup_or
    arp_spec.Json.is_text arp_spec.StatusLists.Http.occurs_in
verify_and_attest-Attests_example =
    verify_and_attest-Attests (rail "0x1" no_connection) payment "0xabc" refl

confirmed_by_chain : found.verification ≡ record {
  facilitator_verified = false;
  facilitator_error = some could_not_connect;
  onchain_verified = true;
  onchain_error = none;
  onchain_confirmations = pos 2;
  discrepancy = true;
}
unfolding verify_and_attest arp_spec.Json.get arp_spec.Json.truthy arp_spec.Json.lookup_or
    arp_spec.Json.is_text arp_spec.StatusLists.Http.occurs_in
confirmed_by_chain = refl

reverted_and_unanswered :
    verify_and_attest (rail "0x0" no_connection) payment "0xabc" ≡ err value_error
unfolding verify_and_attest arp_spec.Json.get arp_spec.Json.truthy arp_spec.Json.lookup_or
    arp_spec.Json.is_text
reverted_and_unanswered = refl

-- any JSON with the status 200 counts as a verification, whatever the chain says
any_answer_verifies :
    let a = attested_or_none (
      verify_and_attest
        (rail "0x0" (answered_with 200 (ok (obj (field "isValid" (bool false) end)))))
        payment
        "0xabc") in
    a.verification.facilitator_verified ≡ true
unfolding verify_and_attest
any_answer_verifies = refl
