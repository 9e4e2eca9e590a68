-- ===== src/X402/Pipeline.antt =====
-- `issue_x402_credential` and `verify_and_attest` of rails/x402/x402_adapter.py.
use arp_spec.Common.{
  String, Bool, true, false, not, ◌&&◌, ◌||◌, Option, none, some, if◌then◌else◌, Outcome, ok, err,
  ◌>>=◌, ℤ, pos,
}
use arp_spec.Json.{Json, num, bool, str, obj, Fields, field, end, PyError, value_error}
use arp_spec.StatusLists.Http.{occurs_in}
use arp_spec.X402.{
  Rail, FacilitatorError, OnchainError, OnchainResult, confirmed, unconfirmed,
  verify_via_facilitator, verify_onchain,
}

pub record X402Payment : Type 0 where
  pub agent_did : String
  pub agent_id : String
  pub counterparty : String
  pub payment_scheme : String
  pub network : String
  pub asset_address : String
  pub asset_symbol : String
  pub amount : String
  pub resource_uri : String
  pub facilitator_url : String
  pub payment_payload : Json

-- what the two verifications say
pub record Verdict : Type 0 where
  pub facilitator_verified : Bool
  pub facilitator_error : Option FacilitatorError
  pub onchain_verified : Bool
  pub onchain_error : Option OnchainError
  pub onchain_confirmations : ℤ
  pub discrepancy : Bool

pub record Attested : Type 0 where
  pub credential : Json
  pub verification : Verdict

unfoldable pub is_verified : {A : Type 0} → Outcome FacilitatorError A → Bool
is_verified (ok _) = true
is_verified (err _) = false

abbrev pub facilitator_error_of :
    {A : Type 0} → Outcome FacilitatorError A → Option FacilitatorError
facilitator_error_of (ok _) = none
facilitator_error_of (err e) = some e

unfoldable pub is_confirmed : OnchainResult → Bool
is_confirmed (confirmed _) = true
is_confirmed (unconfirmed _) = false

abbrev pub onchain_error_of : OnchainResult → Option OnchainError
onchain_error_of (confirmed _) = none
onchain_error_of (unconfirmed e) = some e

unfoldable pub confirmations_of : OnchainResult → ℤ
confirmations_of (confirmed d) = d.confirmations
confirmations_of (unconfirmed _) = pos 0

-- whether the network is taken for Base Sepolia
unfoldable pub is_sepolia : String → Bool
is_sepolia network = occurs_in "84532" network || occurs_in "sepolia" network

unfoldable pub verdict_of : Outcome FacilitatorError Json → OnchainResult → Verdict
unfolding is_verified is_confirmed confirmations_of
verdict_of facilitator onchain = record {
  facilitator_verified = is_verified facilitator;
  facilitator_error = facilitator_error_of facilitator;
  onchain_verified = is_confirmed onchain;
  onchain_error = onchain_error_of onchain;
  onchain_confirmations = confirmations_of onchain;
  discrepancy =
      if is_verified facilitator then not (is_confirmed onchain) else is_confirmed onchain;
}

module _ (env : Rail) where
  unfoldable pub payment_claims : X402Payment → String → Verdict → Fields
  payment_claims p hash v = field "counterparty" (str p.counterparty) (
      field "paymentScheme" (str p.payment_scheme) (
        field "network" (str p.network) (
          field "asset"
            (obj (field "address" (str p.asset_address) (field "symbol" (str p.asset_symbol) end)))
            (field "amount" (str p.amount) (
              field "resource" (str p.resource_uri) (
                field "facilitator" (str p.facilitator_url) (
                  field "settlementTxHash" (str hash) (
                    field "paymentPayloadHash" (str (env.payload_hash p.payment_payload)) (
                      field "verification"
                        (obj (
                          field "facilitator_verified" (bool v.facilitator_verified) (
                            field "onchain_verified" (bool v.onchain_verified) (
                              field "onchain_confirmations" (num v.onchain_confirmations)
                                (field "discrepancy" (bool v.discrepancy) end)))))
                        (field "agentId" (str p.agent_id)
                          (field "timestamp" (str env.timestamp) end)))))))))))

  unfoldable pub issue_x402_credential : X402Payment → String → Verdict → Outcome PyError Json
  unfolding payment_claims
  issue_x402_credential p hash v = env.issue_vc p.agent_did (payment_claims p hash v)

  unfoldable pub attest : X402Payment → String → Verdict → Outcome PyError Attested
  unfolding issue_x402_credential
  attest p hash v =
      if not v.facilitator_verified && not v.onchain_verified
      then err value_error
      else (issue_x402_credential p hash v >>= λ vc.
          ok (record { credential = vc; verification = v }))

  unfoldable pub verify_and_attest : X402Payment → String → Outcome PyError Attested
  unfolding attest verdict_of verify_via_facilitator verify_onchain is_sepolia
  verify_and_attest p hash = attest p hash (
      verdict_of (verify_via_facilitator env p.payment_payload (some p.facilitator_url))
        (verify_onchain env hash p.amount none (is_sepolia p.network)))
