-- ===== src/X402.antt =====
-- rails/x402/x402_adapter.py: the verification of a payment by a facilitator and on the Base chain. The
-- HTTP calls, the texts of numbers, the clock, the digest and `issue_vc` are the record Rail.
pub mod Pipeline
pub mod Onchain
pub mod Attests
pub mod Tests
use Prim.Native.String.{◌++◌ as str_append}
use arp_spec.Common.{
  ℕ, zero, suc, ◌+◌, ◌-◌, ◌*◌, ◌/◌, ◌%◌, ◌≤◌, ◌<◌, String, ◌≡◌, refl, sym, ap, ◌≢◌, ◌↔◌, ◌⊎◌, inl,
  inr, Bool, true, false, not, ◌&&◌, ◌||◌, Option, none, some, List, [], ◌∷◌, ◌++◌, map, arith,
  length, get_or, All, any, all, ltb, leb, ◌==◌, if◌then◌else◌, ==_iff, ltb_iff, leb_iff,
  Bool-cases, Option-cases, Outcome, ok, err, ◌>>=◌, ◌>>◌, ℤ, pos, negsuc, subz, str_eq, eq_iff,
  false≢true,
}
use arp_spec.Json.{
  Json, null, num, bool, str, arr, obj, Items, nil, cons, Fields, field, end, PyError,
  attribute_error, type_error, value_error, other_error, get, get_default, truthy, is_text, iterate,
}
use arp_spec.StatusLists.Http.{occurs_in}

-- a POST to a facilitator: no connection, another exception, or a status with the JSON of the body
pub data FacilitatorReply : Type 0 where
  no_connection : FacilitatorReply
  failed_with : PyError → FacilitatorReply
  answered_with : ℕ → Outcome PyError Json → FacilitatorReply

pub data FacilitatorError : Type 0 where
  no_endpoint could_not_connect : FacilitatorError
  returned_status : ℕ → FacilitatorError
  raised_error : PyError → FacilitatorError

-- why the chain does not confirm the payment
pub data OnchainError : Type 0 where
  receipt_not_found reverted no_transfer amount_differs recipient_differs : OnchainError
  onchain_failed : PyError → OnchainError

pub record Rail : Type 0 where
  pub post_facilitator : String → Json → FacilitatorReply
  -- `requests.post(rpc_url, json=...).json()` by URL, method and parameters
  pub rpc_json : String → String → List String → Outcome PyError Json
  pub lower : String → String
  -- `int(text, 16)`
  pub int16 : String → Outcome PyError ℤ
  pub text_of_int : ℤ → String
  -- `text[-40:]`
  pub last40 : String → String
  pub payload_hash : Json → String
  pub timestamp : String
  pub issue_vc : String → Fields → Outcome PyError Json

abbrev pub fallbacks : List String
fallbacks =
    "https://x402.org/facilitator" ∷ "https://x402.coinbase.com" ∷ "https://api.x402.org/verify"
    ∷ []

-- both endpoints of each URL
unfoldable pub endpoints : List String → List String
endpoints [] = []
endpoints (url ∷ urls) = str_append url "/verify" ∷ url ∷ endpoints urls

unfoldable pub urls_to_try : Option String → List String
urls_to_try none = fallbacks
urls_to_try (some url) = if str_eq url "" then fallbacks else url ∷ fallbacks

-- the data of a reply with the status 200, whatever they say
unfoldable pub read_reply : FacilitatorReply → Outcome FacilitatorError Json
read_reply no_connection = err could_not_connect
read_reply (failed_with e) = err (raised_error e)
read_reply (answered_with status (ok data_)) =
    if status == 200 then ok data_ else err (returned_status status)
read_reply (answered_with status (err e)) =
    if status == 200 then err (raised_error e) else err (returned_status status)

abbrev pub or_next :
    Outcome FacilitatorError Json
    → (FacilitatorError → Outcome FacilitatorError Json)
    → Outcome FacilitatorError Json
or_next (ok d) rest = ok d
or_next (err e) rest = rest e

pub record Transfer : Type 0 where
  pub from_address : String
  pub to_address : String
  pub amount : String
  pub contract : Json

pub record OnchainDetails : Type 0 where
  pub transfer : Transfer
  pub confirmations : ℤ
  pub block_number : ℤ

-- (True, details, None), or (False, details without confirmations or None, error)
pub data OnchainResult : Type 0 where
  confirmed : OnchainDetails → OnchainResult
  unconfirmed : OnchainError → OnchainResult

abbrev pub rpc_url_of : Bool → String
rpc_url_of sepolia = if sepolia then "https://sepolia.base.org" else "https://mainnet.base.org"

abbrev pub usdc_contract_of : Bool → String
usdc_contract_of sepolia =
    if sepolia
    then "0x036CbD53842c5426634e7929541eC2318f3dCF7e"
    else "0x833589fCD6eDb6E08f4c7C32D4f71b54bdA02913"

abbrev pub transfer_topic : String
transfer_topic = "0xddf252ad1be2c89b69c2b068fc378daa952ba7f163c4a11628f55a4df523b3ef"

-- a text, for `lower` and `+`
abbrev pub as_text : PyError → Json → Outcome PyError String
as_text e (str s) = ok s
as_text e _ = err e

-- the second and third topic, if there are three and the first is that of a transfer
unfoldable pub transfer_topics : Json → Outcome PyError (Option (Json × Json))
transfer_topics (arr (cons topic (cons sender (cons recipient _)))) =
    ok (if is_text transfer_topic topic then some (sender, recipient) else none)
transfer_topics (arr _) = ok none
transfer_topics (str _) = ok none
transfer_topics (obj (field _ _ (field _ _ (field _ _ _)))) = err other_error
transfer_topics (obj _) = ok none
transfer_topics _ = err type_error

module _ (env : Rail) where
  unfoldable pub try_endpoints :
      Json → List String → FacilitatorError → Outcome FacilitatorError Json
  unfolding read_reply
  try_endpoints payload [] last = err last
  try_endpoints payload (endpoint ∷ rest) last =
      or_next (read_reply (env.post_facilitator endpoint payload)) (try_endpoints payload rest)

  unfoldable pub verify_via_facilitator : Json → Option String → Outcome FacilitatorError Json
  unfolding try_endpoints endpoints urls_to_try
  verify_via_facilitator payload url =
      try_endpoints payload (endpoints (urls_to_try url)) no_endpoint

  -- `int(log["data"], 16) if log.get("data") else 0`
  unfoldable pub raw_amount : Json → Outcome PyError ℤ
  raw_amount v = if truthy v then (as_text type_error v >>= env.int16) else ok (pos 0)

  unfoldable pub address_of : Json → Outcome PyError String
  address_of v = as_text type_error v >>= λ s. ok (str_append "0x" (env.last40 s))

  unfoldable pub read_transfer : Json → Json → Json → Outcome PyError Transfer
  unfolding raw_amount address_of
  read_transfer log sender recipient = get "data" log >>= λ hex. raw_amount hex >>= λ amount.
      address_of sender >>= λ from_address. address_of recipient >>= λ to_address.
      get "address" log >>= λ contract. ok (record {
        from_address = from_address;
        to_address = to_address;
        amount = env.text_of_int amount;
        contract = contract;
      })

  -- the two topics of a transfer event of the contract
  unfoldable pub match_log : String → Json → Outcome PyError (Option (Json × Json))
  unfolding transfer_topics
  match_log contract log = get_default "address" (str "") log >>= λ address.
      as_text attribute_error address >>= λ text.
      if str_eq (env.lower text) (env.lower contract)
      then (get_default "topics" (arr nil) log >>= transfer_topics)
      else ok none

  abbrev pub transfer_or_later :
      Json
      → Option (Json × Json)
      → Outcome PyError (Option Transfer)
      → Outcome PyError (Option Transfer)
  unfolding read_transfer
  transfer_or_later log none later = later
  transfer_or_later log (some (sender, recipient)) later =
      read_transfer log sender recipient >>= λ t. ok (some t)

  -- the first transfer event
  unfoldable pub first_transfer : String → Items → Outcome PyError (Option Transfer)
  unfolding match_log transfer_or_later
  first_transfer contract nil = ok none
  first_transfer contract (cons log rest) =
      let later = first_transfer contract rest in
      match_log contract log >>= λ topics. transfer_or_later log topics later

  -- `int(v, 16)`
  unfoldable pub int16_of : Json → Outcome PyError ℤ
  int16_of v = as_text type_error v >>= env.int16

  unfoldable pub count_confirmations : String → Json → Transfer → Outcome PyError OnchainResult
  unfolding int16_of
  count_confirmations url receipt t = env.rpc_json url "eth_blockNumber" [] >>= λ head_data.
      get_default "result" (str "0x0") head_data >>= int16_of >>= λ current.
      get_default "blockNumber" (str "0x0") receipt >>= int16_of >>= λ tx_block. ok (
        confirmed
          (record { transfer = t; confirmations = subz current tx_block; block_number = tx_block }))

  -- the recipient differs from the expected one, if any
  unfoldable pub wrong_recipient : Option String → String → Bool
  wrong_recipient none to_address = false
  wrong_recipient (some expected) to_address =
      not (str_eq expected "") && not (str_eq (env.lower to_address) (env.lower expected))

  unfoldable pub judge_transfer :
      String → Json → String → Option String → Option Transfer → Outcome PyError OnchainResult
  unfolding count_confirmations wrong_recipient
  judge_transfer url receipt expected_amount expected_recipient none = ok (unconfirmed no_transfer)
  judge_transfer url receipt expected_amount expected_recipient (some t) =
      if not (str_eq expected_amount "") && not (str_eq t.amount expected_amount)
      then ok (unconfirmed amount_differs)
      else if wrong_recipient expected_recipient t.to_address
      then ok (unconfirmed recipient_differs)
      else count_confirmations url receipt t

  unfoldable pub judge_receipt :
      Bool → String → Option String → Json → Outcome PyError OnchainResult
  unfolding iterate first_transfer judge_transfer
  judge_receipt sepolia expected_amount expected_recipient receipt =
      if truthy receipt
      then (get "status" receipt >>= λ status.
          if is_text "0x1" status
          then (get_default "logs" (arr nil) receipt
              >>= iterate
              >>= first_transfer (usdc_contract_of sepolia)
              >>= judge_transfer (rpc_url_of sepolia) receipt expected_amount expected_recipient)
          else ok (unconfirmed reverted))
      else ok (unconfirmed receipt_not_found)

  abbrev pub or_failed : Outcome PyError OnchainResult → OnchainResult
  or_failed (ok r) = r
  or_failed (err e) = unconfirmed (onchain_failed e)

  unfoldable pub verify_onchain : String → String → Option String → Bool → OnchainResult
  unfolding judge_receipt
  verify_onchain tx_hash expected_amount expected_recipient sepolia = or_failed (
      env.rpc_json (rpc_url_of sepolia) "eth_getTransactionReceipt" (tx_hash ∷ [])
      >>= get "result"
      >>= judge_receipt sepolia expected_amount expected_recipient)
