-- ===== src/Solana.antt =====
-- rails/solana/solana_verify.py: the fetch of a transaction from the RPC endpoints. The transfers are
-- in Solana/Transfers, the verification in Solana/Verify. The HTTP calls for one transaction, `lower`,
-- `upper` and `int` of a text, the floats, and base58 with Ed25519 are the record Rpc.
pub mod Fetched
pub mod Transfers
pub mod Verify
pub mod Evidence
pub mod Payments
pub mod Tests
use Prim.Native.String.{◌++◌ as str_append}
use arp_spec.Common.{
  ℕ, zero, suc, ◌+◌, ◌-◌, ◌*◌, ◌/◌, ◌%◌, ◌≤◌, ◌<◌, String, ◌≡◌, refl, sym, ap, ◌≢◌, ◌↔◌, ◌⊎◌, inl,
  inr, Bool, true, false, not, ◌&&◌, ◌||◌, Option, none, some, List, [], ◌∷◌, ◌++◌, map, arith,
  length, get_or, All, any, all, ltb, leb, ◌==◌, if◌then◌else◌, ==_iff, ltb_iff, leb_iff,
  Bool-cases, Option-cases, Outcome, ok, err, ◌>>=◌, ◌>>◌, ℤ, pos, negsuc, str_eq, eq_iff,
  false≢true,
}
use arp_spec.Bitstring.{Bytes}
use arp_spec.Json.{
  Json, null, str, obj, Fields, end, PyError, attribute_error, type_error, value_error, get,
  get_default, lookup_or, truthy, is_text,
}
use arp_spec.StatusLists.Http.{contains, occurs_in}

-- a `requests.RequestException`, the builtin ConnectionError, which is none, or another exception
pub data FetchError : Type 0 where
  request_exception connection_error : FetchError
  raised : PyError → FetchError

pub record Rpc : Type 0 where
  -- `requests.post(...)`, `raise_for_status()` and `json()`, by URL and attempt
  pub post : String → ℕ → Outcome FetchError Json
  pub helius_api_key : Option String
  pub lower : String → String
  pub upper : String → String
  pub int_of_text : String → Option ℤ
  -- `amount / 10 ** decimals`
  pub scaled : ℤ → Json → Outcome PyError Json
  pub b58decode : String → Option Bytes
  pub utf8 : String → Bytes
  pub ed25519_verify : Bytes → Bytes → Bytes → Bool

abbrev pub lift {ℓ} : {A : Type ℓ} → Outcome PyError A → Outcome FetchError A
lift (ok a) = ok a
lift (err e) = err (raised e)

-- `data["error"]`, whose key is there
unfoldable pub error_of : Json → Outcome PyError Json
error_of (obj fs) = ok (lookup_or "error" null fs)
error_of _ = err type_error

-- a value with the method `lower`
abbrev pub text_of : Json → Outcome PyError String
text_of (str s) = ok s
text_of _ = err attribute_error

-- `except (requests.RequestException, ValueError)`
abbrev pub is_caught : FetchError → Bool
is_caught request_exception = true
is_caught (raised value_error) = true
is_caught _ = false

-- `result.get("confirmationStatus") or meta.get("confirmationStatus")`
unfoldable pub status_of : Json → Json → Outcome PyError Json
status_of own meta = if truthy own then ok own else get "confirmationStatus" meta

unfoldable pub judge_meta : Json → Json → Json → Outcome FetchError Json
judge_meta result meta status =
    if truthy status && not (is_text "finalized" status)
    then err (raised value_error)
    else (lift (get "err" meta) >>= λ failure.
        if truthy failure then err (raised value_error) else ok result)

unfoldable pub judge_present : Json → Outcome FetchError Json
unfolding status_of judge_meta
judge_present result = lift (get_default "meta" (obj end) result) >>= λ meta.
    lift (get "confirmationStatus" result) >>= λ own.
    lift (status_of own meta) >>= λ status. judge_meta result meta status

-- the result of a reply, which is None if the transaction is unknown
unfoldable pub judge_result : Json → Outcome FetchError Json
unfolding judge_present
judge_result null = err (raised value_error)
judge_result result = judge_present result

module _ (env : Rpc) where
  unfoldable pub rpc_error : Json → Outcome FetchError Json
  unfolding error_of
  rpc_error reply = lift (error_of reply) >>= λ e.
      lift (get_default "message" (str "Unknown RPC error") e) >>= λ message.
      lift (text_of message) >>= λ text.
      if occurs_in "not found" (env.lower text)
      then err (raised value_error)
      else err connection_error

  unfoldable pub judge_rpc_reply : Json → Outcome FetchError Json
  unfolding rpc_error judge_result
  judge_rpc_reply reply = lift (contains "error" reply) >>= λ has_error.
      if has_error then rpc_error reply else (lift (get "result" reply) >>= judge_result)

  -- an attempt that raised: the next one if the loop catches the exception
  unfoldable pub next_attempt :
      FetchError → Outcome FetchError (Option Json) → Outcome FetchError (Option Json)
  next_attempt e rest = if is_caught e then rest else err e

  unfoldable pub after_attempt :
      Outcome FetchError Json → Outcome FetchError (Option Json) → Outcome FetchError (Option Json)
  unfolding next_attempt
  after_attempt (ok result) rest = ok (some result)
  after_attempt (err e) rest = next_attempt e rest

  -- the attempts at one URL, from the given one on: none if all of them raised
  unfoldable pub try_url : String → ℕ → ℕ → Outcome FetchError (Option Json)
  unfolding judge_rpc_reply after_attempt
  try_url url zero attempt = ok none
  try_url url (suc left) attempt =
      let rest = try_url url left (suc attempt) in
      after_attempt (env.post url attempt >>= judge_rpc_reply) rest

  unfoldable pub after_url : Option Json → Outcome FetchError Json → Outcome FetchError Json
  after_url (some result) rest = ok result
  after_url none rest = rest

  unfoldable pub try_urls : ℕ → List String → Outcome FetchError Json
  unfolding try_url after_url
  try_urls max_retries [] = err connection_error
  try_urls max_retries (url ∷ urls) =
      let rest = try_urls max_retries urls in
      try_url url max_retries 0 >>= λ found. after_url found rest

  unfoldable pub rpc_urls : List String
  rpc_urls = elim env.helius_api_key [
    | none ↦ "https://api.mainnet-beta.solana.com" ∷ []
    | some key ↦
        if str_eq key ""
        then "https://api.mainnet-beta.solana.com" ∷ []
        else str_append "https://mainnet.helius-rpc.com/?api-key=" key
          ∷ "https://api.mainnet-beta.solana.com"
          ∷ []
  ]

  unfoldable pub fetch_transaction : ℕ → Outcome FetchError Json
  unfolding try_urls rpc_urls
  fetch_transaction max_retries = try_urls max_retries rpc_urls

  -- false on every exception
  unfoldable pub verify_agent_signature : String → String → String → Bool
  verify_agent_signature pubkey message signature = elim (env.b58decode pubkey) [
    | none ↦ false
    | some key ↦ elim (env.b58decode signature) [
      | none ↦ false
      | some sig ↦ env.ed25519_verify key sig (env.utf8 message)
    ]
  ]
