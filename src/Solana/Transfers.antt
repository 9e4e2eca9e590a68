-- ===== src/Solana/Transfers.antt =====
-- The transfers of rails/solana/solana_verify.py: the instruction of the system program, and the token
-- balances of an owner before and after.
use arp_spec.Common.{
  ℕ, suc, String, Bool, true, false, ◌&&◌, Option, none, some, ltb, if◌then◌else◌, Outcome, ok, err,
  ◌>>=◌, ℤ, pos, negsuc, subz,
}
use arp_spec.Json.{
  iterate, Json, bool, num, str, arr, obj, Items, nil, cons, end, PyError, type_error, value_error,
  other_error, get, get_default, truthy, is_text,
}
use arp_spec.Solana.{Rpc}

-- `account_keys[0]` of a value that is truthy
unfoldable pub first_of : Json → Outcome PyError Json
first_of (arr (cons v _)) = ok v
first_of (str (String.◌∷◌ c _)) = ok (str (String.◌∷◌ c String.[]))
first_of (obj _) = err other_error
first_of _ = err type_error

-- `key.get("pubkey") if isinstance(key, dict) else key`
unfoldable pub key_text : Json → Outcome PyError Json
key_text (obj fs) = get "pubkey" (obj fs)
key_text v = ok v

-- what an instruction gives the loop: nothing, or the lamports of the transfer
unfoldable pub matching : String → String → Json → Outcome PyError (Option Json)
matching sender recipient info = get "source" info >>= λ source.
    get "destination" info >>= λ destination.
    get_default "lamports" (num (pos 0)) info >>= λ lamports.
    ok (if is_text sender source && is_text recipient destination then some lamports else none)

unfoldable pub parsed_transfer : String → String → Json → Outcome PyError (Option Json)
unfolding matching
parsed_transfer sender recipient parsed = get "type" parsed >>= λ kind.
    if is_text "transfer" kind
    then (get_default "info" (obj end) parsed >>= matching sender recipient)
    else ok none

unfoldable pub instruction : String → String → Json → Outcome PyError (Option Json)
unfolding parsed_transfer
instruction sender recipient ix = get "programId" ix >>= λ program.
    if is_text "11111111111111111111111111111111" program
    then (get_default "parsed" (obj end) ix >>= parsed_transfer sender recipient)
    else ok none

unfoldable pub or_later :
    Option Json → Outcome PyError (Option Json) → Outcome PyError (Option Json)
or_later (some lamports) rest = ok (some lamports)
or_later none rest = rest

-- the first instruction that is a transfer between the two
unfoldable pub find_transfer : String → String → Items → Outcome PyError (Option Json)
unfolding instruction or_later
find_transfer sender recipient nil = ok none
find_transfer sender recipient (cons ix rest) =
    let later = find_transfer sender recipient rest in
    instruction sender recipient ix >>= λ found. or_later found later

unfoldable pub from_payer : String → String → Json → Json → Outcome PyError (Option Json)
unfolding iterate find_transfer
from_payer sender recipient instructions payer =
    if is_text sender payer
    then (iterate instructions >>= find_transfer sender recipient)
    else ok none

-- the lamports, or none for `(0, False)`
unfoldable pub parse_system_transfer : Json → String → String → Outcome PyError (Option Json)
unfolding from_payer key_text first_of
parse_system_transfer tx sender recipient =
    get_default "transaction" (obj end) tx >>= λ transaction.
    get_default "message" (obj end) transaction >>= λ message.
    get_default "instructions" (arr nil) message >>= λ instructions.
    get_default "accountKeys" (arr nil) message >>= λ account_keys.
    if truthy account_keys
    then (first_of account_keys >>= λ key.
        key_text key >>= from_payer sender recipient instructions)
    else ok none

-- `a > b`
abbrev pub gtz : ℤ → ℤ → Bool
gtz (pos a) (pos b) = ltb b a
gtz (pos a) (negsuc b) = true
gtz (negsuc a) (pos b) = false
gtz (negsuc a) (negsuc b) = ltb a b

-- `abs(a)`
abbrev pub absz : ℤ → ℕ
absz (pos a) = a
absz (negsuc a) = suc a

-- `delta, decimals, is_valid`
pub record SplTransfer : Type 0 where
  pub units : ℤ
  pub decimals : Json
  pub is_valid : Bool

unfoldable pub judge_deltas : Json → ℤ → ℤ → ℤ → ℤ → SplTransfer
judge_deltas decimals recipient_pre recipient_post sender_pre sender_post =
    if gtz recipient_post recipient_pre && gtz sender_pre sender_post
    then record { units = subz recipient_post recipient_pre; decimals = decimals; is_valid = true }
    else record { units = pos 0; decimals = decimals; is_valid = false }

module _ (env : Rpc) where
  -- `int(v)`
  unfoldable pub int_of : Json → Outcome PyError ℤ
  int_of (num n) = ok n
  int_of (bool true) = ok (pos 1)
  int_of (bool false) = ok (pos 0)
  int_of (str s) = elim (env.int_of_text s) [ none ↦ err value_error | some n ↦ ok n ]
  int_of _ = err type_error

  unfoldable pub token_amount : Json → Outcome PyError ℤ
  unfolding int_of
  token_amount balance = get_default "uiTokenAmount" (obj end) balance >>= λ shown.
      get_default "amount" (num (pos 0)) shown >>= int_of

  -- the balance after an entry of the mint
  unfoldable pub of_mint : String → ℤ → Json → Outcome PyError ℤ
  unfolding token_amount
  of_mint owner before balance = get "owner" balance >>= λ holder.
      if is_text owner holder then token_amount balance else ok before

  unfoldable pub of_entry : String → String → ℤ → Json → Outcome PyError ℤ
  unfolding of_mint
  of_entry mint owner before balance = get "mint" balance >>= λ minted.
      if is_text mint minted then of_mint owner before balance else ok before

  -- the balance after a loop over the entries: the last one of the owner counts
  unfoldable pub balance_of : String → String → ℤ → Items → Outcome PyError ℤ
  unfolding of_entry
  balance_of mint owner before nil = ok before
  balance_of mint owner before (cons balance rest) =
      of_entry mint owner before balance >>= λ after. balance_of mint owner after rest

  unfoldable pub decimals_of : Json → Outcome PyError Json
  decimals_of balance =
      get_default "uiTokenAmount" (obj end) balance >>= get_default "decimals" (num (pos 6))

  -- the decimals of the first entry of the mint
  unfoldable pub find_decimals : String → Items → Outcome PyError Json
  unfolding decimals_of
  find_decimals mint nil = ok (num (pos 6))
  find_decimals mint (cons balance rest) =
      let later = find_decimals mint rest in
      get "mint" balance >>= λ minted. if is_text mint minted then decimals_of balance else later

  -- the balances of the two before and after
  unfoldable pub compare_balances :
      String → String → String → Json → Items → Items → Outcome PyError SplTransfer
  unfolding balance_of judge_deltas
  compare_balances sender recipient mint decimals pre post =
      balance_of mint recipient (pos 0) pre >>= λ recipient_pre.
      balance_of mint recipient (pos 0) post >>= λ recipient_post.
      balance_of mint sender (pos 0) pre >>= λ sender_pre.
      balance_of mint sender (pos 0) post >>= λ sender_post.
      ok (judge_deltas decimals recipient_pre recipient_post sender_pre sender_post)

  unfoldable pub read_balances :
      String → String → String → Json → Json → Outcome PyError SplTransfer
  unfolding iterate find_decimals compare_balances
  read_balances sender recipient mint pre_balances post_balances = iterate post_balances >>= λ post.
      find_decimals mint post >>= λ decimals.
      iterate pre_balances >>= λ pre. compare_balances sender recipient mint decimals pre post

  unfoldable pub parse_spl_transfer : Json → String → String → String → Outcome PyError SplTransfer
  unfolding read_balances
  parse_spl_transfer tx sender recipient mint = get_default "meta" (obj end) tx >>= λ meta.
      get_default "preTokenBalances" (arr nil) meta >>= λ pre_balances.
      get_default "postTokenBalances" (arr nil) meta
      >>= read_balances sender recipient mint pre_balances
