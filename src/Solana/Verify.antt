-- ===== src/Solana/Verify.antt =====
-- `verify_solana_transaction` of rails/solana/solana_verify.py. The symbol of the token, which is only
-- shown, is left out.
use arp_spec.Common.{
  ℕ, String, Bool, true, false, Option, none, some, leb, ◌==◌, if◌then◌else◌, Outcome, ok, err,
  ◌>>=◌, ℤ, pos, negsuc, subz, str_eq,
}
use arp_spec.Json.{Json, null, bool, num, PyError, type_error, get}
use arp_spec.Solana.{FetchError, Rpc, lift, fetch_transaction}
use arp_spec.Solana.Transfers.{parse_system_transfer, parse_spl_transfer, SplTransfer, absz}

-- the texts of `error`
pub data VerifyError : Type 0 where
  no_sol_transfer no_token_transfer : VerifyError
  amount_mismatch : ℤ → VerifyError
  exception : FetchError → VerifyError

pub record Verification : Type 0 where
  pub verified : Bool
  pub actual_amount : Json
  pub actual_amount_human : Json
  pub token : String
  pub token_decimals : Json
  pub slot : Json
  pub block_time : Json
  pub error : Option VerifyError

abbrev pub eqz : ℤ → ℤ → Bool
eqz (pos a) (pos b) = a == b
eqz (negsuc a) (negsuc b) = a == b
eqz _ _ = false

-- a value that arithmetic takes
unfoldable pub number_of : Json → Outcome PyError ℤ
number_of (num n) = ok n
number_of (bool true) = ok (pos 1)
number_of (bool false) = ok (pos 0)
number_of _ = err type_error

unfoldable pub unverified : String → Json → VerifyError → Verification
unverified token decimals error = record {
  verified = false;
  actual_amount = num (pos 0);
  actual_amount_human = num (pos 0);
  token = token;
  token_decimals = decimals;
  slot = null;
  block_time = null;
  error = some error;
}

abbrev pub mint_address : String → String → String
mint_address upper mint =
    if str_eq upper "USDC"
    then "EPjFWdd5AufqSSqeM2qN1xzybapC8G4wEGGkZwyTDt1v"
    else if str_eq upper "USDT"
    then "Es9vMFrzaCERmJfrF4H2FYD4KCoNkY11McCe8BenwNYB"
    else mint

-- `TOKEN_METADATA.get(mint.upper(), {}).get("decimals", 6)`
abbrev pub known_decimals : String → ℕ
known_decimals upper = if str_eq upper "SOL" then 9 else 6

abbrev pub tolerance : ℕ
tolerance = 1000

unfoldable pub judge_amount : Bool → String → Json → Json → ℤ → Json → Json → Json → Verification
judge_amount matches token decimals actual expected human slot block_time =
    if matches
    then record {
      verified = true;
      actual_amount = actual;
      actual_amount_human = human;
      token = token;
      token_decimals = decimals;
      slot = slot;
      block_time = block_time;
      error = none;
    }
    else record {
      verified = false;
      actual_amount = actual;
      actual_amount_human = human;
      token = token;
      token_decimals = decimals;
      slot = null;
      block_time = null;
      error = some (amount_mismatch expected);
    }

module _ (env : Rpc) where
  unfoldable pub judge_sol : ℤ → Json → Json → Option Json → Outcome PyError Verification
  unfolding number_of unverified judge_amount
  judge_sol expected slot block_time none = ok (unverified "SOL" (num (pos 9)) no_sol_transfer)
  judge_sol expected slot block_time (some lamports) = number_of lamports >>= λ actual.
      env.scaled actual (num (pos 9)) >>= λ human. ok (
        judge_amount (leb (absz (subz actual expected)) tolerance) "SOL" (num (pos 9)) lamports
          expected human slot block_time)

  unfoldable pub judge_spl : String → ℤ → Json → Json → SplTransfer → Outcome PyError Verification
  unfolding unverified judge_amount
  judge_spl mint expected slot block_time t =
      if t.is_valid
      then (env.scaled t.units t.decimals >>= λ human. ok (
          judge_amount (eqz t.units expected) mint t.decimals (num t.units) expected human slot
            block_time))
      else ok (unverified mint t.decimals no_token_transfer)

  unfoldable pub judge_transaction :
      String → String → ℤ → String → Json → Outcome PyError Verification
  unfolding parse_system_transfer parse_spl_transfer judge_sol judge_spl
  judge_transaction sender recipient expected mint tx = get "slot" tx >>= λ slot.
      get "blockTime" tx >>= λ block_time.
      if str_eq (env.upper mint) "SOL"
      then (parse_system_transfer tx sender recipient >>= judge_sol expected slot block_time)
      else (parse_spl_transfer env tx sender recipient (mint_address (env.upper mint) mint)
          >>= judge_spl mint expected slot block_time)

  -- both `except` clauses
  unfoldable pub caught : String → Outcome FetchError Verification → Verification
  unfolding unverified
  caught mint (ok v) = v
  caught mint (err e) = unverified mint (num (pos (known_decimals (env.upper mint)))) (exception e)

  unfoldable pub verify_solana_transaction : String → String → ℤ → String → Verification
  unfolding fetch_transaction judge_transaction caught
  verify_solana_transaction sender recipient expected mint =
      caught mint (
        fetch_transaction env 2 >>= λ tx.
        lift (judge_transaction sender recipient expected mint tx))
