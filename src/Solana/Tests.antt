-- ===== src/Solana/Tests.antt =====
-- The Solana theorems at a transfer of SOL, at an endpoint that knows no transaction, and at a transfer
-- of tokens.
use arp_spec.Common.{
  ℕ, String, ◌≡◌, refl, true, false, none, some, [], if◌then◌else◌, ok, pos, str_eq,
}
use arp_spec.Json.{
  Json, null, num, str, arr, obj, Items, nil, cons, Fields, field, end, value_error,
}
use arp_spec.Solana.{connection_error, Rpc, fetch_transaction, rpc_urls}
use arp_spec.Solana.Fetched.{Fetched, Raises, fetch_transaction-Raises}
use arp_spec.Solana.Verify.{verify_solana_transaction, amount_mismatch}
use arp_spec.Solana.Payments.{Pays, verify_solana_transaction-Pays}

abbrev replying : Json → Rpc
replying result = record {
  post = λ url attempt. ok (obj (field "result" result end));
  helius_api_key = some "key";
  lower = λ s. s;
  upper = λ s. s;
  int_of_text = λ s. if str_eq s "70" then some (pos 70) else none;
  scaled = λ amount decimals. ok (num amount);
  b58decode = λ s. none;
  utf8 = λ s. [];
  ed25519_verify = λ key sig message. false;
}

abbrev transfer : ℕ → Json
transfer lamports = obj (
    field "programId" (str "11111111111111111111111111111111") (
      field "parsed"
        (obj (
          field "type" (str "transfer") (
            field "info"
              (obj (
                field "source" (str "alice")
                  (field "destination" (str "bob") (field "lamports" (num (pos lamports)) end))))
              end)))
        end))

abbrev message : ℕ → Json
message lamports = obj (
    field "accountKeys" (arr (cons (str "alice") nil))
      (field "instructions" (arr (cons (transfer lamports) nil)) end))

abbrev sol_transaction : Json
sol_transaction = obj (
    field "slot" (num (pos 5)) (field "transaction" (obj (field "message" (message 5000) end)) end))

verify_solana_transaction-Pays_example :
    (tx : Json) × Fetched (replying sol_transaction) 2 (rpc_urls (replying sol_transaction)) tx
    × Pays (replying sol_transaction) "alice" "bob" (pos 4500) "SOL" tx
unfolding verify_solana_transaction arp_spec.StatusLists.Http.contains arp_spec.Json.get
    arp_spec.Json.lookup_or arp_spec.Json.truthy arp_spec.Json.is_text
verify_solana_transaction-Pays_example =
    verify_solana_transaction-Pays (replying sol_transaction) "alice" "bob" (pos 4500) "SOL" refl

too_little :
    (verify_solana_transaction (replying sol_transaction) "alice" "bob" (pos 6001) "SOL").error
    ≡ some (amount_mismatch (pos 6001))
unfolding verify_solana_transaction arp_spec.StatusLists.Http.contains arp_spec.Json.get
    arp_spec.Json.lookup_or arp_spec.Json.truthy arp_spec.Json.is_text
too_little = refl

abbrev entry : String → Json → Json
entry owner amount = obj (
    field "mint" (str "M")
      (field "owner" (str owner) (field "uiTokenAmount" (obj (field "amount" amount end)) end)))

abbrev token_transaction : Json
token_transaction = obj (
    field "meta"
      (obj (
        field "preTokenBalances" (arr (cons (entry "alice" (str "70")) nil))
          (field "postTokenBalances" (arr (cons (entry "bob" (num (pos 60))) nil)) end)))
      end)

token_paid :
    (verify_solana_transaction (replying token_transaction) "alice" "bob" (pos 60) "M").verified
    ≡ true
unfolding verify_solana_transaction arp_spec.StatusLists.Http.contains arp_spec.Json.get
    arp_spec.Json.lookup_or arp_spec.Json.truthy arp_spec.Json.is_text
token_paid = refl

fetch_transaction-Raises_example :
    Raises (replying null) 2 (rpc_urls (replying null)) connection_error
unfolding fetch_transaction arp_spec.StatusLists.Http.contains arp_spec.Json.get
    arp_spec.Json.lookup_or
fetch_transaction-Raises_example = fetch_transaction-Raises (replying null) 2 refl
