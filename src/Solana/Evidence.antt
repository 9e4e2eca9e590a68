-- ===== src/Solana/Evidence.antt =====
-- What a verified transaction of rails/solana/solana_verify.py rests on.
use arp_spec.Common.{
  String, ◌≡◌, ap, inl, inr, true, ◌&&◌, some, arith, Bool-cases, Option-cases, Outcome, ok, pos,
  >>=-eq-ok, none_is_some, ◌∙◌, ok-injective, some-injective,
}
use arp_spec.Json.{
  iterate, Json, num, str, arr, obj, Items, nil, cons, end, PyError, get, get_default, truthy,
  is_text, is_text_iff,
}
use arp_spec.Solana.Transfers.{
  first_of, key_text, matching, parsed_transfer, instruction, or_later, find_transfer, from_payer,
  parse_system_transfer,
}

-- an instruction that moves lamports between the two
pub record Moves (sender recipient : String) (lamports ix : Json) : Type 0 where
  pub program : get "programId" ix ≡ ok (str "11111111111111111111111111111111")
  pub parsed : Json
  pub has_parsed : get_default "parsed" (obj end) ix ≡ ok parsed
  pub kind : get "type" parsed ≡ ok (str "transfer")
  pub info : Json
  pub has_info : get_default "info" (obj end) parsed ≡ ok info
  pub source : get "source" info ≡ ok (str sender)
  pub destination : get "destination" info ≡ ok (str recipient)
  pub amount : get_default "lamports" (num (pos 0)) info ≡ ok lamports

pub data Some (P : Json → Type 0) : Items → Type 0 where
  here : {x : Json} {xs : Items} → P x → Some P (cons x xs)
  there : {x : Json} {xs : Items} → Some P xs → Some P (cons x xs)

read_text :
    {o : Outcome PyError Json} {v : Json} (t : String)
    → o ≡ ok v
    → is_text t v ≡ true
    → o ≡ ok (str t)
read_text {v = v} t e h = e ∙ ap ok (is_text_iff t v h)

instruction-Moves :
    (sender recipient : String) (ix : Json) {lamports : Json}
    → instruction sender recipient ix ≡ ok (some lamports)
    → Moves sender recipient lamports ix
unfolding instruction parsed_transfer matching
instruction-Moves sender recipient ix e =
    let (program, has_program, e1) = >>=-eq-ok (get "programId" ix) _ e in
    elim (Bool-cases (is_text "11111111111111111111111111111111" program)) [
      | inr other ↦ none_is_some (ok-injective (rw other at e1))
      | inl system ↦
          let (parsed, has_parsed, e2) =
            >>=-eq-ok (get_default "parsed" (obj end) ix) _ (rw system at e1) in
          let (kind, has_kind, e3) = >>=-eq-ok (get "type" parsed) _ e2 in
          elim (Bool-cases (is_text "transfer" kind)) [
            | inr other ↦ none_is_some (ok-injective (rw other at e3))
            | inl transfer ↦
                let (info, has_info, e4) =
                  >>=-eq-ok (get_default "info" (obj end) parsed) _ (rw transfer at e3) in
                let (source, has_source, e5) = >>=-eq-ok (get "source" info) _ e4 in
                let (destination, has_destination, e6) = >>=-eq-ok (get "destination" info) _ e5 in
                let (amount, has_amount, e7) =
                  >>=-eq-ok (get_default "lamports" (num (pos 0)) info) _ e6 in
                elim (Bool-cases (is_text sender source && is_text recipient destination)) [
                  | inr other ↦ none_is_some (ok-injective (rw other at e7))
                  | inl both ↦
                      let same = some-injective _ _ (ok-injective (rw both at e7)) in
                      record {
                        program = read_text _ has_program system;
                        parsed = parsed;
                        has_parsed = has_parsed;
                        kind = read_text _ has_kind transfer;
                        info = info;
                        has_info = has_info;
                        source = read_text sender has_source (ground (arith, both));
                        destination = read_text recipient has_destination (ground (arith, both));
                        amount = rw same at has_amount;
                      }
                ]
          ]
    ]

find_transfer-Moves :
    (sender recipient : String) (ixs : Items) {lamports : Json}
    → find_transfer sender recipient ixs ≡ ok (some lamports)
    → Some (Moves sender recipient lamports) ixs
unfolding find_transfer or_later
find_transfer-Moves sender recipient nil e = none_is_some (ok-injective e)
find_transfer-Moves sender recipient (cons ix rest) e =
    let (found, looked, e1) = >>=-eq-ok (instruction sender recipient ix) _ e in
    elim (Option-cases found) [
      | inl nothing ↦ there (find_transfer-Moves sender recipient rest (rw nothing at e1))
      | inr (lamports, something) ↦
          let same = some-injective _ _ (ok-injective (rw something at e1)) in
          here (instruction-Moves sender recipient ix (rw (something, same) at looked))
    ]

-- the message of a transaction whose fee payer is the sender, with the transfer
pub record Transfers (sender recipient : String) (lamports tx : Json) : Type 0 where
  pub transaction : Json
  pub has_transaction : get_default "transaction" (obj end) tx ≡ ok transaction
  pub message : Json
  pub has_message : get_default "message" (obj end) transaction ≡ ok message
  pub instructions : Json
  pub has_instructions : get_default "instructions" (arr nil) message ≡ ok instructions
  pub account_keys : Json
  pub has_account_keys : get_default "accountKeys" (arr nil) message ≡ ok account_keys
  pub payer : Json
  pub has_payer : first_of account_keys ≡ ok payer
  pub payer_is_sender : key_text payer ≡ ok (str sender)
  pub ixs : Items
  pub has_ixs : iterate instructions ≡ ok ixs
  pub moves : Some (Moves sender recipient lamports) ixs

pub parse_system_transfer-Transfers :
    (tx : Json) (sender recipient : String) {lamports : Json}
    → parse_system_transfer tx sender recipient ≡ ok (some lamports)
    → Transfers sender recipient lamports tx
unfolding parse_system_transfer from_payer
parse_system_transfer-Transfers tx sender recipient e =
    let (transaction, has_transaction, e1) =
      >>=-eq-ok (get_default "transaction" (obj end) tx) _ e in
    let (message, has_message, e2) = >>=-eq-ok (get_default "message" (obj end) transaction) _ e1 in
    let (instructions, has_instructions, e3) =
      >>=-eq-ok (get_default "instructions" (arr nil) message) _ e2 in
    let (account_keys, has_account_keys, e4) =
      >>=-eq-ok (get_default "accountKeys" (arr nil) message) _ e3 in
    elim (Bool-cases (truthy account_keys)) [
      | inr empty ↦ none_is_some (ok-injective (rw empty at e4))
      | inl filled ↦
          let (payer, has_payer, e5) = >>=-eq-ok (first_of account_keys) _ (rw filled at e4) in
          let (text, has_text, e6) = >>=-eq-ok (key_text payer) _ e5 in
          elim (Bool-cases (is_text sender text)) [
            | inr other ↦ none_is_some (ok-injective (rw other at e6))
            | inl paid ↦
                let (ixs, has_ixs, e7) = >>=-eq-ok (iterate instructions) _ (rw paid at e6) in
                record {
                  transaction = transaction;
                  has_transaction = has_transaction;
                  message = message;
                  has_message = has_message;
                  instructions = instructions;
                  has_instructions = has_instructions;
                  account_keys = account_keys;
                  has_account_keys = has_account_keys;
                  payer = payer;
                  has_payer = has_payer;
                  payer_is_sender = read_text sender has_text paid;
                  ixs = ixs;
                  has_ixs = has_ixs;
                  moves = find_transfer-Moves sender recipient ixs e7;
                }
          ]
    ]
