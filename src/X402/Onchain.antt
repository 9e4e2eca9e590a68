-- ===== src/X402/Onchain.antt =====
-- What an on-chain confirmation of rails/x402/x402_adapter.py rests on.
use arp_spec.Common.{
  String, ◌≡◌, sym, ap, inl, inr, Bool, true, false, not, ◌&&◌, Option, none, some, [], ◌∷◌, arith,
  Bool-cases, Option-cases, Outcome, ok, err, ◌>>=◌, str_eq, eq_iff, none_is_some, >>=-eq-ok,
  ok-injective, some-injective, ◌∙◌, not_raised,
}
use arp_spec.Json.{
  Json, null, bool, num, str, arr, obj, field, end, Items, nil, cons, PyError, attribute_error, get,
  get_default, truthy, is_text, is_text_iff, iterate,
}
use arp_spec.X402.{
  transfer_topic, Rail, int16_of, Transfer, OnchainDetails, OnchainResult, confirmed, unconfirmed,
  OnchainError, rpc_url_of, usdc_contract_of, as_text, transfer_topics, read_transfer, match_log,
  first_transfer, count_confirmations, wrong_recipient, judge_transfer, judge_receipt, or_failed,
  verify_onchain,
}

is_unconfirmed :
    {C : Type 0} {x : OnchainError} {d : OnchainDetails}
    → Path OnchainResult (unconfirmed x) (confirmed d)
    → C
is_unconfirmed h = cc h

abbrev pub details_or : OnchainDetails → OnchainResult → OnchainDetails
details_or d (confirmed d') = d'
details_or d (unconfirmed _) = d

module _ (env : Rail) where
  -- a log of the contract with the two topics of a transfer, and what is read of it
  pub record Logged (contract : String) (t : Transfer) (log : Json) : Type 0 where
    pub address : Json
    pub has_address : get_default "address" (str "") log ≡ ok address
    pub text : String
    pub address_text : as_text attribute_error address ≡ ok text
    pub same_contract : str_eq (env.lower text) (env.lower contract) ≡ true
    pub topics : Json
    pub has_topics : get_default "topics" (arr nil) log ≡ ok topics
    pub sender : Json
    pub recipient : Json
    pub is_transfer : transfer_topics topics ≡ ok (some (sender, recipient))
    pub rest_topics : Items
    pub topic : topics ≡ arr (cons (str transfer_topic) (cons sender (cons recipient rest_topics)))
    pub read : read_transfer env log sender recipient ≡ ok t

  topics_of :
      (topics : Json) {sender recipient : Json}
      → transfer_topics topics ≡ ok (some (sender, recipient))
      → (rest : Items) × (topics
          ≡ arr (cons (str transfer_topic) (cons sender (cons recipient rest))))
  unfolding transfer_topics
  topics_of (arr (cons topic (cons sender (cons recipient rest)))) e =
      elim (Bool-cases (is_text transfer_topic topic)) [
        | inr other ↦ none_is_some (ok-injective (rw other at e))
        | inl transfer ↦
            let both = some-injective _ _ (ok-injective (rw transfer at e)) in
            (
              rest,
              ap (λ t. arr (cons t (cons sender (cons recipient rest))))
                    (is_text_iff transfer_topic topic transfer)
                  ∙ ap (λ b. arr (cons (str transfer_topic) (cons b.0 (cons b.1 rest)))) both,
            )
      ]
  topics_of (arr nil) e = none_is_some (ok-injective e)
  topics_of (arr (cons a nil)) e = none_is_some (ok-injective e)
  topics_of (arr (cons a (cons b nil))) e = none_is_some (ok-injective e)
  topics_of (str s) e = none_is_some (ok-injective e)
  topics_of (obj end) e = none_is_some (ok-injective e)
  topics_of (obj (field k v end)) e = none_is_some (ok-injective e)
  topics_of (obj (field k v (field k' v' end))) e = none_is_some (ok-injective e)
  topics_of (obj (field k v (field k' v' (field k'' v'' fs)))) e = not_raised e
  topics_of null e = not_raised e
  topics_of (bool b) e = not_raised e
  topics_of (num n) e = not_raised e

  pub data Contains (P : Json → Type 0) : Items → Type 0 where
    first : {x : Json} {xs : Items} → P x → Contains P (cons x xs)
    later : {x : Json} {xs : Items} → Contains P xs → Contains P (cons x xs)

  match_log-Logged :
      (contract : String) (log : Json) (t : Transfer) {sender recipient : Json}
      → match_log env contract log ≡ ok (some (sender, recipient))
      → read_transfer env log sender recipient ≡ ok t
      → Logged contract t log
  unfolding match_log
  match_log-Logged contract log t {sender = sender} {recipient = recipient} e read =
      let (address, has_address, e1) = >>=-eq-ok (get_default "address" (str "") log) _ e in
      let (text, address_text, e2) = >>=-eq-ok (as_text attribute_error address) _ e1 in
      elim (Bool-cases (str_eq (env.lower text) (env.lower contract))) [
        | inr other ↦ none_is_some (ok-injective (rw other at e2))
        | inl same ↦
            let (topics, has_topics, e3) =
              >>=-eq-ok (get_default "topics" (arr nil) log) _ (rw same at e2) in
            let (rest_topics, topic) = topics_of topics e3 in
            record {
              rest_topics = rest_topics;
              topic = topic;
              address = address;
              has_address = has_address;
              text = text;
              address_text = address_text;
              same_contract = same;
              topics = topics;
              has_topics = has_topics;
              sender = sender;
              recipient = recipient;
              is_transfer = e3;
              read = read;
            }
      ]

  first_transfer-Logged :
      (contract : String) (logs : Items) {t : Transfer}
      → first_transfer env contract logs ≡ ok (some t)
      → Contains (Logged contract t) logs
  unfolding first_transfer
  first_transfer-Logged contract nil e = none_is_some (ok-injective e)
  first_transfer-Logged contract (cons log rest) e =
      let (found, matched, e1) = >>=-eq-ok (match_log env contract log) _ e in
      elim (Option-cases found) [
        | inl nothing ↦ later (first_transfer-Logged contract rest (rw nothing at e1))
        | inr ((sender, recipient), something) ↦
            let (t', read, e2) =
              >>=-eq-ok (read_transfer env log sender recipient) _ (rw something at e1) in
            let same = some-injective _ _ (ok-injective e2) in
            first (match_log-Logged contract log _ (rw something at matched) (rw same at read))
      ]

  -- a receipt of a successful transaction with a transfer of the expected amount
  pub record Settled (tx_hash expected_amount : String) (sepolia : Bool) (t : Transfer)
      : Type 0 where
    pub reply : Json
    pub answered :
        env.rpc_json (rpc_url_of sepolia) "eth_getTransactionReceipt" (tx_hash ∷ []) ≡ ok reply
    pub receipt : Json
    pub has_receipt : get "result" reply ≡ ok receipt
    pub succeeded : get "status" receipt ≡ ok (str "0x1")
    pub logs : Json
    pub has_logs : get_default "logs" (arr nil) receipt ≡ ok logs
    pub items : Items
    pub has_items : iterate logs ≡ ok items
    pub logged : Contains (Logged (usdc_contract_of sepolia) t) items
    pub amount : str_eq expected_amount "" ≡ false → t.amount ≡ expected_amount

  counted :
      (url : String) (receipt : Json) (t : Transfer) {d : OnchainDetails}
      → count_confirmations env url receipt t ≡ ok (confirmed d)
      → d.transfer ≡ t
  unfolding count_confirmations
  counted url receipt t {d = d} e =
      let (head_data, _, e1) = >>=-eq-ok (env.rpc_json url "eth_blockNumber" []) _ e in
      let (current, _, e2) =
        >>=-eq-ok (get_default "result" (str "0x0") head_data >>= int16_of env) _ e1 in
      let (tx_block, _, e3) =
        >>=-eq-ok (get_default "blockNumber" (str "0x0") receipt >>= int16_of env) _ e2 in
      sym (ap (λ r. (details_or d r).transfer) (ok-injective e3))

  equal_amount :
      (expected amount : String)
      → (not (str_eq expected "") && not (str_eq amount expected)) ≡ false
      → str_eq expected "" ≡ false
      → amount ≡ expected
  equal_amount expected amount agrees given =
      (eq_iff amount expected).0 (ground (arith, agrees, given))

  judge_transfer_confirmed :
      (url : String) (receipt : Json) (expected_amount : String)
      (expected_recipient : Option String) (o : Option Transfer) {d : OnchainDetails}
      → judge_transfer env url receipt expected_amount expected_recipient o ≡ ok (confirmed d)
      → (o ≡ some d.transfer)
        × (str_eq expected_amount "" ≡ false → d.transfer.amount ≡ expected_amount)
  unfolding judge_transfer count_confirmations
  judge_transfer_confirmed url receipt expected_amount expected_recipient none e =
      is_unconfirmed (ok-injective e)
  judge_transfer_confirmed url receipt expected_amount expected_recipient (some t) e =
      elim (Bool-cases (not (str_eq expected_amount "") && not (str_eq t.amount expected_amount))) [
        | inl differs ↦ is_unconfirmed (ok-injective (rw differs at e))
        | inr agrees ↦ elim (Bool-cases (wrong_recipient env expected_recipient t.to_address)) [
          | inl wrong ↦ is_unconfirmed (ok-injective (rw (agrees, wrong) at e))
          | inr right ↦
              let transfer = counted url receipt t (rw (agrees, right) at e) in
              (
                ap some (sym transfer),
                λ given.
                    ap (λ x. x.amount) transfer
                    ∙ equal_amount expected_amount t.amount agrees given,
              )
        ]
      ]

  confirmed_or_failed :
      (o : Outcome PyError OnchainResult) {d : OnchainDetails}
      → or_failed env o ≡ confirmed d
      → o ≡ ok (confirmed d)
  confirmed_or_failed (ok r) e = ap ok e
  confirmed_or_failed (err x) e = is_unconfirmed e

  judge_receipt-Settled :
      (sepolia : Bool) (tx_hash expected_amount : String) (expected_recipient : Option String)
      (reply receipt : Json) {d : OnchainDetails}
      → env.rpc_json (rpc_url_of sepolia) "eth_getTransactionReceipt" (tx_hash ∷ []) ≡ ok reply
      → get "result" reply ≡ ok receipt
      → judge_receipt env sepolia expected_amount expected_recipient receipt ≡ ok (confirmed d)
      → Settled tx_hash expected_amount sepolia d.transfer
  unfolding judge_receipt
  judge_receipt-Settled sepolia tx_hash expected_amount expected_recipient reply receipt answered
        has e =
      elim (Bool-cases (truthy receipt)) [
        | inr missing ↦ is_unconfirmed (ok-injective (rw missing at e))
        | inl present ↦
            let (status, has_status, e1) = >>=-eq-ok (get "status" receipt) _ (rw present at e) in
            elim (Bool-cases (is_text "0x1" status)) [
              | inr failed ↦ is_unconfirmed (ok-injective (rw failed at e1))
              | inl success ↦
                  let (found, e2, e3) = >>=-eq-ok _ _ (rw success at e1) in
                  let (items, e4, e5) =
                    >>=-eq-ok (get_default "logs" (arr nil) receipt >>= iterate) _ e2 in
                  let (logs, has_logs, has_items) =
                    >>=-eq-ok (get_default "logs" (arr nil) receipt) iterate e4 in
                  let (same, amount) =
                    judge_transfer_confirmed (rpc_url_of sepolia) receipt expected_amount
                      expected_recipient found e3 in
                  record {
                    reply = reply;
                    answered = answered;
                    receipt = receipt;
                    has_receipt = has;
                    succeeded = has_status ∙ ap ok (is_text_iff "0x1" status success);
                    logs = logs;
                    has_logs = has_logs;
                    items = items;
                    has_items = has_items;
                    logged = first_transfer-Logged (usdc_contract_of sepolia) items (rw same at e5);
                    amount = amount;
                  }
            ]
      ]

  pub verify_onchain-Settled :
      (tx_hash expected_amount : String) (expected_recipient : Option String) (sepolia : Bool)
      {d : OnchainDetails}
      → verify_onchain env tx_hash expected_amount expected_recipient sepolia ≡ confirmed d
      → Settled tx_hash expected_amount sepolia d.transfer
  unfolding verify_onchain
  verify_onchain-Settled tx_hash expected_amount expected_recipient sepolia e =
      let (receipt, e1, e2) = >>=-eq-ok _ _ (confirmed_or_failed _ e) in
      let (reply, answered, has) =
        >>=-eq-ok (env.rpc_json (rpc_url_of sepolia) "eth_getTransactionReceipt" (tx_hash ∷ []))
          (get "result") e1 in
      judge_receipt-Settled sepolia tx_hash expected_amount expected_recipient reply receipt
        answered has e2
