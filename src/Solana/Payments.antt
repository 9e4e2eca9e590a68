-- ===== src/Solana/Payments.antt =====
-- A transaction that `verify_solana_transaction` of rails/solana/solana_verify.py verifies is final and
-- pays the recipient.
use arp_spec.Common.{
  ◌≤◌, String, ◌≡◌, refl, sym, ap, inl, inr, Bool, true, false, ◌&&◌, some, arith, ==_iff, leb_iff,
  Bool-cases, Option-cases, Outcome, ok, err, ℤ, pos, negsuc, subz, str_eq, false≢true, >>=-eq-ok,
  ok-injective, ◌∙◌,
}
use arp_spec.Json.{iterate, Json, num, arr, obj, Items, nil, end, get, get_default}
use arp_spec.Solana.{FetchError, Rpc, fetch_transaction, rpc_urls}
use arp_spec.Solana.Fetched.{Fetched, fetch_transaction-Fetched, lift-eq-ok}
use arp_spec.Solana.Transfers.{
  parse_system_transfer, gtz, absz, balance_of, find_decimals, SplTransfer, judge_deltas,
  parse_spl_transfer, compare_balances, read_balances,
}
use arp_spec.Solana.Verify.{
  Verification, eqz, number_of, unverified, mint_address, judge_amount, judge_sol, judge_spl,
  judge_transaction, caught, verify_solana_transaction,
}
use arp_spec.Solana.Evidence.{Transfers, parse_system_transfer-Transfers}

eqz_iff : (a b : ℤ) → eqz a b ≡ true → a ≡ b
eqz_iff (pos a) (pos b) e = ap pos ((==_iff a b).0 e)
eqz_iff (negsuc a) (negsuc b) e = ap negsuc ((==_iff a b).0 e)
eqz_iff (pos a) (negsuc b) e = cc e
eqz_iff (negsuc a) (pos b) e = cc e

judge_amount_verified :
    (matches : Bool) (token : String) (decimals actual : Json) (expected : ℤ)
    (human slot block_time : Json)
    → (judge_amount matches token decimals actual expected human slot block_time).verified ≡ true
    → matches ≡ true
unfolding judge_amount
judge_amount_verified true token decimals actual expected human slot block_time e = refl
judge_amount_verified false token decimals actual expected human slot block_time e = cc e

module _ (env : Rpc) where
  -- the token balances of the two, of which the last entry of a list counts: the recipient's has grown
  -- by the units, and the sender's has fallen
  pub record Balances (sender recipient mint : String) (units : ℤ) (pre post : Items) : Type 0 where
    pub recipient_pre : ℤ
    pub recipient_had : balance_of env mint recipient (pos 0) pre ≡ ok recipient_pre
    pub recipient_post : ℤ
    pub recipient_has : balance_of env mint recipient (pos 0) post ≡ ok recipient_post
    pub sender_pre : ℤ
    pub sender_had : balance_of env mint sender (pos 0) pre ≡ ok sender_pre
    pub sender_post : ℤ
    pub sender_has : balance_of env mint sender (pos 0) post ≡ ok sender_post
    pub gained : gtz recipient_post recipient_pre ≡ true
    pub lost : gtz sender_pre sender_post ≡ true
    pub delta : units ≡ subz recipient_post recipient_pre

  compare_balances-Balances :
      (sender recipient mint : String) (decimals : Json) (pre post : Items) {t : SplTransfer}
      → compare_balances env sender recipient mint decimals pre post ≡ ok t
      → t.is_valid ≡ true
      → Balances sender recipient mint t.units pre post
  unfolding compare_balances judge_deltas
  compare_balances-Balances sender recipient mint decimals pre post {t = t} e valid =
      let (recipient_pre, recipient_had, e1) =
        >>=-eq-ok (balance_of env mint recipient (pos 0) pre) _ e in
      let (recipient_post, recipient_has, e2) =
        >>=-eq-ok (balance_of env mint recipient (pos 0) post) _ e1 in
      let (sender_pre, sender_had, e3) = >>=-eq-ok (balance_of env mint sender (pos 0) pre) _ e2 in
      let (sender_post, sender_has, e4) =
        >>=-eq-ok (balance_of env mint sender (pos 0) post) _ e3 in
      let judged = ok-injective e4 in
      elim (Bool-cases (gtz recipient_post recipient_pre && gtz sender_pre sender_post)) [
        | inl moved ↦
            let judged1 = rw moved at judged in
            record {
              recipient_pre = recipient_pre;
              recipient_had = recipient_had;
              recipient_post = recipient_post;
              recipient_has = recipient_has;
              sender_pre = sender_pre;
              sender_had = sender_had;
              sender_post = sender_post;
              sender_has = sender_has;
              gained = ground (arith, moved);
              lost = ground (arith, moved);
              delta = sym (ap (λ x. x.units) judged1);
            }
        | inr still ↦
            let judged1 = rw still at judged in
            absurd (false≢true (ap (λ x. x.is_valid) judged1 ∙ valid))
      ]

  pub record TokenMoves (sender recipient mint : String) (units : ℤ) (tx : Json) : Type 0 where
    pub meta : Json
    pub has_meta : get_default "meta" (obj end) tx ≡ ok meta
    pub pre_balances : Json
    pub has_pre : get_default "preTokenBalances" (arr nil) meta ≡ ok pre_balances
    pub post_balances : Json
    pub has_post : get_default "postTokenBalances" (arr nil) meta ≡ ok post_balances
    pub pre : Items
    pub pre_items : iterate pre_balances ≡ ok pre
    pub post : Items
    pub post_items : iterate post_balances ≡ ok post
    pub balances : Balances sender recipient mint units pre post

  read_balances-Balances :
      (sender recipient mint : String) (pre_balances post_balances : Json) {t : SplTransfer}
      → read_balances env sender recipient mint pre_balances post_balances ≡ ok t
      → t.is_valid ≡ true
      → (pre : Items) × (post : Items) × (iterate pre_balances ≡ ok pre)
        × (iterate post_balances ≡ ok post)
        × Balances sender recipient mint t.units pre post
  unfolding read_balances
  read_balances-Balances sender recipient mint pre_balances post_balances e valid =
      let (post, post_items, e1) = >>=-eq-ok (iterate post_balances) _ e in
      let (decimals, _, e2) = >>=-eq-ok (find_decimals env mint post) _ e1 in
      let (pre, pre_items, e3) = >>=-eq-ok (iterate pre_balances) _ e2 in
      (
        pre,
        post,
        pre_items,
        post_items,
        compare_balances-Balances sender recipient mint decimals pre post e3 valid,
      )

  parse_spl_transfer-TokenMoves :
      (tx : Json) (sender recipient mint : String) {t : SplTransfer}
      → parse_spl_transfer env tx sender recipient mint ≡ ok t
      → t.is_valid ≡ true
      → TokenMoves sender recipient mint t.units tx
  unfolding parse_spl_transfer
  parse_spl_transfer-TokenMoves tx sender recipient mint e valid =
      let (meta, has_meta, e1) = >>=-eq-ok (get_default "meta" (obj end) tx) _ e in
      let (pre_balances, has_pre, e2) =
        >>=-eq-ok (get_default "preTokenBalances" (arr nil) meta) _ e1 in
      let (post_balances, has_post, e3) =
        >>=-eq-ok (get_default "postTokenBalances" (arr nil) meta) _ e2 in
      let (pre, post, pre_items, post_items, balances) =
        read_balances-Balances sender recipient mint pre_balances post_balances e3 valid in
      record {
        meta = meta;
        has_meta = has_meta;
        pre_balances = pre_balances;
        has_pre = has_pre;
        post_balances = post_balances;
        has_post = has_post;
        pre = pre;
        pre_items = pre_items;
        post = post;
        post_items = post_items;
        balances = balances;
      }

  -- what the verified payment rests on
  pub data Pays (sender recipient : String) (expected : ℤ) (mint : String) (tx : Json)
      : Type 0 where
    in_sol :
        (lamports : Json) (actual : ℤ)
        → str_eq (env.upper mint) "SOL" ≡ true
        → Transfers sender recipient lamports tx
        → number_of lamports ≡ ok actual
        → absz (subz actual expected) ≤ 1000
        → Pays sender recipient expected mint tx
    in_token :
        str_eq (env.upper mint) "SOL" ≡ false
        → TokenMoves sender recipient (mint_address (env.upper mint) mint) expected tx
        → Pays sender recipient expected mint tx

  judge_sol-within :
      (expected : ℤ) (slot block_time lamports : Json) {v : Verification}
      → judge_sol env expected slot block_time (some lamports) ≡ ok v
      → v.verified ≡ true
      → (actual : ℤ) × (number_of lamports ≡ ok actual) × (absz (subz actual expected) ≤ 1000)
  unfolding judge_sol
  judge_sol-within expected slot block_time lamports e verified =
      let (actual, is_number, e1) = >>=-eq-ok (number_of lamports) _ e in
      let (human, _, e2) = >>=-eq-ok (env.scaled actual (num (pos 9))) _ e1 in
      let close =
        judge_amount_verified _ "SOL" (num (pos 9)) lamports expected human slot block_time
          (ap (λ x. x.verified) (ok-injective e2) ∙ verified) in
      (actual, is_number, (leb_iff (absz (subz actual expected)) 1000).0 close)

  judge_spl_exact :
      (mint : String) (expected : ℤ) (slot block_time : Json) (t : SplTransfer) {v : Verification}
      → judge_spl env mint expected slot block_time t ≡ ok v
      → v.verified ≡ true
      → (t.is_valid ≡ true) × (t.units ≡ expected)
  unfolding judge_spl unverified
  judge_spl_exact mint expected slot block_time t e verified = elim (Bool-cases t.is_valid) [
    | inr absent ↦
        absurd (false≢true (ap (λ x. x.verified) (ok-injective (rw absent at e)) ∙ verified))
    | inl valid ↦
        let (human, _, e1) = >>=-eq-ok (env.scaled t.units t.decimals) _ (rw valid at e) in
        let exact =
          judge_amount_verified _ mint t.decimals (num t.units) expected human slot block_time
            (ap (λ x. x.verified) (ok-injective e1) ∙ verified) in
        (valid, eqz_iff t.units expected exact)
  ]

  judge_transaction-Pays :
      (sender recipient : String) (expected : ℤ) (mint : String) (tx : Json) {v : Verification}
      → judge_transaction env sender recipient expected mint tx ≡ ok v
      → v.verified ≡ true
      → Pays sender recipient expected mint tx
  unfolding judge_transaction judge_sol unverified
  judge_transaction-Pays sender recipient expected mint tx e verified =
      let (slot, _, e1) = >>=-eq-ok (get "slot" tx) _ e in
      let (block_time, _, e2) = >>=-eq-ok (get "blockTime" tx) _ e1 in
      elim (Bool-cases (str_eq (env.upper mint) "SOL")) [
        | inl sol ↦
            let (found, parsed, e3) =
              >>=-eq-ok (parse_system_transfer tx sender recipient) _ (rw sol at e2) in
            elim (Option-cases found) [
              | inl nothing ↦
                  absurd
                    (false≢true (ap (λ x. x.verified) (ok-injective (rw nothing at e3)) ∙ verified))
              | inr (lamports, something) ↦
                  let (actual, is_number, close) =
                    judge_sol-within expected slot block_time lamports (rw something at e3)
                      verified in
                  let transfers =
                    parse_system_transfer-Transfers tx sender recipient (rw something at parsed) in
                  in_sol lamports actual sol transfers is_number close
            ]
        | inr token ↦
            let address = mint_address (env.upper mint) mint in
            let (t, parsed, e3) =
              >>=-eq-ok (parse_spl_transfer env tx sender recipient address) _ (rw token at e2) in
            let (valid, exact) = judge_spl_exact mint expected slot block_time t e3 verified in
            in_token token
              (rw exact at (parse_spl_transfer-TokenMoves tx sender recipient address parsed valid))
      ]

  caught_verified :
      (mint : String) (o : Outcome FetchError Verification)
      → (caught env mint o).verified ≡ true
      → (v : Verification) × (o ≡ ok v) × (v.verified ≡ true)
  unfolding caught unverified
  caught_verified mint (ok v) e = (v, refl, e)
  caught_verified mint (err x) e = absurd (false≢true e)

  -- If `verify_solana_transaction` says `verified`, then it has fetched a transaction that one of the
  -- URLs replied with in one of two attempts, as final and without an error, and in it: for SOL, the
  -- fee payer is the sender, and an instruction of the system program transfers from the sender to the
  -- recipient an amount within 1000 lamports of the expected one; for a token, by the last entry of
  -- each for the mint, the sender's balance has fallen and the recipient's has grown by exactly the
  -- expected units.
  pub verify_solana_transaction-Pays :
      (sender recipient : String) (expected : ℤ) (mint : String)
      → (verify_solana_transaction env sender recipient expected mint).verified ≡ true
      → (tx : Json) × Fetched env 2 (rpc_urls env) tx × Pays sender recipient expected mint tx
  unfolding verify_solana_transaction
  verify_solana_transaction-Pays sender recipient expected mint e =
      let (v, returned, verified) = caught_verified mint _ e in
      let (tx, fetched, judged) = >>=-eq-ok (fetch_transaction env 2) _ returned in
      (
        tx,
        fetch_transaction-Fetched env 2 fetched,
        judge_transaction-Pays sender recipient expected mint tx (lift-eq-ok _ judged) verified,
      )
