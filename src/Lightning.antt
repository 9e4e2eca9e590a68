-- ===== src/Lightning.antt =====
-- api/lightning_adapter.py: the three tiers of evidence for a Lightning payment.
-- The node's answer, the receipt schema, the issuer's key and the hashes are arguments.
pub mod Tiers
pub mod Tests
use text.Mathlib.Text.{starts_with}
use arp_spec.Common.{
  ℕ, zero, suc, ◌+◌, ◌-◌, ◌*◌, ◌/◌, ◌%◌, ◌≤◌, ◌<◌, String, ◌≡◌, refl, sym, ap, ◌≢◌, ◌↔◌, ◌⊎◌, inl,
  inr, Bool, true, false, not, ◌&&◌, ◌||◌, Option, none, some, List, [], ◌∷◌, ◌++◌, map, arith,
  length, get_or, All, any, all, ltb, leb, ◌==◌, if◌then◌else◌, ==_iff, ltb_iff, leb_iff,
  Bool-cases, Option-cases, Outcome, ok, err, ◌>>=◌, ◌>>◌, ℤ, pos, negsuc, str_eq, eq_iff,
  false≢true,
}
use arp_spec.Bitstring.{Bytes}
use arp_spec.Json.{
  Json, null, bool, num, str, obj, end, Fields, PyError, attribute_error, get, get_default, truthy,
  is_text, without,
}

pub data Tier : Type 0 where
  payee_attestation lnd_query preimage_only : Tier

pub data Conflict : Type 0 where
  no_conflict tier1_wins_lnd_sync_delay tier2_wins_attestation_invalid : Conflict

pub data VerifyError : Type 0 where
  missing_fields bad_presenter_role preimage_mismatch payer_needs_evidence : VerifyError

-- the dict of `_query_lnd`
pub record LndResult : Type 0 where
  pub settled : Json
  pub settle_date : Json
  pub amt_paid_msat : ℤ

-- payment_hash and preimage of a receipt that satisfies the schema
pub record Receipt : Type 0 where
  pub payment_hash : String
  pub preimage : String

-- sha256_hex is the hex digest of the bytes of a hex text, if it is one; to_int is int(), and
-- to_msat is int(float(v) * 100_000_000_000), each with `none` for an exception that is caught
pub record Outside : Type 0 where
  pub sha256_hex : String → Option String
  pub lower : String → String
  pub to_int : Json → Option ℤ
  pub to_msat : Json → Option ℤ
  -- the JSON that the node answers, if LND is configured and nothing raises; an error of the TLS
  -- certificate, which `_query_lnd` does not catch, is taken for no answer
  pub lnd_data : String → Option Json
  pub validate_receipt : Json → Option Receipt
  pub json_dumps : Fields → Bytes
  pub b58decode : String → Option Bytes
  pub issuer_key : Json → Option Bytes
  pub verify : Bytes → Bytes → Bytes → Bool
  pub now_iso : String

pub record Payment : Type 0 where
  pub tier : Option Tier
  pub payee_attestation_verified : Bool
  pub lnd_settlement_confirmed : Json
  pub amount_msat : Option ℤ
  pub settled_at : Json
  pub conflict : Conflict

-- `verified=False` with the error, or `verified=True` with chain_specific
pub data ChainResult : Type 0 where
  refused : VerifyError → ChainResult
  verified : Payment → ChainResult

-- the assignments to `tier` and `conflict_info`, in their order; `lnd` says that the node answered
unfoldable pub first_tier : Bool → Bool → Bool → Option Tier
first_tier payer tier1 tier2 =
    if tier1
    then some payee_attestation
    else if tier2
    then some lnd_query
    else if payer
    then none
    else some preimage_only

unfoldable pub resolve_tier : Bool → Bool → Bool → Bool → Bool → Option Tier × Conflict
unfolding first_tier
resolve_tier payer attested tier1 lnd tier2 =
    if tier2 && (attested && not tier1)
    then (some lnd_query, tier2_wins_attestation_invalid)
    else if tier1 && (lnd && not tier2)
    then (some payee_attestation, tier1_wins_lnd_sync_delay)
    else (first_tier payer tier1 tier2, no_conflict)

abbrev pub is_some {ℓ} : {A : Type ℓ} → Option A → Bool
is_some none = false
is_some (some _) = true

abbrev pub settled_of : Option LndResult → Json
settled_of none = null
settled_of (some r) = r.settled

abbrev pub node_amount : Option LndResult → Option ℤ
node_amount none = none
node_amount (some r) = if truthy (num r.amt_paid_msat) then some r.amt_paid_msat else none

abbrev pub hash_text : Json → String
hash_text (str s) = s
hash_text _ = ""

module _ (w : Outside) where
  -- a preimage that is no text or no hex raises what is caught; the hash must be a text
  unfoldable pub hash_matches : Option String → Json → Outcome PyError Bool
  hash_matches none payment_hash = ok false
  hash_matches (some digest) (str s) = ok (str_eq digest (w.lower s))
  hash_matches (some digest) _ = err attribute_error

  unfoldable pub verify_preimage : Json → Json → Outcome PyError Bool
  unfolding hash_matches
  verify_preimage (str preimage) payment_hash = hash_matches (w.sha256_hex preimage) payment_hash
  verify_preimage _ payment_hash = ok false

  -- the node's JSON as the dict of three fields; anything that raises gives None
  unfoldable pub lnd_fields : Fields → Option LndResult
  lnd_fields data_fields =
      let state = arp_spec.Json.lookup_or "state" null data_fields in
      let settled = arp_spec.Json.lookup_or "settled" (bool false) data_fields in
      elim (w.to_int (arp_spec.Json.lookup_or "amt_paid_msat" (num (pos 0)) data_fields)) [
        | none ↦ none
        | some amount ↦ some (record {
          settled = if is_text "SETTLED" state then bool true else settled;
          settle_date = arp_spec.Json.lookup_or "settle_date" null data_fields;
          amt_paid_msat = amount;
        })
      ]

  unfoldable pub query_lnd : String → Option LndResult
  unfolding lnd_fields
  query_lnd payment_hash = elim (w.lnd_data payment_hash) [
    | some (obj fs) ↦ lnd_fields fs
    | _ ↦ none
  ]

  -- the issuer of a credential, a text or the "id" of a dict
  abbrev pub issuer_of : Json → Json
  issuer_of (obj fs) = arp_spec.Json.lookup_or "id" null fs
  issuer_of v = v

  abbrev pub signed_by : Option Bytes → Option Bytes → Bytes → Bool
  signed_by (some key) (some sig) message = w.verify key sig message
  signed_by _ _ message = false

  -- `proof.get("proofValue", "")` starts with "z", and the rest is the signature
  abbrev pub signature_of : Json → Outcome PyError (Option Bytes)
  signature_of (str (String.◌∷◌ z s)) =
      ok (if starts_with (String.◌∷◌ z s) "z" then w.b58decode s else none)
  signature_of (str String.[]) = ok none
  signature_of _ = err attribute_error

  -- step 4 on a credential that satisfies the schema
  unfoldable pub check_receipt_signature : Fields → Outcome PyError Bool
  check_receipt_signature credential = do
    proof ← get "proof" (obj credential)
    if not (truthy proof) then ok false else do
      proof_type ← get "type" proof
      if not (is_text "Ed25519Signature2020" proof_type) then ok false else do
        proof_value ← get_default "proofValue" (str "") proof
        signature ← signature_of proof_value
        let issuer = issuer_of (arp_spec.Json.lookup_or "issuer" null credential)
        ok (
            truthy issuer
            && signed_by (w.issuer_key issuer) signature
                (w.json_dumps (without "proof" credential)))

  -- steps 2 to 4
  unfoldable pub check_receipt : String → Json → Option Receipt → Outcome PyError Bool
  unfolding verify_preimage check_receipt_signature
  check_receipt payment_hash (obj credential) (some receipt) =
      if not (str_eq receipt.payment_hash (w.lower payment_hash)) then ok false else do
        preimage_valid ← verify_preimage (str receipt.preimage) (str payment_hash)
        if preimage_valid then check_receipt_signature credential else ok false
  check_receipt payment_hash _ _ = ok false

  unfoldable pub verify_payee_attestation : Json → String → Outcome PyError Bool
  unfolding check_receipt
  verify_payee_attestation attestation payment_hash = do
    credential ← get "credential" attestation
    if truthy credential
        then check_receipt payment_hash credential (w.validate_receipt credential)
        else ok false

  -- the node's amount, else the transaction's in BTC
  unfoldable pub amount_of : Fields → Option LndResult → Outcome PyError (Option ℤ)
  amount_of transaction lnd =
      let from_node = node_amount lnd in
      if is_some from_node then ok from_node else do
        value ← get "value" (arp_spec.Json.lookup_or "amount" (obj end) transaction)
        ok (if truthy value then w.to_msat value else none)

  abbrev pub settle_time : Option LndResult → Json
  settle_time none = str w.now_iso
  settle_time (some r) = if truthy r.settle_date then r.settle_date else str w.now_iso

  unfoldable pub build_result :
      Fields → Option LndResult → Bool → Option Tier × Conflict → Outcome PyError ChainResult
  unfolding amount_of
  build_result transaction lnd tier1 (none, _) = ok (refused payer_needs_evidence)
  build_result transaction lnd tier1 (some tier, found) = do
    amount_msat ← amount_of transaction lnd
    ok (
        verified (record {
          tier = some tier;
          payee_attestation_verified = tier1;
          lnd_settlement_confirmed = settled_of lnd;
          amount_msat = amount_msat;
          settled_at = settle_time lnd;
          conflict = found;
        }))

  -- tier 1 is tried for a payer with an attestation
  unfoldable pub try_attestation : Bool → Json → String → Outcome PyError Bool
  unfolding verify_payee_attestation
  try_attestation payer attestation payment_hash =
      if truthy attestation && payer
      then verify_payee_attestation attestation payment_hash
      else ok false

  -- step 2 of `verify_transaction`, from the tier on
  unfoldable pub judge_tiers :
      Fields → Bool → Json → String → Option LndResult → Outcome PyError ChainResult
  unfolding try_attestation resolve_tier build_result
  judge_tiers transaction payer attestation payment_hash lnd = do
    tier1 ← try_attestation payer attestation payment_hash
    build_result transaction lnd tier1
        (resolve_tier payer (truthy attestation) tier1 (is_some lnd) (truthy (settled_of lnd)))

  unfoldable pub verify_transaction : Fields → Fields → Outcome PyError ChainResult
  unfolding verify_preimage query_lnd judge_tiers
  verify_transaction transaction chain_specific =
      let payment_hash = arp_spec.Json.lookup_or "payment_hash" null chain_specific in
      let preimage = arp_spec.Json.lookup_or "preimage" null chain_specific in
      let presenter_role = arp_spec.Json.lookup_or "presenter_role" null chain_specific in
      let attestation = arp_spec.Json.lookup_or "payee_attestation" null chain_specific in
      if not (truthy payment_hash && truthy preimage)
      then ok (refused missing_fields)
      else if not (is_text "payer" presenter_role || is_text "payee" presenter_role)
      then ok (refused bad_presenter_role)
      else do
        preimage_valid ← verify_preimage preimage payment_hash
        if preimage_valid
            then judge_tiers transaction (is_text "payer" presenter_role) attestation
                (hash_text payment_hash) (query_lnd (hash_text payment_hash))
            else ok (refused preimage_mismatch)
