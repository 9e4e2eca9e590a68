-- ===== src/Lib.antt =====
-- Verification of the core of the Observer Protocol API (api/*.py)
-- and of its Solana rail (rails/solana).
--
-- The API keeps W3C Bitstring Status Lists for the credentials of agents, checks signed requests
-- and credentials against them, consults an organisation's policy engine before an action, and
-- verifies payments. The parts modelled, and the files they are in:
--
-- Common: shared names, tests and lists over the native numbers, bits, and `Outcome`, a Python
--   call that returns (`ok`) or raises (`err`). Json: the JSON documents as `Json`, `Items` and
--   `Fields`, with `dict.get` (which raises on what is no dict), truth values and key removal.
--
-- Bitstring models api/bitstring_status_list.py: bytes are a list of numbers, an index is an
--   integer, and bit 0 is the top bit of byte 0. Bitstring/Codec holds the encoding, with gzip and
--   base64 as the parameter `Codec`; `IsCodec` is what is relied on: both are inverses, and base64
--   pads to a multiple of four with at most two `=`.
--
-- Merkle models api/merkle_tree.py over a hash of pairs as a parameter. The loop of `build_tree`
--   runs on fuel, the number of leaves, which is enough since a level halves; Merkle/Complete
--   proves so.
--
-- Crypto models api/crypto_utils.py: canonical bytes, Ed25519 proofs, freshness, signed requests.
--   `Primitives` has base58, json.dumps, Ed25519 and the timestamp parser; `IsSound` is what is
--   relied on: decoding inverts encoding, and a signature verifies under its key.
--
-- StatusCheck models api/status_checker.py: each entry of credentialStatus is checked against the
--   list that is fetched for it, with the fetcher and the DID resolver as parameters.
--
-- Cache models api/cache_invalidation.py: the rows of the two tables of cached credentials, the
--   re-check after 24 hours, and the write-back. Times are microseconds.
--
-- StatusLists models api/status_list_store.py, the registry of hosted lists as a list of rows in
--   which a failed call changes nothing (the transaction is rolled back); StatusLists/Routes models
--   api/status_list_routes.py, the endpoints over it, which use Crypto, Bitstring and StatusCheck,
--   with their refusals in StatusLists/Http.
--   Sequences of calls are the data types `StoreSteps` and `RouteSteps`.
--
-- Policy models api/policy_engine_store.py, the engine table and the log, and Policy/Client models
--   api/policy_client.py: the rate limit of 100 calls in a second, and the consultation with every
--   reply of the engine.
--
-- Lightning models api/lightning_adapter.py: the three tiers of evidence for a payment; the
--   node's answer, the receipt schema and the key of an issuer are parameters (`Outside`).
--
-- Counterparty models api/counterparty_store.py: the counterparties of an organisation as a table of
--   rows with unique ids and unique pairs of organisation and DID (`IsValid` in Counterparty/Calls).
--   `References` has what its foreign keys refer to; a call that they refuse raises. Counterparty/Statuses
--   has the abstract view, a map from a pair to its status, which the policy context reads;
--   Counterparty/Listing has the pages.
--
-- Webhook models api/webhook_delivery.py: signing, one attempt, the retry loop, and in
--   Webhook/Registry the subscribers and the notification of an event. The loop is structural
--   recursion on the attempts that are left; the delivery that it writes to after it was appended to
--   the history is the head of the list `history`. `Outside` has the network, ids and clock.
--
-- Solana models rails/solana/solana_verify.py: the fetch over several endpoints with two attempts
--   each, the parsers of transfers (Solana/Transfers) and the verdict (Solana/Verify). Documents are
--   `Json`, and a missing method or a bad type is the exception that Python raises. `Rpc` has the
--   HTTP calls and floats.
--
-- Credentials models api/vc_verifier.py, the proofs of credentials and presentations, over the
--   primitives of Crypto; Credentials/Delegation models the endpoint of api/delegation_routes.py,
--   which uses the DID resolver and the table of delegations.
--
-- Attestation models api/attestation_scoping.py: attestations, their hash and dicts, the validator
--   and the creation; the digest and the signatures are the parameter `Signing`.
--
-- X402 models rails/x402/x402_adapter.py: the loop over the endpoints of the facilitators, the
--   verification of the receipt on the Base chain (X402/Onchain), and in X402/Pipeline
--   `verify_and_attest`, which puts both together (X402/Attests). `Rail` has the HTTP calls and `issue_vc`.
--
-- Audit models api/audit_coverage.py over the tables of activities, receipts and rollups, with its
--   figures in Audit/Figures and what is read back in Audit/Rollups; Audit/Matching models
--   api/audit_matcher.py and the statements of api/audit_store.py that it uses,
--   Audit/Anomalies models api/audit_anomalies.py and the end of the ingestion of a receipt in
--   api/audit_routes.py.
--
-- Not modelled: the texts of error messages, where only the kind of error is kept; SQL itself, of
-- which the statements are modelled as functions on lists of rows; the range of INTEGER columns;
-- HTTP, floats in JSON, the clock and random identifiers, which are arguments. The other modules of api/ and rails/,
-- the SDKs and the demonstrations are not modelled.
pub mod Common
pub mod Audit
pub mod Bitstring
pub mod Counterparty
pub mod Webhook
pub mod Merkle
pub mod Json
pub mod Crypto
pub mod StatusCheck
pub mod Cache
pub mod StatusLists
pub mod Policy
pub mod Lightning
pub mod Solana
pub mod X402
pub mod Credentials
pub mod Attestation
