-- ===== src/Crypto/Tests.antt =====
-- Runs of the proof checks, and the theorems at concrete inputs.
use Prim.Native.Char.{code}
use arp_spec.Common.{
  ℕ, zero, suc, ◌+◌, String, ◌≡◌, refl, true, Option, none, some, [], ◌∷◌, ◌++◌, arith, ◌==◌,
  if◌then◌else◌, Outcome, ok, err, str_eq, replicate,
}
use arp_spec.Bitstring.{Bytes}
use arp_spec.Merkle.{digest_eq}
use arp_spec.Merkle.Complete.{digest_eq_refl}
use arp_spec.Json.{
  Json, str, arr, obj, nil, cons, Fields, field, end, PyError, value_error, type_error, lookup_or,
  null,
}
use arp_spec.Crypto.{
  Primitives, aware, naive, sign_document, verify_ed25519_proof, verify_signed_request,
  check_proof_freshness, extract_signer_did,
}
use arp_spec.Crypto.Proofs.{IsSound, verify_ed25519_proof-sign_document}
use arp_spec.Crypto.Requests.{IsSignedRequest, verify_signed_request_sound}

-- a byte n as n times "1" and then "2"
tally : ℕ → String → String
tally zero s = String.◌∷◌ "2" s
tally (suc n) s = String.◌∷◌ "1" (tally n s)

tallies : Bytes → String
tallies [] = ""
tallies (b ∷ bs) = tally b (tallies bs)

push : ℕ → Option Bytes → Option Bytes
push n none = none
push n (some bs) = some (n ∷ bs)

untally : ℕ → String → Option Bytes
untally n String.[] = if n == 0 then some [] else none
untally n (String.◌∷◌ c s) =
    let more = untally (n + 1) s in
    let next = push n (untally 0 s) in if code c == b'1' then more else next

untally-tally : (n b : ℕ) (s : String) → untally n (tally b s) ≡ push (n + b) (untally 0 s)
unfolding untally tally
untally-tally n zero s = let e : n + 0 ≡ n = omega arith in rw e refl
untally-tally n (suc b) s =
    let e : n + suc b ≡ n + 1 + b = omega arith in rw e (untally-tally (n + 1) b s)

untally-tallies : (x : Bytes) → untally 0 (tallies x) ≡ some x
unfolding tallies push untally
untally-tallies [] = refl
untally-tallies (b ∷ bs) =
    let e : 0 + b ≡ b = omega arith in
    rw (untally-tally 0 b (tallies bs), untally-tallies bs, e) refl

-- a signature is the key and the message
abbrev open_signatures : Primitives
open_signatures = record {
  b58decode = untally 0;
  b58encode = tallies;
  json_dumps = λ d. elim d [ end ↦ [] | _ ↦ 1 ∷ [] ];
  verify = λ key sig message. digest_eq sig (key ++ message);
  sign = λ key message. key ++ message;
  public_key = λ key. key;
  parse_iso = λ s. some (aware 5000000);
}

open_signatures-IsSound : IsSound open_signatures
open_signatures-IsSound = record {
  b58_inverse = untally-tallies;
  verify_signed = λ key message. digest_eq_refl (key ++ message);
}

verify_ed25519_proof-sign_document_example :
    verify_ed25519_proof open_signatures
      (sign_document open_signatures "now" (field "id" (str "vc") end) (3 ∷ 1 ∷ []) "did:web:a#k")
      (3 ∷ 1 ∷ [])
    ≡ ok tt
verify_ed25519_proof-sign_document_example =
    verify_ed25519_proof-sign_document open_signatures open_signatures-IsSound "now"
      (field "id" (str "vc") end) (3 ∷ 1 ∷ []) "did:web:a#k"

-- every key text is the key of 32 sevens, every signature is right
abbrev pub accepting : Primitives
accepting = record {
  b58decode = λ s. some (replicate 32 7);
  b58encode = λ x. "";
  json_dumps = λ d. [];
  verify = λ key sig message. true;
  sign = λ key message. [];
  public_key = λ key. key;
  parse_iso = λ s. if str_eq s "naive" then some (naive 5000000) else some (aware 5000000);
}

abbrev request_proof : Fields
request_proof = field "type" (str "Ed25519Signature2020") (
    field "created" (str "2026-04-20T20:42:00Z") (
      field "verificationMethod" (str "did:web:a#k")
        (field "proofPurpose" (str "authentication") (field "proofValue" (str "zz") end))))

abbrev request : Fields
request = field "list_id" (str "sl-1") (field "proof" (obj request_proof) end)

abbrev did_document : Json
did_document = obj (
    field "verificationMethod"
      (arr (
        cons (obj (field "id" (str "did:web:a#k") (field "publicKeyMultibase" (str "zk") end)))
          nil))
      end)

abbrev pub resolver : String → Outcome PyError Json
resolver did = if str_eq did "did:web:a" then ok did_document else err value_error

accepted_request : verify_signed_request accepting 100000000 resolver request ≡ ok (ok "did:web:a")
unfolding verify_signed_request arp_spec.Json.get lookup_or arp_spec.Json.is_text
    arp_spec.Crypto.before_hash arp_spec.Crypto.multibase_body arp_spec.Crypto.strip_multicodec
    arp_spec.Json.truthy
accepted_request = refl

verify_signed_request_sound_example :
    IsSignedRequest accepting 100000000 resolver request "did:web:a"
verify_signed_request_sound_example =
    verify_signed_request_sound accepting 100000000 resolver request "did:web:a" accepted_request
