-- ===== src/Credentials/Tests.antt =====
-- The theorems on credentials, presentations and delegations at concrete documents.
use arp_spec.Common.{
  String, ◌≡◌, refl, Bool, true, false, Option, none, some, List, [], ◌∷◌, length, ◌==◌,
  if◌then◌else◌, ok, err, str_eq, replicate,
}
use arp_spec.Json.{
  Json, null, str, arr, obj, Items, nil, cons, Fields, field, end, get, get_default, truthy,
  iterate,
}
use arp_spec.Crypto.{Primitives, aware}
use arp_spec.StatusLists.Http.{given_dict}
use arp_spec.Credentials.{verify_vp_with_embedded_vcs, verify_vc, vc_expired}
use arp_spec.Credentials.Signed.{Signed}
use arp_spec.Credentials.Verified.{IsVerified, Every, verify_vp_with_embedded_vcs-IsVerified}
use arp_spec.Credentials.Delegation.{Delegations, DelegationRow, verify_delegation}
use arp_spec.Credentials.Delegates.{Delegates, verify_delegation-Delegates}
use arp_spec.Bitstring.{Bytes}

-- a signature holds if it has 32 bytes
abbrev primitives : Primitives
primitives = record {
  b58decode = λ s. some (replicate 32 0);
  b58encode = λ bytes. "";
  json_dumps = λ fs. [];
  verify = λ key sig_bytes message. length sig_bytes == 32;
  sign = λ key message. [];
  public_key = λ key. key;
  parse_iso = λ s. if str_eq s "early" then some (aware 5) else some (aware 100);
}

abbrev from_hex : String → Option Bytes
from_hex s = if str_eq s "key" then some (replicate 32 0) else none

abbrev proof : Json
proof = obj (
    field "type" (str "Ed25519Signature2020")
      (field "proofValue" (str "zSig") (field "verificationMethod" (str "did:web:a#k") end)))

abbrev credential : Fields
credential = field "id" (str "urn:1") (
    field "type" (arr (cons (str "DelegationCredential") nil)) (
      field "issuer" (str "did:web:a") (
        field "expirationDate" (str "late") (
          field "validFrom" (str "early") (
            field "validUntil" (str "late") (
              field "credentialSubject" (obj (field "id" (str "did:web:b") end))
                (field "proof" proof end)))))))

abbrev presentation : Json
presentation = obj (
    field "holder" (str "did:web:b")
      (field "verifiableCredential" (arr (cons (obj credential) nil)) (field "proof" proof end)))

verify_vp_with_embedded_vcs-IsVerified_example :
    Signed primitives from_hex "key" presentation
    × ((holder : Json) × (get "holder" presentation ≡ ok holder) × (truthy holder ≡ true))
    × ((vcs : Json) × (items : Items) × (get_default "verifiableCredential" (arr nil) presentation
          ≡ ok vcs)
        × (iterate vcs ≡ ok items)
        × Every (IsVerified primitives from_hex 50 "key") items)
unfolding verify_vp_with_embedded_vcs get_default arp_spec.Json.lookup_or get truthy
    arp_spec.Json.is_text arp_spec.Crypto.multibase_body arp_spec.StatusLists.Http.contains
verify_vp_with_embedded_vcs-IsVerified_example =
    verify_vp_with_embedded_vcs-IsVerified primitives from_hex 50 "key" "key" presentation refl refl

expired_credential : verify_vc primitives from_hex 101 "key" (obj credential) ≡ err vc_expired
unfolding verify_vc get truthy arp_spec.Json.lookup_or arp_spec.Json.is_text
expired_credential = refl

abbrev delegations : List DelegationRow → Delegations
delegations rows = record {
  primitives = primitives;
  resolve_did = λ did. ok (
      obj (
        field "verificationMethod"
          (arr (
            cons
              (obj (field "id" (str "did:web:a#k") (field "publicKeyMultibase" (str "zKey") end)))
              nil))
          end));
  equal = λ v w. true;
  delegation_credentials = rows;
  now = 50;
}

abbrev body : Json
body = obj (field "credential" (obj credential) end)

verify_delegation-Delegates_example :
    (c : Json) × (fs : Fields) × (get "credential" body ≡ ok c)
    × (given_dict c ≡ ok fs)
    × Delegates (delegations []) fs
unfolding verify_delegation get arp_spec.Json.lookup_or arp_spec.StatusLists.Http.contains truthy
    arp_spec.Crypto.multibase_body arp_spec.Crypto.strip_multicodec arp_spec.Json.is_text
verify_delegation-Delegates_example = verify_delegation-Delegates (delegations []) body refl refl

abbrev suspended_row : DelegationRow
suspended_row = record { credential_id = "urn:1"; revoked_at = none; suspended_at = some 3 }

abbrev errors_with : List DelegationRow → Bool
errors_with rows = elim (verify_delegation (delegations rows) body) [
  | ok d ↦ d.verified
  | err e ↦ true
]

suspended_fails : errors_with (suspended_row ∷ []) ≡ false
unfolding verify_delegation get arp_spec.Json.lookup_or arp_spec.StatusLists.Http.contains truthy
    arp_spec.Crypto.multibase_body arp_spec.Crypto.strip_multicodec arp_spec.Json.is_text
suspended_fails = refl
