-- ===== src/Bitstring/Codec.antt =====
-- api/bitstring_status_list.py: the encoding chain, raw bytes -> gzip -> base64url without padding.
-- gzip and base64 are parameters, with the laws of RFC 1952 and RFC 4648 that the chain relies on.
use mathlib.Core.List.{append-nil}
use arp_spec.Common.{
  ℕ, zero, suc, ◌+◌, ◌-◌, ◌%◌, ◌<◌, ◌≡◌, refl, sym, ◌≢◌, false, Option, none, some, String, List,
  [], ◌∷◌, ◌++◌, arith, Outcome, ok, err, length, All, replicate, ◌==◌, if◌then◌else◌, Bool-cases,
  inl, inr,
}
use arp_spec.Bitstring.{
  Bytes, BitError, base64url_failed, gzip_failed, Verdict, decode_error, judge_update,
}

-- the character '='
abbrev pub pad : ℕ
pad = b'='

-- `urlsafe_b64encode`, `urlsafe_b64decode`, `gzip.compress`, `gzip.decompress`; `none` is a raise
pub record Codec : Type 0 where
  pub b64encode : Bytes → List ℕ
  pub b64decode : List ℕ → Option Bytes
  pub compress : Bytes → Bytes
  pub decompress : Bytes → Option Bytes

-- characters without '=', then fewer than three of them, to a multiple of four
pub record IsPadded (s : List ℕ) : Type 0 where
  pub body : List ℕ
  pub count : ℕ
  pub parts : s ≡ body ++ replicate count pad
  pub plain : All (λ c. c ≢ pad) body
  pub short : count < 3
  pub whole : (length body + count) % 4 ≡ 0

pub record IsCodec (z : Codec) : Type 0 where
  pub b64_inverse : (x : Bytes) → z.b64decode (z.b64encode x) ≡ some x
  pub gzip_inverse : (x : Bytes) → z.decompress (z.compress x) ≡ some x
  pub b64_padded : (x : Bytes) → IsPadded (z.b64encode x)

-- a character that `rstrip` meets in front of what it has kept
keep_unless_pad : ℕ → List ℕ → List ℕ
keep_unless_pad c [] = if c == pad then [] else c ∷ []
keep_unless_pad c (d ∷ ds) = c ∷ d ∷ ds

-- `.rstrip(b"=")`
unfoldable pub rstrip_pad : List ℕ → List ℕ
unfolding keep_unless_pad
rstrip_pad [] = []
rstrip_pad (c ∷ cs) = keep_unless_pad c (rstrip_pad cs)

-- `encoded + "=" * (4 - len(encoded) % 4) if len(encoded) % 4 else encoded`
unfoldable pub add_padding : List ℕ → List ℕ
add_padding encoded =
    if length encoded % 4 == 0 then encoded else encoded ++ replicate (4 - length encoded % 4) pad

-- the `try` around the two decodings, and the checks behind it
unfoldable pub judge_decoded : Outcome BitError Bytes → Outcome BitError Bytes → String → Verdict
unfolding judge_update
judge_decoded (err e) _ status_purpose = record {
  valid = false;
  reason = decode_error e;
  changes = [];
}
judge_decoded (ok old_raw) (err e) status_purpose = record {
  valid = false;
  reason = decode_error e;
  changes = [];
}
judge_decoded (ok old_raw) (ok new_raw) status_purpose = judge_update old_raw new_raw status_purpose

module _ (z : Codec) where
  unfoldable pub encode_bitstring : Bytes → List ℕ
  unfolding rstrip_pad
  encode_bitstring raw = rstrip_pad (z.b64encode (z.compress raw))

  unfoldable pub decode_bitstring : List ℕ → Outcome BitError Bytes
  unfolding add_padding
  decode_bitstring encoded = elim (z.b64decode (add_padding encoded)) [
    | none ↦ err base64url_failed
    | some compressed ↦ elim (z.decompress compressed) [
      | none ↦ err gzip_failed
      | some raw ↦ ok raw
    ]
  ]

  unfoldable pub validate_status_list_update : List ℕ → List ℕ → String → Verdict
  unfolding judge_decoded decode_bitstring
  validate_status_list_update old_encoded new_encoded status_purpose =
      judge_decoded (decode_bitstring old_encoded) (decode_bitstring new_encoded) status_purpose

rstrip_pad-replicate : (k : ℕ) → rstrip_pad (replicate k pad) ≡ []
unfolding rstrip_pad
rstrip_pad-replicate zero = refl
rstrip_pad-replicate (suc k) = rw (rstrip_pad-replicate k) refl

rstrip_pad-append :
    (body : List ℕ) (k : ℕ) → All (λ c. c ≢ pad) body → rstrip_pad (body ++ replicate k pad) ≡ body
unfolding rstrip_pad
rstrip_pad-append [] k h = rstrip_pad-replicate k
rstrip_pad-append (c ∷ []) k h = rw (rstrip_pad-replicate k) (ground arith)
rstrip_pad-append (c ∷ d ∷ ds) k h = rw (rstrip_pad-append (d ∷ ds) k h.1) refl

add_padding-body :
    (body : List ℕ) (k : ℕ)
    → k < 3
    → (length body + k) % 4 ≡ 0
    → add_padding body ≡ body ++ replicate k pad
unfolding add_padding
add_padding-body body k short whole = elim (Bool-cases (length body % 4 == 0)) [
  | inl e ↦ let none_left : k ≡ 0 = ground arith in rw (e, none_left) (sym (append-nil body))
  | inr e ↦ let rest : 4 - length body % 4 ≡ k = ground arith in rw (e, rest) refl
]

add_padding-rstrip_pad : (s : List ℕ) → IsPadded s → add_padding (rstrip_pad s) ≡ s
add_padding-rstrip_pad s h =
    rw (h.parts, rstrip_pad-append h.body h.count h.plain)
      (add_padding-body h.body h.count h.short h.whole)

module _ (z : Codec) (laws : IsCodec z) where
  -- With a codec whose gzip and base64 are inverses and pad as IsCodec says, decoding what was
  -- encoded gives the bytes back, for every list of bytes.
  pub decode_bitstring-encode_bitstring :
      (raw : Bytes) → decode_bitstring z (encode_bitstring z raw) ≡ ok raw
  unfolding encode_bitstring decode_bitstring
  decode_bitstring-encode_bitstring raw = ground (
    arith,
    add_padding-rstrip_pad (z.b64encode (z.compress raw)) (laws.b64_padded (z.compress raw)),
    laws.b64_inverse (z.compress raw),
    laws.gzip_inverse raw,
  )
