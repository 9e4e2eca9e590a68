-- ===== src/Bitstring.antt =====
-- api/bitstring_status_list.py: bits of a Bitstring Status List, its encoding, and the rules for an
-- update. Bytes are numbers below 256, an encoded text is the list of its character codes.
pub mod Codec
pub mod Reads
pub mod Diff
pub mod Update
pub mod Tests
use Prim.Native.Nat.{bit_and, bit_or, bit_xor}
use arp_spec.Common.{
  ℕ, zero, suc, ◌+◌, ◌-◌, ◌*◌, ◌/◌, ◌%◌, ◌<◌, String, Bool, true, false, ◌||◌, not, ◌&&◌, Option,
  none, some, List, [], ◌∷◌, ◌++◌, map, Outcome, ok, err, ◌>>=◌, ℤ, pos, negsuc, length, get_or,
  set, replicate, ltb, leb, ◌==◌, if◌then◌else◌, str_eq,
}
use arp_spec.Common.Bits.{bit_at, one_shl, shr}

abbrev pub Bytes : Type 0
Bytes = List ℕ

-- MINIMUM_BITSTRING_SIZE, which is also DEFAULT_BITSTRING_SIZE
abbrev pub minimum_bitstring_size : ℕ
minimum_bitstring_size = 131072

-- the exceptions that the module raises, with what their message shows
pub data BitError : Type 0 where
  below_minimum : ℕ → BitError
  index_out_of_range : ℤ → ℕ → BitError
  bad_bit_value : ℤ → BitError
  length_mismatch : ℕ → ℕ → BitError
  base64url_failed gzip_failed : BitError

-- `bytearray(math.ceil(size / 8))`
unfoldable pub create_bitstring : ℕ → Outcome BitError Bytes
create_bitstring size =
    if ltb size minimum_bitstring_size
    then err (below_minimum size)
    else ok (replicate ((size + 7) / 8) 0)

-- Bit 0 is the most significant bit of byte 0.
unfoldable pub get_bit : Bytes → ℤ → Outcome BitError ℕ
get_bit raw (negsuc n) = err (index_out_of_range (negsuc n) (length raw * 8))
get_bit raw (pos index) =
    let total_bits = length raw * 8 in
    if leb total_bits index
    then err (index_out_of_range (pos index) total_bits)
    else ok (bit_at (get_or raw (index / 8) 0) (7 - index % 8))

-- `|= 1 << k` and `&= ~(1 << k)`: on a byte the mask `~m` is 255 - m
unfoldable pub put_bit : ℕ → ℕ → ℕ → ℕ
put_bit byte k zero = bit_and byte (255 - one_shl k)
put_bit byte k (suc _) = bit_or byte (one_shl k)

unfoldable pub set_bit : Bytes → ℤ → ℤ → Outcome BitError Bytes
set_bit raw index (negsuc n) = err (bad_bit_value (negsuc n))
set_bit raw (negsuc n) (pos value) =
    if ltb 1 value
    then err (bad_bit_value (pos value))
    else err (index_out_of_range (negsuc n) (length raw * 8))
set_bit raw (pos index) (pos value) =
    let total_bits = length raw * 8 in
    if ltb 1 value
    then err (bad_bit_value (pos value))
    else if leb total_bits index
    then err (index_out_of_range (pos index) total_bits)
    else ok (set raw (index / 8) (put_bit (get_or raw (index / 8) 0) (7 - index % 8) value))

-- bit index -> (old value, new value), in the order of insertion
abbrev pub Changes : Type 0
Changes = List (ℕ × (ℕ × ℕ))

-- the loop `for bit_offset in range(8)` over one byte
unfoldable pub diff_bits : ℕ → ℕ → ℕ → List ℕ → Changes
diff_bits byte_idx o n [] = []
diff_bits byte_idx o n (k ∷ ks) =
    let rest = diff_bits byte_idx o n ks in
    if bit_and (bit_xor o n) (one_shl (7 - k)) == 0
    then rest
    else (byte_idx * 8 + k, (bit_at o (7 - k), bit_at n (7 - k))) ∷ rest

abbrev pub range_eight : List ℕ
range_eight = 0 ∷ 1 ∷ 2 ∷ 3 ∷ 4 ∷ 5 ∷ 6 ∷ 7 ∷ []

-- the loop over the bytes, from `byte_idx` on
unfoldable pub diff_bytes : ℕ → Bytes → Bytes → Changes
diff_bytes byte_idx (o ∷ os) (n ∷ ns) =
    (if o == n then [] else diff_bits byte_idx o n range_eight) ++ diff_bytes (byte_idx + 1) os ns
diff_bytes byte_idx _ _ = []

unfoldable pub diff_bitstrings : Bytes → Bytes → Outcome BitError Changes
diff_bitstrings old_raw new_raw =
    if length old_raw == length new_raw
    then ok (diff_bytes 0 old_raw new_raw)
    else err (length_mismatch (length old_raw) (length new_raw))

-- the third part of the message of `validate_status_list_update`
pub data Reason : Type 0 where
  accepted no_bits_changed : Reason
  decode_error : BitError → Reason
  size_mismatch : ℕ → ℕ → Reason
  revocation_is_terminal : List ℕ → Reason

pub record Verdict : Type 0 where
  pub valid : Bool
  pub reason : Reason
  pub changes : Changes

-- `vals == (1, 0)`
abbrev pub is_reversal : ℕ × ℕ → Bool
is_reversal (o, n) = (o == 1) && (n == 0)

-- the keys of `reversals`; `diff_bitstrings` lists them in ascending order
unfoldable pub reversals : Changes → List ℕ
reversals [] = []
reversals ((i, vals) ∷ c) = let rest = reversals c in if is_reversal vals then i ∷ rest else rest

judge_reversals : Changes → List ℕ → Verdict
judge_reversals changes [] = record { valid = true; reason = accepted; changes = changes }
judge_reversals changes (i ∷ is) = record {
  valid = false;
  reason = revocation_is_terminal (i ∷ is);
  changes = changes;
}

unfoldable pub judge_changes : String → Changes → Verdict
unfolding judge_reversals
judge_changes status_purpose [] = record { valid = false; reason = no_bits_changed; changes = [] }
judge_changes status_purpose (c ∷ cs) =
    if str_eq status_purpose "revocation"
    then judge_reversals (c ∷ cs) (reversals (c ∷ cs))
    else record { valid = true; reason = accepted; changes = c ∷ cs }

-- the checks once both lists are decoded
unfoldable pub judge_update : Bytes → Bytes → String → Verdict
unfolding judge_changes
judge_update old_raw new_raw status_purpose =
    if length old_raw == length new_raw
    then judge_changes status_purpose (diff_bytes 0 old_raw new_raw)
    else record {
      valid = false;
      reason = size_mismatch (length old_raw) (length new_raw);
      changes = [];
    }
