-- ===== src/Bitstring/Reads.antt =====
-- Reading back a bit that `set_bit` of api/bitstring_status_list.py has written.
use arp_spec.Common.{
  ℕ, zero, suc, ◌-◌, ◌*◌, ◌/◌, ◌%◌, ◌<◌, ◌≡◌, refl, Bool, true, arith, ok, pos, length, All, get_or,
  ◌==◌, ==_iff, if◌then◌else◌, ltb, ltb_iff, set, Bool-cases, ℤ, length-set, inl, negsuc, ap, inr,
  get_or-set_self, leb, get_or-set_ne, get_or-All, All-set, replicate, err, ◌≤◌, ◌+◌,
  length-replicate, List, all, [], ◌∷◌,
}
use arp_spec.Common.Bits.{bit_at, one_shl, shr, bit_at-and, bit_at-or, bit_at-one_shl, shr-zero}
use arp_spec.Bitstring.{
  Bytes, get_bit, put_bit, set_bit, create_bitstring, minimum_bitstring_size, below_minimum,
}

-- every byte is below 256
abbrev pub AreBytes : Bytes → Type 0
AreBytes = All (λ b. b < 256)

-- the bit at an index, 0 beyond the end
abbrev pub bit_of : Bytes → ℕ → ℕ
bit_of raw i = bit_at (get_or raw (i / 8) 0) (7 - i % 8)

-- In range a read succeeds with the digit; any other index raises.
pub get_bit_in_range :
    (raw : Bytes) (i : ℕ) → i < length raw * 8 → get_bit raw (pos i) ≡ ok (bit_of raw i)
unfolding get_bit
get_bit_in_range raw i h = ground arith

-- the numbers below a bound, to test a property on each of them by evaluation
numbers : ℕ → List ℕ
numbers zero = []
numbers (suc top) = top ∷ numbers top

all-numbers :
    (top : ℕ) (holds : ℕ → Bool) (i : ℕ) → all holds (numbers top) ≡ true → i < top → holds i ≡ true
unfolding numbers
all-numbers zero holds i every inside = absurd (omega (arith, inside))
all-numbers (suc top) holds i every inside = elim (Bool-cases (i == top)) [
  | inl last ↦ let same = (==_iff i top).0 last in rw same (ground (arith, every))
  | inr other ↦ all-numbers top holds i (ground (arith, every)) (ground (arith, other, inside))
]

-- the digits of the mask `~(1 << k)` of a byte
abbrev mask_digit : ℕ → ℕ → Bool
mask_digit k j = bit_at (255 - one_shl k) j == (if j == k then 0 else 1)

mask_table : all (λ k. all (mask_digit k) (numbers 8)) (numbers 8) ≡ true
unfolding numbers one_shl shr
mask_table = refl

mask_digits : (k j : ℕ) → k < 8 → j < 8 → bit_at (255 - one_shl k) j ≡ (if j == k then 0 else 1)
mask_digits k j hk hj =
    (==_iff _ _).0 (all-numbers 8 (mask_digit k) j (all-numbers 8 _ k mask_table hk) hj)

bit_at-lt : (x k : ℕ) → bit_at x k < 2
bit_at-lt x k = omega arith

pub bit_at-put_bit :
    (byte k j v : ℕ)
    → k < 8
    → j < 8
    → v < 2
    → bit_at (put_bit byte k v) j ≡ (if j == k then v else bit_at byte j)
unfolding put_bit
bit_at-put_bit byte k j zero hk hj hv =
    ground (arith, bit_at-and byte (255 - one_shl k) j, mask_digits k j hk hj, bit_at-lt byte j)
bit_at-put_bit byte k j (suc zero) hk hj hv =
    ground (arith, bit_at-or byte (one_shl k) j, bit_at-one_shl k j, bit_at-lt byte j)
bit_at-put_bit byte k j (suc (suc v)) hk hj hv = absurd (omega arith)

abbrev byte_after : ℕ → ℕ → ℕ → Bool
byte_after v k byte = ltb (put_bit byte k v) 256

put_bit_table :
    (all (λ k. all (byte_after 0 k) (numbers 256)) (numbers 8) ≡ true)
    × (all (λ k. all (byte_after 1 k) (numbers 256)) (numbers 8) ≡ true)
unfolding numbers put_bit one_shl
put_bit_table = (refl, refl)

put_bit-lt : (byte k v : ℕ) → k < 8 → byte < 256 → v < 2 → put_bit byte k v < 256
put_bit-lt byte k zero hk hb hv =
    (ltb_iff _ _).0
      (all-numbers 256 (byte_after 0 k) byte (all-numbers 8 _ k put_bit_table.0 hk) hb)
put_bit-lt byte k (suc zero) hk hb hv =
    (ltb_iff _ _).0
      (all-numbers 256 (byte_after 1 k) byte (all-numbers 8 _ k put_bit_table.1 hk) hb)
put_bit-lt byte k (suc (suc v)) hk hb hv = absurd (omega arith)

-- the bytes that a write in range leaves
abbrev pub written : Bytes → ℕ → ℕ → Bytes
written raw i v = set raw (i / 8) (put_bit (get_or raw (i / 8) 0) (7 - i % 8) v)

pub set_bit_in_range :
    (raw : Bytes) (i v : ℕ)
    → i < length raw * 8
    → v < 2
    → set_bit raw (pos i) (pos v) ≡ ok (written raw i v)
unfolding set_bit
set_bit_in_range raw i v hi hv = ground arith

pub bit_of-written :
    (raw : Bytes) (i j v : ℕ)
    → i < length raw * 8
    → v < 2
    → bit_of (written raw i v) j ≡ (if j == i then v else bit_of raw j)
bit_of-written raw i j v hi hv = elim (Bool-cases (i / 8 == j / 8)) [
  | inl same ↦
      let e : i / 8 ≡ j / 8 = (==_iff _ _).0 same in
      ground (
        arith,
        ap (λ t. bit_at t (7 - j % 8))
            (get_or-set_self raw (i / 8) (put_bit (get_or raw (i / 8) 0) (7 - i % 8) v) 0
              (omega arith)),
        bit_at-put_bit (get_or raw (i / 8) 0) (7 - i % 8) (7 - j % 8) v (omega arith) (omega arith)
            hv,
      )
  | inr other ↦
      rw
        (get_or-set_ne raw (i / 8) (j / 8) (put_bit (get_or raw (i / 8) 0) (7 - i % 8) v) 0
          (ground arith))
        (ground arith)
]

-- A write in range succeeds, keeps the length, and makes the written index read as the value and
-- every other index read as before.
pub get_bit-set_bit :
    (raw : Bytes) (i j v : ℕ)
    → i < length raw * 8
    → v < 2
    → (raw' : Bytes) × (set_bit raw (pos i) (pos v) ≡ ok raw')
      × (length raw' ≡ length raw)
      × (get_bit raw' (pos j) ≡ (if j == i then ok v else get_bit raw (pos j)))
unfolding get_bit
get_bit-set_bit raw i j v hi hv = (
  written raw i v,
  set_bit_in_range raw i v hi hv,
  length-set raw (i / 8) (put_bit (get_or raw (i / 8) 0) (7 - i % 8) v),
  ground (
    arith,
    length-set raw (i / 8) (put_bit (get_or raw (i / 8) 0) (7 - i % 8) v),
    bit_of-written raw i j v hi hv,
  ),
)

-- What a successful write returns is again a list of bytes.
pub set_bit-AreBytes :
    (raw : Bytes) (i v : ℤ) {raw' : Bytes}
    → AreBytes raw
    → set_bit raw i v ≡ ok raw'
    → AreBytes raw'
unfolding set_bit
set_bit-AreBytes raw i (negsuc n) h e = cc
set_bit-AreBytes raw (negsuc n) (pos v) h e = ground arith
set_bit-AreBytes raw (pos i) (pos v) {raw' = raw'} h e = elim (Bool-cases (ltb 1 v)) [
  | inl big ↦ ground arith
  | inr small ↦ elim (Bool-cases (leb (length raw * 8) i)) [
    | inl out ↦ ground arith
    | inr inside ↦
        let byte_lt : get_or raw (i / 8) 0 < 256 = get_or-All _ raw (i / 8) 0 h (omega arith) in
        let new_lt : put_bit (get_or raw (i / 8) 0) (7 - i % 8) v < 256 =
          put_bit-lt (get_or raw (i / 8) 0) (7 - i % 8) v (omega arith) byte_lt (ground arith) in
        let same : written raw i v ≡ raw' = ground arith in
        rw same at (All-set (λ b. b < 256) raw (i / 8) _ h new_lt)
  ]
]

get_or-replicate : (n i : ℕ) → get_or {A = ℕ} (replicate n 0) i 0 ≡ 0
get_or-replicate zero i = refl
get_or-replicate (suc n) zero = refl
get_or-replicate (suc n) (suc i) = get_or-replicate n i

-- From the minimum size on, a new bitstring has room for every index below the size, and each of
-- them reads 0; a smaller size raises.
pub create_bitstring_zeros :
    (size : ℕ)
    → (size < minimum_bitstring_size → create_bitstring size ≡ err (below_minimum size))
      × (minimum_bitstring_size ≤ size
          → (raw : Bytes) × (create_bitstring size ≡ ok raw)
            × ((i : ℕ) → i < size → get_bit raw (pos i) ≡ ok 0))
unfolding create_bitstring
create_bitstring_zeros size = (
  λ small. rw ((ltb_iff _ _).1 small) refl,
  λ large. (
    replicate ((size + 7) / 8) 0,
    ground arith,
    λ i hi.
        let inside : i < length {A = ℕ} (replicate ((size + 7) / 8) 0) * 8 =
          omega (arith, length-replicate {A = ℕ} ((size + 7) / 8) 0) in
        ground (
          arith,
          get_bit_in_range (replicate ((size + 7) / 8) 0) i inside,
          ap (λ t. bit_at t (7 - i % 8)) (get_or-replicate ((size + 7) / 8) (i / 8)),
          shr-zero (7 - i % 8),
        ),
  ),
)
