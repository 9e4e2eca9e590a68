-- ===== src/Bitstring/Diff.antt =====
-- `diff_bitstrings` of api/bitstring_status_list.py: which entries its dict holds.
use arp_spec.Common.{
  ℕ, suc, ◌+◌, ◌-◌, ◌*◌, ◌/◌, ◌%◌, ◌<◌, ◌≡◌, refl, ◌≢◌, inl, inr, Bool, true, false, ◌||◌, Option,
  none, some, List, [], ◌∷◌, ◌++◌, arith, length, All, ltb, ◌==◌, if◌then◌else◌, ==_iff, Bool-cases,
  ok,
}
use arp_spec.Common.Bits.{bit_at, one_shl, bit_at-xor, bit_and-one_shl, one_shl_pos}
use arp_spec.Bitstring.{
  Bytes, Changes, diff_bits, diff_bytes, diff_bitstrings, range_eight, bit_and, bit_xor,
}
use arp_spec.Bitstring.Reads.{bit_of}

-- `changes.get(i)`
abbrev pub change_at : ℕ → Changes → Option (ℕ × ℕ)
change_at i [] = none
change_at i ((j, vals) ∷ c) = if j == i then some vals else change_at i c

change_at-append :
    (i : ℕ) (c d : Changes)
    → change_at i (c ++ d) ≡ elim (change_at i c) [ none ↦ change_at i d | some v ↦ some v ]
change_at-append i [] d = refl
change_at-append i ((j, vals) ∷ c) d = ground (arith, change_at-append i c d)

-- what a reader of both bitstrings expects at an index
abbrev pub expected_change : Bytes → Bytes → ℕ → Option (ℕ × ℕ)
expected_change os ns i =
    if bit_of os i == bit_of ns i then none else some (bit_of os i, bit_of ns i)

abbrev digit_change : ℕ → ℕ → ℕ → Option (ℕ × ℕ)
digit_change o n k = if bit_at o k == bit_at n k then none else some (bit_at o k, bit_at n k)

-- the test of the inner loop passes exactly where the digits differ
xor_test : (o n k : ℕ) → (bit_and (bit_xor o n) (one_shl k) == 0) ≡ (bit_at o k == bit_at n k)
xor_test o n k = grind (arith, bit_and-one_shl (bit_xor o n) k, bit_at-xor o n k, one_shl_pos k)

mem_of : ℕ → List ℕ → Bool
mem_of m [] = false
mem_of m (k ∷ ks) = k == m || mem_of m ks

change_at-diff_bits :
    (b o n m : ℕ) (ks : List ℕ)
    → change_at (b * 8 + m) (diff_bits b o n ks)
      ≡ (if mem_of m ks then digit_change o n (7 - m) else none)
unfolding diff_bits mem_of
change_at-diff_bits b o n m [] = refl
change_at-diff_bits b o n m (k ∷ ks) =
    ground (arith, xor_test o n (7 - k), change_at-diff_bits b o n m ks)

-- the entries of one byte lie in its range
change_at-diff_bits_other :
    (b o n i : ℕ) (ks : List ℕ)
    → All (λ k. k < 8) ks
    → i / 8 ≢ b
    → change_at i (diff_bits b o n ks) ≡ none
unfolding diff_bits
change_at-diff_bits_other b o n i [] h e = refl
change_at-diff_bits_other b o n i (k ∷ ks) h e =
    ground (arith, change_at-diff_bits_other b o n i ks h.1 e)

mem_of-range_eight : (m : ℕ) → m < 8 → mem_of m range_eight ≡ true
unfolding mem_of
mem_of-range_eight m h = ground arith

-- the part of one byte, with the shortcut for equal bytes
change_at_byte :
    (b o n i : ℕ)
    → change_at i (if o == n then [] else diff_bits b o n range_eight)
      ≡ (if i / 8 == b then digit_change o n (7 - i % 8) else none)
change_at_byte b o n i = elim (Bool-cases (o == n)) [
  | inl same ↦ rw same (let e : o ≡ n = (==_iff _ _).0 same in rw e (ground arith))
  | inr other ↦ rw other (elim (Bool-cases (i / 8 == b)) [
    | inl here ↦
        let e : b * 8 + i % 8 ≡ i = ground arith in
        let found = rw e at (change_at-diff_bits b o n (i % 8) range_eight) in
        ground (arith, found, mem_of-range_eight (i % 8) (omega arith))
    | inr away ↦
        rw away (change_at-diff_bits_other b o n i range_eight (omega arith) (ground arith))
  ])
]

change_at-diff_bytes_below :
    (b : ℕ) (os ns : Bytes) (i : ℕ) → i < b * 8 → change_at i (diff_bytes b os ns) ≡ none
unfolding diff_bytes
change_at-diff_bytes_below b [] ns i h = refl
change_at-diff_bytes_below b (o ∷ os) [] i h = refl
change_at-diff_bytes_below b (o ∷ os) (n ∷ ns) i h = ground (
  arith,
  change_at-append i (if o == n then [] else diff_bits b o n range_eight)
      (diff_bytes (b + 1) os ns),
  change_at_byte b o n i,
  change_at-diff_bytes_below (b + 1) os ns i (omega arith),
)

expected-cons :
    (o n : ℕ) (os ns : Bytes) (i : ℕ)
    → expected_change (o ∷ os) (n ∷ ns) (i + 8) ≡ expected_change os ns i
expected-cons o n os ns i =
    let d : (i + 8) / 8 ≡ suc (i / 8) = omega arith in
    let m : (i + 8) % 8 ≡ i % 8 = omega arith in rw (d, m) refl

-- the first eight indices belong to the first byte
change_at_first :
    (b o n : ℕ) (os ns : Bytes) (i : ℕ)
    → i < 8
    → change_at (b * 8 + i) (diff_bytes b (o ∷ os) (n ∷ ns)) ≡ expected_change (o ∷ os) (n ∷ ns) i
unfolding diff_bytes
change_at_first b o n os ns i h =
    let z : i / 8 ≡ 0 = omega arith in
    let same_bit : (b * 8 + i) % 8 ≡ i % 8 = omega arith in
    let first_byte = rw same_bit at (change_at_byte b o n (b * 8 + i)) in
    rw z (
      ground (
        arith,
        change_at-append (b * 8 + i) (if o == n then [] else diff_bits b o n range_eight)
            (diff_bytes (b + 1) os ns),
        first_byte,
        change_at-diff_bytes_below (b + 1) os ns (b * 8 + i) (omega arith),
      ))

change_at-diff_bytes :
    (b : ℕ) (os ns : Bytes) (i : ℕ)
    → length os ≡ length ns
    → change_at (b * 8 + i) (diff_bytes b os ns) ≡ expected_change os ns i
unfolding diff_bytes
change_at-diff_bytes b [] [] i e = ground arith
change_at-diff_bytes b [] (n ∷ ns) i e = absurd (omega arith)
change_at-diff_bytes b (o ∷ os) [] i e = absurd (omega arith)
change_at-diff_bytes b (o ∷ os) (n ∷ ns) i e = elim (Bool-cases (ltb i 8)) [
  | inl first ↦ change_at_first b o n os ns i (ground arith)
  | inr later ↦
      let back : i - 8 + 8 ≡ i = ground arith in
      let place : (b + 1) * 8 + (i - 8) ≡ b * 8 + i = ground arith in
      let rest = rw place at (change_at-diff_bytes (b + 1) os ns (i - 8) (omega arith)) in
      ground (
        arith,
        change_at-append (b * 8 + i) (if o == n then [] else diff_bits b o n range_eight)
            (diff_bytes (b + 1) os ns),
        change_at_byte b o n (b * 8 + i),
        rest,
        rw back at (expected-cons o n os ns (i - 8)),
      )
]

pub change_at-diff :
    (old new : Bytes) (i : ℕ)
    → length old ≡ length new
    → change_at i (diff_bytes 0 old new) ≡ expected_change old new i
change_at-diff old new i e =
    let start : 0 * 8 + i ≡ i = omega arith in rw start at (change_at-diff_bytes 0 old new i e)

-- For bitstrings of one length `diff_bitstrings` succeeds, and its dict holds at each index the old
-- and the new value where they differ, and nothing elsewhere.
change_at-diff_bitstrings :
    (old new : Bytes)
    → length old ≡ length new
    → (changes : Changes) × (diff_bitstrings old new ≡ ok changes)
      × ((i : ℕ) → change_at i changes ≡ expected_change old new i)
unfolding diff_bitstrings
change_at-diff_bitstrings old new e =
    (diff_bytes 0 old new, ground arith, λ i. change_at-diff old new i e)
