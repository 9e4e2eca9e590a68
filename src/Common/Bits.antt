-- ===== src/Common/Bits.antt =====
-- Binary digits: `x >> k & 1` and `1 << k`, and what `&`, `|` and `^` do to each digit.
use Prim.Native.Nat.{
  ℕ, zero, suc, ◌+◌, ◌-◌, ◌*◌, ◌/◌, ◌%◌, ◌≤◌, ◌<◌, min, max, bit_and, bit_or, bit_xor, digits,
  bitwise, differ, bit_and-bitwise, bit_or-bitwise, bit_xor-bitwise,
}
use mathlib.Core.Path.{◌≡◌, refl, ap, sym, ◌∙◌}
use native.Mathlib.Omega.{arith}
use arp_spec.Common.Tests.{◌==◌, if◌then◌else◌}

-- `x >> k`
unfoldable pub shr : ℕ → ℕ → ℕ
shr x zero = x
shr x (suc k) = shr (x / 2) k

-- `(x >> k) & 1`
abbrev pub bit_at : ℕ → ℕ → ℕ
bit_at x k = shr x k % 2

-- `1 << k`
unfoldable pub one_shl : ℕ → ℕ
one_shl zero = 1
one_shl (suc k) = 2 * one_shl k

-- The recursion on digits with fuel n, once the value is 0, has only `z` left to apply.
digits_of_zero : (z : ℕ → ℕ) (f : ℕ → ℕ → ℕ) (n b : ℕ) → digits z f n 0 b ≡ z b
digits_of_zero z f zero b = refl
digits_of_zero z f (suc n) b = refl

-- Fuel beyond the value changes nothing.
digits_spare :
    (z : ℕ → ℕ) (f : ℕ → ℕ → ℕ) (spare n a b : ℕ)
    → a ≤ n
    → digits z f (spare + n) a b ≡ digits z f n a b
digits_spare z f spare n zero b enough =
    digits_of_zero z f (spare + n) b ∙ sym (digits_of_zero z f n b)
digits_spare z f spare zero (suc a) b enough = absurd (omega (arith, enough))
digits_spare z f spare (suc n) (suc a) b enough =
    let tail = digits_spare z f spare n (suc a / 2) (b / 2) (omega (arith, enough)) in
    let fuel : spare + suc n ≡ suc (spare + n) = omega arith in
    rw fuel (ap (λ t. t * 2 + f (suc a % 2) (b % 2)) tail)

-- The lowest digit of an operation, for one that agrees with its own base case.
lowest_digit :
    (z : ℕ → ℕ) (f : ℕ → ℕ → ℕ) (a b : ℕ)
    → z b ≡ z (b / 2) * 2 + f 0 (b % 2)
    → bitwise z f a b ≡ bitwise z f (a / 2) (b / 2) * 2 + f (a % 2) (b % 2)
lowest_digit z f zero b base = base
lowest_digit z f (suc a) b base =
    let half = suc a / 2 in
    let fuel : a - half + half ≡ a = omega arith in
    let spare = digits_spare z f (a - half) half half (b / 2) (omega arith) in
    ap (λ t. t * 2 + f (suc a % 2) (b % 2)) (rw fuel at spare)

bit_and_lowest : (a b : ℕ) → bit_and a b ≡ bit_and (a / 2) (b / 2) * 2 + min (a % 2) (b % 2)
bit_and_lowest a b =
    let base = lowest_digit (λ _. 0) min a b (omega arith) in
    rw (bit_and-bitwise a b, bit_and-bitwise (a / 2) (b / 2)) base

bit_or_lowest : (a b : ℕ) → bit_or a b ≡ bit_or (a / 2) (b / 2) * 2 + max (a % 2) (b % 2)
bit_or_lowest a b =
    let base = lowest_digit (λ b. b) max a b (omega arith) in
    rw (bit_or-bitwise a b, bit_or-bitwise (a / 2) (b / 2)) base

bit_xor_lowest : (a b : ℕ) → bit_xor a b ≡ bit_xor (a / 2) (b / 2) * 2 + differ (a % 2) (b % 2)
bit_xor_lowest a b =
    let base = lowest_digit (λ b. b) differ a b (omega arith) in
    rw (bit_xor-bitwise a b, bit_xor-bitwise (a / 2) (b / 2)) base

differ-bit : (x y : ℕ) → x < 2 → y < 2 → differ x y ≡ (x + y) % 2
differ-bit zero zero p q = refl
differ-bit zero (suc zero) p q = refl
differ-bit zero (suc (suc y)) p q = absurd (omega arith)
differ-bit (suc zero) zero p q = refl
differ-bit (suc zero) (suc zero) p q = refl
differ-bit (suc zero) (suc (suc y)) p q = absurd (omega arith)
differ-bit (suc (suc x)) y p q = absurd (omega arith)

bit_xor_digit : (a b : ℕ) → bit_xor a b ≡ bit_xor (a / 2) (b / 2) * 2 + (a % 2 + b % 2) % 2
bit_xor_digit a b =
    omega (arith, bit_xor_lowest a b, differ-bit (a % 2) (b % 2) (omega arith) (omega arith))

pub bit_at-and : (a b k : ℕ) → bit_at (bit_and a b) k ≡ min (bit_at a k) (bit_at b k)
unfolding shr
bit_at-and a b zero = omega (arith, bit_and_lowest a b)
bit_at-and a b (suc k) =
    let e : bit_and a b / 2 ≡ bit_and (a / 2) (b / 2) = omega (arith, bit_and_lowest a b) in
    rw e (bit_at-and (a / 2) (b / 2) k)

pub bit_at-or : (a b k : ℕ) → bit_at (bit_or a b) k ≡ max (bit_at a k) (bit_at b k)
unfolding shr
bit_at-or a b zero = omega (arith, bit_or_lowest a b)
bit_at-or a b (suc k) =
    let e : bit_or a b / 2 ≡ bit_or (a / 2) (b / 2) = omega (arith, bit_or_lowest a b) in
    rw e (bit_at-or (a / 2) (b / 2) k)

pub bit_at-xor : (a b k : ℕ) → bit_at (bit_xor a b) k ≡ (bit_at a k + bit_at b k) % 2
unfolding shr
bit_at-xor a b zero = omega (arith, bit_xor_digit a b)
bit_at-xor a b (suc k) =
    let e : bit_xor a b / 2 ≡ bit_xor (a / 2) (b / 2) = omega (arith, bit_xor_digit a b) in
    rw e (bit_at-xor (a / 2) (b / 2) k)

pub shr-zero : (k : ℕ) → shr 0 k ≡ 0
unfolding shr
shr-zero zero = refl
shr-zero (suc k) = shr-zero k

bit_at_one : (j : ℕ) → bit_at 1 j ≡ (if j == 0 then 1 else 0)
unfolding shr
bit_at_one zero = refl
bit_at_one (suc j) = rw (shr-zero j) (ground arith)

pub bit_at-one_shl : (k j : ℕ) → bit_at (one_shl k) j ≡ (if j == k then 1 else 0)
unfolding one_shl shr
bit_at-one_shl zero j = bit_at_one j
bit_at-one_shl (suc k) zero = ground arith
bit_at-one_shl (suc k) (suc j) =
    let e : 2 * one_shl k / 2 ≡ one_shl k = omega arith in rw e (ground (arith, bit_at-one_shl k j))

bit_and_nothing : (a : ℕ) → bit_and a 0 ≡ 0
bit_and_nothing a = below a a (omega arith)
  where
    below : (bound a : ℕ) → a ≤ bound → bit_and a 0 ≡ 0
    below bound zero h = refl
    below zero (suc a) h = absurd (omega (arith, h))
    below (suc bound) (suc a) h =
        let rest = below bound (suc a / 2) (omega (arith, h)) in
        omega (arith, bit_and_lowest (suc a) 0, rest)

-- `x & (1 << k)` is the digit in its place, so it is falsy exactly if the digit is 0.
pub bit_and-one_shl : (x k : ℕ) → bit_and x (one_shl k) ≡ bit_at x k * one_shl k
unfolding one_shl shr
bit_and-one_shl x zero = omega (arith, bit_and_lowest x 1, bit_and_nothing (x / 2))
bit_and-one_shl x (suc k) =
    let e : 2 * one_shl k / 2 ≡ one_shl k = omega arith in
    let half : bit_and (x / 2) (2 * one_shl k / 2) ≡ bit_at (x / 2) k * one_shl k =
      rw e (bit_and-one_shl (x / 2) k) in
    grind (arith, bit_and_lowest x (2 * one_shl k), half)

pub one_shl_pos : (k : ℕ) → 0 < one_shl k
unfolding one_shl
one_shl_pos zero = omega arith
one_shl_pos (suc k) = omega (arith, one_shl_pos k)
