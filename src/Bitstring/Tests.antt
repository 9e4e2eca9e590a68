-- ===== src/Bitstring/Tests.antt =====
-- Runs of the bitstring functions, and the theorems at concrete inputs.
use mathlib.Core.List.{append-nil}
use arp_spec.Common.{
  ℕ, zero, suc, ◌+◌, ◌-◌, ◌*◌, ◌/◌, ◌%◌, ◌≤◌, ◌<◌, String, ◌≡◌, refl, sym, ap, ◌≢◌, ◌↔◌, ◌⊎◌, inl,
  inr, Bool, true, false, not, ◌&&◌, ◌||◌, Option, none, some, List, [], ◌∷◌, ◌++◌, map, arith,
  length, get_or, All, any, all, ltb, leb, ◌==◌, if◌then◌else◌, ==_iff, ltb_iff, leb_iff,
  Bool-cases, Option-cases, Outcome, ok, err, ◌>>=◌, ◌>>◌, ℤ, pos, negsuc, subz, str_eq, eq_iff,
  false≢true,
}
use arp_spec.Bitstring.{
  Bytes, get_bit, set_bit, diff_bitstrings, judge_update, create_bitstring, below_minimum,
  minimum_bitstring_size, Verdict, accepted, diff_bytes, diff_bits, reversals,
}
use arp_spec.Bitstring.Reads.{get_bit-set_bit}
use arp_spec.Bitstring.Codec.{Codec, IsCodec, validate_status_list_update}
use arp_spec.Bitstring.Update.{IsAllowed, judge_update_iff}

-- bit 0 is the top bit of byte 0
set_first : set_bit (0 ∷ 1 ∷ []) (pos 0) (pos 1) ≡ ok (128 ∷ 1 ∷ [])
unfolding set_bit arp_spec.Bitstring.put_bit arp_spec.Common.Bits.one_shl
set_first = refl

clear_last : set_bit (128 ∷ 1 ∷ []) (pos 15) (pos 0) ≡ ok (128 ∷ 0 ∷ [])
unfolding set_bit arp_spec.Bitstring.put_bit arp_spec.Common.Bits.one_shl
clear_last = refl

diff_two : diff_bitstrings (0 ∷ 1 ∷ []) (128 ∷ 0 ∷ []) ≡ ok ((0, (0, 1)) ∷ (15, (1, 0)) ∷ [])
unfolding diff_bitstrings diff_bytes diff_bits arp_spec.Common.Bits.one_shl arp_spec.Common.Bits.shr
diff_two = refl

get_bit-set_bit_example :
    (raw' : Bytes) × (set_bit (0 ∷ 1 ∷ []) (pos 9) (pos 1) ≡ ok raw')
    × (length raw' ≡ 2)
    × (get_bit raw' (pos 3) ≡ (if 3 == 9 then ok 1 else get_bit (0 ∷ 1 ∷ []) (pos 3)))
get_bit-set_bit_example = get_bit-set_bit (0 ∷ 1 ∷ []) 9 3 1 (omega arith) (omega arith)

judge_update_iff_example :
    ((judge_update (0 ∷ []) (4 ∷ []) "revocation").valid ≡ true)
    ↔ IsAllowed (0 ∷ []) (4 ∷ []) "revocation"
judge_update_iff_example = judge_update_iff (0 ∷ []) (4 ∷ []) "revocation"

-- a codec over any alphabet without '=': four characters for a byte, and no compression
unfoldable pub four_of : Bytes → List ℕ
four_of [] = []
four_of (b ∷ bs) = (b + 100) ∷ 100 ∷ 100 ∷ 100 ∷ four_of bs

unfoldable pub four_back : List ℕ → Option Bytes
four_back [] = some []
four_back (c ∷ _ ∷ _ ∷ _ ∷ rest) = elim (four_back rest) [
  | none ↦ none
  | some bs ↦ some ((c - 100) ∷ bs)
]
four_back _ = none

four_back-four_of : (x : Bytes) → four_back (four_of x) ≡ some x
unfolding four_of four_back
four_back-four_of [] = refl
four_back-four_of (b ∷ bs) =
    let e : b + 100 - 100 ≡ b = omega arith in rw (four_back-four_of bs, e) refl

plain_four_of : (x : Bytes) → All (λ c. c ≢ b'=') (four_of x)
unfolding four_of
plain_four_of [] = tt
plain_four_of (b ∷ bs) =
    (omega arith, (omega arith, (omega arith, (omega arith, plain_four_of bs))))

length-four_of : (x : Bytes) → length (four_of x) % 4 ≡ 0
unfolding four_of
length-four_of [] = refl
length-four_of (b ∷ bs) = omega (arith, length-four_of bs)

abbrev pub plain_codec : Codec
plain_codec = record {
  b64encode = four_of;
  b64decode = four_back;
  compress = λ x. x;
  decompress = λ x. some x;
}

pub plain_codec-IsCodec : IsCodec plain_codec
plain_codec-IsCodec = record {
  b64_inverse = four_back-four_of;
  gzip_inverse = λ x. refl;
  b64_padded = λ x. record {
    body = four_of x;
    count = 0;
    parts = sym (append-nil (four_of x));
    plain = plain_four_of x;
    short = omega arith;
    whole = omega (arith, length-four_of x);
  };
}

accepts_new_revocation :
    (validate_status_list_update plain_codec
      (four_of (0 ∷ []))
      (four_of (4 ∷ []))
      "revocation").valid
    ≡ true
unfolding validate_status_list_update four_of four_back diff_bytes diff_bits reversals
    arp_spec.Common.Bits.one_shl arp_spec.Common.Bits.shr
accepts_new_revocation = refl
