-- ===== src/Bitstring/Update.antt =====
-- `validate_status_list_update` of api/bitstring_status_list.py accepts exactly the updates that
-- the protocol allows.
use arp_spec.Common.{
  ℕ, suc, ◌+◌, ◌*◌, ◌≤◌, String, ◌≡◌, refl, ap, ◌≢◌, inl, inr, some, List, [], ◌∷◌, ◌++◌, arith,
  length, ◌==◌, if◌then◌else◌, Bool-cases, true, str_eq, eq_iff, ◌↔◌, ==_iff, Outcome, ok, err,
}
use arp_spec.Bitstring.{
  Bytes, Changes, diff_bits, diff_bytes, range_eight, reversals, is_reversal, judge_changes,
  judge_update, judge_reversals, BitError,
}
use arp_spec.Bitstring.Codec.{Codec, judge_decoded, decode_bitstring, validate_status_list_update}
use arp_spec.Bitstring.Reads.{bit_of}
use arp_spec.Bitstring.Diff.{change_at, change_at-diff}

-- keys in ascending order, from `lo` to below `hi`
abbrev IsBetween : ℕ → ℕ → Changes → Type 0
IsBetween lo hi [] = lo ≤ hi
IsBetween lo hi ((i, _) ∷ c) = (lo ≤ i) × IsBetween (i + 1) hi c

IsBetween-weaken : (lo lo' hi : ℕ) (c : Changes) → lo ≤ lo' → IsBetween lo' hi c → IsBetween lo hi c
IsBetween-weaken lo lo' hi [] h b = omega arith
IsBetween-weaken lo lo' hi ((i, _) ∷ c) h b = (omega arith, b.1)

IsBetween-append :
    (lo mid hi : ℕ) (c d : Changes)
    → IsBetween lo mid c
    → IsBetween mid hi d
    → IsBetween lo hi (c ++ d)
IsBetween-append lo mid hi [] d h k = IsBetween-weaken lo mid hi d h k
IsBetween-append lo mid hi ((i, _) ∷ c) d h k = (h.0, IsBetween-append (i + 1) mid hi c d h.1 k)

IsBetween-le : (lo hi : ℕ) (c : Changes) → IsBetween lo hi c → lo ≤ hi
IsBetween-le lo hi [] h = h
IsBetween-le lo hi ((i, _) ∷ c) h = omega (arith, IsBetween-le (i + 1) hi c h.1)

abbrev IsUp : ℕ → List ℕ → Type 0
IsUp lo [] = lo ≤ 8
IsUp lo (k ∷ ks) = (lo ≤ k) × IsUp (k + 1) ks

diff_bits-IsBetween :
    (b o n lo : ℕ) (ks : List ℕ)
    → IsUp lo ks
    → IsBetween (b * 8 + lo) ((b + 1) * 8) (diff_bits b o n ks)
unfolding diff_bits
diff_bits-IsBetween b o n lo [] h = omega arith
diff_bits-IsBetween b o n lo (k ∷ ks) h =
    let shift : b * 8 + (k + 1) ≡ b * 8 + k + 1 = omega arith in
    let rest = rw shift at (diff_bits-IsBetween b o n (k + 1) ks h.1) in
    ground (
      arith,
      rest,
      IsBetween-weaken (b * 8 + lo) (b * 8 + k + 1) ((b + 1) * 8) (diff_bits b o n ks) (omega arith)
          rest,
    )

byte-IsBetween :
    (b o n : ℕ)
    → IsBetween (b * 8) ((b + 1) * 8) (if o == n then [] else diff_bits b o n range_eight)
byte-IsBetween b o n =
    let start : b * 8 + 0 ≡ b * 8 = omega arith in
    let bits = rw start at (diff_bits-IsBetween b o n 0 range_eight (omega arith)) in
    elim (Bool-cases (o == n)) [ inl e ↦ rw e (omega arith) | inr e ↦ rw e bits ]

diff_bytes-IsBetween :
    (b : ℕ) (os ns : Bytes) → IsBetween (b * 8) ((b + length os) * 8) (diff_bytes b os ns)
unfolding diff_bytes
diff_bytes-IsBetween b [] ns = omega arith
diff_bytes-IsBetween b (o ∷ os) [] = omega arith
diff_bytes-IsBetween b (o ∷ os) (n ∷ ns) =
    let last : b + 1 + length os ≡ b + suc (length os) = omega arith in
    IsBetween-append (b * 8) ((b + 1) * 8) ((b + suc (length os)) * 8)
      (if o == n then [] else diff_bits b o n range_eight) (diff_bytes (b + 1) os ns)
      (byte-IsBetween b o n) (rw last at (diff_bytes-IsBetween (b + 1) os ns))

reversal_at :
    (lo hi : ℕ) (c : Changes) {i : ℕ} {is : List ℕ}
    → IsBetween lo hi c
    → reversals c ≡ i ∷ is
    → (lo ≤ i) × (change_at i c ≡ some (1, 0))
unfolding reversals
reversal_at lo hi [] h e = cc
reversal_at lo hi ((j, (o, n)) ∷ c) {i = i} {is = is} h e = elim (Bool-cases (is_reversal (o, n))) [
  | inl yes' ↦ ground arith
  | inr no' ↦ ground (arith, reversal_at (j + 1) hi c {i = i} {is = is} h.1)
]

no_reversal : (c : Changes) (i : ℕ) → reversals c ≡ [] → change_at i c ≢ some (1, 0)
unfolding reversals
no_reversal [] i e = ground arith
no_reversal ((j, (o, n)) ∷ c) i e = ground (arith, no_reversal c i)

-- What an update must satisfy: one length, some bit changed, and a set bit stays set in a list for
-- revocation.
pub record IsAllowed (old new : Bytes) (status_purpose : String) : Type 0 where
  pub same_length : length old ≡ length new
  pub changed : (i : ℕ) × (bit_of old i ≢ bit_of new i)
  pub terminal : status_purpose ≡ "revocation" → (i : ℕ) → bit_of old i ≡ 1 → bit_of new i ≡ 1

changed_index :
    (old new : Bytes)
    → length old ≡ length new
    → diff_bytes 0 old new ≢ []
    → (i : ℕ) × (bit_of old i ≢ bit_of new i)
changed_index old new e ne = first (diff_bytes 0 old new) refl
  where
    first : (c : Changes) → diff_bytes 0 old new ≡ c → (i : ℕ) × (bit_of old i ≢ bit_of new i)
    first [] eq = absurd (ne eq)
    first ((i, v) ∷ c) eq =
        (i, λ same. ground (arith, change_at-diff old new i e, ap (change_at i) eq))

no_change :
    (old new : Bytes) (i : ℕ)
    → length old ≡ length new
    → diff_bytes 0 old new ≡ []
    → bit_of old i ≡ bit_of new i
no_change old new i e none_changed =
    ground (arith, change_at-diff old new i e, ap (change_at i) none_changed)

stays_set :
    (old new : Bytes) (i : ℕ)
    → length old ≡ length new
    → reversals (diff_bytes 0 old new) ≡ []
    → bit_of old i ≡ 1
    → bit_of new i ≡ 1
stays_set old new i e none_reversed one =
    ground (arith, change_at-diff old new i e, no_reversal (diff_bytes 0 old new) i none_reversed)

judge_changes_sound :
    (p : String) (c : Changes)
    → (judge_changes p c).valid ≡ true
    → (c ≢ []) × (p ≡ "revocation" → reversals c ≡ [])
unfolding judge_changes
judge_changes_sound p [] h = cc
judge_changes_sound p (x ∷ xs) h =
    (λ e. cc, λ is_rev. empty (reversals (x ∷ xs)) (rw ((eq_iff p "revocation").1 is_rev) at h))
  where
    empty : (r : List ℕ) → (judge_reversals (x ∷ xs) r).valid ≡ true → r ≡ []
    empty [] k = refl
    empty (i ∷ is) k = cc

judge_changes_complete :
    (p : String) (c : Changes)
    → c ≢ []
    → (p ≡ "revocation" → reversals c ≡ [])
    → (judge_changes p c).valid ≡ true
unfolding judge_changes
judge_changes_complete p [] ne h = absurd (ne refl)
judge_changes_complete p (x ∷ xs) ne h = elim (Bool-cases (str_eq p "revocation")) [
  | inl is_rev ↦ rw (is_rev, h ((eq_iff p "revocation").0 is_rev)) refl
  | inr other ↦ rw other refl
]

none_reversed :
    (old new : Bytes)
    → length old ≡ length new
    → ((i : ℕ) → bit_of old i ≡ 1 → bit_of new i ≡ 1)
    → reversals (diff_bytes 0 old new) ≡ []
none_reversed old new e keep = empty (reversals (diff_bytes 0 old new)) refl
  where
    empty : (r : List ℕ) → reversals (diff_bytes 0 old new) ≡ r → r ≡ []
    empty [] eq = refl
    empty (i ∷ is) eq =
        let at_i =
          (reversal_at (0 * 8) ((0 + length old) * 8) (diff_bytes 0 old new) {i = i} {is = is}
            (diff_bytes-IsBetween 0 old new) eq).1 in
        absurd (ground (arith, at_i, change_at-diff old new i e, keep i))

-- Two decoded bitstrings pass the check exactly if they have one length, some bit differs, and, in
-- a list for revocation, every bit that is set in the old one is set in the new one.
pub judge_update_iff :
    (old new : Bytes) (p : String) → ((judge_update old new p).valid ≡ true) ↔ IsAllowed old new p
unfolding judge_update
judge_update_iff old new p = (
  λ h. elim (Bool-cases (length old == length new)) [
    | inl same ↦
        let e = (==_iff _ _).0 same in
        let (ne, rev) = judge_changes_sound p (diff_bytes 0 old new) (rw same at h) in
        record {
          same_length = e;
          changed = changed_index old new e ne;
          terminal = λ is_rev i. stays_set old new i e (rev is_rev);
        }
    | inr differ ↦ cc (differ, h)
  ],
  λ a. rw ((==_iff _ _).1 a.same_length) (
      judge_changes_complete p (diff_bytes 0 old new)
        (λ none_changed. a.changed.1 (no_change old new a.changed.0 a.same_length none_changed))
        (λ is_rev. none_reversed old new a.same_length (a.terminal is_rev))),
)

judge_decoded_sound :
    (r s : Outcome BitError Bytes) (p : String)
    → (judge_decoded r s p).valid ≡ true
    → (old new : Bytes) × (r ≡ ok old) × (s ≡ ok new) × IsAllowed old new p
unfolding judge_decoded
judge_decoded_sound (err e) s p h = cc
judge_decoded_sound (ok old) (err e) p h = cc
judge_decoded_sound (ok old) (ok new) p h = (old, new, refl, refl, (judge_update_iff old new p).0 h)

-- An update that `validate_status_list_update` accepts decodes on both sides, keeps the length,
-- changes some bit, and in a list for revocation clears none.
pub validate_status_list_update_sound :
    (z : Codec) (old_encoded new_encoded : List ℕ) (p : String)
    → (validate_status_list_update z old_encoded new_encoded p).valid ≡ true
    → (old new : Bytes) × (decode_bitstring z old_encoded ≡ ok old)
      × (decode_bitstring z new_encoded ≡ ok new)
      × IsAllowed old new p
unfolding validate_status_list_update
validate_status_list_update_sound z old_encoded new_encoded p h =
    judge_decoded_sound (decode_bitstring z old_encoded) (decode_bitstring z new_encoded) p h
