-- ===== src/Merkle/Binding.antt =====
-- What an accepted proof of api/merkle_tree.py binds: two different digests that pass with the same
-- positions and the same root give a collision of SHA-256.
use arp_spec.Common.{
  zero, suc, ℕ, ◌≡◌, refl, ap, ◌≢◌, ◌⊎◌, inl, inr, List, [], ◌∷◌, ◌++◌, arith, length, All,
  Bool-cases, true, some, suc, ◌∙◌, sym, Option-cases, ok, Option, none,
}
use arp_spec.Merkle.{
  Digest, digest_eq, Step, Position, left, right, hash_pair, fold_step, fold_proof, verify_proof,
  climb, next_level, pad_odd, compute_root, build_tree,
}
use arp_spec.Merkle.Complete.{digest_eq_sound, digest_eq_refl, pad_odd_idem, climb_total, Climbed}

-- two inputs with one digest
pub record Collision (sha256 : List ℕ → Digest) : Type 0 where
  pub first : List ℕ
  pub second : List ℕ
  pub differ : first ≢ second
  pub collide : sha256 first ≡ sha256 second

abbrev pub positions : List Step → List Position
positions [] = []
positions (s ∷ p) = s.position ∷ positions p

-- every sibling hash of the proof has the length of a digest
abbrev pub AreDigests : List Step → Type 0
AreDigests = All (λ s. length s.hash ≡ 32)

append-inj : (a b c d : List ℕ) → length a ≡ length c → a ++ b ≡ c ++ d → (a ≡ c) × (b ≡ d)
append-inj [] b [] d e h = (refl, h)
append-inj [] b (y ∷ c) d e h = absurd (omega arith)
append-inj (x ∷ a) b [] d e h = absurd (omega arith)
append-inj (x ∷ a) b (y ∷ c) d e h = ground (arith, append-inj a b c d)

digest_cases : (x y : Digest) → (x ≡ y) ⊎ (x ≢ y)
digest_cases x y = elim (Bool-cases (digest_eq x y)) [
  | inl same ↦ inl (digest_eq_sound x y same)
  | inr other ↦ inr (λ e. ground (arith, ap (digest_eq x) e, digest_eq_refl x))
]

module _ (sha256 : List ℕ → Digest) where
  hash_pair_binds :
      (a b c d : Digest)
      → length a ≡ length c
      → hash_pair sha256 a b ≡ hash_pair sha256 c d
      → ((a ≡ c) × (b ≡ d)) ⊎ Collision sha256
  unfolding hash_pair
  hash_pair_binds a b c d e h = elim (digest_cases (a ++ b) (c ++ d)) [
    | inl same ↦ inl (append-inj a b c d e same)
    | inr other ↦ inr (record { first = a ++ b; second = c ++ d; differ = other; collide = h })
  ]

  fold_step_binds :
      (x y : Digest) (s t : Step)
      → length x ≡ length y
      → length s.hash ≡ length t.hash
      → s.position ≡ t.position
      → fold_step sha256 x s ≡ fold_step sha256 y t
      → (x ≡ y) ⊎ Collision sha256
  unfolding fold_step
  fold_step_binds x y s t e k p h = by_position s.position t.position refl refl p
    where
      by_position :
          (q r : Position) → s.position ≡ q → t.position ≡ r → q ≡ r → (x ≡ y) ⊎ Collision sha256
      by_position left left es et _ =
          elim (hash_pair_binds s.hash x t.hash y k (rw (es, et) at h)) [
            | inl same ↦ inl same.1
            | inr c ↦ inr c
          ]
      by_position right right es et _ =
          elim (hash_pair_binds x s.hash y t.hash e (rw (es, et) at h)) [
            | inl same ↦ inl same.0
            | inr c ↦ inr c
          ]
      by_position left right es et pe = cc
      by_position right left es et pe = cc

  module _ (digest_length : (x : List ℕ) → length (sha256 x) ≡ 32) where
    length-fold_step : (x : Digest) (s : Step) → length (fold_step sha256 x s) ≡ 32
    unfolding fold_step hash_pair
    length-fold_step x s = by_position s.position refl
      where
        by_position : (q : Position) → s.position ≡ q → length (fold_step sha256 x s) ≡ 32
        by_position left e = rw e (digest_length (s.hash ++ x))
        by_position right e = rw e (digest_length (x ++ s.hash))

    fold_proof_binds :
        (p q : List Step) (x y : Digest)
        → length x ≡ length y
        → AreDigests p
        → AreDigests q
        → positions p ≡ positions q
        → fold_proof sha256 x p ≡ fold_proof sha256 y q
        → (x ≡ y) ⊎ Collision sha256
    unfolding fold_proof
    fold_proof_binds [] [] x y e dp dq ps h = inl h
    fold_proof_binds [] (t ∷ q) x y e dp dq ps h = cc
    fold_proof_binds (s ∷ p) [] x y e dp dq ps h = cc
    fold_proof_binds (s ∷ p) (t ∷ q) x y e dp dq ps h =
        let fx = fold_step sha256 x s in
        let fy = fold_step sha256 y t in
        elim (fold_proof_binds p q fx fy (omega (arith, length-fold_step x s, length-fold_step y t))
          dp.1 dq.1 (cc) h) [
            | inl same ↦ fold_step_binds x y s t e (omega arith) (cc) same
            | inr c ↦ inr c
          ]

    -- Two digests of one length that `verify_proof` accepts against one root, with proofs of digests
    -- at the same positions, are the same digest, or they give a collision of SHA-256.
    pub verify_proof_binds :
        (p q : List Step) (x y root : Digest)
        → length x ≡ length y
        → AreDigests p
        → AreDigests q
        → positions p ≡ positions q
        → verify_proof sha256 x p root ≡ true
        → verify_proof sha256 y q root ≡ true
        → (x ≡ y) ⊎ Collision sha256
    unfolding verify_proof
    verify_proof_binds p q x y root e dp dq ps hx hy =
        fold_proof_binds p q x y e dp dq ps (digest_eq_sound _ _ hx ∙ sym (digest_eq_sound _ _ hy))

  climb_mono :
      (fuel : ℕ) (current : List Digest) {t : Digest × List (List Digest)}
      → climb sha256 fuel current ≡ some t
      → climb sha256 (suc fuel) current ≡ some t
  unfolding climb
  climb_mono zero current h = cc
  climb_mono (suc fuel) [] h = cc
  climb_mono (suc fuel) (x ∷ []) h = h
  climb_mono (suc fuel) (x ∷ y ∷ r) h =
      let above = next_level sha256 (pad_odd (x ∷ y ∷ r)) in
      elim (Option-cases (climb sha256 fuel above)) [
        | inl e ↦ ground (arith, e)
        | inr (t, e) ↦ ground (arith, e, climb_mono fuel above e)
      ]

  climb_pad :
      (fuel : ℕ) (x y : Digest) (r : List Digest)
      → climb sha256 fuel (pad_odd (x ∷ y ∷ r)) ≡ climb sha256 fuel (x ∷ y ∷ r)
  unfolding climb
  climb_pad zero x y r = refl
  climb_pad (suc fuel) x y r =
      ap {B = Option (Digest × List (List Digest))}
        (λ p. elim (climb sha256 fuel (next_level sha256 (x ∷ y ∷ p))) [
          | none ↦ none
          | some (root, levels) ↦ some (root, (x ∷ y ∷ p) ∷ levels)
        ])
        (pad_odd_idem r)

  length-pad_odd_cases :
      (l : List Digest) → (length (pad_odd l) ≡ length l) ⊎ (length (pad_odd l) ≡ suc (length l))
  length-pad_odd_cases [] = inl refl
  length-pad_odd_cases (x ∷ []) = inr refl
  length-pad_odd_cases (x ∷ y ∷ r) = elim (length-pad_odd_cases r) [
    | inl e ↦ inl (omega (arith, e))
    | inr e ↦ inr (omega (arith, e))
  ]

  build_pad :
      (x y : Digest) (r : List Digest) (tree : Climbed sha256 (length (x ∷ y ∷ r)) (x ∷ y ∷ r))
      → compute_root sha256 (pad_odd (x ∷ y ∷ r)) ≡ ok tree.root
  unfolding compute_root build_tree
  build_pad x y r tree =
      let same = climb_pad (length (x ∷ y ∷ r)) x y r ∙ tree.result in
      elim (length-pad_odd_cases r) [
        | inl e ↦ ground (arith, e, same)
        | inr e ↦ ground (arith, e, climb_mono (length (x ∷ y ∷ r)) (pad_odd (x ∷ y ∷ r)) same)
      ]

  root_of :
      (leaves : List Digest) (tree : Climbed sha256 (length leaves) leaves)
      → compute_root sha256 leaves ≡ ok tree.root
  unfolding compute_root build_tree
  root_of leaves tree = ground (arith, tree.result)

  -- With two leaves or more, the list whose last leaf is repeated to an even length has the root of
  -- the list itself: the root does not fix the number of leaves.
  pub compute_root-pad_odd :
      (x y : Digest) (r : List Digest)
      → compute_root sha256 (pad_odd (x ∷ y ∷ r)) ≡ compute_root sha256 (x ∷ y ∷ r)
  compute_root-pad_odd x y r =
      let tree = climb_total sha256 (length (x ∷ y ∷ r)) (x ∷ y ∷ r) (omega arith) (omega arith) in
      build_pad x y r tree ∙ sym (root_of (x ∷ y ∷ r) tree)
