-- ===== src/Merkle.antt =====
-- api/merkle_tree.py: the tree over a window's audit entries, inclusion proofs and their check. A
-- digest is the list of its bytes (the code keeps it as hex text); SHA-256 is a parameter.
pub mod Complete
pub mod Binding
pub mod Tests
use arp_spec.Common.{
  ℕ, zero, suc, ◌+◌, ◌-◌, ◌*◌, ◌/◌, ◌%◌, ◌≤◌, ◌<◌, String, ◌≡◌, refl, sym, ap, ◌≢◌, ◌↔◌, ◌⊎◌, inl,
  inr, Bool, true, false, not, ◌&&◌, ◌||◌, Option, none, some, List, [], ◌∷◌, ◌++◌, map, arith,
  length, get_or, All, any, all, ltb, leb, ◌==◌, if◌then◌else◌, ==_iff, ltb_iff, leb_iff,
  Bool-cases, Option-cases, Outcome, ok, err, ◌>>=◌, ◌>>◌, ℤ, pos, negsuc, str_eq, eq_iff,
  false≢true,
}

abbrev pub Digest : Type 0
Digest = List ℕ

-- `current.append(current[-1])` where the length is odd, then the pairs of the level
module _ {ℓ} {A : Type ℓ} where
  abbrev pub pad_odd : List A → List A
  pad_odd [] = []
  pad_odd (x ∷ []) = x ∷ x ∷ []
  pad_odd (x ∷ y ∷ r) = x ∷ y ∷ pad_odd r

-- `==` on texts of digests
unfoldable pub digest_eq : Digest → Digest → Bool
digest_eq [] [] = true
digest_eq [] (y ∷ ys) = false
digest_eq (x ∷ xs) [] = false
digest_eq (x ∷ xs) (y ∷ ys) = x == y && digest_eq xs ys

pub data Position : Type 0 where
  left right : Position

-- {"hash": …, "position": …}
pub record Step : Type 0 where
  pub hash : Digest
  pub position : Position

pub data MerkleError : Type 0 where
  empty_leaf_list : MerkleError
  index_out_of_range : ℤ → ℕ → MerkleError

-- the last element of the levels, the root level, is left out: `levels[:-1]`
abbrev pub but_last {ℓ} : {A : Type ℓ} → List A → List A
but_last [] = []
but_last (x ∷ []) = []
but_last (x ∷ y ∷ r) = x ∷ but_last (y ∷ r)

abbrev pub rest_of {ℓ} : {A : Type ℓ} → List A → List A
rest_of [] = []
rest_of (x ∷ r) = r

module _ (sha256 : List ℕ → Digest) where
  -- `_hash_pair`
  unfoldable pub hash_pair : Digest → Digest → Digest
  hash_pair l r = sha256 (l ++ r)

  -- the inner loop of `build_tree` over a level of even length
  unfoldable pub next_level : List Digest → List Digest
  next_level [] = []
  next_level (x ∷ []) = []
  next_level (x ∷ y ∷ r) = hash_pair x y ∷ next_level r

  -- The `while` loop of `build_tree`: the root, and the levels from the current one on. Padding
  -- appends to `current`, which is the list object that already stands in `levels`.
  unfoldable pub climb : ℕ → List Digest → Option (Digest × List (List Digest))
  climb zero current = none
  climb (suc fuel) [] = none
  climb (suc fuel) (x ∷ []) = some (x, (x ∷ []) ∷ [])
  climb (suc fuel) (x ∷ y ∷ r) =
      let padded = pad_odd (x ∷ y ∷ r) in
      elim (climb fuel (next_level padded)) [
        | none ↦ none
        | some (root, levels) ↦ some (root, padded ∷ levels)
      ]

  -- `levels[0]` is a copy that stays unpadded. A round makes a level shorter, so the number of
  -- leaves is enough fuel.
  unfoldable pub build_tree : List Digest → Outcome MerkleError (Digest × List (List Digest))
  build_tree leaf_hashes = elim (climb (length leaf_hashes) leaf_hashes) [
    | none ↦ err empty_leaf_list
    | some (root, levels) ↦ ok (root, leaf_hashes ∷ rest_of levels)
  ]

  -- one round of the loop of `generate_proof`
  unfoldable pub sibling : List Digest → ℕ → Step
  sibling level idx =
      if idx % 2 == 0
      then record { hash = get_or (pad_odd level) (idx + 1) []; position = right }
      else record { hash = get_or (pad_odd level) (idx - 1) []; position = left }

  unfoldable pub collect : List (List Digest) → ℕ → List Step
  collect [] idx = []
  collect (level ∷ levels) idx = sibling level idx ∷ collect levels (idx / 2)

  unfoldable pub generate_proof : List Digest → ℤ → Outcome MerkleError (List Step)
  generate_proof leaf_hashes (negsuc n) = err (index_out_of_range (negsuc n) (length leaf_hashes))
  generate_proof leaf_hashes (pos leaf_index) =
      if leb (length leaf_hashes) leaf_index
      then err (index_out_of_range (pos leaf_index) (length leaf_hashes))
      else do tree ← build_tree leaf_hashes; ok (collect (but_last tree.1) leaf_index)

  -- the loop of `verify_proof`
  unfoldable pub fold_step : Digest → Step → Digest
  fold_step current step = elim step.position [
    | left ↦ hash_pair step.hash current
    | right ↦ hash_pair current step.hash
  ]

  unfoldable pub fold_proof : Digest → List Step → Digest
  unfolding fold_step
  fold_proof current [] = current
  fold_proof current (step ∷ path) = fold_proof (fold_step current step) path

  -- `==` on the digests
  unfoldable pub verify_proof : Digest → List Step → Digest → Bool
  verify_proof leaf_hash proof_path expected_root =
      digest_eq (fold_proof leaf_hash proof_path) expected_root

  unfoldable pub compute_root : List Digest → Outcome MerkleError Digest
  compute_root leaf_hashes = do tree ← build_tree leaf_hashes; ok tree.0
