-- ===== src/Merkle/Complete.antt =====
-- Every proof that `generate_proof` of api/merkle_tree.py makes is accepted by `verify_proof`.
use arp_spec.Common.{
  ℕ, zero, suc, ◌+◌, ◌-◌, ◌*◌, ◌/◌, ◌%◌, ◌≤◌, ◌<◌, ◌≡◌, refl, ap, ◌↔◌, inl, inr, true, some, List,
  [], ◌∷◌, arith, length, get_or, ◌==◌, Bool-cases, ok, err, pos, ◌∙◌,
}
use arp_spec.Merkle.{
  Digest, pad_odd, digest_eq, but_last, Step, next_level, climb, build_tree, sibling, collect,
  generate_proof, fold_step, fold_proof, verify_proof, compute_root, empty_leaf_list,
}

pub digest_eq_refl : (x : Digest) → digest_eq x x ≡ true
unfolding digest_eq
digest_eq_refl [] = refl
digest_eq_refl (a ∷ x) = ground (arith, digest_eq_refl x)

pub digest_eq_sound : (x y : Digest) → digest_eq x y ≡ true → x ≡ y
unfolding digest_eq
digest_eq_sound [] [] h = refl
digest_eq_sound [] (b ∷ y) h = cc
digest_eq_sound (a ∷ x) [] h = cc
digest_eq_sound (a ∷ x) (b ∷ y) h = ground (arith, digest_eq_sound x y)

module _ {ℓ} {A : Type ℓ} where
  pub pad_odd_idem : (l : List A) → pad_odd (pad_odd l) ≡ pad_odd l
  pad_odd_idem [] = refl
  pad_odd_idem (x ∷ []) = refl
  pad_odd_idem (x ∷ y ∷ r) = ap (λ t. x ∷ y ∷ t) (pad_odd_idem r)

  length-pad_odd : (l : List A) → length (pad_odd l) ≡ (length l + 1) / 2 * 2
  length-pad_odd [] = omega arith
  length-pad_odd (x ∷ []) = omega arith
  length-pad_odd (x ∷ y ∷ r) = omega (arith, length-pad_odd r)

  get_or-pad_odd :
      (l : List A) (i : ℕ) (d : A) → i < length l → get_or (pad_odd l) i d ≡ get_or l i d
  get_or-pad_odd [] i d h = elim h [ ]
  get_or-pad_odd (x ∷ []) zero d h = refl
  get_or-pad_odd (x ∷ []) (suc i) d h = absurd (omega arith)
  get_or-pad_odd (x ∷ y ∷ r) zero d h = refl
  get_or-pad_odd (x ∷ y ∷ r) (suc zero) d h = refl
  get_or-pad_odd (x ∷ y ∷ r) (suc (suc i)) d h = get_or-pad_odd r i d (omega arith)

module _ (sha256 : List ℕ → Digest) where
  length-next_level : (l : List Digest) → length (next_level sha256 l) ≡ length l / 2
  unfolding next_level
  length-next_level [] = omega arith
  length-next_level (x ∷ []) = omega arith
  length-next_level (x ∷ y ∷ r) = omega (arith, length-next_level r)

  sibling-cons :
      (x y : Digest) (r : List Digest) (i : ℕ)
      → sibling sha256 (x ∷ y ∷ r) (suc (suc i)) ≡ sibling sha256 r i
  unfolding sibling
  sibling-cons x y r i =
      let parity : suc (suc i) % 2 ≡ i % 2 = omega arith in
      let next : suc (suc i) + 1 ≡ suc (suc (i + 1)) = omega arith in
      rw (parity, next)
        (elim (Bool-cases (i % 2 == 0)) [
          | inl even ↦ rw even refl
          | inr odd ↦
              let previous : suc (suc i) - 1 ≡ suc (suc (i - 1)) = ground arith in
              rw (odd, previous) refl
        ])

  -- one round of the loop, from a node to its parent
  step-pair :
      (level : List Digest) (i : ℕ)
      → i < length level
      → fold_step sha256 (get_or (pad_odd level) i []) (sibling sha256 level i)
        ≡ get_or (next_level sha256 (pad_odd level)) (i / 2) []
  unfolding next_level sibling fold_step
  step-pair [] i h = elim h [ ]
  step-pair (x ∷ []) zero h = refl
  step-pair (x ∷ []) (suc i) h = absurd (omega arith)
  step-pair (x ∷ y ∷ r) zero h = refl
  step-pair (x ∷ y ∷ r) (suc zero) h = refl
  step-pair (x ∷ y ∷ r) (suc (suc i)) h =
      let half : suc (suc i) / 2 ≡ suc (i / 2) = omega arith in
      rw (sibling-cons x y r i, half) (step-pair r i (omega arith))

  sibling-pad_odd :
      (level : List Digest) (i : ℕ) → sibling sha256 (pad_odd level) i ≡ sibling sha256 level i
  unfolding sibling
  sibling-pad_odd level i = rw (pad_odd_idem level) refl

  collect-swap :
      (top current : List Digest) (rest : List (List Digest)) (j : ℕ)
      → ((i : ℕ) → sibling sha256 top i ≡ sibling sha256 current i)
      → collect sha256 (but_last (top ∷ rest)) j ≡ collect sha256 (but_last (current ∷ rest)) j
  unfolding collect
  collect-swap top current [] j h = refl
  collect-swap top current (level ∷ rest) j h = rw (h j) refl

  -- The loop ends with a root, its first level reads as the current one in a proof, and the
  -- siblings along the levels lead from every node of the current level to the root.
  pub record Climbed (fuel : ℕ) (current : List Digest) : Type 0 where
    pub root : Digest
    pub top : List Digest
    pub rest : List (List Digest)
    pub result : climb sha256 fuel current ≡ some (root, top ∷ rest)
    pub same_siblings : (i : ℕ) → sibling sha256 top i ≡ sibling sha256 current i
    pub leads :
        (i : ℕ)
        → i < length current
        → fold_proof sha256 (get_or current i []) (collect sha256 (but_last (current ∷ rest)) i)
          ≡ root

  single_leads : (x : Digest) (i : ℕ) → i < 1 → fold_proof sha256 (get_or (x ∷ []) i []) [] ≡ x
  unfolding fold_proof
  single_leads x zero h = refl
  single_leads x (suc i) h = absurd (omega arith)

  node_step :
      (level : List Digest) (i : ℕ)
      → i < length level
      → fold_step sha256 (get_or level i []) (sibling sha256 level i)
        ≡ get_or (next_level sha256 (pad_odd level)) (i / 2) []
  node_step level i h = rw (get_or-pad_odd level i [] h) at (step-pair level i h)

  climb_more :
      (fuel : ℕ) (x y : Digest) (r : List Digest)
      → length (next_level sha256 (pad_odd (x ∷ y ∷ r))) ≡ (length r + 3) / 2
      → Climbed fuel (next_level sha256 (pad_odd (x ∷ y ∷ r)))
      → Climbed (suc fuel) (x ∷ y ∷ r)
  unfolding climb collect fold_proof
  climb_more fuel x y r size up =
      let level = x ∷ y ∷ r in
      let above = next_level sha256 (pad_odd level) in
      record {
        root = up.root;
        top = pad_odd level;
        rest = up.top ∷ up.rest;
        result = rw up.result refl;
        same_siblings = sibling-pad_odd level;
        leads = λ i hi.
            ap (λ t. fold_proof sha256 t (collect sha256 (but_last (up.top ∷ up.rest)) (i / 2)))
              (node_step level i hi)
            ∙ ap (fold_proof sha256 (get_or above (i / 2) []))
                (collect-swap up.top above up.rest (i / 2) up.same_siblings)
            ∙ up.leads (i / 2) (omega arith);
      }

  pub climb_total :
      (fuel : ℕ) (current : List Digest)
      → 0 < length current
      → length current ≤ fuel
      → Climbed fuel current
  unfolding climb collect fold_proof
  climb_total fuel [] p h = absurd (omega arith)
  climb_total zero (x ∷ r) p h = absurd (omega arith)
  climb_total (suc fuel) (x ∷ []) p h = record {
    root = x;
    top = x ∷ [];
    rest = [];
    result = refl;
    same_siblings = λ i. refl;
    leads = single_leads x;
  }
  climb_total (suc fuel) (x ∷ y ∷ r) p h =
      let above = next_level sha256 (pad_odd (x ∷ y ∷ r)) in
      let size : length above ≡ (length r + 3) / 2 =
        omega (arith, length-next_level (pad_odd (x ∷ y ∷ r)), length-pad_odd {0} (x ∷ y ∷ r)) in
      climb_more fuel x y r size (climb_total fuel above (omega arith) (omega arith))

  proof_accepted :
      (leaves : List Digest) (i : ℕ)
      → i < length leaves
      → Climbed (length leaves) leaves
      → (root : Digest) × (path : List Step) × (compute_root sha256 leaves ≡ ok root)
        × (generate_proof sha256 leaves (pos i) ≡ ok path)
        × (verify_proof sha256 (get_or leaves i []) path root ≡ true)
  unfolding compute_root generate_proof build_tree verify_proof
  proof_accepted leaves i h tree = (
    tree.root,
    collect sha256 (but_last (leaves ∷ tree.rest)) i,
    ground (arith, tree.result),
    ground (arith, tree.result),
    rw (tree.leads i h) (digest_eq_refl tree.root),
  )

  -- For every list of leaves and every index in range, the tree has a root, `generate_proof` makes
  -- a proof for the leaf at the index, and `verify_proof` accepts it for that leaf and root.
  pub verify_proof-generate_proof :
      (leaves : List Digest) (i : ℕ)
      → i < length leaves
      → (root : Digest) × (path : List Step) × (compute_root sha256 leaves ≡ ok root)
        × (generate_proof sha256 leaves (pos i) ≡ ok path)
        × (verify_proof sha256 (get_or leaves i []) path root ≡ true)
  verify_proof-generate_proof leaves i h =
      proof_accepted leaves i h (climb_total (length leaves) leaves (omega arith) (omega arith))

  -- No tree is built exactly if there are no leaves.
  build_tree_empty :
      (leaves : List Digest) → (build_tree sha256 leaves ≡ err empty_leaf_list) ↔ (leaves ≡ [])
  unfolding build_tree climb
  build_tree_empty [] = (λ _. refl, λ _. refl)
  build_tree_empty (x ∷ r) =
      let tree = climb_total (length (x ∷ r)) (x ∷ r) (omega arith) (omega arith) in
      (λ e. cc (tree.result, e), λ e. cc)
