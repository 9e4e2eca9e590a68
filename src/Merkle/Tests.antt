-- ===== src/Merkle/Tests.antt =====
-- Runs of the tree, and the theorems at concrete inputs. The stand-in for SHA-256 adds the bytes.
use arp_spec.Common.{
  ℕ, ◌+◌, ◌≡◌, refl, ◌⊎◌, true, List, [], ◌∷◌, arith, ok, pos, replicate, length-replicate,
}
use arp_spec.Merkle.{Digest, Step, left, right, compute_root, generate_proof, verify_proof, pad_odd}
use arp_spec.Merkle.Complete.{verify_proof-generate_proof}
use arp_spec.Merkle.Binding.{Collision, verify_proof_binds, compute_root-pad_odd}

total : List ℕ → ℕ
total [] = 0
total (x ∷ r) = x + total r

abbrev sum_digest : List ℕ → Digest
sum_digest x = replicate 32 (total x)

abbrev three_leaves : List Digest
three_leaves = (1 ∷ []) ∷ (2 ∷ []) ∷ (3 ∷ []) ∷ []

-- the third leaf has itself as its sibling
proof_of_third :
    generate_proof sum_digest three_leaves (pos 2)
    ≡ ok (
        record { hash = 3 ∷ []; position = right }
        ∷ record { hash = replicate 32 3; position = left }
        ∷ [])
unfolding generate_proof arp_spec.Merkle.build_tree arp_spec.Merkle.climb arp_spec.Merkle.next_level
    arp_spec.Merkle.collect arp_spec.Merkle.sibling arp_spec.Merkle.hash_pair total
proof_of_third = refl

verify_proof-generate_proof_example :
    (root : Digest) × (path : List Step) × (compute_root sum_digest three_leaves ≡ ok root)
    × (generate_proof sum_digest three_leaves (pos 2) ≡ ok path)
    × (verify_proof sum_digest (3 ∷ []) path root ≡ true)
verify_proof-generate_proof_example =
    verify_proof-generate_proof sum_digest three_leaves 2 (omega arith)

abbrev ones : Digest
ones = replicate 32 1

abbrev one_step : List Step
one_step = record { hash = replicate 32 5; position = left } ∷ []

verify_proof_binds_example : (ones ≡ ones) ⊎ Collision sum_digest
unfolding verify_proof arp_spec.Merkle.digest_eq arp_spec.Merkle.fold_proof
    arp_spec.Merkle.hash_pair total
verify_proof_binds_example =
    verify_proof_binds sum_digest (λ x. length-replicate 32 (total x)) one_step one_step ones ones
      (replicate 32 192) refl (omega arith) (omega arith) refl refl refl

compute_root-pad_odd_example :
    compute_root sum_digest ((1 ∷ []) ∷ (2 ∷ []) ∷ (3 ∷ []) ∷ (3 ∷ []) ∷ [])
    ≡ compute_root sum_digest three_leaves
compute_root-pad_odd_example = compute_root-pad_odd sum_digest (1 ∷ []) (2 ∷ []) ((3 ∷ []) ∷ [])
