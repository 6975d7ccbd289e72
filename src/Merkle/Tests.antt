-- ===== src/Merkle/Tests.antt =====
-- The tree's theorems at small trees.
use doxa.Prelude.{ℕ, ◌≡◌, refl, true, List, [], ◌∷◌, ok, err, panic, arith, ℕ_discrete}
use doxa.Samples.{toy_hash}
use doxa.Merkle.{MerkleTree, index_error, new, next_defaults, root, depth}
use doxa.Merkle.Layers.{tree_of}
use doxa.Merkle.Run.{Op, insert_leaf, replace_leaf, run, replay, run-new}
use doxa.Merkle.Full.{node, root-node}
use doxa.Merkle.Membership.{MerkleProof, merkle_proof, verify}
use doxa.Merkle.Membership.Walk.{verify-merkle_proof}
use doxa.Merkle.Batch.{insert_batch}
use doxa.Merkle.Batch.Insert.{insert_batch-tree_of}
use doxa.Merkle.Verification
use doxa.Merkle.Verification.Sound.{verify-tree_of, tree_of-verify, verify_empty}

abbrev calls : List (Op ℕ)
calls = insert_leaf 5 ∷ insert_leaf 6 ∷ insert_leaf 7 ∷ replace_leaf 1 8 ∷ replace_leaf 9 9 ∷ []

abbrev three : List ℕ
three = 5 ∷ 8 ∷ 7 ∷ []

run-new_example : run calls (new 2) ≡ ok (tree_of 2 three)
unfolding replay
run-new_example = run-new 2 calls

root-node_example : root (tree_of 2 three) ≡ ok (node three 2 0)
root-node_example = root-node 2 three (omega arith) (omega arith)

root_runs : root (tree_of 2 three) ≡ ok 279
unfolding node
root_runs = root-node_example

verify-merkle_proof_example :
    (p : MerkleProof ℕ) × (merkle_proof (tree_of 2 three) 3 ≡ ok p)
    × (verify p ≡ true)
    × (p.leaf ≡ 0)
    × (root (tree_of 2 three) ≡ ok p.root)
verify-merkle_proof_example =
    verify-merkle_proof 2 three 3 (omega arith) (omega arith) (omega arith)

verify-tree_of_example : Verification.verify (tree_of 2 three) ≡ ok tt
verify-tree_of_example = verify-tree_of 2 three (omega arith) (omega arith) (omega arith)

abbrev stored : MerkleTree ℕ
stored = record {
  leaves = three;
  layers = (56 ∷ 22 ∷ []) ∷ (279 ∷ []) ∷ [];
  default_siblings = 0 ∷ 1 ∷ [];
}

stored_verifies : Verification.verify stored ≡ ok tt
unfolding Verification.verify Verification.verify_layers Verification.verify_root
    Verification.recompute_root root depth ℕ_discrete
stored_verifies = refl

tree_of-verify_example : stored ≡ tree_of (depth stored) three
unfolding depth next_defaults
tree_of-verify_example = tree_of-verify stored refl stored_verifies

verify_empty_example : Verification.verify (tree_of {D = ℕ} 3 []) ≡ panic
verify_empty_example = verify_empty 3 [] refl

insert_batch-tree_of_example :
    insert_batch (tree_of 2 three) (4 ∷ 6 ∷ 9 ∷ [])
    ≡ (record (tree_of 2 three) { leaves = 5 ∷ 8 ∷ 7 ∷ 4 ∷ 6 ∷ 9 ∷ [] }, err (index_error 6))
insert_batch-tree_of_example = insert_batch-tree_of 2 three (4 ∷ 6 ∷ 9 ∷ [])
