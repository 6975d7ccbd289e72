-- ===== src/Client/Tests.antt =====
-- The pool's configuration tree at small trees.
use doxa.Merkle.Membership.{MerkleProof, verify}
use doxa.Client.PublicInputs.{same_hash}
use doxa.Prelude.{true, false, refl, ◌+◌, ◌*◌, ◌%◌, ◌≡◌, List, [], ◌∷◌, arith, ok}
use doxa.Samples.{toy_poseidon}
use doxa.Hasher.{HashOutput, zero_hash}
use doxa.Client.PoolConfig.{
  MainPoolConfigTree, root, subpool_proof, subpool_digest, commit, insert_subpool_at_position,
}
use doxa.Client.PoolConfig.Insertion.{
  with_leaves, indices_with, insert_subpool_at_position-with_leaves,
}
use doxa.Client.PoolConfig.Lookup.{subpool_proof-insert_subpool_at_position}

abbrev toy_two_to_one : HashOutput → HashOutput → HashOutput
toy_two_to_one l r = record { e0 = (l.e0 + 3 * r.e0 + 1) % 1009; e1 = r.e1; e2 = 5; e3 = 7 }

abbrev root_a : HashOutput
root_a = record { e0 = 4; e1 = 3; e2 = 2; e3 = 1 }

abbrev two_subpools : List HashOutput
two_subpools = zero_hash ∷ root_a ∷ zero_hash ∷ []

-- The id 1, given a second time, is appended as the fourth leaf and indexed as the second.
insert_subpool_at_position-with_leaves_example :
    insert_subpool_at_position toy_two_to_one (with_leaves two_subpools []) 1 root_a ≡ (
      with_leaves
          (zero_hash ∷ root_a ∷ zero_hash ∷ subpool_digest toy_two_to_one root_a 1 ∷ [])
          (indices_with (subpool_digest toy_two_to_one root_a 1) 1 []),
      ok tt,
    )
insert_subpool_at_position-with_leaves_example =
    insert_subpool_at_position-with_leaves toy_two_to_one two_subpools [] 1 root_a (omega arith)

commits : same_hash (commit toy_two_to_one root_a 3) zero_hash ≡ false
unfolding commit
commits = refl

-- The third subpool is inserted and found.
subpool_proof-insert_subpool_at_position_example :
    (t : MainPoolConfigTree) × (p : MerkleProof HashOutput) × (insert_subpool_at_position
        toy_two_to_one
        (with_leaves two_subpools [])
        3
        root_a
      ≡ (t, ok tt))
    × (subpool_proof toy_two_to_one t 3 root_a ≡ ok p)
    × (verify p ≡ true)
    × (p.leaf ≡ subpool_digest toy_two_to_one root_a 3)
    × (root t ≡ ok p.root)
subpool_proof-insert_subpool_at_position_example =
    subpool_proof-insert_subpool_at_position toy_two_to_one two_subpools [] root_a (omega arith)
      (omega arith) (λ nz. commits)
