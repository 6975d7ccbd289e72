-- ===== src/Server/Batch/Root.antt =====
-- The Poseidon root of a full batch.
use doxa.Prelude.{◌≡◌, ap, ◌∙◌, List, length, ◌==◌, ok, ensure, ◌>>◌, unfailing}
use doxa.Hasher.{MerkleHash, HashOutput}
use doxa.Merkle.Full.{node}
use doxa.Server.SubtreeRoot.{compute_root_native}
use doxa.Server.SubtreeRoot.InPlace.{compute_root_native-node}
use doxa.Server.Batch.{subtree_batchsize, leaf_count_mismatch}

module _ ⦃h : MerkleHash HashOutput⦄ where
  -- The last steps of `batch_poseidon_root`, on as many leaves as a subtree has.
  pub root_of_leaves :
      (leaves : List HashOutput)
      → length leaves ≡ subtree_batchsize
      → (ensure (length leaves == subtree_batchsize) (leaf_count_mismatch (length leaves))
          >> unfailing (compute_root_native leaves))
        ≡ ok (node leaves 9 0)
  root_of_leaves leaves size =
      ap
        (λ n.
          ensure (n == subtree_batchsize) (leaf_count_mismatch n)
          >> unfailing (compute_root_native leaves))
        size
      ∙ ap unfailing (compute_root_native-node 9 leaves size)
