-- ===== src/StateSync/State/Confirm.antt =====
-- doxa-state-sync/src/state.rs: `new`, `insert_state_tree_leaf` and `confirm_batch`.
pub mod Settled
use doxa.Prelude.{
  ℕ, List, [], ◌∷◌, Option, none, some, Result, ok, err, panic, ◌>>=◌, attempt, Map, get, remove,
  insert, put_key,
}
use doxa.Hasher.{MerkleHash, HashOutput}
use doxa.Client.Keys.{hash_key, bytes_key}
use doxa.Client.PoolConfig
use doxa.Merkle.{MerkleTree}
use doxa.Merkle
use doxa.StateSync.Contract.{Bytes, hash_to_bytes32}
use doxa.StateSync.State.{
  StateSyncState, SyncError, SyncResult, merkle, batch_subtree_depth, confirm_commitments,
  confirm_nullifiers, confirm_pending_batch,
}

-- What `confirm_batch` does once the trees are built.
unfoldable pub settle : Bytes → HashOutput → HashOutput → StateSyncState → StateSyncState
unfolding confirm_commitments confirm_nullifiers confirm_pending_batch
settle pi batch_root new_tree_root s =
    let batches =
      confirm_pending_batch pi (s.pending_tx_batches, s.confirmed_tx_batches)
        (s.pending_bridge_tx_batches, s.confirmed_bridge_tx_batches) in
    let nullifiers = confirm_nullifiers pi s.pending_nullifiers s.confirmed_nullifiers in
    record s {
      pi_to_batch_root = insert s.pi_to_batch_root pi batch_root;
      commitment_to_batch = confirm_commitments pi s.commitment_to_batch;
      pending_tx_batches = batches.0.0;
      confirmed_tx_batches = batches.0.1;
      pending_bridge_tx_batches = batches.1.0;
      confirmed_bridge_tx_batches = batches.1.1;
      pending_nullifiers = nullifiers.0;
      confirmed_nullifiers = nullifiers.1;
      confirmed_roots = put_key new_tree_root s.confirmed_roots;
    }

module _ ⦃h : MerkleHash HashOutput⦄ where
  unfoldable pub new : ℕ → SyncResult StateSyncState
  unfolding PoolConfig.new
  new tree_depth = do
    let state_tree = Merkle.new tree_depth
    genesis_root ← merkle (Merkle.root state_tree)
    ok (record {
      state_tree = state_tree;
      batch_root_to_leaf_index = [];
      commitment_to_batch = [];
      confirmed_roots = genesis_root ∷ [];
      pending_batch_leaves = [];
      confirmed_batch_subtrees = [];
      pi_to_batch_root = [];
      pending_tx_batches = [];
      pending_bridge_tx_batches = [];
      confirmed_tx_batches = [];
      confirmed_bridge_tx_batches = [];
      confirmed_nullifiers = [];
      pending_nullifiers = [];
      config_tree = PoolConfig.new;
      subpool_roots = [];
      pending_subpool_assignments = [];
      next_expected_subpool_id = 1;
      deposits = [];
      last_synced_block = 0;
    })

  unfoldable pub insert_state_tree_leaf :
      HashOutput → StateSyncState → SyncResult (StateSyncState × ℕ)
  unfolding hash_to_bytes32
  insert_state_tree_leaf batch_root s = do
    (tree, leaf_index) ← merkle (Merkle.insert s.state_tree batch_root)
    let indices = insert s.batch_root_to_leaf_index (hash_to_bytes32 batch_root) leaf_index
    ok (record s { state_tree = tree; batch_root_to_leaf_index = indices }, leaf_index)

  -- `for leaf in &leaves { subtree.insert(*leaf)?; }`
  unfoldable pub insert_all :
      List HashOutput → MerkleTree HashOutput → SyncResult (MerkleTree HashOutput)
  insert_all [] subtree = ok subtree
  insert_all (leaf ∷ leaves) subtree = do
    inserted ← merkle (Merkle.insert subtree leaf)
    insert_all leaves inserted.0

  -- The subtree of the pending leaves, where there are any. A root that differs is only logged.
  unfoldable pub build_subtree :
      Bytes → Option (List HashOutput) → StateSyncState → StateSyncState × SyncResult (Unit {0})
  unfolding insert_all
  build_subtree pi none s = (s, ok tt)
  build_subtree pi (some leaves) s =
      let taken = record s { pending_batch_leaves = remove s.pending_batch_leaves pi } in
      attempt taken (insert_all leaves (Merkle.new batch_subtree_depth)) (λ subtree.
        attempt taken (merkle (Merkle.root subtree)) (λ subtree_root. (
          record taken {
            confirmed_batch_subtrees = insert taken.confirmed_batch_subtrees pi subtree;
          },
          ok tt,
        )))

  unfoldable pub confirm_batch :
      Bytes → HashOutput → HashOutput → StateSyncState → StateSyncState × SyncResult (Unit {0})
  unfolding insert_state_tree_leaf build_subtree settle
  confirm_batch pi batch_root new_tree_root s =
      attempt s (insert_state_tree_leaf batch_root s) (λ inserted.
        let s1 = inserted.0 in
        attempt s1 (merkle (Merkle.root s1.state_tree)) (λ local_root.
          let built = build_subtree pi (get s1.pending_batch_leaves pi) s1 in
          attempt built.0 built.1 (λ _. (settle pi batch_root new_tree_root built.0, ok tt))))
