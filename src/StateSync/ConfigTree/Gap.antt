-- ===== src/StateSync/ConfigTree/Gap.antt =====
-- A root for a subpool whose predecessors are not registered.
use doxa.Prelude.{ℕ, ◌<◌, ◌≡◌, false, List, [], ◌∷◌, arith, lt→ltb, ◌==◌, ok, err, panic}
use doxa.Hasher.{MerkleHash, HashOutput}
use doxa.Client.Keys.{nat_key}
use doxa.Client.PoolConfig.{
  PoolConfigError, predecessor_missing, seeded, insert_subpool_at_position,
}
use doxa.Client.PoolConfig
use doxa.Merkle.{num_leaves}
use doxa.Merkle
use doxa.StateSync.Contract.{u256_le_to_hash}
use doxa.StateSync.State.{StateSyncState, SubpoolAssignedEvent}
use doxa.StateSync.ConfigTree.{
  process_assigned, process_all_assigned, set_subpool_roots, insert_subpools, rebuild_config_tree,
  sync_config_tree,
}

above : (a b : ℕ) → a < b → (b == a) ≡ false
above a b l = ground arith

below : (a b : ℕ) → a < b → (a == b) ≡ false
below a b l = ground arith

nonzero : (a b : ℕ) → a < b → (b == 0) ≡ false
nonzero a b l = ground arith

module _ ⦃h : MerkleHash HashOutput⦄ where
  seeded-new : (id : ℕ) → 1 < id → seeded PoolConfig.new id ≡ err (predecessor_missing 0)
  unfolding seeded PoolConfig.new num_leaves Merkle.new
  seeded-new id l = rw (above 1 id l) (rw (below 0 id (omega arith)))

  module _ (two_to_one : HashOutput → HashOutput → HashOutput) where
    insert_subpools-new :
        (id : ℕ) (root : HashOutput) (entries : List (ℕ × HashOutput))
        → 1 < id
        → insert_subpools two_to_one ((id, root) ∷ entries) PoolConfig.new ≡ panic
    unfolding insert_subpools insert_subpool_at_position
    insert_subpools-new id root entries l = rw (nonzero 1 id l) (rw (seeded-new id l))

    -- Let the state expect subpool 1 and have no roots yet. If the only assignment is of a later
    -- id, which is buffered, and a root of that id that decodes comes with it, then
    -- `sync_config_tree` panics.
    pub sync_config_tree_gap :
        (event : SubpoolAssignedEvent) (root_u256 : ℕ) (root : HashOutput) (s : StateSyncState)
        → 1 < event.subpool_id
        → s.next_expected_subpool_id ≡ 1
        → s.subpool_roots ≡ []
        → u256_le_to_hash root_u256 ≡ ok root
        → (sync_config_tree two_to_one (event ∷ []) ((event.subpool_id, root_u256) ∷ []) s).1
          ≡ panic
    unfolding sync_config_tree process_all_assigned process_assigned set_subpool_roots
        rebuild_config_tree
    sync_config_tree_gap event root_u256 root s l next empty decodes = rw next (
        rw (above 1 event.subpool_id l) (
          rw (lt→ltb 1 event.subpool_id l)
            (rw decodes (rw empty (rw (insert_subpools-new event.subpool_id root [] l))))))
