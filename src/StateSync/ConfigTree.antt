-- ===== src/StateSync/ConfigTree.antt =====
-- doxa-state-sync/src/sync.rs: `sync_config_tree`, on the logs that it has fetched.
pub mod Assignments
pub mod Gap
use doxa.Prelude.{
  ℕ, zero, suc, ◌+◌, ◌-◌, Bool, true, false, List, [], ◌∷◌, Option, none, some, length, ltb, leb,
  ◌==◌, if◌then◌else◌, Result, ok, err, panic, ◌>>=◌, attempt, chain, Map, get, remove, insert,
  contains_key,
}
use doxa.Hasher.{MerkleHash, HashOutput, zero_hash}
use doxa.Client.Keys.{nat_key}
use doxa.Client.PoolConfig.{MainPoolConfigTree, PoolConfigError, insert_subpool_at_position}
use doxa.Client.PoolConfig
use doxa.StateSync.Contract.{ContractError, u256_le_to_hash}
use doxa.StateSync.State.{
  StateSyncState, SubpoolAssignedEvent, SyncError, contract_error, SyncResult,
}

-- `entry(id).or_insert(HashOutput::ZERO)`, and the next id.
unfoldable pub register_subpool : ℕ → StateSyncState → StateSyncState
register_subpool id s = record s {
  subpool_roots =
      if contains_key s.subpool_roots id
      then s.subpool_roots
      else insert s.subpool_roots id zero_hash;
  next_expected_subpool_id = s.next_expected_subpool_id + 1;
}

-- The buffered event of the next id taken out, and its subpool registered.
abbrev pub take_buffered : StateSyncState → SubpoolAssignedEvent → StateSyncState
unfolding register_subpool
take_buffered s event = register_subpool event.subpool_id (record s {
  pending_subpool_assignments = remove s.pending_subpool_assignments s.next_expected_subpool_id;
})

-- `while let Some(buffered_event) = pending_subpool_assignments.remove(&next_expected_subpool_id)`:
-- a round, and the loop.
abbrev pub drain_round :
    Option SubpoolAssignedEvent
    → StateSyncState
    → (StateSyncState → StateSyncState)
    → StateSyncState
drain_round none s rest = s
drain_round (some event) s rest = rest (take_buffered s event)

unfoldable pub drain : ℕ → StateSyncState → StateSyncState
unfolding register_subpool
drain zero s = s
drain (suc fuel) s =
    drain_round (get s.pending_subpool_assignments s.next_expected_subpool_id) s (drain fuel)

-- Each round takes an event out, so the number of buffered events is enough fuel.
unfoldable pub process_assigned : SubpoolAssignedEvent → StateSyncState → StateSyncState
unfolding register_subpool drain
process_assigned event s =
    if event.subpool_id == s.next_expected_subpool_id
    then drain (length s.pending_subpool_assignments) (register_subpool event.subpool_id s)
    else (if ltb s.next_expected_subpool_id event.subpool_id
        then record s {
          pending_subpool_assignments = insert s.pending_subpool_assignments event.subpool_id event;
        }
        else s)

unfoldable pub process_all_assigned : List SubpoolAssignedEvent → StateSyncState → StateSyncState
unfolding process_assigned
process_all_assigned [] s = s
process_all_assigned (event ∷ events) s = process_all_assigned events (process_assigned event s)

abbrev pub decoded : Result ContractError HashOutput → SyncResult HashOutput
decoded (ok h) = ok h
decoded (err e) = err (contract_error e)
decoded panic = panic

-- The roots that the chain or its logs give, as ids and numbers, in order.
unfoldable pub set_subpool_roots :
    List (ℕ × ℕ) → StateSyncState → StateSyncState × SyncResult (Unit {0})
unfolding u256_le_to_hash
set_subpool_roots [] s = (s, ok tt)
set_subpool_roots ((subpool_id, root_u256) ∷ roots) s =
    attempt s (decoded (u256_le_to_hash root_u256)) (λ root.
      set_subpool_roots roots (record s { subpool_roots = insert s.subpool_roots subpool_id root }))

-- `sort_by_key(|(id, _)| *id)`
abbrev pub insert_sorted : ℕ × HashOutput → List (ℕ × HashOutput) → List (ℕ × HashOutput)
insert_sorted entry [] = entry ∷ []
insert_sorted (id, root) ((id', root') ∷ entries) =
    let rest = insert_sorted (id, root) entries in
    if leb id id' then (id, root) ∷ (id', root') ∷ entries else (id', root') ∷ rest

abbrev pub sort_by_id : List (ℕ × HashOutput) → List (ℕ × HashOutput)
sort_by_id [] = []
sort_by_id (entry ∷ entries) = insert_sorted entry (sort_by_id entries)

abbrev pub expected :
    {A E : Type 0} → MainPoolConfigTree × Result E A → SyncResult MainPoolConfigTree
expected (t, ok a) = ok t
expected (t, err e) = panic
expected (t, panic) = panic

module _ ⦃h : MerkleHash HashOutput⦄ (two_to_one : HashOutput → HashOutput → HashOutput) where
  -- `expect("config tree rebuild")` panics where an insertion fails.
  unfoldable pub insert_subpools :
      List (ℕ × HashOutput) → MainPoolConfigTree → SyncResult MainPoolConfigTree
  unfolding insert_subpool_at_position
  insert_subpools [] t = ok t
  insert_subpools ((subpool_id, subpool_root) ∷ entries) t = do
    t' ← expected (insert_subpool_at_position two_to_one t subpool_id subpool_root)
    insert_subpools entries t'

  unfoldable pub rebuild_config_tree : StateSyncState → StateSyncState × SyncResult (Unit {0})
  unfolding insert_subpools PoolConfig.new
  rebuild_config_tree s =
      attempt s (insert_subpools (sort_by_id s.subpool_roots) PoolConfig.new)
        (λ t. (record s { config_tree = t }, ok tt))

  unfoldable pub sync_config_tree :
      List SubpoolAssignedEvent
      → List (ℕ × ℕ)
      → StateSyncState
      → StateSyncState × SyncResult (Unit {0})
  unfolding process_all_assigned set_subpool_roots rebuild_config_tree
  sync_config_tree assigned roots s =
      chain (set_subpool_roots roots (process_all_assigned assigned s)) rebuild_config_tree
