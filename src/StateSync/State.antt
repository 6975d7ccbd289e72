-- ===== src/StateSync/State.antt =====
-- doxa-state-sync/src/state.rs: the mirror of the contract's state and its transitions.
pub mod Confirm
pub mod Status
use doxa.Prelude.{
  ℕ, zero, suc, ◌+◌, Bool, true, false, not, ◌||◌, List, [], ◌∷◌, ◌++◌, Option, none, some, length,
  set, replicate, ltb, leb, ◌==◌, if◌then◌else◌, Result, ok, err, panic, ◌>>=◌, ◌>>◌, ok_or,
  attempt, Map, get, contains_key, remove, insert, keys_where, member, put_key, map,
}
use doxa.Hasher.{MerkleHash, HashOutput, zero_hash}
use doxa.Client.Keys.{hash_key, bytes_key, bytes_eq, nat_key}
use doxa.Client.PublicInputs.{same_hash}
use doxa.Client.PoolConfig.{MainPoolConfigTree}
use doxa.Client.PoolConfig
use doxa.Merkle.{MerkleTree, MerkleTreeError, MerkleTreeResult}
use doxa.Merkle
use doxa.Merkle.Membership.{MerkleProof, merkle_proof}
use doxa.StateSync.Contract.{Bytes, ContractError, hash_to_bytes32}

pub data DepositStatus : Type 0 where
  pending validated withdrawn : DepositStatus

pub record DepositRecord : Type 0 where
  pub note_commitment : Bytes
  pub value : ℕ
  pub recipient : Bytes
  pub status : DepositStatus
  pub deposit_block : ℕ
  pub asset_id : ℕ

pub record CommitmentLocation : Type 0 where
  pub pi_commitment : Bytes
  pub subtree_leaf_index : ℕ
  pub confirmed : Bool

pub data BatchKind : Type 0 where
  transaction bridge_tx : BatchKind

pub record SubpoolAssignedEvent : Type 0 where
  pub subpool_id : ℕ
  pub owner : Bytes
  pub block_number : ℕ
  pub log_index : ℕ

pub record StateSyncState : Type 0 where
  pub state_tree : MerkleTree HashOutput
  pub batch_root_to_leaf_index : Map Bytes ℕ
  pub commitment_to_batch : Map HashOutput CommitmentLocation
  pub confirmed_roots : List HashOutput
  pub pending_batch_leaves : Map Bytes (List HashOutput)
  pub confirmed_batch_subtrees : Map Bytes (MerkleTree HashOutput)
  pub pi_to_batch_root : Map Bytes HashOutput
  pub pending_tx_batches : Map Bytes Bytes
  pub pending_bridge_tx_batches : Map Bytes Bytes
  pub confirmed_tx_batches : List Bytes
  pub confirmed_bridge_tx_batches : List Bytes
  pub confirmed_nullifiers : List HashOutput
  pub pending_nullifiers : Map HashOutput Bytes
  pub config_tree : MainPoolConfigTree
  pub subpool_roots : Map ℕ HashOutput
  pub pending_subpool_assignments : Map ℕ SubpoolAssignedEvent
  pub next_expected_subpool_id : ℕ
  pub deposits : Map Bytes DepositRecord
  pub last_synced_block : ℕ

pub data SyncError : Type 0 where
  merkle_error : MerkleTreeError → SyncError
  commitment_not_found no_confirmed_subtree : SyncError
  preimage_too_short : ℕ → SyncError
  contract_error : ContractError → SyncError

abbrev pub SyncResult : Type 0 → Type 0
SyncResult A = Result SyncError A

abbrev pub merkle : {A : Type 0} → MerkleTreeResult A → SyncResult A
merkle (ok a) = ok a
merkle (err e) = err (merkle_error e)
merkle panic = panic

abbrev pub batch_subtree_depth : ℕ
batch_subtree_depth = 9

-- `loc.confirmed = true`, where there is a location.
abbrev pub mark_confirmed :
    Map HashOutput CommitmentLocation
    → HashOutput
    → Option CommitmentLocation
    → Map HashOutput CommitmentLocation
mark_confirmed locations c none = locations
mark_confirmed locations c (some loc) = insert locations c (record loc { confirmed = true })

abbrev pub confirm_location :
    Map HashOutput CommitmentLocation → HashOutput → Map HashOutput CommitmentLocation
confirm_location locations c = mark_confirmed locations c (get locations c)

abbrev pub confirm_all :
    List HashOutput → Map HashOutput CommitmentLocation → Map HashOutput CommitmentLocation
confirm_all [] locations = locations
confirm_all (c ∷ commitments) locations = confirm_all commitments (confirm_location locations c)

unfoldable pub confirm_commitments :
    Bytes → Map HashOutput CommitmentLocation → Map HashOutput CommitmentLocation
confirm_commitments pi locations =
    confirm_all (keys_where (λ loc. bytes_eq (loc.pi_commitment) pi) locations) locations

-- The pending and the confirmed nullifiers.
abbrev pub move_all :
    List HashOutput
    → Map HashOutput Bytes × List HashOutput
    → Map HashOutput Bytes × List HashOutput
move_all [] nullifiers = nullifiers
move_all (n ∷ ns) (waiting, done) = move_all ns (remove waiting n, put_key n done)

unfoldable pub confirm_nullifiers :
    Bytes → Map HashOutput Bytes → List HashOutput → Map HashOutput Bytes × List HashOutput
confirm_nullifiers pi waiting done =
    move_all (keys_where (λ pic. bytes_eq pic pi) waiting) (waiting, done)

-- The pending and the confirmed batches of one kind.
abbrev pub BatchIndex : Type 0
BatchIndex = Map Bytes Bytes × List Bytes

abbrev pub move_batch : Bytes → BatchIndex → BatchIndex
move_batch pi (waiting, done) = (remove waiting pi, put_key pi done)

-- Pending to confirmed: a transaction batch, or else a bridge batch.
unfoldable pub confirm_pending_batch : Bytes → BatchIndex → BatchIndex → BatchIndex × BatchIndex
confirm_pending_batch pi tx bridge =
    if contains_key tx.0 pi
    then (move_batch pi tx, bridge)
    else (if contains_key bridge.0 pi then (tx, move_batch pi bridge) else (tx, bridge))

-- `entry(pi_commitment).or_insert_with(|| vec![default; 512])`
abbrev pub leaves_or_default : Option (List HashOutput) → List HashOutput
leaves_or_default none = replicate 512 zero_hash
leaves_or_default (some leaves) = leaves

unfoldable pub add_pending_commitment : HashOutput → Bytes → ℕ → StateSyncState → StateSyncState
add_pending_commitment commitment pi leaf_index s =
    let location : CommitmentLocation = record {
      pi_commitment = pi;
      subtree_leaf_index = leaf_index;
      confirmed = false;
    } in
    let leaves = leaves_or_default (get s.pending_batch_leaves pi) in
    record s {
      commitment_to_batch = insert s.commitment_to_batch commitment location;
      pending_batch_leaves =
          insert s.pending_batch_leaves pi
            (if ltb leaf_index 512 then set leaves leaf_index commitment else leaves);
    }

unfoldable pub add_pending_nullifier : HashOutput → Bytes → StateSyncState → StateSyncState
add_pending_nullifier nullifier pi s = record s {
  pending_nullifiers = insert s.pending_nullifiers nullifier pi;
}
