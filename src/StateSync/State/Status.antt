-- ===== src/StateSync/State/Status.antt =====
-- doxa-state-sync/src/state.rs: the queries.
pub mod Settled
pub mod Confirmed
use doxa.Prelude.{
  ℕ, Bool, true, false, List, [], ◌∷◌, Option, none, some, leb, if◌then◌else◌, Result, ok, err,
  panic, ◌>>=◌, ok_or, Map, get, contains_key, member,
}
use doxa.Hasher.{MerkleHash, HashOutput}
use doxa.Client.Keys.{hash_key, bytes_key}
use doxa.Merkle.Membership.{MerkleProof, merkle_proof}
use doxa.StateSync.Contract.{Bytes, hash_to_bytes32}
use doxa.StateSync.State.{
  StateSyncState, CommitmentLocation, BatchKind, transaction, bridge_tx, DepositRecord, SyncError,
  commitment_not_found, no_confirmed_subtree, SyncResult, merkle,
}

pub data CommitmentStatus : Type 0 where
  confirmed : MerkleProof HashOutput → MerkleProof HashOutput → CommitmentStatus
  pending : Bytes → CommitmentStatus
  not_found : CommitmentStatus

pub data NullifierStatus : Type 0 where
  nullifier_confirmed nullifier_not_found : NullifierStatus
  nullifier_pending : Bytes → NullifierStatus

pub data BatchStatus : Type 0 where
  batch_confirmed batch_pending batch_not_found : BatchStatus

unfoldable pub get_nullifier_status : StateSyncState → HashOutput → NullifierStatus
get_nullifier_status s nullifier =
    if member nullifier s.confirmed_nullifiers
    then nullifier_confirmed
    else elim (get s.pending_nullifiers nullifier) [
      | none ↦ nullifier_not_found
      | some pi ↦ nullifier_pending pi
    ]

abbrev pub batch_status : List Bytes → Map Bytes Bytes → Bytes → BatchStatus
batch_status done waiting pi =
    if member pi done
    then batch_confirmed
    else (if contains_key waiting pi then batch_pending else batch_not_found)

unfoldable pub get_batch_status : StateSyncState → Bytes → BatchKind → BatchStatus
get_batch_status s pi transaction = batch_status s.confirmed_tx_batches s.pending_tx_batches pi
get_batch_status s pi bridge_tx =
    batch_status s.confirmed_bridge_tx_batches s.pending_bridge_tx_batches pi

-- The values of a map that are not older than a block.
abbrev pub from_block : ℕ → List (Bytes × DepositRecord) → List DepositRecord
from_block block [] = []
from_block block ((note, deposit) ∷ deposits) =
    let rest = from_block block deposits in
    if leb block deposit.deposit_block then deposit ∷ rest else rest

unfoldable pub get_deposits_from_block : StateSyncState → ℕ → List DepositRecord
get_deposits_from_block s block = from_block block s.deposits

abbrev pub batch_root_at : StateSyncState → Option CommitmentLocation → Option HashOutput
batch_root_at s none = none
batch_root_at s (some loc) = get s.pi_to_batch_root loc.pi_commitment

unfoldable pub get_batch_root_for_commitment : StateSyncState → HashOutput → Option HashOutput
get_batch_root_for_commitment s commitment = batch_root_at s (get s.commitment_to_batch commitment)

module _ ⦃h : MerkleHash HashOutput⦄ where
  unfoldable pub get_batch_subtree_proof :
      StateSyncState → HashOutput → SyncResult (MerkleProof HashOutput)
  get_batch_subtree_proof s commitment = do
    loc ← ok_or (get s.commitment_to_batch commitment) commitment_not_found
    subtree ← ok_or (get s.confirmed_batch_subtrees loc.pi_commitment) no_confirmed_subtree
    merkle (merkle_proof subtree loc.subtree_leaf_index)

  abbrev pub with_path :
      MerkleProof HashOutput → SyncResult (MerkleProof HashOutput) → SyncResult CommitmentStatus
  with_path subtree_path (ok path) = ok (confirmed subtree_path path)
  with_path subtree_path (err e) = ok not_found
  with_path subtree_path panic = panic

  abbrev pub at_leaf :
      StateSyncState → MerkleProof HashOutput → Option ℕ → SyncResult CommitmentStatus
  at_leaf s subtree_path none = ok not_found
  at_leaf s subtree_path (some i) = with_path subtree_path (merkle (merkle_proof s.state_tree i))

  -- The proof in the state tree of the batch's leaf, beside the proof in the batch's subtree.
  abbrev pub state_tree_path :
      StateSyncState → Option HashOutput → MerkleProof HashOutput → SyncResult CommitmentStatus
  state_tree_path s none subtree_path = ok not_found
  state_tree_path s (some batch_root) subtree_path =
      at_leaf s subtree_path (get s.batch_root_to_leaf_index (hash_to_bytes32 batch_root))

  -- A confirmed commitment without its proofs is logged and reported as not found.
  abbrev pub confirmed_status :
      StateSyncState
      → Option HashOutput
      → SyncResult (MerkleProof HashOutput)
      → SyncResult CommitmentStatus
  confirmed_status s batch_root (ok path) = state_tree_path s batch_root path
  confirmed_status s batch_root (err e) = ok not_found
  confirmed_status s batch_root panic = panic

  unfoldable pub status_at :
      StateSyncState → HashOutput → Option CommitmentLocation → SyncResult CommitmentStatus
  unfolding get_batch_root_for_commitment get_batch_subtree_proof
  status_at s commitment none = ok not_found
  status_at s commitment (some loc) =
      if loc.confirmed
      then confirmed_status s (get_batch_root_for_commitment s commitment)
          (get_batch_subtree_proof s commitment)
      else ok (pending loc.pi_commitment)

  unfoldable pub get_commitment_status : StateSyncState → HashOutput → SyncResult CommitmentStatus
  unfolding status_at
  get_commitment_status s commitment = status_at s commitment (get s.commitment_to_batch commitment)
