-- ===== src/StateSync/Tests.antt =====
-- The mirror's theorems at small states.
use doxa.Prelude.{
  ℕ, zero, suc, ◌+◌, ◌≤◌, ◌<◌, ◌≡◌, refl, ap, true, false, List, [], ◌∷◌, some, arith, length,
  length-replicate, take, drop, replicate, leb, ok, get, member, panic,
}
use doxa.Samples.{toy_poseidon}
use doxa.Hasher.{HashOutput, zero_hash}
use doxa.Client.Keys.{hash_key, bytes_key, nat_key}
use doxa.Merkle.Layers.{tree_of}
use doxa.StateSync.Contract.{
  Bytes, hash_to_bytes32, bytes32_to_hash, hash_to_u256_le, bytes32_be_to_u256_le, u256_le_to_hash,
  hash_to_preimage_bytes32, preimage_bytes32_to_raw, raw_to_preimage_bytes32, from_be_bytes,
  swap_halves, be_bytes_after,
}
use doxa.StateSync.Contract.Encodings.{IsCanonical, hash_encodings}
use doxa.StateSync.Contract.Decoding.{preimage_bytes32_to_raw-raw, decoded-IsCanonical}
use doxa.StateSync.State.{StateSyncState, SubpoolAssignedEvent, withdrawn, transaction, bridge_tx}
use doxa.StateSync.State.Confirm.{confirm_batch, settle}
use doxa.StateSync.State.Status.{
  get_nullifier_status, nullifier_confirmed, get_batch_status, batch_confirmed,
}
use doxa.StateSync.State.Status.Settled.{settle-get_nullifier_status, settle-get_batch_status}
use doxa.StateSync.State.Status.Confirmed.{HasProofs}
use doxa.StateSync.Preimages.{
  read_gl_b32, read_gl_bool, bytes_to_hash, read_hash, apply_tx_preimage, slice,
}
use doxa.StateSync.Preimages.Recorded.{IsTxPreimage}
use doxa.StateSync.Preimages.Confirmed.{apply_tx_preimage-confirm_batch}
use doxa.StateSync.ConfigTree.Gap.{sync_config_tree_gap}
use doxa.StateSync.ConfigTree.{
  sync_config_tree, process_all_assigned, process_assigned, register_subpool, drain,
}
use doxa.StateSync.ConfigTree.Assignments.{ids, process_all_assigned-next}
use doxa.StateSync.Deposits.{DepositAvailable, new_record, sync_deposits, sync_deposits-get}

abbrev some_hash : HashOutput
some_hash = record { e0 = 4294967296; e1 = 2; e2 = 3; e3 = 18446744069414584320 }

hash_encodings_example :
    (bytes32_to_hash (hash_to_bytes32 some_hash) ≡ ok some_hash)
    × (u256_le_to_hash (bytes32_be_to_u256_le (hash_to_bytes32 some_hash)) ≡ ok some_hash)
    × (u256_le_to_hash (hash_to_u256_le some_hash) ≡ ok some_hash)
    × (preimage_bytes32_to_raw (hash_to_preimage_bytes32 some_hash) ≡ hash_to_bytes32 some_hash)
hash_encodings_example =
    hash_encodings some_hash
      (record { c0 = omega arith; c1 = omega arith; c2 = omega arith; c3 = omega arith })

abbrev zero_bytes : ℕ → Bytes
zero_bytes n = replicate n 0

take-drop-replicate : (k off m : ℕ) → off + k ≤ m → take k (drop off (zero_bytes m)) ≡ zero_bytes k
take-drop-replicate zero zero m l = refl
take-drop-replicate (suc k) zero zero l = absurd (omega arith)
take-drop-replicate (suc k) zero (suc m) l = ap (◌∷◌ 0) (take-drop-replicate k zero m (omega arith))
take-drop-replicate zero (suc off) m l = refl
take-drop-replicate (suc k) (suc off) zero l = absurd (omega arith)
take-drop-replicate (suc k) (suc off) (suc m) l = take-drop-replicate (suc k) off m (omega arith)

length-zero_bytes : (m : ℕ) → length (zero_bytes m) ≡ m
length-zero_bytes m = length-replicate m 0

le→leb : (a b : ℕ) → a ≤ b → leb a b ≡ true
le→leb a b l = ground arith

slice-replicate : (m off k : ℕ) → off + k ≤ m → slice (zero_bytes m) off k ≡ ok (zero_bytes k)
slice-replicate m off k l =
    rw (le→leb (off + k) (length (zero_bytes m)) (omega (arith, length-zero_bytes m)))
      (ap ok (take-drop-replicate k off m l))

read_hash_zeros : (m off : ℕ) → off + 32 ≤ m → read_hash (zero_bytes m) off ≡ ok zero_hash
unfolding read_hash read_gl_b32 bytes_to_hash bytes32_to_hash preimage_bytes32_to_raw
    raw_to_preimage_bytes32 swap_halves from_be_bytes be_bytes_after
read_hash_zeros m off l = rw (slice-replicate m off 32 l)

read_gl_bool_zeros : (m off : ℕ) → off + 8 ≤ m → read_gl_bool (zero_bytes m) off ≡ ok false
unfolding read_gl_bool from_be_bytes be_bytes_after
read_gl_bool_zeros m off l =
    rw (slice-replicate m off 4 (omega arith)) (rw (slice-replicate m (off + 4) 4 (omega arith)))

abbrev zeros : Bytes
zeros = zero_bytes 33376

zeros-IsTxPreimage : IsTxPreimage zeros (λ i. zero_hash)
zeros-IsTxPreimage = record {
  long = omega (arith, length-zero_bytes 33376);
  account = λ slot l. read_hash_zeros 33376 _ (omega arith);
  notes = λ slot j l m. read_hash_zeros 33376 _ (omega arith);
  real = λ slot l. (false, read_gl_bool_zeros 33376 _ (omega arith));
  account_nullifier = λ slot l. (zero_hash, read_hash_zeros 33376 _ (omega arith));
  note_nullifiers = λ slot j l m. (zero_hash, read_hash_zeros 33376 _ (omega arith));
}

abbrev two : List HashOutput
two = zero_hash ∷ some_hash ∷ []

abbrev pi_a : Bytes
pi_a = 1 ∷ 2 ∷ []

abbrev pi_b : Bytes
pi_b = 1 ∷ 3 ∷ []

-- A state tree of depth 4 with two leaves, and a pending batch of either kind.
abbrev start : StateSyncState
start = record {
  state_tree = tree_of 4 two;
  batch_root_to_leaf_index = [];
  commitment_to_batch = [];
  confirmed_roots = [];
  pending_batch_leaves = [];
  confirmed_batch_subtrees = [];
  pi_to_batch_root = [];
  pending_tx_batches = (pi_a, []) ∷ [];
  pending_bridge_tx_batches = (pi_b, []) ∷ [];
  confirmed_tx_batches = [];
  confirmed_bridge_tx_batches = [];
  confirmed_nullifiers = [];
  pending_nullifiers = (some_hash, pi_a) ∷ (zero_hash, pi_b) ∷ [];
  config_tree = record { inner = tree_of 20 []; leaf_index_map = [] };
  subpool_roots = [];
  pending_subpool_assignments = [];
  next_expected_subpool_id = 1;
  deposits = [];
  last_synced_block = 0;
}

apply_tx_preimage-confirm_batch_example :
    (s1 : StateSyncState) × (s2 : StateSyncState) × (leaves : List HashOutput) × (apply_tx_preimage
        zeros pi_a start
      ≡ (s1, ok tt))
    × (confirm_batch pi_a some_hash zero_hash s1 ≡ (s2, ok tt))
    × ((i : ℕ) → i < 512 → HasProofs leaves some_hash zero_hash s2)
apply_tx_preimage-confirm_batch_example =
    apply_tx_preimage-confirm_batch 4 two zeros pi_a (λ i. zero_hash) some_hash zero_hash start
      (omega arith) refl (omega arith) refl zeros-IsTxPreimage

settle-get_nullifier_status_example :
    get_nullifier_status (settle pi_a some_hash zero_hash start) some_hash ≡ nullifier_confirmed
settle-get_nullifier_status_example =
    settle-get_nullifier_status pi_a some_hash zero_hash start some_hash

batch_status_settles :
    (get_batch_status (settle pi_a some_hash zero_hash start) pi_a transaction ≡ batch_confirmed)
    × (get_batch_status (settle pi_a some_hash zero_hash start) pi_a bridge_tx
        ≡ get_batch_status start pi_a bridge_tx)
batch_status_settles = settle-get_batch_status pi_a some_hash zero_hash start pi_a

abbrev assigned : ℕ → SubpoolAssignedEvent
assigned id = record { subpool_id = id; owner = []; block_number = 0; log_index = 0 }

abbrev shuffled : List SubpoolAssignedEvent
shuffled = assigned 3 ∷ assigned 1 ∷ assigned 6 ∷ assigned 2 ∷ []

process_all_assigned-next_example :
    (0 < (process_all_assigned shuffled start).next_expected_subpool_id)
    × ((id : ℕ)
        → 0 < id
        → id < (process_all_assigned shuffled start).next_expected_subpool_id
        → member id (ids shuffled) ≡ true)
    × (member (process_all_assigned shuffled start).next_expected_subpool_id (ids shuffled) ≡ false)
process_all_assigned-next_example = process_all_assigned-next shuffled start refl refl

next_runs : (process_all_assigned shuffled start).next_expected_subpool_id ≡ 4
unfolding process_all_assigned process_assigned register_subpool drain
next_runs = refl

abbrev log_a : DepositAvailable
log_a = record { note_commitment = pi_a; value = 5; recipient = []; asset_id = 1; block_number = 8 }

sync_deposits-get_example :
    get (sync_deposits (log_a ∷ []) (pi_a ∷ pi_b ∷ []) (pi_a ∷ []) start).deposits pi_a
    ≡ some (record (new_record log_a) { status = withdrawn })
sync_deposits-get_example = sync_deposits-get (log_a ∷ []) (pi_a ∷ pi_b ∷ []) (pi_a ∷ []) start pi_a

abbrev swapped : Bytes
swapped = 1 ∷ 2 ∷ 3 ∷ 4 ∷ 5 ∷ 6 ∷ 7 ∷ 8 ∷ zero_bytes 24

swapped_twice : preimage_bytes32_to_raw (raw_to_preimage_bytes32 swapped) ≡ swapped
swapped_twice = preimage_bytes32_to_raw-raw swapped refl

some_hash-IsCanonical : IsCanonical some_hash × IsCanonical some_hash
some_hash-IsCanonical =
    decoded-IsCanonical (hash_to_bytes32 some_hash) (hash_to_u256_le some_hash) some_hash some_hash
      hash_encodings_example.0 hash_encodings_example.2

abbrev toy_two_to_one : HashOutput → HashOutput → HashOutput
toy_two_to_one l r = record { e0 = l.e0; e1 = r.e1; e2 = 5; e3 = 7 }

sync_config_tree_gap_example :
    (sync_config_tree toy_two_to_one
      (assigned 3 ∷ [])
      ((3, hash_to_u256_le some_hash) ∷ [])
      start).1
    ≡ panic
sync_config_tree_gap_example =
    sync_config_tree_gap toy_two_to_one (assigned 3) (hash_to_u256_le some_hash) some_hash start
      (omega arith) refl refl hash_encodings_example.2
