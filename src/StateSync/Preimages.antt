-- ===== src/StateSync/Preimages.antt =====
-- doxa-state-sync/src/sync.rs and constants.rs: what a batch's pre-image adds to the state.
pub mod Recorded
pub mod Confirmed
use doxa.Prelude.{
  ℕ, zero, suc, ◌+◌, ◌*◌, ◌^◌, Bool, true, false, not, ◌||◌, List, [], length, take, drop, ltb, leb,
  ◌==◌, if◌then◌else◌, Result, ok, err, panic, ◌>>=◌, ◌>>◌, ensure, attempt, chain, for_range,
  insert,
}
use doxa.Hasher.{HashOutput}
use doxa.Client.Keys.{bytes_key}
use doxa.StateSync.Contract.{
  Bytes, ContractError, from_be_bytes, bytes32_to_hash, preimage_bytes32_to_raw,
}
use doxa.StateSync.State.{
  StateSyncState, SyncError, preimage_too_short, SyncResult, add_pending_commitment,
  add_pending_nullifier,
}

abbrev pub priv_tx_batch_size : ℕ
priv_tx_batch_size = 64

abbrev pub note_batch : ℕ
note_batch = 7

abbrev pub bridge_tx_half_size : ℕ
bridge_tx_half_size = 256

abbrev pub tx_header_size : ℕ
tx_header_size = 96

abbrev pub tx_slot_size : ℕ
tx_slot_size = 520

abbrev pub w_slot_size : ℕ
w_slot_size = 616

abbrev pub d_slot_size : ℕ
d_slot_size = 216

abbrev pub d_section_off : ℕ
d_section_off = tx_header_size + bridge_tx_half_size * w_slot_size

-- The offsets in a slot of the two kinds; the first two are the same in every kind.
abbrev pub accin_null_off : ℕ
accin_null_off = 8

abbrev pub accout_comm_off : ℕ
accout_comm_off = 40

abbrev pub tx_note_in_off : ℕ
tx_note_in_off = 72

abbrev pub tx_note_out_off : ℕ
tx_note_out_off = 296

abbrev pub tx_preimage_len : ℕ
tx_preimage_len = tx_header_size + priv_tx_batch_size * tx_slot_size

abbrev pub bridge_tx_preimage_len : ℕ
bridge_tx_preimage_len = d_section_off + bridge_tx_half_size * d_slot_size

-- `&bytes[off..off + len]`
abbrev pub slice : Bytes → ℕ → ℕ → SyncResult Bytes
slice bytes off len =
    if leb (off + len) (length bytes) then ok (take len (drop off bytes)) else panic

unfoldable pub read_gl_b32 : Bytes → ℕ → SyncResult Bytes
unfolding preimage_bytes32_to_raw
read_gl_b32 preimage off = do b ← slice preimage off 32; ok (preimage_bytes32_to_raw b)

unfoldable pub read_gl_bool : Bytes → ℕ → SyncResult Bool
unfolding from_be_bytes
read_gl_bool preimage off = do
  lo ← slice preimage off 4
  hi ← slice preimage (off + 4) 4
  ok (not (from_be_bytes lo == 0) || not (from_be_bytes hi == 0))

-- `expect` panics where a limb is not below the prime.
abbrev pub expect_hash : Result ContractError HashOutput → SyncResult HashOutput
expect_hash (ok h) = ok h
expect_hash (err e) = panic
expect_hash panic = panic

unfoldable pub bytes_to_hash : Bytes → SyncResult HashOutput
unfolding bytes32_to_hash
bytes_to_hash b = expect_hash (bytes32_to_hash b)

unfoldable pub read_hash : Bytes → ℕ → SyncResult HashOutput
unfolding read_gl_b32 bytes_to_hash
read_hash preimage off = do raw ← read_gl_b32 preimage off; bytes_to_hash raw

unfoldable pub extract_batch_root_from_preimage : Bytes → SyncResult HashOutput
unfolding read_hash
extract_batch_root_from_preimage preimage = do
  ensure (leb 32 (length preimage)) (preimage_too_short (length preimage))
  read_hash preimage 0

abbrev pub tx_slot_off : ℕ → ℕ
tx_slot_off slot = tx_header_size + slot * tx_slot_size

module _ (preimage pi : Bytes) where
  -- The commitment at an offset, as a leaf of the batch.
  unfoldable pub add_commitment : ℕ → ℕ → StateSyncState → StateSyncState × SyncResult (Unit {0})
  unfolding read_hash
  add_commitment off leaf_index s =
      attempt s (read_hash preimage off) (λ c. (add_pending_commitment c pi leaf_index s, ok tt))

  unfoldable pub add_nullifier : ℕ → StateSyncState → StateSyncState × SyncResult (Unit {0})
  unfolding read_hash
  add_nullifier off s =
      attempt s (read_hash preimage off) (λ n. (add_pending_nullifier n pi s, ok tt))

  -- The account's commitment and then the notes', real or not.
  unfoldable pub tx_slot_commitments : ℕ → StateSyncState → StateSyncState × SyncResult (Unit {0})
  unfolding add_commitment
  tx_slot_commitments slot s =
      chain (add_commitment (tx_slot_off slot + accout_comm_off) (slot * 8) s) (
        for_range note_batch 0
          (λ j. add_commitment (tx_slot_off slot + tx_note_out_off + j * 32) (slot * 8 + j + 1)))

  -- The nullifiers of a real transaction.
  unfoldable pub tx_slot_nullifiers : ℕ → StateSyncState → StateSyncState × SyncResult (Unit {0})
  unfolding add_nullifier read_gl_bool
  tx_slot_nullifiers slot s = attempt s (read_gl_bool preimage (tx_slot_off slot)) (λ real.
      if real
      then chain (add_nullifier (tx_slot_off slot + accin_null_off) s)
          (for_range note_batch 0 (λ j. add_nullifier (tx_slot_off slot + tx_note_in_off + j * 32)))
      else (s, ok tt))

  unfoldable pub apply_tx_preimage : StateSyncState → StateSyncState × SyncResult (Unit {0})
  unfolding tx_slot_commitments tx_slot_nullifiers
  apply_tx_preimage s =
      let long =
        ensure (leb tx_preimage_len (length preimage)) (preimage_too_short (length preimage)) in
      attempt s long (λ _. chain (for_range priv_tx_batch_size 0 tx_slot_commitments s) (λ s1.
        chain (for_range priv_tx_batch_size 0 tx_slot_nullifiers s1) (λ s2.
          (record s2 { pending_tx_batches = insert s2.pending_tx_batches pi preimage }, ok tt))))

  -- A slot of a withdrawal or of a deposit: its commitment, and its nullifier where it is real.
  unfoldable pub bridge_slot : ℕ → ℕ → StateSyncState → StateSyncState × SyncResult (Unit {0})
  unfolding add_commitment add_nullifier read_gl_bool
  bridge_slot slot_off leaf_index s =
      chain (add_commitment (slot_off + accout_comm_off) leaf_index s) (λ s1.
        attempt s1 (read_gl_bool preimage slot_off)
          (λ real. if real then add_nullifier (slot_off + accin_null_off) s1 else (s1, ok tt)))

  unfoldable pub withdraw_slot : ℕ → StateSyncState → StateSyncState × SyncResult (Unit {0})
  unfolding bridge_slot
  withdraw_slot slot = bridge_slot (tx_header_size + slot * w_slot_size) slot

  unfoldable pub deposit_slot : ℕ → StateSyncState → StateSyncState × SyncResult (Unit {0})
  unfolding bridge_slot
  deposit_slot slot = bridge_slot (d_section_off + slot * d_slot_size) (256 + slot)

  unfoldable pub apply_bridge_preimage : StateSyncState → StateSyncState × SyncResult (Unit {0})
  unfolding withdraw_slot deposit_slot
  apply_bridge_preimage s =
      let long =
        ensure (leb bridge_tx_preimage_len (length preimage))
          (preimage_too_short (length preimage)) in
      attempt s long (λ _. chain (for_range bridge_tx_half_size 0 withdraw_slot s) (λ s1.
        chain (for_range bridge_tx_half_size 0 deposit_slot s1) (λ s2. (
          record s2 { pending_bridge_tx_batches = insert s2.pending_bridge_tx_batches pi preimage },
          ok tt,
        ))))
