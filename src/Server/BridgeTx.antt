-- ===== src/Server/BridgeTx.antt =====
-- doxa-server/src/prover_service/bridge_tx/batch_helper.rs: `BridgeTxBatch`.
pub mod Adds
pub mod Finalize
use doxa.Prelude.{
  ℕ, ◌-◌, ◌/◌, Bool, true, false, not, ◌&&◌, List, [], ◌∷◌, ◌++◌, Option, none, some, is_some,
  length, map, replicate, ltb, ◌==◌, Result, ok, err, panic, ◌>>=◌, ◌>>◌, ensure, ok_or, attempt,
  chain, if◌then◌else◌,
}
use doxa.Hasher.{MerkleHash, HashOutput}
use doxa.Client.PublicInputs.{
  ProofWithPublicInputs, same_hash, act_root, mainpool_config_root, bridge_output_commitments,
}
use doxa.Server.Batch.{
  BatchError, batch_is_full, already_finalized, act_root_mismatch, mainpool_config_root_mismatch,
  batch_is_empty, no_proofs_added, not_finalized, withdraw_half_is_full, deposit_half_is_full,
  BatchResult, bridge_tx_batch_size, batch_poseidon_root, pi_preimage_words,
}

pub data BridgeTxProof : Type 0 where
  withdraw_tx_proof deposit_tx_proof : ProofWithPublicInputs → BridgeTxProof

-- `PIHelper::proof`
abbrev pub proof_of : BridgeTxProof → ProofWithPublicInputs
proof_of (withdraw_tx_proof p) = p
proof_of (deposit_tx_proof p) = p

unfoldable pub output_commitments : BridgeTxProof → BatchResult (List HashOutput)
unfolding bridge_output_commitments
output_commitments p = bridge_output_commitments (proof_of p)

pub record BridgeTxBatch : Type 0 where
  pub withdraw_half : List BridgeTxProof
  pub deposit_half : List BridgeTxProof
  pub act : Option HashOutput
  pub config : Option HashOutput
  pub batch_root : Option HashOutput
  pub finalized_proofs : List BridgeTxProof

abbrev pub new : BridgeTxBatch
new = record {
  withdraw_half = [];
  deposit_half = [];
  act = none;
  config = none;
  batch_root = none;
  finalized_proofs = [];
}

-- `PROOF_BATCH_SIZE >> 1`
abbrev pub half : ℕ
half = 256

abbrev pub is_withdraw_full : BridgeTxBatch → Bool
is_withdraw_full b = length b.withdraw_half == half

abbrev pub is_deposit_full : BridgeTxBatch → Bool
is_deposit_full b = length b.deposit_half == half

abbrev pub is_full : BridgeTxBatch → Bool
is_full b = is_withdraw_full b && is_deposit_full b

abbrev pub is_empty : BridgeTxBatch → Bool
is_empty b = (length b.withdraw_half == 0) && (length b.deposit_half == 0)

abbrev pub is_finalized : BridgeTxBatch → Bool
is_finalized b = is_some b.batch_root

abbrev pub common_act_root : BridgeTxBatch → BatchResult HashOutput
common_act_root b = ok_or b.act no_proofs_added

abbrev pub common_main_config_root : BridgeTxBatch → BatchResult HashOutput
common_main_config_root b = ok_or b.config no_proofs_added

unfoldable pub commitments_subtree_root : BridgeTxBatch → BatchResult HashOutput
commitments_subtree_root b = ok_or b.batch_root not_finalized

unfoldable pub preimage_words : BridgeTxBatch → BatchResult (List ℕ)
unfolding commitments_subtree_root pi_preimage_words
preimage_words b = pi_preimage_words (commitments_subtree_root b) (map proof_of b.finalized_proofs)

-- The proof's roots are compared with the common ones.
unfoldable pub check_common : BridgeTxBatch → BridgeTxProof → BatchResult (Unit {0})
unfolding act_root mainpool_config_root
check_common b proof = do
  proof_act ← act_root (proof_of proof)
  common_act ← common_act_root b
  ensure (same_hash proof_act common_act) act_root_mismatch
  proof_config ← mainpool_config_root (proof_of proof)
  common_config ← common_main_config_root b
  ensure (same_hash proof_config common_config) mainpool_config_root_mismatch

-- The batch with the proof's roots as the common ones.
unfoldable pub set_common : BridgeTxBatch → BridgeTxProof → BatchResult BridgeTxBatch
unfolding act_root mainpool_config_root
set_common b proof = do
  proof_act ← act_root (proof_of proof)
  proof_config ← mainpool_config_root (proof_of proof)
  ok (record b { act = some proof_act; config = some proof_config })

unfoldable pub push : BridgeTxBatch → BridgeTxProof → BridgeTxBatch × BatchResult Bool
push b (withdraw_tx_proof p) =
    attempt b (ensure (not (is_withdraw_full b)) withdraw_half_is_full) (λ _.
      let pushed = record b { withdraw_half = b.withdraw_half ++ withdraw_tx_proof p ∷ [] } in
      (pushed, ok (is_full pushed)))
push b (deposit_tx_proof p) =
    attempt b (ensure (not (is_deposit_full b)) deposit_half_is_full) (λ _.
      let pushed = record b { deposit_half = b.deposit_half ++ deposit_tx_proof p ∷ [] } in
      (pushed, ok (is_full pushed)))

-- The common roots are set before the half's room is tested.
unfoldable pub add_checked : BridgeTxBatch → BridgeTxProof → BridgeTxBatch × BatchResult Bool
unfolding check_common set_common push
add_checked b proof =
    if is_some b.act
    then attempt b (check_common b proof) (λ _. push b proof)
    else attempt b (set_common b proof) (λ b'. push b' proof)

unfoldable pub add_proof : BridgeTxBatch → BridgeTxProof → BridgeTxBatch × BatchResult Bool
unfolding add_checked
add_proof b proof =
    let checks = do
      ensure (not (is_full b)) batch_is_full
      ensure (not (is_finalized b)) already_finalized
    in attempt b checks (λ _. add_checked b proof)

-- A half with copies of a padding proof up to its size. The subtraction of `usize` panics below zero.
abbrev pub pad_half :
    BatchResult BridgeTxProof → List BridgeTxProof → BatchResult (List BridgeTxProof)
pad_half prove proofs =
    if ltb half (length proofs)
    then panic
    else (if length proofs == half
        then ok proofs
        else (do padding ← prove; ok (proofs ++ replicate (half - length proofs) padding)))

-- `prove_withdraw` and `prove_deposit` stand for the proving of fake transactions.
module _ (prove_withdraw prove_deposit : HashOutput → HashOutput → BatchResult BridgeTxProof)
    ⦃h : MerkleHash HashOutput⦄ where
  -- The merged halves, withdrawals first, and their root.
  unfoldable pub merge_halves : BridgeTxBatch → BridgeTxBatch × BatchResult (Unit {0})
  unfolding batch_poseidon_root output_commitments
  merge_halves b =
      let merged = record b { finalized_proofs = b.withdraw_half ++ b.deposit_half } in
      attempt merged
        (batch_poseidon_root output_commitments (is_full merged) merged.finalized_proofs)
        (λ r. (record merged { batch_root = some r }, ok tt))

  unfoldable pub finalize : BridgeTxBatch → BridgeTxBatch × BatchResult (Unit {0})
  unfolding merge_halves
  finalize b =
      let roots : BatchResult (HashOutput × HashOutput) = do
        ensure (not (is_empty b)) batch_is_empty
        ensure (not (is_finalized b)) already_finalized
        common_act ← common_act_root b
        common_config ← common_main_config_root b
        ok (common_act, common_config)
      in attempt b roots (λ common.
        attempt b (pad_half (prove_withdraw common.0 common.1) b.withdraw_half) (λ withdraws.
          let b1 = record b { withdraw_half = withdraws } in
          attempt b1 (pad_half (prove_deposit common.0 common.1) b1.deposit_half)
            (λ deposits. merge_halves (record b1 { deposit_half = deposits }))))
