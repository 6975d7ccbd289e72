-- ===== src/Server/PrivTx.antt =====
-- doxa-server/src/prover_service/priv_tx/batch_helper.rs: `PrivateTxBatch`.
pub mod Adds
pub mod Finalize
use doxa.Prelude.{
  is_some, ℕ, ◌-◌, Bool, true, false, not, ◌&&◌, List, [], ◌∷◌, ◌++◌, Option, none, some, length,
  replicate, ltb, ◌==◌, Result, ok, err, panic, ◌>>=◌, ◌>>◌, ensure, ok_or, index, attempt,
  if◌then◌else◌,
}
use doxa.Hasher.{MerkleHash, HashOutput}
use doxa.Client.PublicInputs.{
  ProofWithPublicInputs, same_hash, act_root, mainpool_config_root, priv_tx_output_commitments,
}
use doxa.Server.Batch.{
  BatchError, batch_is_full, already_finalized, act_root_mismatch, mainpool_config_root_mismatch,
  batch_is_empty, not_finalized, BatchResult, priv_tx_batch_size, batch_poseidon_root,
  pi_preimage_words,
}

pub record PrivateTxBatch : Type 0 where
  pub proofs : List ProofWithPublicInputs
  pub batch_root : Option HashOutput

abbrev pub new : PrivateTxBatch
new = record { proofs = []; batch_root = none }

abbrev pub is_full : PrivateTxBatch → Bool
is_full b = length b.proofs == priv_tx_batch_size

abbrev pub is_finalized : PrivateTxBatch → Bool
is_finalized b = is_some b.batch_root

-- The roots are compared with the first proof's; the comparison panics on too few public inputs.
pub check_roots : List ProofWithPublicInputs → ProofWithPublicInputs → BatchResult (Unit {0})
unfolding act_root mainpool_config_root
check_roots [] proof = ok tt
check_roots (first ∷ proofs) proof = do
  act ← act_root proof
  first_act ← act_root first
  ensure (same_hash act first_act) act_root_mismatch
  config ← mainpool_config_root proof
  first_config ← mainpool_config_root first
  ensure (same_hash config first_config) mainpool_config_root_mismatch

unfoldable pub add_proof :
    PrivateTxBatch → ProofWithPublicInputs → PrivateTxBatch × BatchResult Bool
unfolding check_roots
add_proof b proof =
    let checks = do
      ensure (not (is_full b)) batch_is_full
      ensure (not (is_finalized b)) already_finalized
      check_roots b.proofs proof
    in attempt b checks (λ _.
      let pushed = record b { proofs = b.proofs ++ proof ∷ [] } in (pushed, ok (is_full pushed)))

unfoldable pub common_act_root : PrivateTxBatch → BatchResult HashOutput
unfolding act_root
common_act_root b = do
  ensure (not (length b.proofs == 0)) batch_is_empty
  first ← index b.proofs 0
  act_root first

unfoldable pub common_main_config_root : PrivateTxBatch → BatchResult HashOutput
unfolding mainpool_config_root
common_main_config_root b = do
  ensure (not (length b.proofs == 0)) batch_is_empty
  first ← index b.proofs 0
  mainpool_config_root first

unfoldable pub commitments_subtree_root : PrivateTxBatch → BatchResult HashOutput
commitments_subtree_root b = ok_or b.batch_root not_finalized

unfoldable pub preimage_words : PrivateTxBatch → BatchResult (List ℕ)
unfolding commitments_subtree_root pi_preimage_words
preimage_words b = pi_preimage_words (commitments_subtree_root b) b.proofs

-- `prove` stands for the proving of a fake transaction under an account root and a pool root.
module _ (prove : HashOutput → HashOutput → BatchResult ProofWithPublicInputs) where
  -- The subtraction of `usize` panics below zero.
  pub pad_proofs : List ProofWithPublicInputs → BatchResult (List ProofWithPublicInputs)
  unfolding act_root mainpool_config_root
  pad_proofs proofs =
      if ltb priv_tx_batch_size (length proofs)
      then panic
      else (if length proofs == priv_tx_batch_size then ok proofs else (do
        first ← index proofs 0
        act ← act_root first
        config ← mainpool_config_root first
        padding_proof ← prove act config
        ok (proofs ++ replicate (priv_tx_batch_size - length proofs) padding_proof)))

  unfoldable pub finalize :
      ⦃h : MerkleHash HashOutput⦄ → PrivateTxBatch → PrivateTxBatch × BatchResult (Unit {0})
  unfolding pad_proofs batch_poseidon_root
  finalize b =
      let padded = do
        ensure (not (length b.proofs == 0)) batch_is_empty
        ensure (not (is_finalized b)) already_finalized
        pad_proofs b.proofs
      in attempt b padded (λ proofs.
        let full = record b { proofs = proofs } in
        attempt full (batch_poseidon_root priv_tx_output_commitments (is_full full) proofs)
          (λ r. (record full { batch_root = some r }, ok tt)))
