-- ===== src/Server/Batch.antt =====
-- doxa-server/src/batch_helper.rs: the provided methods of the trait `BatchHelper`.
pub mod Preimage
pub mod Root
use doxa.Prelude.{
  ℕ, zero, suc, ◌+◌, ◌*◌, ◌/◌, ◌%◌, ◌^◌, Bool, List, [], ◌∷◌, ◌++◌, length, ◌==◌, Result, ok, err,
  panic, ◌>>=◌, ◌>>◌, ensure, index, unfailing,
}
use doxa.Hasher.{MerkleHash, HashOutput}
use doxa.Client.PublicInputs.{ProofWithPublicInputs, batch_common_pis, batch_unique_pis}
use doxa.Server.SubtreeRoot.{compute_root_native}

-- The errors of `add_proof`, `finalize` and the trait's own methods, by their messages.
pub data BatchError : Type 0 where
  batch_is_full already_finalized act_root_mismatch mainpool_config_root_mismatch : BatchError
  batch_is_empty not_finalized needs_finalize no_proofs_added proving_failed : BatchError
  withdraw_half_is_full deposit_half_is_full : BatchError
  leaf_count_mismatch : ℕ → BatchError

abbrev pub BatchResult : Type 0 → Type 0
BatchResult A = Result BatchError A

abbrev pub priv_tx_batch_size : ℕ
priv_tx_batch_size = 64

abbrev pub bridge_tx_batch_size : ℕ
bridge_tx_batch_size = 512

abbrev pub subtree_batchsize : ℕ
subtree_batchsize = 512

-- `flat_map(|p| p.output_commitments())`
unfoldable pub all_commitments {ℓ} :
    {P : Type ℓ} → (P → BatchResult (List HashOutput)) → List P → BatchResult (List HashOutput)
all_commitments output_commitments [] = ok []
all_commitments output_commitments (p ∷ proofs) = do
  first ← output_commitments p
  rest ← all_commitments output_commitments proofs
  ok (first ++ rest)

module _ ⦃h : MerkleHash HashOutput⦄ where
  unfoldable pub batch_poseidon_root {ℓ} :
      {P : Type ℓ} → (P → BatchResult (List HashOutput)) → Bool → List P → BatchResult HashOutput
  unfolding all_commitments
  batch_poseidon_root output_commitments is_full proofs = do
    ensure is_full needs_finalize
    leaves ← all_commitments output_commitments proofs
    ensure (length leaves == subtree_batchsize) (leaf_count_mismatch (length leaves))
    unfailing (compute_root_native leaves)

-- Each element as its low and its high `u32`.
unfoldable pub push_fields : List ℕ → List ℕ
push_fields [] = []
push_fields (v ∷ fields) = v % 2 ^ 32 ∷ (v / 2 ^ 32) % 2 ^ 32 ∷ push_fields fields

unfoldable pub push_unique_pis : List ProofWithPublicInputs → BatchResult (List ℕ)
unfolding push_fields batch_unique_pis
push_unique_pis [] = ok []
push_unique_pis (p ∷ proofs) = do
  unique ← batch_unique_pis p
  rest ← push_unique_pis proofs
  ok (push_fields unique ++ rest)

-- The pre-image of the commitment to a finalized batch.
unfoldable pub pi_preimage_words :
    BatchResult HashOutput → List ProofWithPublicInputs → BatchResult (List ℕ)
unfolding push_fields push_unique_pis batch_common_pis
pi_preimage_words commitments_subtree_root proofs = do
  root ← commitments_subtree_root
  first ← index proofs 0
  common ← batch_common_pis first
  unique ← push_unique_pis proofs
  ok (push_fields (root.e0 ∷ root.e1 ∷ root.e2 ∷ root.e3 ∷ []) ++ (push_fields common ++ unique))
