-- ===== src/Server/Tests.antt =====
-- The batches' theorems at small batches.
use doxa.Prelude.{ℕ, map, ◌≡◌, refl, List, [], ◌∷◌, ◌++◌, some, ok, arith, length, take, replicate}
use doxa.Samples.{toy_hash, toy_poseidon}
use doxa.Hasher.{HashOutput}
use doxa.Merkle.{root}
use doxa.Merkle.Layers.{tree_of}
use doxa.Client.PublicInputs.{ProofWithPublicInputs, priv_tx_output_commitments}
use doxa.Server.SubtreeRoot.{compute_root_native}
use doxa.Server.SubtreeRoot.InPlace.{compute_root_native-root}
use doxa.Server.Batch.{
  BatchError, BatchResult, all_commitments, pi_preimage_words, priv_tx_batch_size,
}
use doxa.Server.Batch.Preimage.{unpack, elements, all_unique_pis, unpack-pi_preimage_words}
use doxa.Server.BridgeTx
use doxa.Server.PrivTx.{new, finalize}
use doxa.Server.PrivTx.Adds.{add_all, holding, agreeing, add_all-agreeing}
use doxa.Server.PrivTx.Finalize.{IsProver, padded, finalize-padded}

abbrev four : List ℕ
four = 5 ∷ 8 ∷ 7 ∷ 2 ∷ []

compute_root_native-root_example : compute_root_native four ≡ root (tree_of 2 four)
compute_root_native-root_example = compute_root_native-root 2 four (omega arith) refl

-- A proof that shows two roots, and its number after them.
abbrev with_roots : HashOutput → HashOutput → ℕ → ProofWithPublicInputs
with_roots act config tag = record {
  public_inputs =
      act.e0
      ∷ act.e1
      ∷ act.e2
      ∷ act.e3
      ∷ config.e0
      ∷ config.e1
      ∷ config.e2
      ∷ config.e3
      ∷ tag
      ∷ replicate 64 0;
}

abbrev act_a : HashOutput
act_a = record { e0 = 1; e1 = 2; e2 = 3; e3 = 4 }

abbrev act_b : HashOutput
act_b = record { e0 = 5; e1 = 2; e2 = 3; e3 = 4 }

abbrev config_a : HashOutput
config_a = record { e0 = 9; e1 = 9; e2 = 9; e3 = 9 }

abbrev adds : List ProofWithPublicInputs
adds =
    with_roots act_a config_a 1
    ∷ with_roots act_b config_a 2
    ∷ with_roots act_a config_a 3
    ∷ with_roots act_a act_b 4
    ∷ []

add_all-agreeing_example : add_all adds new ≡ holding (take priv_tx_batch_size (agreeing adds))
add_all-agreeing_example = add_all-agreeing adds (refl, (refl, (refl, (refl, tt))))

-- The second proof shows another account root, and the fourth another pool root.
agreeing_runs : agreeing adds ≡ with_roots act_a config_a 1 ∷ with_roots act_a config_a 3 ∷ []
agreeing_runs = refl

abbrev prove_fake : HashOutput → HashOutput → BatchResult ProofWithPublicInputs
prove_fake act config = ok (with_roots act config 0)

abbrev prove_fake-IsProver : IsProver prove_fake
prove_fake-IsProver = record {
  padding = λ act config. with_roots act config 0;
  proves = λ act config. refl;
  shaped = λ act config. refl;
  shows_act = λ act config. refl;
  shows_config = λ act config. refl;
}

abbrev first : ProofWithPublicInputs
first = with_roots act_a config_a 1

abbrev full_batch : List ProofWithPublicInputs
full_batch = padded (λ act config. with_roots act config 0) first []

finalize-padded_example :
    (leaves : List HashOutput) × (r : HashOutput) × (finalize prove_fake (holding (first ∷ []))
      ≡ (record { proofs = full_batch; batch_root = some r }, ok tt))
    × (length full_batch ≡ priv_tx_batch_size)
    × (all_commitments (priv_tx_output_commitments {E = BatchError}) full_batch ≡ ok leaves)
    × (root (tree_of 9 leaves) ≡ ok r)
finalize-padded_example = finalize-padded prove_fake-IsProver first [] (refl, tt) (omega arith)

abbrev short_proof : ProofWithPublicInputs
short_proof = record { public_inputs = 1 ∷ 2 ∷ 3 ∷ 4 ∷ 9 ∷ 9 ∷ 9 ∷ 4294967299 ∷ 1 ∷ [] }

unpack-pi_preimage_words_example :
    (words : List ℕ) × (pi_preimage_words (ok act_a) (short_proof ∷ []) ≡ ok words)
    × (unpack words
        ≡ elements act_a ++ (take 8 short_proof.public_inputs ++ all_unique_pis (short_proof ∷ [])))
unpack-pi_preimage_words_example =
    unpack-pi_preimage_words act_a short_proof []
      (omega arith, (omega arith, (omega arith, (omega arith, tt))))
      (
        omega arith,
        (
          omega arith,
          (
            omega arith,
            (
              omega arith,
              (
                omega arith,
                (omega arith, (omega arith, (omega arith, (omega arith, (omega arith, tt))))),
              ),
            ),
          ),
        ),
        tt,
      )

abbrev bridge_adds : List BridgeTx.BridgeTxProof
bridge_adds =
    BridgeTx.deposit_tx_proof (with_roots act_b config_a 2)
    ∷ BridgeTx.withdraw_tx_proof (with_roots act_a config_a 3)
    ∷ []

abbrev bridge_first : BridgeTx.BridgeTxProof
bridge_first = BridgeTx.withdraw_tx_proof first

add_all-halves_example :
    BridgeTx.Adds.add_all (bridge_first ∷ bridge_adds) BridgeTx.new
    ≡ BridgeTx.Adds.holding bridge_first
        (bridge_first ∷ BridgeTx.withdraw_tx_proof (with_roots act_a config_a 3) ∷ [])
        []
add_all-halves_example =
    BridgeTx.Adds.add_all-halves bridge_first bridge_adds
      (omega arith, (omega arith, (omega arith, tt)))

abbrev prove_fake_withdraw : HashOutput → HashOutput → BatchResult BridgeTx.BridgeTxProof
prove_fake_withdraw act config = ok (BridgeTx.withdraw_tx_proof (with_roots act config 0))

abbrev prove_fake_deposit : HashOutput → HashOutput → BatchResult BridgeTx.BridgeTxProof
prove_fake_deposit act config = ok (BridgeTx.deposit_tx_proof (with_roots act config 0))

abbrev withdraw_filled : List BridgeTx.BridgeTxProof
withdraw_filled =
    BridgeTx.Finalize.filled (bridge_first ∷ [])
      (BridgeTx.withdraw_tx_proof (with_roots act_a config_a 0))

abbrev deposit_filled : List BridgeTx.BridgeTxProof
deposit_filled =
    BridgeTx.Finalize.filled [] (BridgeTx.deposit_tx_proof (with_roots act_a config_a 0))

-- One withdrawal and no deposit.
finalize-filled_example :
    (r : HashOutput) × (BridgeTx.finalize prove_fake_withdraw prove_fake_deposit
        (BridgeTx.Adds.holding bridge_first (bridge_first ∷ []) [])
      ≡ (BridgeTx.Finalize.finalized bridge_first withdraw_filled deposit_filled r, ok tt))
    × (length withdraw_filled ≡ BridgeTx.half)
    × (length deposit_filled ≡ BridgeTx.half)
    × (root (tree_of 9 (map BridgeTx.Finalize.commitment_of (withdraw_filled ++ deposit_filled)))
        ≡ ok r)
finalize-filled_example =
    BridgeTx.Finalize.finalize-filled prove_fake_withdraw prove_fake_deposit bridge_first
      (BridgeTx.withdraw_tx_proof (with_roots act_a config_a 0))
      (BridgeTx.deposit_tx_proof (with_roots act_a config_a 0)) (bridge_first ∷ []) [] refl refl
      (omega arith) (omega arith) (omega arith, tt) tt refl (omega arith) (omega arith)
