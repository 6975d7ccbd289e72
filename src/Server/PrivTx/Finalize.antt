-- ===== src/Server/PrivTx/Finalize.antt =====
-- `finalize` fills the batch and commits to its output commitments.
use doxa.Prelude.{
  ℕ, zero, suc, ◌-◌, ◌*◌, ◌≤◌, ◌<◌, ◌≡◌, refl, sym, ap, ◌∙◌, Bool, true, false, not, List, [], ◌∷◌,
  ◌++◌, some, arith, length, length-append, length-replicate, replicate, ge→ltb, ◌==◌, ok, attempt,
  ensure, Bool-cases, inl, inr, ◌>>◌, append-nil,
}
use doxa.Hasher.{MerkleHash, HashOutput}
use doxa.Merkle.{root}
use doxa.Merkle.Layers.{tree_of}
use doxa.Merkle.Full.{node, root-node}
use doxa.Client.PublicInputs.{
  ProofWithPublicInputs, hash_from, hash_at-hash_from, act_root, mainpool_config_root,
  priv_tx_output_commitments, priv_tx_output_commitments_lem,
}
use doxa.Server.Batch.{
  BatchError, batch_is_empty, BatchResult, priv_tx_batch_size, all_commitments, batch_poseidon_root,
}
use doxa.Server.Batch.Root.{root_of_leaves}
use doxa.Server.PrivTx.{PrivateTxBatch, pad_proofs, finalize}
use doxa.Server.PrivTx.Adds.{IsPrivTxProof, AllPrivTxProofs, holding}

-- Proving a fake transaction gives a proof that shows the roots it was asked for.
pub record IsProver (prove : HashOutput → HashOutput → BatchResult ProofWithPublicInputs)
    : Type 0 where
  pub padding : HashOutput → HashOutput → ProofWithPublicInputs
  pub proves : (act config : HashOutput) → prove act config ≡ ok (padding act config)
  pub shaped : (act config : HashOutput) → IsPrivTxProof (padding act config)
  pub shows_act : (act config : HashOutput) → hash_from (padding act config).public_inputs 0 ≡ act
  pub shows_config :
      (act config : HashOutput) → hash_from (padding act config).public_inputs 4 ≡ config

all_commitments_lem :
    (proofs : List ProofWithPublicInputs)
    → AllPrivTxProofs proofs
    → (leaves : List HashOutput) × (all_commitments
          (priv_tx_output_commitments {E = BatchError})
          proofs
        ≡ ok leaves)
      × (length leaves ≡ 8 * length proofs)
unfolding all_commitments
all_commitments_lem [] all = ([], refl, refl)
all_commitments_lem (p ∷ proofs) all =
    let (first, runs, size) = priv_tx_output_commitments_lem {E = BatchError} p all.0 in
    let (rest, runs', size') = all_commitments_lem proofs all.1 in
    (first ++ rest, rw runs (rw runs'), length-append first rest ∙ omega (arith, size, size'))

AllPrivTxProofs-append :
    (xs ys : List ProofWithPublicInputs)
    → AllPrivTxProofs xs
    → AllPrivTxProofs ys
    → AllPrivTxProofs (xs ++ ys)
AllPrivTxProofs-append [] ys a b = b
AllPrivTxProofs-append (x ∷ xs) ys a b = (a.0, AllPrivTxProofs-append xs ys a.1 b)

AllPrivTxProofs-replicate :
    (n : ℕ) (p : ProofWithPublicInputs) → IsPrivTxProof p → AllPrivTxProofs (replicate n p)
AllPrivTxProofs-replicate zero p a = tt
AllPrivTxProofs-replicate (suc n) p a = (a, AllPrivTxProofs-replicate n p a)

not_full : (n : ℕ) → n < 64 → (n == 64) ≡ false
not_full n l = ground arith

nonempty : (n : ℕ) → (suc n == 0) ≡ false
nonempty n = ground arith

missing : (n : ℕ) → (n == 64) ≡ true → 0 ≡ 64 - n
missing n e = ground arith

-- The proofs of a finalized batch: those held, and copies of one padding proof.
abbrev pub padded :
    (HashOutput → HashOutput → ProofWithPublicInputs)
    → ProofWithPublicInputs
    → List ProofWithPublicInputs
    → List ProofWithPublicInputs
padded padding first held =
    (first ∷ held)
    ++ replicate (priv_tx_batch_size - length (first ∷ held))
        (padding (hash_from first.public_inputs 0) (hash_from first.public_inputs 4))

module _ {prove : HashOutput → HashOutput → BatchResult ProofWithPublicInputs} where
  pad_proofs-padded :
      (is_prover : IsProver prove) (first : ProofWithPublicInputs)
      (held : List ProofWithPublicInputs)
      → IsPrivTxProof first
      → length (first ∷ held) ≤ priv_tx_batch_size
      → pad_proofs prove (first ∷ held) ≡ ok (padded is_prover.padding first held)
  unfolding pad_proofs act_root mainpool_config_root
  pad_proofs-padded is_prover first held f l =
      rw (ge→ltb priv_tx_batch_size (length (first ∷ held)) l)
        (elim (Bool-cases (length (first ∷ held) == priv_tx_batch_size)) [
          | inl full ↦ rw full (
              let none_missing : 0 ≡ priv_tx_batch_size - length (first ∷ held) =
                missing (length (first ∷ held)) full in
              ap ok (
                sym (append-nil (first ∷ held))
                ∙ ap
                    (λ n.
                      (first ∷ held)
                      ++ replicate n (
                          is_prover.padding (hash_from first.public_inputs 0)
                            (hash_from first.public_inputs 4)))
                    none_missing))
          | inr room ↦ rw room (
              rw (hash_at-hash_from {E = BatchError} first.public_inputs 0 (omega (arith, f))) (
                rw (hash_at-hash_from {E = BatchError} first.public_inputs 4 (omega (arith, f))) (
                  rw (
                    is_prover.proves (hash_from first.public_inputs 0)
                      (hash_from first.public_inputs 4)))))
        ])

  AllPrivTxProofs-padded :
      (is_prover : IsProver prove) (first : ProofWithPublicInputs)
      (held : List ProofWithPublicInputs)
      → AllPrivTxProofs (first ∷ held)
      → AllPrivTxProofs (padded is_prover.padding first held)
  AllPrivTxProofs-padded is_prover first held all = AllPrivTxProofs-append (first ∷ held) _ all (
      AllPrivTxProofs-replicate (priv_tx_batch_size - length (first ∷ held)) _
        (is_prover.shaped (hash_from first.public_inputs 0) (hash_from first.public_inputs 4)))

length-padded :
    (padding : HashOutput → HashOutput → ProofWithPublicInputs) (first : ProofWithPublicInputs)
    (held : List ProofWithPublicInputs)
    → length (first ∷ held) ≤ priv_tx_batch_size
    → length (padded padding first held) ≡ priv_tx_batch_size
length-padded padding first held l =
    let q = padding (hash_from first.public_inputs 0) (hash_from first.public_inputs 4) in
    let m = priv_tx_batch_size - length (first ∷ held) in
    length-append (first ∷ held) (replicate m q) ∙ omega (arith, l, length-replicate m q)

module _ ⦃h : MerkleHash HashOutput⦄ where
  batch_poseidon_root_lem :
      (proofs : List ProofWithPublicInputs) (full : Bool)
      → AllPrivTxProofs proofs
      → length proofs ≡ priv_tx_batch_size
      → full ≡ true
      → (leaves : List HashOutput) × (all_commitments
            (priv_tx_output_commitments {E = BatchError})
            proofs
          ≡ ok leaves)
        × (batch_poseidon_root priv_tx_output_commitments full proofs ≡ ok (node leaves 9 0))
        × (length leaves ≡ 512)
  unfolding batch_poseidon_root
  batch_poseidon_root_lem proofs full all e f =
      let (leaves, runs, size) = all_commitments_lem proofs all in
      let size' : length leaves ≡ 512 = omega (arith, size, e) in
      (leaves, runs, rw f (rw runs (root_of_leaves leaves size')), size')

  -- What `finalize` does with the padded proofs.
  abbrev commit : List ProofWithPublicInputs → PrivateTxBatch × BatchResult (Unit {0})
  commit proofs =
      attempt (holding proofs)
        (batch_poseidon_root priv_tx_output_commitments (length proofs == priv_tx_batch_size)
          proofs)
        (λ r. (record { proofs = proofs; batch_root = some r }, ok tt))

  finalize_lem :
      (prove : HashOutput → HashOutput → BatchResult ProofWithPublicInputs)
      (first : ProofWithPublicInputs) (held proofs : List ProofWithPublicInputs) (r : HashOutput)
      → pad_proofs prove (first ∷ held) ≡ ok proofs
      → batch_poseidon_root priv_tx_output_commitments (length proofs == priv_tx_batch_size) proofs
        ≡ ok r
      → finalize prove (holding (first ∷ held))
        ≡ (record { proofs = proofs; batch_root = some r }, ok tt)
  unfolding finalize
  finalize_lem prove first held proofs r pads computes =
      (λ i.
        attempt (holding (first ∷ held))
          (ensure (not (nonempty (length held) i)) batch_is_empty >> pads i) commit)
      ∙ (λ i.
          attempt (holding proofs) (computes i)
            (λ r. (record { proofs = proofs; batch_root = some r }, ok tt)))

  module _ {prove : HashOutput → HashOutput → BatchResult ProofWithPublicInputs} where
    -- Let proving a fake transaction succeed with 73 public inputs that show the roots asked for.
    -- On a batch that is not finalized and holds from 1 to 64 proofs of 73 public inputs each,
    -- `finalize` succeeds. The batch then holds the same proofs first and 64 in all, and its root
    -- is that of the Merkle tree of depth 9 whose leaves are all output commitments in slot order.
    pub finalize-padded :
        (is_prover : IsProver prove) (first : ProofWithPublicInputs)
        (held : List ProofWithPublicInputs)
        → AllPrivTxProofs (first ∷ held)
        → length (first ∷ held) ≤ priv_tx_batch_size
        → (leaves : List HashOutput) × (r : HashOutput) × (finalize prove (holding (first ∷ held))
            ≡ (record { proofs = padded is_prover.padding first held; batch_root = some r }, ok tt))
          × (length (padded is_prover.padding first held) ≡ priv_tx_batch_size)
          × (all_commitments
                (priv_tx_output_commitments {E = BatchError})
                (padded is_prover.padding first held)
              ≡ ok leaves)
          × (root (tree_of 9 leaves) ≡ ok r)
    unfolding finalize
    finalize-padded is_prover first held all l =
        let proofs = padded is_prover.padding first held in
        let size = length-padded is_prover.padding first held l in
        let (leaves, runs, computes, size') =
          batch_poseidon_root_lem proofs (length proofs == priv_tx_batch_size)
            (AllPrivTxProofs-padded is_prover first held all) size (ground (arith, size)) in
        (
          leaves,
          node leaves 9 0,
          finalize_lem prove first held proofs (node leaves 9 0)
              (pad_proofs-padded is_prover first held all.0 l) computes,
          size,
          runs,
          root-node 9 leaves (omega arith) (omega (arith, size')),
        )
