-- ===== src/Server/BridgeTx/Finalize.antt =====
-- `finalize` fills both halves and commits to the merged batch.
use doxa.Prelude.{
  ℕ, zero, suc, ◌-◌, ◌≤◌, ◌≡◌, refl, sym, ap, ◌∙◌, Bool, true, false, ◌&&◌, List, [], ◌∷◌, ◌++◌,
  some, arith, length, length-append, length-replicate, length-map, map, replicate, ge→ltb, ◌==◌,
  ok, Bool-cases, inl, inr, append-nil,
}
use doxa.Hasher.{MerkleHash, HashOutput}
use doxa.Merkle.{root}
use doxa.Merkle.Layers.{tree_of}
use doxa.Merkle.Full.{node, root-node}
use doxa.Client.PublicInputs.{hash_from, hash_at-hash_from, bridge_output_commitments}
use doxa.Server.Batch.{BatchError, BatchResult, all_commitments, batch_poseidon_root}
use doxa.Server.Batch.Root.{root_of_leaves}
use doxa.Server.BridgeTx.{
  BridgeTxProof, proof_of, output_commitments, BridgeTxBatch, half, is_empty, is_full, pad_half,
  merge_halves, finalize,
}
use doxa.Server.BridgeTx.Adds.{holding}

-- Enough public inputs for the account commitment.
abbrev pub HasCommitment : BridgeTxProof → Type 0
HasCommitment p = 17 ≤ length (proof_of p).public_inputs

abbrev pub AllHaveCommitments : List BridgeTxProof → Type 0
AllHaveCommitments [] = Unit {0}
AllHaveCommitments (p ∷ proofs) = HasCommitment p × AllHaveCommitments proofs

abbrev pub commitment_of : BridgeTxProof → HashOutput
commitment_of p = hash_from (proof_of p).public_inputs 13

-- A half and copies of its padding.
abbrev pub filled : List BridgeTxProof → BridgeTxProof → List BridgeTxProof
filled proofs padding = proofs ++ replicate (half - length proofs) padding

length-filled :
    (proofs : List BridgeTxProof) (padding : BridgeTxProof)
    → length proofs ≤ half
    → length (filled proofs padding) ≡ half
length-filled proofs padding l =
    length-append proofs (replicate (half - length proofs) padding)
    ∙ omega (arith, l, length-replicate (half - length proofs) padding)

none_missing : (n : ℕ) → (n == half) ≡ true → 0 ≡ half - n
none_missing n e = ground arith

both_full : (m n : ℕ) → m ≡ half → n ≡ half → ((m == half) && (n == half)) ≡ true
both_full m n e e' = ground arith

pad_half-filled :
    (prove : BatchResult BridgeTxProof) (proofs : List BridgeTxProof) (padding : BridgeTxProof)
    → prove ≡ ok padding
    → length proofs ≤ half
    → pad_half prove proofs ≡ ok (filled proofs padding)
pad_half-filled prove proofs padding proves l =
    rw (ge→ltb half (length proofs) l) (elim (Bool-cases (length proofs == half)) [
      | inl full ↦ rw full (
          ap ok (
            sym (append-nil proofs)
            ∙ ap (λ n. proofs ++ replicate n padding) (none_missing (length proofs) full)))
      | inr room ↦ rw room (rw proves refl)
    ])

AllHaveCommitments-append :
    (xs ys : List BridgeTxProof)
    → AllHaveCommitments xs
    → AllHaveCommitments ys
    → AllHaveCommitments (xs ++ ys)
AllHaveCommitments-append [] ys a b = b
AllHaveCommitments-append (x ∷ xs) ys a b = (a.0, AllHaveCommitments-append xs ys a.1 b)

AllHaveCommitments-replicate :
    (n : ℕ) (p : BridgeTxProof) → HasCommitment p → AllHaveCommitments (replicate n p)
AllHaveCommitments-replicate zero p a = tt
AllHaveCommitments-replicate (suc n) p a = (a, AllHaveCommitments-replicate n p a)

AllHaveCommitments-filled :
    (proofs : List BridgeTxProof) (padding : BridgeTxProof)
    → AllHaveCommitments proofs
    → HasCommitment padding
    → AllHaveCommitments (filled proofs padding)
AllHaveCommitments-filled proofs padding all p =
    AllHaveCommitments-append proofs (replicate (half - length proofs) padding) all
      (AllHaveCommitments-replicate (half - length proofs) padding p)

all_commitments-map :
    (proofs : List BridgeTxProof)
    → AllHaveCommitments proofs
    → all_commitments output_commitments proofs ≡ ok (map commitment_of proofs)
unfolding all_commitments output_commitments bridge_output_commitments
all_commitments-map [] all = refl
all_commitments-map (p ∷ proofs) all =
    rw (hash_at-hash_from {E = BatchError} (proof_of p).public_inputs 13 (omega (arith, all.0)))
      (rw (all_commitments-map proofs all.1) refl)

module _ ⦃h : MerkleHash HashOutput⦄ where
  batch_poseidon_root-node :
      (proofs : List BridgeTxProof) (full : Bool)
      → AllHaveCommitments proofs
      → length proofs ≡ 512
      → full ≡ true
      → batch_poseidon_root output_commitments full proofs
        ≡ ok (node (map commitment_of proofs) 9 0)
  unfolding batch_poseidon_root
  batch_poseidon_root-node proofs full all size f = rw f (
      rw (all_commitments-map proofs all)
        (root_of_leaves (map commitment_of proofs) (length-map proofs commitment_of ∙ size)))

  abbrev pub finalized :
      BridgeTxProof → List BridgeTxProof → List BridgeTxProof → HashOutput → BridgeTxBatch
  finalized first ws ds r = record (holding first ws ds) {
    finalized_proofs = ws ++ ds;
    batch_root = some r;
  }

  module _
      (prove_withdraw prove_deposit : HashOutput → HashOutput → BatchResult BridgeTxProof) where
    finalize_lem :
        (first : BridgeTxProof) (ws ds ws' ds' : List BridgeTxProof) (r : HashOutput)
        → is_empty (holding first ws ds) ≡ false
        → pad_half
            (prove_withdraw
              (hash_from (proof_of first).public_inputs 0)
              (hash_from (proof_of first).public_inputs 4))
            ws
          ≡ ok ws'
        → pad_half
            (prove_deposit
              (hash_from (proof_of first).public_inputs 0)
              (hash_from (proof_of first).public_inputs 4))
            ds
          ≡ ok ds'
        → batch_poseidon_root output_commitments (is_full (holding first ws' ds')) (ws' ++ ds')
          ≡ ok r
        → finalize prove_withdraw prove_deposit (holding first ws ds)
          ≡ (finalized first ws' ds' r, ok tt)
    unfolding finalize merge_halves
    finalize_lem first ws ds ws' ds' r some_proof pads pads' computes =
        rw some_proof (rw pads (rw pads' (rw computes refl)))

    -- Let proving the two fake transactions succeed, under the common roots of a batch that is not
    -- finalized and holds at most 256 withdrawals and 256 deposits, not none at all, and let every
    -- proof, the padding too, have the 17 public inputs up to its account commitment. Then
    -- `finalize` succeeds: each half is its proofs and then its padding, 256 in all; the batch is
    -- the withdrawals and then the deposits; and its root is that of the Merkle tree of depth 9
    -- whose leaves are the account commitments of the batch in this order.
    pub finalize-filled :
        (first withdraw_padding deposit_padding : BridgeTxProof) (ws ds : List BridgeTxProof)
        → prove_withdraw
            (hash_from (proof_of first).public_inputs 0)
            (hash_from (proof_of first).public_inputs 4)
          ≡ ok withdraw_padding
        → prove_deposit
            (hash_from (proof_of first).public_inputs 0)
            (hash_from (proof_of first).public_inputs 4)
          ≡ ok deposit_padding
        → HasCommitment withdraw_padding
        → HasCommitment deposit_padding
        → AllHaveCommitments ws
        → AllHaveCommitments ds
        → is_empty (holding first ws ds) ≡ false
        → length ws ≤ half
        → length ds ≤ half
        → (r : HashOutput) × (finalize prove_withdraw prove_deposit (holding first ws ds)
            ≡ (finalized first (filled ws withdraw_padding) (filled ds deposit_padding) r, ok tt))
          × (length (filled ws withdraw_padding) ≡ half)
          × (length (filled ds deposit_padding) ≡ half)
          × (root (
                tree_of 9
                  (map commitment_of (filled ws withdraw_padding ++ filled ds deposit_padding)))
              ≡ ok r)
    finalize-filled first withdraw_padding deposit_padding ws ds proves_w proves_d wp dp aw ad
          some_proof lw ld =
        let ws' = filled ws withdraw_padding in
        let ds' = filled ds deposit_padding in
        let sw = length-filled ws withdraw_padding lw in
        let sd = length-filled ds deposit_padding ld in
        let all =
          AllHaveCommitments-append ws' ds' (AllHaveCommitments-filled ws withdraw_padding aw wp)
            (AllHaveCommitments-filled ds deposit_padding ad dp) in
        let size : length (ws' ++ ds') ≡ 512 = length-append ws' ds' ∙ omega (arith, sw, sd) in
        let leaves = map commitment_of (ws' ++ ds') in
        let count : length leaves ≡ 512 = length-map (ws' ++ ds') commitment_of ∙ size in
        (
          node leaves 9 0,
          finalize_lem first ws ds ws' ds' (node leaves 9 0) some_proof
              (pad_half-filled _ ws withdraw_padding proves_w lw)
              (pad_half-filled _ ds deposit_padding proves_d ld)
              (batch_poseidon_root-node (ws' ++ ds') _ all size
                (both_full (length ws') (length ds') sw sd)),
          sw,
          sd,
          root-node 9 leaves (omega arith) (omega (arith, count)),
        )
