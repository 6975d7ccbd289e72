-- ===== src/Client/Spend/Build/Columns.antt =====
-- The sums of `build`, and its nullifiers and commitments as lists.
use doxa.Prelude.{
  ℕ, ◌+◌, ◌-◌, ◌^◌, ◌≤◌, ◌<◌, ◌≡◌, refl, ap, ◌∙◌, true, List, [], ◌∷◌, ◌++◌, map, arith, length,
  take, ltb, ok, All,
}
use doxa.Hasher.{MerkleHash, HashOutput}
use doxa.StateSync.Contract.{goldilocks_prime}
use doxa.Client.Account.{nk, hash_words}
use doxa.Client.Notes
use doxa.Client.Notes.{StandardNote}
use doxa.Client.Spend.{PlacedNote, SpendTxBuilder, SpendResult, note_batch}
use doxa.Client.Spend.Build.{
  u256_sum, tx_inote_nulls, tx_onote_comms, inote_nullifier, returned_commitment,
  double_hash_native,
}
use doxa.Client.Spend.Build.Slots.{from_fn-slot_at}

abbrev pub sum : List ℕ → ℕ
sum [] = 0
sum (amount ∷ amounts) = amount + sum amounts

u256_sum-sum :
    (total : ℕ) (amounts : List ℕ)
    → total + sum amounts < 2 ^ 256
    → u256_sum total amounts ≡ ok (total + sum amounts)
u256_sum-sum total [] l = ap ok (omega arith)
u256_sum-sum total (amount ∷ amounts) l =
    let fits : ltb (total + amount) (2 ^ 256) ≡ true = ground arith in
    rw fits (u256_sum-sum (total + amount) amounts (omega arith) ∙ ap ok (omega arith))

-- A sum that does not overflow.
pub u256_sum_lem :
    (amounts : List ℕ) → sum amounts < 2 ^ 256 → u256_sum 0 amounts ≡ ok (sum amounts)
u256_sum_lem amounts l = u256_sum-sum 0 amounts (omega arith) ∙ ap ok (omega arith)

abbrev pub amounts_in : SpendTxBuilder → List ℕ
amounts_in b = map (λ placed. placed.0.amt) b.input_notes

abbrev pub amounts_out : SpendTxBuilder → List ℕ
amounts_out b = map (λ note. note.amt) b.output_notes

abbrev pub InField : PlacedNote → Type 0
InField placed = placed.1 < goldilocks_prime

module _ (hash_no_pad : List ℕ → HashOutput) ⦃h : MerkleHash HashOutput⦄ where
  -- The nullifier of a placed note, and the account's commitment after a key's words.
  abbrev pub nullifier_of : HashOutput → PlacedNote → HashOutput
  nullifier_of key placed =
      hash_no_pad (hash_words (Notes.commitment hash_no_pad placed.0) ++ placed.1 ∷ hash_words key)

  inote_nullifier_lem :
      (key : HashOutput) (placed : PlacedNote)
      → InField placed
      → inote_nullifier hash_no_pad key placed ≡ ok (nullifier_of key placed)
  unfolding inote_nullifier
  inote_nullifier_lem key placed l =
      let fits : ltb placed.1 goldilocks_prime ≡ true = ground arith in rw fits refl

  All-nullifiers :
      (key : HashOutput) (notes : List PlacedNote)
      → All InField notes
      → All (λ x. inote_nullifier hash_no_pad key x ≡ ok (nullifier_of key x)) notes
  All-nullifiers key [] a = tt
  All-nullifiers key (x ∷ notes) a = (inote_nullifier_lem key x a.0, All-nullifiers key notes a.1)

  All-same :
      {N : Type 0} (f : N → HashOutput) (notes : List N)
      → All (λ x. Path (SpendResult HashOutput) (ok (f x)) (ok (f x))) notes
  All-same f [] = tt
  All-same f (x ∷ notes) = (refl, All-same f notes)

  -- The dummies of the slots that are left over.
  abbrev pub dummies : ℕ → ℕ → List HashOutput → List HashOutput
  dummies returned active seeds =
      map (double_hash_native hash_no_pad) (take (note_batch - returned - active) seeds)

  abbrev pub nullifiers : SpendTxBuilder → List HashOutput → List HashOutput
  nullifiers b seeds =
      let key = nk hash_no_pad b.accin in
      map (nullifier_of key) b.rejected_notes
      ++ (map (nullifier_of key) b.input_notes
          ++ dummies (length b.rejected_notes) (length b.input_notes) seeds)

  abbrev pub commitments : SpendTxBuilder → List HashOutput → List HashOutput
  commitments b seeds =
      map (returned_commitment hash_no_pad) b.rejected_notes
      ++ (map (Notes.commitment hash_no_pad) b.output_notes
          ++ dummies (length b.rejected_notes) (length b.output_notes) seeds)

  pub tx_inote_nulls-nullifiers :
      (b : SpendTxBuilder) (seeds : List HashOutput)
      → All InField b.rejected_notes
      → All InField b.input_notes
      → length b.rejected_notes + length b.input_notes ≤ note_batch
      → note_batch ≤ length b.rejected_notes + length b.input_notes + length seeds
      → tx_inote_nulls hash_no_pad b seeds ≡ ok (nullifiers b seeds)
  unfolding tx_inote_nulls
  tx_inote_nulls-nullifiers b seeds p q l l' =
      let key = nk hash_no_pad b.accin in
      from_fn-slot_at (inote_nullifier hash_no_pad key) (inote_nullifier hash_no_pad key)
        (λ seed. ok (double_hash_native hash_no_pad seed)) (nullifier_of key) (nullifier_of key)
        (double_hash_native hash_no_pad) (λ seed. refl) b.rejected_notes b.input_notes seeds
        note_batch (All-nullifiers key b.rejected_notes p) (All-nullifiers key b.input_notes q) l l'

  pub tx_onote_comms-commitments :
      (b : SpendTxBuilder) (seeds : List HashOutput)
      → length b.rejected_notes + length b.output_notes ≤ note_batch
      → note_batch ≤ length b.rejected_notes + length b.output_notes + length seeds
      → tx_onote_comms hash_no_pad b seeds ≡ ok (commitments b seeds)
  unfolding tx_onote_comms
  tx_onote_comms-commitments b seeds l l' =
      from_fn-slot_at _ _ (λ seed. ok (double_hash_native hash_no_pad seed))
        (returned_commitment hash_no_pad) (Notes.commitment hash_no_pad)
        (double_hash_native hash_no_pad) (λ seed. refl) b.rejected_notes b.output_notes seeds
        note_batch (All-same (returned_commitment hash_no_pad) b.rejected_notes)
        (All-same (Notes.commitment hash_no_pad) b.output_notes) l l'
