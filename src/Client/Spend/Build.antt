-- ===== src/Client/Spend/Build.antt =====
-- doxa-client/src/plonky2_gadgets/priv_tx/builder/spend_builder.rs: `SpendTxBuilder::build`.
pub mod Slots
pub mod Columns
pub mod Steps
pub mod Settled
use doxa.Prelude.{
  ℕ, zero, suc, ◌+◌, ◌-◌, ◌^◌, Bool, not, ◌&&◌, List, [], ◌∷◌, ◌++◌, map, Option, none, some,
  length, ltb, leb, ◌==◌, if◌then◌else◌, Result, ok, err, panic, ◌>>=◌, ◌>>◌, ensure, ok_or, index,
  unfailing,
}
use doxa.Hasher.{MerkleHash, HashOutput}
use doxa.Merkle.Membership.{MerkleProof}
use doxa.Client.Assets.{AssetId, AccountStateTree, amount_for, next_index, insert_or_update_asset}
use doxa.Client.Account
use doxa.Client.Account.{
  StandardAccount, clone_with_incremented_nonce, nk, derive_priv_tx_hash, hash_words,
}
use doxa.Client.PoolConfig.{SubpoolFullProof}
use doxa.Client.Notes
use doxa.Client.Notes.{StandardNote}
use doxa.Client.Spend.{
  PlacedNote, SpendTxBuilder, SpendResult, note_batch, no_active_notes, insufficient_balance,
  dummy_notes_not_filled, input, output,
}

-- `U256`: `+` panics on overflow, the checked operations have no value.
abbrev pub u256_sum : ℕ → List ℕ → SpendResult ℕ
u256_sum total [] = ok total
u256_sum total (amount ∷ amounts) =
    if ltb (total + amount) (2 ^ 256) then u256_sum (total + amount) amounts else panic

abbrev pub checked_add : ℕ → ℕ → Option ℕ
checked_add a b = if ltb (a + b) (2 ^ 256) then some (a + b) else none

abbrev pub checked_sub : ℕ → ℕ → Option ℕ
checked_sub a b = if leb b a then some (a - b) else none

-- `checked_add` and then `checked_sub`.
abbrev pub balance : ℕ → ℕ → ℕ → Option ℕ
balance old_bal delta_in delta_out = elim (checked_add old_bal delta_in) [
  | none ↦ none
  | some b ↦ checked_sub b delta_out
]

-- `array::from_fn`, from an index on, with a function that may panic.
unfoldable pub from_fn : {E A : Type 0} → ℕ → ℕ → (ℕ → Result E A) → Result E (List A)
from_fn zero i f = ok []
from_fn (suc count) i f = do a ← f i; rest ← from_fn count (suc i) f; ok (a ∷ rest)

-- The slot of an index: rejected notes first, then active ones, then dummies.
unfoldable pub slot_at :
    {R N A : Type 0}
    → List R
    → List N
    → List HashOutput
    → (R → SpendResult A)
    → (N → SpendResult A)
    → (HashOutput → SpendResult A)
    → ℕ
    → SpendResult A
slot_at rejected active dummies of_rejected of_active of_dummy i =
    if ltb i (length rejected)
    then (do note ← index rejected i; of_rejected note)
    else (if ltb (i - length rejected) (length active)
        then (do note ← index active (i - length rejected); of_active note)
        else (do seed ← index dummies (i - length rejected - length active); of_dummy seed))

-- The paths, the subpool's proof and the signatures are set after `build`.
pub record BuiltSpendTx (Signature : Type 0) : Type 0 where
  pub accin : StandardAccount
  pub accout : StandardAccount
  pub rejected_inotes : List PlacedNote
  pub inotes : List PlacedNote
  pub onotes : List StandardNote
  pub dinotes : List HashOutput
  pub donotes : List HashOutput
  pub tx_hash : HashOutput
  pub subpool_id : ℕ
  pub accin_proof : Option (MerkleProof HashOutput)
  pub inotes_nct_proofs : Option (List (MerkleProof HashOutput))
  pub rejected_inotes_nct_proofs : Option (List (MerkleProof HashOutput))
  pub subpool_proof : Option SubpoolFullProof
  pub spend_sig : Option Signature
  pub consume_sig : Option Signature
  pub approval_sig : Option Signature

unfoldable pub old_balance : SpendTxBuilder → ℕ
unfolding amount_for
old_balance b = elim (amount_for b.accin.ast b.asset_id) [ none ↦ 0 | some entry ↦ entry.1 ]

module _ (hash_no_pad : List ℕ → HashOutput) where
  unfoldable pub double_hash_native : HashOutput → HashOutput
  double_hash_native elems = hash_no_pad (hash_words (hash_no_pad (hash_words elems)))

  -- `nullifier(..).unwrap()`
  unfoldable pub inote_nullifier : HashOutput → PlacedNote → SpendResult HashOutput
  unfolding Notes.nullifier
  inote_nullifier key placed = unfailing (Notes.nullifier hash_no_pad placed.0 placed.1 key)

  -- A rejected note goes back to its sender.
  unfoldable pub returned_commitment : PlacedNote → HashOutput
  unfolding Notes.commitment
  returned_commitment placed =
      Notes.commitment hash_no_pad (record placed.0 { recipient = placed.0.sender })

  unfoldable pub tx_inote_nulls : SpendTxBuilder → List HashOutput → SpendResult (List HashOutput)
  unfolding from_fn slot_at inote_nullifier double_hash_native nk
  tx_inote_nulls b dinotes =
      let key = nk hash_no_pad b.accin in
      from_fn note_batch 0 (
        slot_at b.rejected_notes b.input_notes dinotes (inote_nullifier key) (inote_nullifier key)
          (λ seed. ok (double_hash_native seed)))

  unfoldable pub tx_onote_comms : SpendTxBuilder → List HashOutput → SpendResult (List HashOutput)
  unfolding from_fn slot_at returned_commitment double_hash_native Notes.commitment
  tx_onote_comms b donotes = from_fn note_batch 0 (
      slot_at b.rejected_notes b.output_notes donotes (λ placed. ok (returned_commitment placed))
        (λ note. ok (Notes.commitment hash_no_pad note)) (λ seed. ok (double_hash_native seed)))

  module _ ⦃h : MerkleHash HashOutput⦄ where
    -- The account after the transaction, with a new balance.
    unfoldable pub account_out : SpendTxBuilder → ℕ → SpendResult StandardAccount
    unfolding clone_with_incremented_nonce insert_or_update_asset
    account_out b new_bal =
        let accout = clone_with_incremented_nonce b.accin in
        let (ast, updated) = insert_or_update_asset hash_no_pad b.asset_id new_bal accout.ast in
        do previous ← unfailing updated; ok (record accout { ast = ast })

  module _ ⦃h : MerkleHash HashOutput⦄ {Signature : Type 0} where
    -- What is made of the new account and the two lists of seeds.
    unfoldable pub built :
        SpendTxBuilder
        → StandardAccount
        → List HashOutput
        → List HashOutput
        → SpendResult (BuiltSpendTx Signature)
    unfolding tx_inote_nulls tx_onote_comms derive_priv_tx_hash Account.commitment Account.nullifier
    built b accout dinotes donotes = do
      inote_nulls ← tx_inote_nulls b dinotes
      onote_comms ← tx_onote_comms b donotes
      accin_null ← unfailing (Account.nullifier hash_no_pad b.accin)
      accout_comm ← unfailing (Account.commitment hash_no_pad accout)
      ok (record {
        accin = b.accin;
        accout = accout;
        rejected_inotes = b.rejected_notes;
        inotes = b.input_notes;
        onotes = b.output_notes;
        dinotes = dinotes;
        donotes = donotes;
        tx_hash = derive_priv_tx_hash hash_no_pad accin_null accout_comm inote_nulls onote_comms;
        subpool_id = b.accin.subpool_id;
        accin_proof = none;
        inotes_nct_proofs = none;
        rejected_inotes_nct_proofs = none;
        subpool_proof = none;
        spend_sig = none;
        consume_sig = none;
        approval_sig = none;
      })

    unfoldable pub build : SpendTxBuilder → SpendResult (BuiltSpendTx Signature)
    unfolding old_balance account_out built
    build b = do
      ensure
          (not (
            (length b.input_notes == 0)
            && (length b.output_notes == 0)
            && (length b.rejected_notes == 0)))
          no_active_notes
      delta_in ← u256_sum 0 (map (λ placed. placed.0.amt) b.input_notes)
      delta_out ← u256_sum 0 (map (λ note. note.amt) b.output_notes)
      let old_bal = old_balance b
      new_bal ←
          ok_or (balance old_bal delta_in delta_out)
            (insufficient_balance old_bal delta_in delta_out)
      accout ← account_out b new_bal
      dinotes ← ok_or b.dinotes (dummy_notes_not_filled input)
      donotes ← ok_or b.donotes (dummy_notes_not_filled output)
      built b accout dinotes donotes
