-- ===== src/Client/Spend/Calls.antt =====
-- The calls of `SpendTxBuilder`'s methods, and what they keep.
pub mod Applied
pub mod Run
use doxa.Prelude.{
  ℕ, zero, suc, ◌+◌, ◌-◌, ◌≤◌, ◌≡◌, ◌≢◌, refl, ap, sym, subst, ◌∙◌, max, true, false, not, List, [],
  ◌∷◌, ◌++◌, append_assoc, append-nil, length-append, Option, none, some, arith, length, ltb, ◌==◌,
  Bool-cases, inl, inr, ok, panic, ◌>>=◌, ensure, All, All-append, ok_of_bind, ok_of_ensure,
  ensure-total, ensure-never_panics, true_of_ensure, ok-total, bind-total,
}
use doxa.Hasher.{HashOutput}
use doxa.Client.Keys.{nat_sound}
use doxa.Client.PublicInputs.{same_hash_eq}
use doxa.Client.Assets.{AssetId}
use doxa.Client.Account.{StandardAccount}
use doxa.Client.Address.{AccountAddress, same_address, from_acc}
use doxa.Client.Notes.{NoteIdentifier, StandardNote}
use doxa.Client.Spend.{
  PlacedNote, SpendTxBuilder, SpendResult, SpendTxBuilderError, note_batch, new, sample, fill,
  fill_dinotes, fill_donotes, check_note, add_input_note, add_output_note, add_rejected_note,
}

pub data SpendCall : Type 0 where
  add_input add_rejected : StandardNote → ℕ → SpendCall
  add_output : AccountAddress → ℕ → List ℕ → NoteIdentifier → SpendCall
  sample_inputs sample_outputs : (ℕ → HashOutput) → SpendCall

-- The notes that the calls give to the builder of an account's transaction.
abbrev pub inputs_of : List SpendCall → List PlacedNote
inputs_of [] = []
inputs_of (add_input note position ∷ calls) = (note, position) ∷ inputs_of calls
inputs_of (add_rejected note position ∷ calls) = inputs_of calls
inputs_of (add_output to amount memo id ∷ calls) = inputs_of calls
inputs_of (sample_inputs seeds ∷ calls) = inputs_of calls
inputs_of (sample_outputs seeds ∷ calls) = inputs_of calls

abbrev pub rejected_of : List SpendCall → List PlacedNote
rejected_of [] = []
rejected_of (add_input note position ∷ calls) = rejected_of calls
rejected_of (add_rejected note position ∷ calls) = (note, position) ∷ rejected_of calls
rejected_of (add_output to amount memo id ∷ calls) = rejected_of calls
rejected_of (sample_inputs seeds ∷ calls) = rejected_of calls
rejected_of (sample_outputs seeds ∷ calls) = rejected_of calls

-- The dummy seeds that the calls leave: those of the last call that sampled them, which took as many
-- as there were slots left then. `used` slots are taken before the calls, and `kept` is sampled.
abbrev pub dinotes_of : ℕ → Option (List HashOutput) → List SpendCall → Option (List HashOutput)
dinotes_of used kept [] = kept
dinotes_of used kept (add_input note position ∷ calls) = dinotes_of (used + 1) kept calls
dinotes_of used kept (add_rejected note position ∷ calls) = dinotes_of (used + 1) kept calls
dinotes_of used kept (add_output to amount memo id ∷ calls) = dinotes_of used kept calls
dinotes_of used kept (sample_inputs seeds ∷ calls) =
    dinotes_of used (some (sample seeds 0 (note_batch - used))) calls
dinotes_of used kept (sample_outputs seeds ∷ calls) = dinotes_of used kept calls

abbrev pub donotes_of : ℕ → Option (List HashOutput) → List SpendCall → Option (List HashOutput)
donotes_of used kept [] = kept
donotes_of used kept (add_input note position ∷ calls) = donotes_of used kept calls
donotes_of used kept (add_rejected note position ∷ calls) = donotes_of (used + 1) kept calls
donotes_of used kept (add_output to amount memo id ∷ calls) = donotes_of (used + 1) kept calls
donotes_of used kept (sample_inputs seeds ∷ calls) = donotes_of used kept calls
donotes_of used kept (sample_outputs seeds ∷ calls) =
    donotes_of used (some (sample seeds 0 (note_batch - used))) calls

-- The dummy seeds, where there are any, are enough for the slots that are left.
abbrev pub Enough : ℕ → Option (List HashOutput) → Type 0
Enough used none = Unit
Enough used (some seeds) = note_batch ≤ used + length seeds

module _ (hash_no_pad : List ℕ → HashOutput) (accin : StandardAccount) (asset : AssetId) where
  abbrev pub output_note : AccountAddress → ℕ → List ℕ → NoteIdentifier → StandardNote
  output_note to amount memo id = record {
    identifier = id;
    asset_id = asset;
    amt = amount;
    recipient = to;
    sender = from_acc hash_no_pad accin;
    memo = memo;
  }

  abbrev pub outputs_of : List SpendCall → List StandardNote
  outputs_of [] = []
  outputs_of (add_input note position ∷ calls) = outputs_of calls
  outputs_of (add_rejected note position ∷ calls) = outputs_of calls
  outputs_of (add_output to amount memo id ∷ calls) =
      output_note to amount memo id ∷ outputs_of calls
  outputs_of (sample_inputs seeds ∷ calls) = outputs_of calls
  outputs_of (sample_outputs seeds ∷ calls) = outputs_of calls

  abbrev pub apply : SpendCall → SpendTxBuilder → SpendResult SpendTxBuilder
  apply (add_input note position) b = add_input_note hash_no_pad note position b
  apply (add_rejected note position) b = add_rejected_note hash_no_pad note position b
  apply (add_output to amount memo id) b = add_output_note hash_no_pad to amount memo id b
  apply (sample_inputs seeds) b = fill_dinotes seeds b
  apply (sample_outputs seeds) b = fill_donotes seeds b

  -- A chain of calls ends at the first error.
  abbrev pub run : List SpendCall → SpendTxBuilder → SpendResult SpendTxBuilder
  run [] b = ok b
  run (call ∷ calls) b = do b' ← apply call b; run calls b'

  -- A note of the transaction's asset, to the account.
  pub record Own (note : PlacedNote) : Type 0 where
    pub asset_id : note.0.asset_id ≡ asset
    pub recipient : note.0.recipient ≡ from_acc hash_no_pad accin

  pub record IsValid (b : SpendTxBuilder) : Type 0 where
    pub account : b.accin ≡ accin
    pub asset_id : b.asset_id ≡ asset
    pub inputs : length b.rejected_notes + length b.input_notes ≤ note_batch
    pub outputs : length b.rejected_notes + length b.output_notes ≤ note_batch
    pub own_inputs : All Own b.input_notes
    pub own_rejected : All Own b.rejected_notes
    pub dinotes : Enough (length b.rejected_notes + length b.input_notes) b.dinotes
    pub donotes : Enough (length b.rejected_notes + length b.output_notes) b.donotes
