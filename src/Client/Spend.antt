-- ===== src/Client/Spend.antt =====
-- doxa-client/src/plonky2_gadgets/priv_tx/builder/spend_builder.rs: `SpendTxBuilder`.
mod Tests
pub mod Build
pub mod Sign
pub mod Calls
use doxa.Prelude.{
  ℕ, zero, suc, ◌+◌, ◌-◌, max, Bool, not, ◌&&◌, List, [], ◌∷◌, ◌++◌, Option, none, some, length,
  ltb, ◌==◌, if◌then◌else◌, Result, ok, err, panic, ◌>>=◌, ◌>>◌, ensure,
}
use doxa.Hasher.{HashOutput}
use doxa.Client.Assets.{AssetId}
use doxa.Client.Account.{StandardAccount}
use doxa.Client.Address.{AccountAddress, same_address, from_acc}
use doxa.Client.Notes.{NoteIdentifier, StandardNote}

abbrev pub note_batch : ℕ
note_batch = 7

pub data NoteKind : Type 0 where
  input output rejected : NoteKind

pub data SpendTxBuilderError : Type 0 where
  account_not_initialized recipient_mismatch no_active_notes : SpendTxBuilderError
  account_path_not_set note_paths_not_set subpool_proof_not_set : SpendTxBuilderError
  note_batch_limit_reached : NoteKind → SpendTxBuilderError
  dummy_notes_not_filled : NoteKind → SpendTxBuilderError
  asset_mismatch : AssetId → AssetId → SpendTxBuilderError
  insufficient_balance : ℕ → ℕ → ℕ → SpendTxBuilderError

abbrev pub SpendResult : Type 0 → Type 0
SpendResult A = Result SpendTxBuilderError A

-- A note with its position in the state tree.
abbrev pub PlacedNote : Type 0
PlacedNote = StandardNote × ℕ

-- A dummy seed is four elements, as a hash is.
pub record SpendTxBuilder : Type 0 where
  pub accin : StandardAccount
  pub asset_id : AssetId
  pub input_notes : List PlacedNote
  pub output_notes : List StandardNote
  pub rejected_notes : List PlacedNote
  pub dinotes : Option (List HashOutput)
  pub donotes : Option (List HashOutput)

unfoldable pub new : StandardAccount → AssetId → SpendResult SpendTxBuilder
new accin asset_id =
    if accin.nonce == 0
    then err account_not_initialized
    else ok (record {
      accin = accin;
      asset_id = asset_id;
      input_notes = [];
      output_notes = [];
      rejected_notes = [];
      dinotes = none;
      donotes = none;
    })

-- The seeds that the generator gives, in their order.
abbrev pub sample : (ℕ → HashOutput) → ℕ → ℕ → List HashOutput
sample seeds i zero = []
sample seeds i (suc count) = seeds i ∷ sample seeds (i + 1) count

-- `NOTE_BATCH - active - rejected`: a subtraction of `usize` below zero panics.
unfoldable pub fill : (ℕ → HashOutput) → ℕ → ℕ → SpendResult (List HashOutput)
fill seeds active returned =
    if ltb note_batch (active + returned)
    then panic
    else ok (sample seeds 0 (note_batch - active - returned))

unfoldable pub fill_dinotes : (ℕ → HashOutput) → SpendTxBuilder → SpendResult SpendTxBuilder
unfolding fill
fill_dinotes seeds b = do
  seeds ← fill seeds (length b.input_notes) (length b.rejected_notes)
  ok (record b { dinotes = some seeds })

unfoldable pub fill_donotes : (ℕ → HashOutput) → SpendTxBuilder → SpendResult SpendTxBuilder
unfolding fill
fill_donotes seeds b = do
  seeds ← fill seeds (length b.output_notes) (length b.rejected_notes)
  ok (record b { donotes = some seeds })

module _ (hash_no_pad : List ℕ → HashOutput) where
  -- The test that `add_input_note` and `add_rejected_note` share.
  unfoldable pub check_note : StandardNote → SpendTxBuilder → SpendResult (Unit {0})
  unfolding from_acc
  check_note note b = do
    ensure (note.asset_id == b.asset_id) (asset_mismatch b.asset_id note.asset_id)
    ensure (same_address note.recipient (from_acc hash_no_pad b.accin)) recipient_mismatch

  unfoldable pub add_input_note : StandardNote → ℕ → SpendTxBuilder → SpendResult SpendTxBuilder
  unfolding check_note
  add_input_note note position b = do
    ensure (not (ltb note_batch (length b.rejected_notes + length b.input_notes + 1)))
        (note_batch_limit_reached input)
    check_note note b
    ok (record b { input_notes = b.input_notes ++ (note, position) ∷ [] })

  -- The generator gives the note's identifier.
  unfoldable pub add_output_note :
      AccountAddress → ℕ → List ℕ → NoteIdentifier → SpendTxBuilder → SpendResult SpendTxBuilder
  unfolding from_acc
  add_output_note recipient amount memo identifier b = do
    ensure (not (ltb note_batch (length b.rejected_notes + length b.output_notes + 1)))
        (note_batch_limit_reached output)
    let note : StandardNote = record {
      identifier = identifier;
      asset_id = b.asset_id;
      amt = amount;
      recipient = recipient;
      sender = from_acc hash_no_pad b.accin;
      memo = memo;
    }
    ok (record b { output_notes = b.output_notes ++ note ∷ [] })

  unfoldable pub add_rejected_note : StandardNote → ℕ → SpendTxBuilder → SpendResult SpendTxBuilder
  unfolding check_note
  add_rejected_note note position b = do
    ensure
        (not (
          ltb note_batch
            (length b.rejected_notes + 1 + max (length b.input_notes) (length b.output_notes))))
        (note_batch_limit_reached rejected)
    check_note note b
    ok (record b { rejected_notes = b.rejected_notes ++ (note, position) ∷ [] })
