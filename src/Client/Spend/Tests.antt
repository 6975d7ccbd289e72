-- ===== src/Client/Spend/Tests.antt =====
-- A spend transaction at small values.
use doxa.Prelude.{
  ℕ, ◌+◌, ◌<◌, ◌≤◌, ◌^◌, ◌≡◌, ◌≢◌, ◌⊎◌, refl, true, false, List, [], ◌∷◌, ◌++◌, none, some, arith,
  ok, err, panic, ◌>>=◌,
}
use doxa.Samples.{toy_no_pad, toy_poseidon}
use doxa.Hasher.{HashOutput, zero_hash}
use doxa.Merkle.Membership.{MerkleProof}
use doxa.Client.PoolConfig.{SubpoolFullProof}
use doxa.Client.Assets.{AccountStateTree, amount_for}
use doxa.Client.Assets.Entries.{Entries, entry}
use doxa.Client.Assets.Mirror.{Holds, appended, Holds-appended}
use doxa.Client.Assets.Run.{first_entry, first_tree, first_tree-Holds}
use doxa.Client.Account
use doxa.Client.Spend
use doxa.Client.Account.{StandardAccount, CompressedPublicKey, default_pk}
use doxa.Client.Address.{AccountAddress, from_acc}
use doxa.Client.Notes.{StandardNote}
use doxa.Client.Spend.{
  SpendTxBuilder, SpendResult, PlacedNote, new, sample, insufficient_balance,
  note_batch_limit_reached, input,
}
use doxa.Client.Spend.Calls.{
  SpendCall, add_input, add_rejected, add_output, sample_inputs, sample_outputs, inputs_of,
  rejected_of, outputs_of, dinotes_of, donotes_of, run, IsValid,
}
use doxa.Client.Spend.Calls.Run.{run-IsValid}
use doxa.Client.Spend.Build.{BuiltSpendTx, build, old_balance}
use doxa.Client.Spend.Build.Columns.{sum, amounts_in, amounts_out}
use doxa.Client.Spend.Build.Settled.{IsReady, IsSettled, build-IsSettled, build-default_asset}
use doxa.Client.Spend.Sign.{is_empty, required_signatures, into_priv_tx, consume_sign, BuiltPrivTx}
use doxa.Client.Spend.Sign.Flow.{Signers, sign_required}
use doxa.Client.Spend.Sign.Required.{
  with_paths, IsComplete, sign_required-into_priv_tx, consume_sign-required_signatures,
}

abbrev entries : Entries
entries = first_entry ++ entry 5 7 ∷ []

abbrev tree : AccountStateTree
tree = appended toy_no_pad first_entry (first_tree toy_no_pad).assets 5 7

tree-Holds : Holds toy_no_pad entries tree
tree-Holds =
    Holds-appended toy_no_pad first_entry (first_tree toy_no_pad) 5 7 (first_tree-Holds toy_no_pad)
      refl (omega arith)

-- A private key is a number, and its public key has it as the first element.
abbrev toy_key : ℕ → CompressedPublicKey
toy_key sk = record { w0 = sk; w1 = 1; w2 = 1; w3 = 1; w4 = 1 }

abbrev toy_sign : ℕ → HashOutput → ℕ → ℕ
toy_sign sk hash k = sk + hash.e0 + k

abbrev account : StandardAccount
account = record {
  private_identifier = record { p0 = 2; p1 = 3 };
  subpool_id = 4;
  nonce = 1;
  spend_pk = some (toy_key 20);
  consume_auth = record { config = true; pk = some (toy_key 21) };
  ast = tree;
}

abbrev address : AccountAddress
unfolding Account.public_id
address = record { subpool_id = 4; public_id = Account.public_id toy_no_pad account }

abbrev other : AccountAddress
other = record { subpool_id = 9; public_id = zero_hash }

abbrev note : ℕ → ℕ → StandardNote
note asset amt = record {
  identifier = record { i0 = 1; i1 = amt };
  asset_id = asset;
  amt = amt;
  recipient = address;
  sender = other;
  memo = [];
}

abbrev seeds : ℕ → HashOutput
seeds i = record { e0 = i; e1 = 0; e2 = 0; e3 = 0 }

abbrev calls : List SpendCall
calls =
    sample_inputs seeds
    ∷ add_input (note 5 10) 3
    ∷ add_rejected (note 5 40) 4
    ∷ add_output other 12 [] (record { i0 = 5; i1 = 6 })
    ∷ sample_outputs seeds
    ∷ []

run-IsValid_example :
    ((new account 5 >>= run toy_no_pad account 5 calls) ≢ panic)
    × ((b : SpendTxBuilder)
        → (new account 5 >>= run toy_no_pad account 5 calls) ≡ ok b
        → IsValid toy_no_pad account 5 b
          × (b.input_notes ≡ inputs_of calls)
          × (b.rejected_notes ≡ rejected_of calls)
          × (b.output_notes ≡ outputs_of toy_no_pad account 5 calls)
          × (b.dinotes ≡ dinotes_of 0 none calls)
          × (b.donotes ≡ donotes_of 0 none calls))
run-IsValid_example = run-IsValid toy_no_pad account 5 calls

abbrev builder : SpendTxBuilder
unfolding Account.public_id
builder = record {
  accin = account;
  asset_id = 5;
  input_notes = (note 5 10, 3) ∷ [];
  output_notes =
      record {
        identifier = record { i0 = 5; i1 = 6 };
        asset_id = 5;
        amt = 12;
        recipient = other;
        sender = address;
        memo = [];
      }
      ∷ [];
  rejected_notes = (note 5 40, 4) ∷ [];
  dinotes = some (sample seeds 0 7);
  donotes = some (sample seeds 0 5);
}

builder_runs : (new account 5 >>= run toy_no_pad account 5 calls) ≡ ok builder
unfolding new builder address from_acc Account.public_id Spend.add_input_note
    Spend.add_rejected_note Spend.add_output_note Spend.fill_dinotes Spend.fill_donotes Spend.fill
    Spend.check_note
builder_runs = refl

-- The eighth input note is refused.
eighth_note :
    (new account 5
      >>= run toy_no_pad account 5 (
          add_input (note 5 1) 1
          ∷ add_input (note 5 1) 2
          ∷ add_input (note 5 1) 3
          ∷ add_input (note 5 1) 4
          ∷ add_input (note 5 1) 5
          ∷ add_input (note 5 1) 6
          ∷ add_input (note 5 1) 7
          ∷ add_input (note 5 1) 8
          ∷ []))
    ≡ err (note_batch_limit_reached input)
unfolding new address from_acc Account.public_id Spend.add_input_note Spend.check_note
eighth_note = refl

builder-IsValid : IsValid toy_no_pad account 5 builder
builder-IsValid = ((run-IsValid toy_no_pad account 5 calls).1 builder builder_runs).0

builder-IsReady : IsReady toy_no_pad entries builder (sample seeds 0 7) (sample seeds 0 5)
unfolding builder
builder-IsReady = record {
  valid = builder-IsValid;
  holds = tree-Holds;
  proper = refl;
  room = λ e. omega arith;
  active = omega arith;
  input_positions = (omega arith, tt);
  rejected_positions = (omega arith, tt);
  sum_in = omega arith;
  sum_out = omega arith;
  sampled_in = refl;
  sampled_out = refl;
  consume = _;
  consume_is = refl;
}

-- A balance of 7 and an input of 10 pay for an output of 12.
build-IsSettled_example :
    (old_balance builder + sum (amounts_in builder) < 2 ^ 256
      → sum (amounts_out builder) ≤ old_balance builder + sum (amounts_in builder)
      → (t : BuiltSpendTx ℕ) × (build toy_no_pad builder ≡ ok t)
        × IsSettled toy_no_pad entries builder (sample seeds 0 7) (sample seeds 0 5) t)
    × ((2 ^ 256 ≤ old_balance builder + sum (amounts_in builder))
          ⊎ (old_balance builder + sum (amounts_in builder) < sum (amounts_out builder))
        → build toy_no_pad {Signature = ℕ} builder
          ≡ err (
              insufficient_balance
                (old_balance builder)
                (sum (amounts_in builder))
                (sum (amounts_out builder))))
build-IsSettled_example =
    build-IsSettled toy_no_pad entries builder (sample seeds 0 7) (sample seeds 0 5) builder-IsReady

balance_of_builder : old_balance builder ≡ 7
unfolding old_balance builder amount_for
balance_of_builder = refl

-- A note of the default asset.
abbrev default_builder : SpendTxBuilder
default_builder = record {
  accin = account;
  asset_id = 0;
  input_notes = (note 0 10, 3) ∷ [];
  output_notes = [];
  rejected_notes = [];
  dinotes = some (sample seeds 0 6);
  donotes = some (sample seeds 0 7);
}

build-default_asset_example : build toy_no_pad {Signature = ℕ} default_builder ≡ panic
build-default_asset_example =
    build-default_asset toy_no_pad entries default_builder tree-Holds refl (omega arith)
      (omega arith) (omega arith)

abbrev built_tx : BuiltSpendTx ℕ
built_tx = record {
  accin = account;
  accout = account;
  rejected_inotes = (note 5 40, 4) ∷ [];
  inotes = (note 5 10, 3) ∷ [];
  onotes = [];
  dinotes = sample seeds 0 5;
  donotes = sample seeds 0 6;
  tx_hash = zero_hash;
  subpool_id = 4;
  accin_proof = none;
  inotes_nct_proofs = none;
  rejected_inotes_nct_proofs = none;
  subpool_proof = none;
  spend_sig = none;
  consume_sig = none;
  approval_sig = none;
}

abbrev signers : Signers toy_key toy_sign
signers = record {
  spend_sk = 20;
  consume_sk = 21;
  approval_sk = 22;
  spend_k = 1;
  consume_k = 2;
  approval_k = 3;
}

abbrev path_proof : MerkleProof HashOutput
path_proof = record {
  leaf = zero_hash;
  siblings = [];
  pos = 0;
  path = [];
  root = zero_hash;
  num_leaves = 1;
}

abbrev subpool : SubpoolFullProof
subpool = record { main_pool_proof = path_proof; approval_key = toy_key 22; subpool_id = 4 }

sign_required-into_priv_tx_example :
    (t : BuiltSpendTx ℕ) × (sign_required toy_key toy_sign signers built_tx ≡ ok t)
    × (p : BuiltPrivTx ℕ) × (into_priv_tx
          (with_paths toy_key toy_sign path_proof (path_proof ∷ []) (path_proof ∷ []) subpool t)
        ≡ ok p)
    × IsComplete toy_key toy_sign signers built_tx path_proof subpool p
sign_required-into_priv_tx_example =
    sign_required-into_priv_tx toy_key toy_sign signers built_tx path_proof (path_proof ∷ [])
      (path_proof ∷ []) subpool (record { spend = λ e. cc; consume = λ e. refl }) refl refl

-- Only rejected notes come in: the signature is given although it is not required.
abbrev returned_tx : BuiltSpendTx ℕ
returned_tx = record built_tx { inotes = [] }

returned_signed :
    consume_sign toy_key toy_sign 21 2 returned_tx
    ≡ ok (record returned_tx { consume_sig = some 23 })
unfolding consume_sign
returned_signed = refl

consume_sign-required_signatures_example :
    (returned_tx.accin.consume_auth.config ≡ true)
    × (returned_tx.accin.consume_auth.pk ≡ some (toy_key 21))
    × (is_empty returned_tx.onotes ≡ true)
    × (((required_signatures returned_tx).consume ≡ true)
        ⊎ ((is_empty returned_tx.inotes ≡ true)
            × (is_empty returned_tx.rejected_inotes ≡ false)
            × ((required_signatures returned_tx).consume ≡ false)))
consume_sign-required_signatures_example =
    consume_sign-required_signatures toy_key toy_sign 21 2 returned_tx _ returned_signed
