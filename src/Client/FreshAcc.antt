-- ===== src/Client/FreshAcc.antt =====
-- doxa-client/src/plonky2_gadgets/priv_tx/builder/freshacc_builder.rs: `FreshAccTxBuilder`.
pub mod Flow
mod Tests
use doxa.Prelude.{
  ℕ, Bool, true, false, List, [], ◌∷◌, Option, none, some, ◌==◌, if◌then◌else◌, replicate, Result,
  ok, err, ◌>>=◌, ok_or, index, unfailing,
}
use doxa.Hasher.{MerkleHash, HashOutput, zero_hash}
use doxa.Merkle.Membership.{MerkleProof}
use doxa.Client.PoolConfig.{SubpoolFullProof}
use doxa.Client.Account
use doxa.Client.Account.{
  StandardAccount, CompressedPublicKey, ConsumeAuth, clone_with_incremented_nonce,
  derive_priv_tx_hash,
}
use doxa.Client.Spend.{NoteKind, input, output, note_batch, sample}
use doxa.Client.Spend.Build.{from_fn, double_hash_native}
use doxa.Client.Spend.Sign.{TxKindFlags, BuiltPrivTx, SignResult}

pub data FreshAccTxBuilderError : Type 0 where
  account_already_initialized spend_key_not_set consume_key_not_set : FreshAccTxBuilderError
  dummy_notes_not_filled : NoteKind → FreshAccTxBuilderError
  state_root_not_set subpool_proof_not_set approval_sig_not_set : FreshAccTxBuilderError

abbrev pub FreshResult : Type 0 → Type 0
FreshResult A = Result FreshAccTxBuilderError A

-- The spend authorization is the optional key of `SpendAuth`.
pub record FreshAccTxBuilder : Type 0 where
  pub accin : StandardAccount
  pub new_spend_auth : Option (Option CompressedPublicKey)
  pub new_consume_auth : Option ConsumeAuth
  pub dinotes : Option (List HashOutput)
  pub donotes : Option (List HashOutput)

pub record BuiltFreshAccTx (Signature : Type 0) : Type 0 where
  pub accin : StandardAccount
  pub accout : StandardAccount
  pub dinotes : List HashOutput
  pub donotes : List HashOutput
  pub tx_hash : HashOutput
  pub subpool_id : ℕ
  pub state_root : Option HashOutput
  pub subpool_proof : Option SubpoolFullProof
  pub approval_sig : Option Signature

-- `TxKindFlags::FRESH_ACC`
abbrev pub fresh_acc_flags : TxKindFlags
fresh_acc_flags = record {
  is_fresh_acc = true;
  is_update_auth = false;
  is_priv_tx = false;
  not_fake_tx = true;
}

abbrev pub state_tree_depth : ℕ
state_tree_depth = 32

unfoldable pub new : StandardAccount → FreshResult FreshAccTxBuilder
new accin =
    if accin.nonce == 0
    then ok (record {
      accin = accin;
      new_spend_auth = none;
      new_consume_auth = none;
      dinotes = none;
      donotes = none;
    })
    else err account_already_initialized

abbrev pub with_new_spend_key : CompressedPublicKey → FreshAccTxBuilder → FreshAccTxBuilder
with_new_spend_key spend_pk b = record b { new_spend_auth = some (some spend_pk) }

abbrev pub with_new_consume_key : CompressedPublicKey → FreshAccTxBuilder → FreshAccTxBuilder
with_new_consume_key consume_pk b = record b {
  new_consume_auth = some (record { config = true; pk = some consume_pk });
}

abbrev pub with_delegated_consume : FreshAccTxBuilder → FreshAccTxBuilder
with_delegated_consume b = record b {
  new_consume_auth = some (record { config = false; pk = none });
}

abbrev pub fill_dinotes : (ℕ → HashOutput) → FreshAccTxBuilder → FreshAccTxBuilder
fill_dinotes seeds b = record b { dinotes = some (sample seeds 0 note_batch) }

abbrev pub fill_donotes : (ℕ → HashOutput) → FreshAccTxBuilder → FreshAccTxBuilder
fill_donotes seeds b = record b { donotes = some (sample seeds 0 note_batch) }

module _ (hash_no_pad : List ℕ → HashOutput) where
  -- `array::from_fn(|i| double_hash_native(seeds[i]))`
  unfoldable pub dummies : List HashOutput → FreshResult (List HashOutput)
  unfolding from_fn double_hash_native
  dummies seeds =
      from_fn note_batch 0 (λ i. index seeds i >>= λ seed. ok (double_hash_native hash_no_pad seed))

  module _ ⦃h : MerkleHash HashOutput⦄ {Signature : Type 0} where
    unfoldable pub build : FreshAccTxBuilder → FreshResult (BuiltFreshAccTx Signature)
    unfolding dummies clone_with_incremented_nonce derive_priv_tx_hash Account.commitment
        Account.nullifier
    build b = do
      new_spend_auth ← ok_or b.new_spend_auth spend_key_not_set
      new_consume_auth ← ok_or b.new_consume_auth consume_key_not_set
      let accout = record (clone_with_incremented_nonce b.accin) {
        spend_pk = new_spend_auth;
        consume_auth = new_consume_auth;
      }
      dinotes ← ok_or b.dinotes (dummy_notes_not_filled input)
      donotes ← ok_or b.donotes (dummy_notes_not_filled output)
      dinote_nulls ← dummies dinotes
      donote_comms ← dummies donotes
      accin_null ← unfailing (Account.nullifier hash_no_pad b.accin)
      accout_comm ← unfailing (Account.commitment hash_no_pad accout)
      ok (record {
        accin = b.accin;
        accout = accout;
        dinotes = dinotes;
        donotes = donotes;
        tx_hash = derive_priv_tx_hash hash_no_pad accin_null accout_comm dinote_nulls donote_comms;
        subpool_id = b.accin.subpool_id;
        state_root = none;
        subpool_proof = none;
        approval_sig = none;
      })

-- The account is not in the tree yet.
abbrev pub dummy_merkle_proof : MerkleProof HashOutput
dummy_merkle_proof = record {
  leaf = zero_hash;
  siblings = replicate state_tree_depth zero_hash;
  path = replicate state_tree_depth false;
  pos = 0;
  num_leaves = 0;
  root = zero_hash;
}

module _ {Signature : Type 0} where
  abbrev pub with_state_root : HashOutput → BuiltFreshAccTx Signature → BuiltFreshAccTx Signature
  with_state_root state_root t = record t { state_root = some state_root }

  abbrev pub with_subpool_proof :
      SubpoolFullProof → BuiltFreshAccTx Signature → BuiltFreshAccTx Signature
  with_subpool_proof proof t = record t { subpool_proof = some proof }

  unfoldable pub approval_sign :
      {PrivateKey Scalar : Type 0}
      → (PrivateKey → HashOutput → Scalar → Signature)
      → PrivateKey
      → Scalar
      → BuiltFreshAccTx Signature
      → SignResult (BuiltFreshAccTx Signature)
  approval_sign schnorr_sign approval_sk k t =
      ok (record t { approval_sig = some (schnorr_sign approval_sk t.tx_hash k) })

  unfoldable pub into_priv_tx : BuiltFreshAccTx Signature → FreshResult (BuiltPrivTx Signature)
  into_priv_tx t = do
    approval_sig ← ok_or t.approval_sig approval_sig_not_set
    state_root ← ok_or t.state_root state_root_not_set
    subpool_proof ← ok_or t.subpool_proof subpool_proof_not_set
    ok (record {
      tx_kind_flags = fresh_acc_flags;
      accin = t.accin;
      accout = t.accout;
      accin_merkle_proof = dummy_merkle_proof;
      rejected_inotes = [];
      rejected_inotes_nct_proofs = [];
      inotes = [];
      inotes_nct_proofs = [];
      onotes = [];
      dinotes = t.dinotes;
      donotes = t.donotes;
      tx_hash = t.tx_hash;
      state_root = state_root;
      subpool_id = t.subpool_id;
      mainpool_config_root = subpool_proof.main_pool_proof.root;
      subpool_proof = subpool_proof;
      approval_key = subpool_proof.approval_key;
      spend_sig = none;
      consume_sig = none;
      approval_sig = some approval_sig;
    })
