-- ===== src/Client/Spend/Sign.antt =====
-- doxa-client/src/plonky2_gadgets/priv_tx/builder/spend_builder.rs: `BuiltSpendTx`, its signatures.
pub mod Flow
pub mod Required
use doxa.Prelude.{
  ℕ, Bool, true, false, not, ◌&&◌, ◌||◌, List, length, map, Option, none, some, ◌==◌, Result, ok,
  err, ◌>>=◌, ◌>>◌, ensure, ok_or,
}
use doxa.Hasher.{HashOutput}
use doxa.Merkle.Membership.{MerkleProof}
use doxa.Client.PoolConfig.{SubpoolFullProof}
use doxa.Client.Account.{StandardAccount, CompressedPublicKey}
use doxa.Client.Notes.{StandardNote}
use doxa.Client.Spend.{
  PlacedNote, SpendResult, account_path_not_set, note_paths_not_set, subpool_proof_not_set,
}
use doxa.Client.Spend.Build.{BuiltSpendTx}

pub data KeyType : Type 0 where
  spend consume : KeyType

pub data TxSignError : Type 0 where
  consume_not_required : Bool → Bool → TxSignError
  consume_delegated consume_key_not_set spend_not_required spend_key_not_set : TxSignError
  key_mismatch : KeyType → CompressedPublicKey → CompressedPublicKey → TxSignError

abbrev pub SignResult : Type 0 → Type 0
SignResult A = Result TxSignError A

-- Derived `PartialEq`.
abbrev pub same_key : CompressedPublicKey → CompressedPublicKey → Bool
same_key k l =
    (k.w0 == l.w0) && (k.w1 == l.w1) && (k.w2 == l.w2) && (k.w3 == l.w3) && (k.w4 == l.w4)

pub record RequiredSignatures : Type 0 where
  pub spend : Bool
  pub consume : Bool
  pub approval : Bool

pub record TxKindFlags : Type 0 where
  pub is_fresh_acc : Bool
  pub is_update_auth : Bool
  pub is_priv_tx : Bool
  pub not_fake_tx : Bool

-- `TxKindFlags::SPEND`
abbrev pub spend_flags : TxKindFlags
spend_flags = record {
  is_fresh_acc = false;
  is_update_auth = false;
  is_priv_tx = true;
  not_fake_tx = true;
}

abbrev pub is_empty : {A : Type 0} → List A → Bool
is_empty xs = length xs == 0

pub record BuiltPrivTx (Signature : Type 0) : Type 0 where
  pub tx_kind_flags : TxKindFlags
  pub accin : StandardAccount
  pub accout : StandardAccount
  pub accin_merkle_proof : MerkleProof HashOutput
  pub rejected_inotes : List StandardNote
  pub rejected_inotes_nct_proofs : List (MerkleProof HashOutput)
  pub inotes : List StandardNote
  pub inotes_nct_proofs : List (MerkleProof HashOutput)
  pub onotes : List StandardNote
  pub dinotes : List HashOutput
  pub donotes : List HashOutput
  pub tx_hash : HashOutput
  pub state_root : HashOutput
  pub subpool_id : ℕ
  pub mainpool_config_root : HashOutput
  pub subpool_proof : SubpoolFullProof
  pub approval_key : CompressedPublicKey
  pub spend_sig : Option Signature
  pub consume_sig : Option Signature
  pub approval_sig : Option Signature

module _ {Signature : Type 0} where
  unfoldable pub required_signatures : BuiltSpendTx Signature → RequiredSignatures
  required_signatures t = record {
    spend = not (is_empty t.onotes);
    consume = not (is_empty t.inotes) && is_empty t.onotes && t.accin.consume_auth.config;
    approval = true;
  }

  abbrev pub with_account_path :
      MerkleProof HashOutput → BuiltSpendTx Signature → BuiltSpendTx Signature
  with_account_path proof t = record t { accin_proof = some proof }

  abbrev pub with_input_notes_path :
      List (MerkleProof HashOutput) → BuiltSpendTx Signature → BuiltSpendTx Signature
  with_input_notes_path proofs t = record t { inotes_nct_proofs = some proofs }

  abbrev pub with_rejected_notes_path :
      List (MerkleProof HashOutput) → BuiltSpendTx Signature → BuiltSpendTx Signature
  with_rejected_notes_path proofs t = record t { rejected_inotes_nct_proofs = some proofs }

  abbrev pub with_subpool_proof : SubpoolFullProof → BuiltSpendTx Signature → BuiltSpendTx Signature
  with_subpool_proof proof t = record t { subpool_proof = some proof }

  unfoldable pub into_priv_tx : BuiltSpendTx Signature → SpendResult (BuiltPrivTx Signature)
  into_priv_tx t = do
    accin_merkle_proof ← ok_or t.accin_proof account_path_not_set
    inotes_nct_proofs ← ok_or t.inotes_nct_proofs note_paths_not_set
    rejected_inotes_nct_proofs ← ok_or t.rejected_inotes_nct_proofs note_paths_not_set
    subpool_full_proof ← ok_or t.subpool_proof subpool_proof_not_set
    ok (record {
      tx_kind_flags = spend_flags;
      accin = t.accin;
      accout = t.accout;
      accin_merkle_proof = accin_merkle_proof;
      rejected_inotes = map (λ placed. placed.0) t.rejected_inotes;
      rejected_inotes_nct_proofs = rejected_inotes_nct_proofs;
      inotes = map (λ placed. placed.0) t.inotes;
      inotes_nct_proofs = inotes_nct_proofs;
      onotes = t.onotes;
      dinotes = t.dinotes;
      donotes = t.donotes;
      tx_hash = t.tx_hash;
      state_root = accin_merkle_proof.root;
      subpool_id = t.subpool_id;
      mainpool_config_root = subpool_full_proof.main_pool_proof.root;
      subpool_proof = subpool_full_proof;
      approval_key = subpool_full_proof.approval_key;
      spend_sig = t.spend_sig;
      consume_sig = t.consume_sig;
      approval_sig = t.approval_sig;
    })

  -- `public_key` and `schnorr_sign` stand for those of schnorr.rs, with the nonce that is drawn.
  module _ {PrivateKey Scalar : Type 0} (public_key : PrivateKey → CompressedPublicKey)
      (schnorr_sign : PrivateKey → HashOutput → Scalar → Signature) where
    unfoldable pub consume_sign :
        PrivateKey → Scalar → BuiltSpendTx Signature → SignResult (BuiltSpendTx Signature)
    consume_sign consume_sk k t =
        let no_input_notes = is_empty t.inotes && is_empty t.rejected_inotes in
        let has_output_notes = not (is_empty t.onotes) in
        do
          ensure (not (no_input_notes || has_output_notes))
              (consume_not_required (not no_input_notes) has_output_notes)
          ensure t.accin.consume_auth.config consume_delegated
          expected_pk ← ok_or t.accin.consume_auth.pk consume_key_not_set
          ensure (same_key expected_pk (public_key consume_sk))
              (key_mismatch consume expected_pk (public_key consume_sk))
          ok (record t { consume_sig = some (schnorr_sign consume_sk t.tx_hash k) })

    unfoldable pub spend_sign :
        PrivateKey → Scalar → BuiltSpendTx Signature → SignResult (BuiltSpendTx Signature)
    spend_sign spend_sk k t = do
      ensure (not (is_empty t.onotes)) spend_not_required
      expected_pk ← ok_or t.accin.spend_pk spend_key_not_set
      ensure (same_key expected_pk (public_key spend_sk))
          (key_mismatch spend expected_pk (public_key spend_sk))
      ok (record t { spend_sig = some (schnorr_sign spend_sk t.tx_hash k) })

    unfoldable pub approval_sign :
        PrivateKey → Scalar → BuiltSpendTx Signature → SignResult (BuiltSpendTx Signature)
    approval_sign approval_sk k t =
        ok (record t { approval_sig = some (schnorr_sign approval_sk t.tx_hash k) })
