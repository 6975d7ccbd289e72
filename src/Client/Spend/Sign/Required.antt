-- ===== src/Client/Spend/Sign/Required.antt =====
-- The signatures that are required, and those that the methods give.
use doxa.Prelude.{
  ◌≡◌, refl, ap, ◌∙◌, ◌⊎◌, inl, inr, Bool, true, false, not, ◌&&◌, ◌||◌, List, Option, none, some,
  arith, if◌then◌else◌, Bool-cases, ok, ok_or, ok_of_ensure, ok_of_bind,
}
use doxa.Hasher.{HashOutput}
use doxa.Merkle.Membership.{MerkleProof}
use doxa.Client.PoolConfig.{SubpoolFullProof}
use doxa.Client.Account.{CompressedPublicKey}
use doxa.Client.Spend.Build.{BuiltSpendTx}
use doxa.Client.Spend.Sign.{
  TxSignError, BuiltPrivTx, is_empty, same_key, required_signatures, consume_sign, into_priv_tx,
  with_account_path, with_input_notes_path, with_rejected_notes_path, with_subpool_proof,
}
use doxa.Client.Spend.Sign.Flow.{
  Signers, HasKeys, sign_required, spend_signed, consume_signed, approved, signed_outputs,
  signed_inputs, signed_none,
}

same_key_eq : (k l : CompressedPublicKey) → same_key k l ≡ true → k ≡ l
same_key_eq k l e =
    let e0 : k.w0 ≡ l.w0 = ground arith in
    let e1 : k.w1 ≡ l.w1 = ground arith in
    let e2 : k.w2 ≡ l.w2 = ground arith in
    let e3 : k.w3 ≡ l.w3 = ground arith in
    let e4 : k.w4 ≡ l.w4 = ground arith in
    λ i. record { w0 = e0 i; w1 = e1 i; w2 = e2 i; w3 = e3 i; w4 = e4 i }

-- The tests of `consume_sign` against that of `required_signatures`.
consume_tests :
    (i r o c : Bool)
    → not ((i && r) || not o) ≡ true
    → c ≡ true
    → (o ≡ true)
      × (((not i && o && c) ≡ true) ⊎ ((i ≡ true) × (r ≡ false) × ((not i && o && c) ≡ false)))
consume_tests true true o c e own = cc
consume_tests true false true c e own = (refl, inr (refl, refl, refl))
consume_tests true false false c e own = cc
consume_tests false r true c e own = (refl, inl own)
consume_tests false r false c e own = cc

key_of :
    {E : Type 0} (o : Option CompressedPublicKey) (e : E) (k : CompressedPublicKey)
    → ok_or o e ≡ ok k
    → o ≡ some k
key_of none e k r = cc
key_of (some l) e k r = cc

module _ {Signature PrivateKey Scalar : Type 0} (public_key : PrivateKey → CompressedPublicKey)
    (schnorr_sign : PrivateKey → HashOutput → Scalar → Signature) where
  -- The private transaction of a built one, with what it was given.
  pub record IsComplete (s : Signers public_key schnorr_sign) (t : BuiltSpendTx Signature)
      (proof : MerkleProof HashOutput) (subpool : SubpoolFullProof) (p : BuiltPrivTx Signature)
      : Type 0 where
    pub spend_sig : p.spend_sig ≡ (
        if (required_signatures t).spend
        then some (schnorr_sign s.spend_sk t.tx_hash s.spend_k)
        else none)
    pub consume_sig : p.consume_sig ≡ (
        if (required_signatures t).consume
        then some (schnorr_sign s.consume_sk t.tx_hash s.consume_k)
        else none)
    pub approval_sig : p.approval_sig ≡ some (schnorr_sign s.approval_sk t.tx_hash s.approval_k)
    pub tx_hash : p.tx_hash ≡ t.tx_hash
    pub accounts : (p.accin ≡ t.accin) × (p.accout ≡ t.accout)
    pub roots :
        (p.state_root ≡ proof.root) × (p.mainpool_config_root ≡ subpool.main_pool_proof.root)
    pub approval_key : p.approval_key ≡ subpool.approval_key

  abbrev pub with_paths :
      MerkleProof HashOutput
      → List (MerkleProof HashOutput)
      → List (MerkleProof HashOutput)
      → SubpoolFullProof
      → BuiltSpendTx Signature
      → BuiltSpendTx Signature
  with_paths proof inputs rejected subpool t =
      with_subpool_proof subpool (
        with_rejected_notes_path rejected
          (with_input_notes_path inputs (with_account_path proof t)))

  -- A built transaction, not signed yet, whose account has the signers' keys where they are needed,
  -- can be signed as `required_signatures` says, and then becomes a private transaction once it is
  -- given its proofs: the spend and consume signatures are there exactly where they are required,
  -- the approval always, all three of the transaction's hash, and the two roots and the approval key
  -- are those of the proofs.
  pub sign_required-into_priv_tx :
      (s : Signers public_key schnorr_sign) (t : BuiltSpendTx Signature)
      (proof : MerkleProof HashOutput) (inputs rejected : List (MerkleProof HashOutput))
      (subpool : SubpoolFullProof)
      → HasKeys public_key schnorr_sign s t
      → t.spend_sig ≡ none
      → t.consume_sig ≡ none
      → (t' : BuiltSpendTx Signature) × (sign_required public_key schnorr_sign s t ≡ ok t')
        × (p : BuiltPrivTx Signature) × (into_priv_tx (with_paths proof inputs rejected subpool t')
            ≡ ok p)
        × IsComplete s t proof subpool p
  unfolding into_priv_tx
  sign_required-into_priv_tx s t proof inputs rejected subpool keys unspent unconsumed =
      elim (Bool-cases (is_empty t.onotes)) [
        | inr outputs ↦
            let (spend, consume, signed) =
              signed_outputs public_key schnorr_sign s t keys outputs in
            (
              approved public_key schnorr_sign s (spend_signed public_key schnorr_sign s t),
              signed,
              _,
              refl,
              record {
                spend_sig = rw spend refl;
                consume_sig = unconsumed ∙ rw consume refl;
                approval_sig = refl;
                tx_hash = refl;
                accounts = (refl, refl);
                roots = (refl, refl);
                approval_key = refl;
              },
            )
        | inl no_outputs ↦
            elim (Bool-cases
              (not (is_empty t.inotes) && is_empty t.onotes && t.accin.consume_auth.config)) [
                | inl consumes ↦
                    let (spend, consume, signed) =
                      signed_inputs public_key schnorr_sign s t keys consumes in
                    (
                      approved public_key schnorr_sign s
                          (consume_signed public_key schnorr_sign s t),
                      signed,
                      _,
                      refl,
                      record {
                        spend_sig = unspent ∙ rw spend refl;
                        consume_sig = rw consume refl;
                        approval_sig = refl;
                        tx_hash = refl;
                        accounts = (refl, refl);
                        roots = (refl, refl);
                        approval_key = refl;
                      },
                    )
                | inr no_consume ↦
                    let (spend, consume, signed) =
                      signed_none public_key schnorr_sign s t no_outputs no_consume in
                    (
                      approved public_key schnorr_sign s t,
                      signed,
                      _,
                      refl,
                      record {
                        spend_sig = unspent ∙ rw spend refl;
                        consume_sig = unconsumed ∙ rw consume refl;
                        approval_sig = refl;
                        tx_hash = refl;
                        accounts = (refl, refl);
                        roots = (refl, refl);
                        approval_key = refl;
                      },
                    )
              ]
      ]

  -- Where `consume_sign` gives a signature, the key is the account's own consume key and there is no
  -- output note; and the signature is required, or all the notes that come in are rejected ones, for
  -- which `required_signatures` does not ask for it.
  pub consume_sign-required_signatures :
      (sk : PrivateKey) (k : Scalar) (t t' : BuiltSpendTx Signature)
      → consume_sign public_key schnorr_sign sk k t ≡ ok t'
      → (t.accin.consume_auth.config ≡ true)
        × (t.accin.consume_auth.pk ≡ some (public_key sk))
        × (is_empty t.onotes ≡ true)
        × (((required_signatures t).consume ≡ true)
            ⊎ ((is_empty t.inotes ≡ true)
                × (is_empty t.rejected_inotes ≡ false)
                × ((required_signatures t).consume ≡ false)))
  unfolding consume_sign required_signatures
  consume_sign-required_signatures sk k t t' e =
      let no_inputs = is_empty t.inotes && is_empty t.rejected_inotes in
      let (allowed, e1) = ok_of_ensure (not (no_inputs || not (is_empty t.onotes))) _ _ t' e in
      let (own, e2) = ok_of_ensure t.accin.consume_auth.config _ _ t' e1 in
      let (pk, e3, pk_is) =
        ok_of_bind _ (ok_or t.accin.consume_auth.pk TxSignError.consume_key_not_set) t' e2 in
      let (same, e4) = ok_of_ensure (same_key pk (public_key sk)) _ _ t' e3 in
      let (no_outputs, required) =
        consume_tests (is_empty t.inotes) (is_empty t.rejected_inotes) (is_empty t.onotes)
          t.accin.consume_auth.config allowed own in
      (
        own,
        key_of t.accin.consume_auth.pk _ pk pk_is ∙ ap some (same_key_eq pk (public_key sk) same),
        no_outputs,
        required,
      )
