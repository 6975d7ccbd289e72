-- ===== src/Client/FreshAcc/Flow.antt =====
-- The whole way of a fresh account, from `new` to `into_priv_tx`.
use doxa.Prelude.{
  ℕ, ◌+◌, ◌≡◌, refl, ap, ◌∙◌, true, false, List, [], Option, none, some, arith, map, ◌==◌, ok,
}
use doxa.Hasher.{MerkleHash, HashOutput}
use doxa.Client.PoolConfig.{SubpoolFullProof}
use doxa.Client.Assets.Entries.{Entries}
use doxa.Client.Assets.Mirror.{Holds}
use doxa.Client.Account
use doxa.Client.Account.{
  StandardAccount, CompressedPublicKey, ConsumeAuth, consume_words, clone_with_incremented_nonce,
  derive_priv_tx_hash,
}
use doxa.Client.Spend.{note_batch, sample}
use doxa.Client.Spend.Build.{from_fn, double_hash_native}
use doxa.Client.Spend.Build.Steps.{commitment-Holds, nullifier-Holds}
use doxa.Client.Spend.Sign.{BuiltPrivTx}
use doxa.Client.FreshAcc.{
  FreshAccTxBuilder, BuiltFreshAccTx, fresh_acc_flags, new, with_new_spend_key,
  with_new_consume_key, with_delegated_consume, fill_dinotes, fill_donotes, dummies, build,
  with_state_root, with_subpool_proof, approval_sign, into_priv_tx,
}

abbrev started : StandardAccount → FreshAccTxBuilder
started accin = record {
  accin = accin;
  new_spend_auth = none;
  new_consume_auth = none;
  dinotes = none;
  donotes = none;
}

-- A key for the account's own consume mode, or the delegated mode.
abbrev pub with_consume : Option CompressedPublicKey → FreshAccTxBuilder → FreshAccTxBuilder
with_consume none b = with_delegated_consume b
with_consume (some pk) b = with_new_consume_key pk b

abbrev pub consume_auth_of : Option CompressedPublicKey → ConsumeAuth
consume_auth_of none = record { config = false; pk = none }
consume_auth_of (some pk) = record { config = true; pk = some pk }

abbrev pub filled :
    StandardAccount
    → CompressedPublicKey
    → Option CompressedPublicKey
    → List HashOutput
    → List HashOutput
    → FreshAccTxBuilder
filled accin spend_pk consume_pk dinotes donotes = record {
  accin = accin;
  new_spend_auth = some (some spend_pk);
  new_consume_auth = some (consume_auth_of consume_pk);
  dinotes = some dinotes;
  donotes = some donotes;
}

module _ (hash_no_pad : List ℕ → HashOutput) ⦃h : MerkleHash HashOutput⦄ where
  abbrev pub dummies_of : (ℕ → HashOutput) → List HashOutput
  dummies_of seeds = map (double_hash_native hash_no_pad) (sample seeds 0 note_batch)

  dummies-dummies_of :
      (seeds : ℕ → HashOutput)
      → dummies hash_no_pad (sample seeds 0 note_batch) ≡ ok (dummies_of seeds)
  unfolding dummies from_fn
  dummies-dummies_of seeds = refl

  -- The account with the new keys, one transaction further.
  abbrev pub activated :
      StandardAccount → CompressedPublicKey → Option CompressedPublicKey → StandardAccount
  activated accin spend_pk consume_pk = record accin {
    nonce = accin.nonce + 1;
    spend_pk = some spend_pk;
    consume_auth = consume_auth_of consume_pk;
  }

  consume_words_of :
      (consume_pk : Option CompressedPublicKey)
      → (c : List ℕ) × (consume_words (consume_auth_of consume_pk) ≡ ok c)
  consume_words_of none = (_, refl)
  consume_words_of (some pk) = (_, refl)

  pub record IsActivated {Signature : Type 0} (accin : StandardAccount)
      (spend_pk : CompressedPublicKey) (consume_pk : Option CompressedPublicKey)
      (in_seeds out_seeds : ℕ → HashOutput) (state_root : HashOutput) (subpool : SubpoolFullProof)
      (sign : HashOutput → Signature) (p : BuiltPrivTx Signature) : Type 0 where
    pub flags : p.tx_kind_flags ≡ fresh_acc_flags
    pub accounts : (p.accin ≡ accin) × (p.accout ≡ activated accin spend_pk consume_pk)
    pub no_notes : (p.inotes ≡ []) × (p.onotes ≡ []) × (p.rejected_inotes ≡ [])
    pub accin_null : HashOutput
    pub accin_null_is : Account.nullifier hash_no_pad accin ≡ ok accin_null
    pub accout_comm : HashOutput
    pub accout_comm_is :
        Account.commitment hash_no_pad (activated accin spend_pk consume_pk) ≡ ok accout_comm
    pub tx_hash :
        p.tx_hash
        ≡ derive_priv_tx_hash hash_no_pad accin_null accout_comm
            (dummies_of in_seeds)
            (dummies_of out_seeds)
    pub signatures :
        (p.approval_sig ≡ some (sign p.tx_hash)) × (p.spend_sig ≡ none) × (p.consume_sig ≡ none)
    pub roots :
        (p.state_root ≡ state_root)
        × (p.mainpool_config_root ≡ subpool.main_pool_proof.root)
        × (p.approval_key ≡ subpool.approval_key)

  with_consume_lem :
      (consume_pk : Option CompressedPublicKey) (b : FreshAccTxBuilder)
      → with_consume consume_pk b
        ≡ record b { new_consume_auth = some (consume_auth_of consume_pk) }
  with_consume_lem none b = refl
  with_consume_lem (some pk) b = refl

  build-filled :
      {Signature : Type 0} (accin : StandardAccount) (spend_pk : CompressedPublicKey)
      (consume_pk : Option CompressedPublicKey) (dinotes donotes nulls comms : List HashOutput)
      (accin_null accout_comm : HashOutput)
      → dummies hash_no_pad dinotes ≡ ok nulls
      → dummies hash_no_pad donotes ≡ ok comms
      → Account.nullifier hash_no_pad accin ≡ ok accin_null
      → Account.commitment hash_no_pad (activated accin spend_pk consume_pk) ≡ ok accout_comm
      → build hash_no_pad {Signature = Signature} (filled accin spend_pk consume_pk dinotes donotes)
        ≡ ok (record {
          accin = accin;
          accout = activated accin spend_pk consume_pk;
          dinotes = dinotes;
          donotes = donotes;
          tx_hash = derive_priv_tx_hash hash_no_pad accin_null accout_comm nulls comms;
          subpool_id = accin.subpool_id;
          state_root = none;
          subpool_proof = none;
          approval_sig = none;
        })
  unfolding build clone_with_incremented_nonce
  build-filled accin spend_pk consume_pk dinotes donotes nulls comms accin_null accout_comm d e n
        c =
      rw d (rw e (rw n (rw c refl)))

  -- An account of nonce 0 can be activated: with a spend key, a consume mode and sampled seeds, the
  -- builder is built; signed for approval and given the state root and the subpool's proof, it
  -- becomes a private transaction whose output account has nonce 1 and the new keys, and the old
  -- identity and balances, whose notes are all dummies, and whose hash is signed.
  pub into_priv_tx-IsActivated :
      {Signature PrivateKey Scalar : Type 0}
      (schnorr_sign : PrivateKey → HashOutput → Scalar → Signature) (approval_sk : PrivateKey)
      (k : Scalar) (es : Entries) (accin : StandardAccount) (consume : List ℕ)
      (spend_pk : CompressedPublicKey) (consume_pk : Option CompressedPublicKey)
      (in_seeds out_seeds : ℕ → HashOutput) (state_root : HashOutput) (subpool : SubpoolFullProof)
      → accin.nonce ≡ 0
      → Holds hash_no_pad es accin.ast
      → consume_words accin.consume_auth ≡ ok consume
      → (b : FreshAccTxBuilder) × (new accin ≡ ok b)
        × (t : BuiltFreshAccTx Signature) × (build hash_no_pad (
              fill_donotes out_seeds
                (fill_dinotes in_seeds (with_consume consume_pk (with_new_spend_key spend_pk b))))
            ≡ ok t)
        × (t' : BuiltFreshAccTx Signature) × (approval_sign schnorr_sign approval_sk k t ≡ ok t')
        × (p : BuiltPrivTx Signature) × (into_priv_tx
              (with_subpool_proof subpool (with_state_root state_root t'))
            ≡ ok p)
        × IsActivated accin spend_pk consume_pk in_seeds out_seeds state_root subpool
            (λ tx_hash. schnorr_sign approval_sk tx_hash k)
            p
  unfolding new approval_sign into_priv_tx
  into_priv_tx-IsActivated schnorr_sign approval_sk k es accin consume spend_pk consume_pk in_seeds
        out_seeds state_root subpool fresh o c =
      let (accin_null, null_is) = nullifier-Holds hash_no_pad es accin consume o c in
      let accout = activated accin spend_pk consume_pk in
      let (words, words_are) = consume_words_of consume_pk in
      let (accout_comm, comm_is) = commitment-Holds hash_no_pad es accout words o words_are in
      let b = started accin in
      let ready =
        ap (λ b. build hash_no_pad (fill_donotes out_seeds (fill_dinotes in_seeds b)))
          (with_consume_lem consume_pk (with_new_spend_key spend_pk b)) in
      let zero_nonce : (accin.nonce == 0) ≡ true = ground (arith, fresh) in
      (
        b,
        rw zero_nonce refl,
        _,
        ready
            ∙ build-filled accin spend_pk consume_pk (sample in_seeds 0 note_batch)
                (sample out_seeds 0 note_batch) (dummies_of in_seeds) (dummies_of out_seeds)
                accin_null accout_comm (dummies-dummies_of in_seeds) (dummies-dummies_of out_seeds)
                null_is comm_is,
        _,
        refl,
        _,
        refl,
        record {
          flags = refl;
          accounts = (refl, refl);
          no_notes = (refl, refl, refl);
          accin_null = accin_null;
          accin_null_is = null_is;
          accout_comm = accout_comm;
          accout_comm_is = comm_is;
          tx_hash = refl;
          signatures = (refl, refl, refl);
          roots = (refl, refl, refl);
        },
      )
