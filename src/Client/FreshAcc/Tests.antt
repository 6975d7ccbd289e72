-- ===== src/Client/FreshAcc/Tests.antt =====
-- The activation of an account at small values.
use doxa.Prelude.{ℕ, ◌+◌, ◌≡◌, refl, false, [], none, some, ok}
use doxa.Samples.{toy_no_pad, toy_poseidon}
use doxa.Hasher.{HashOutput, zero_hash}
use doxa.Client.PoolConfig.{SubpoolFullProof}
use doxa.Client.Assets.Run.{first_entry, first_tree, first_tree-Holds}
use doxa.Client.Account.{StandardAccount, CompressedPublicKey}
use doxa.Client.Spend.Sign.{BuiltPrivTx}
use doxa.Client.FreshAcc.{
  FreshAccTxBuilder, BuiltFreshAccTx, new, with_new_spend_key, fill_dinotes, fill_donotes, build,
  with_state_root, with_subpool_proof, approval_sign, into_priv_tx,
}
use doxa.Client.FreshAcc.Flow.{with_consume, IsActivated, into_priv_tx-IsActivated}

abbrev toy_key : ℕ → CompressedPublicKey
toy_key sk = record { w0 = sk; w1 = 1; w2 = 1; w3 = 1; w4 = 1 }

abbrev toy_sign : ℕ → HashOutput → ℕ → ℕ
toy_sign sk hash k = sk + hash.e0 + k

abbrev new_account : StandardAccount
new_account = record {
  private_identifier = record { p0 = 2; p1 = 3 };
  subpool_id = 4;
  nonce = 0;
  spend_pk = none;
  consume_auth = record { config = false; pk = none };
  ast = first_tree toy_no_pad;
}

abbrev seeds : ℕ → HashOutput
seeds i = record { e0 = i; e1 = 0; e2 = 0; e3 = 0 }

abbrev subpool : SubpoolFullProof
subpool = record {
  main_pool_proof = record {
    leaf = zero_hash;
    siblings = [];
    path = [];
    pos = 0;
    num_leaves = 1;
    root = zero_hash;
  };
  approval_key = toy_key 22;
  subpool_id = 4;
}

into_priv_tx-IsActivated_example :
    (b : FreshAccTxBuilder) × (new new_account ≡ ok b)
    × (t : BuiltFreshAccTx ℕ) × (build toy_no_pad (
          fill_donotes seeds (
            fill_dinotes seeds
              (with_consume (some (toy_key 21)) (with_new_spend_key (toy_key 20) b))))
        ≡ ok t)
    × (t' : BuiltFreshAccTx ℕ) × (approval_sign toy_sign 22 5 t ≡ ok t')
    × (p : BuiltPrivTx ℕ) × (into_priv_tx
          (with_subpool_proof subpool (with_state_root zero_hash t'))
        ≡ ok p)
    × IsActivated toy_no_pad new_account
        (toy_key 20)
        (some (toy_key 21))
        seeds
        seeds
        zero_hash
        subpool
        (λ tx_hash. toy_sign 22 tx_hash 5)
        p
into_priv_tx-IsActivated_example =
    into_priv_tx-IsActivated toy_no_pad toy_sign 22 5 first_entry new_account _ (toy_key 20)
      (some (toy_key 21)) seeds seeds zero_hash subpool refl (first_tree-Holds toy_no_pad) refl
