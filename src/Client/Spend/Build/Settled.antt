-- ===== src/Client/Spend/Build/Settled.antt =====
-- What `build` makes of a builder that its methods have filled.
use doxa.Prelude.{
  ℕ, ◌+◌, ◌-◌, ◌^◌, ◌≤◌, ◌<◌, ◌≡◌, refl, ap, sym, subst, ◌∙◌, ◌⊎◌, false, List, none, some, arith,
  length, ◌==◌, ok, err, panic, ok_or, bind_ok, bind_panic, All,
}
use doxa.Hasher.{MerkleHash, HashOutput}
use doxa.Client.Assets.{AssetId, amount_for}
use doxa.Client.Assets.Entries.{Entries, find}
use doxa.Client.Assets.Mirror.{Holds}
use doxa.Client.Assets.Run.{upsert_entry, upsert_result, insert_or_update_asset-Holds}
use doxa.Client.Assets.Upsert.{upsert_entry-Upserted}
use doxa.Client.Account
use doxa.Client.Account.{
  StandardAccount, consume_words, commitment_words, clone_with_incremented_nonce,
  derive_priv_tx_hash,
}
use doxa.Client.Spend.{SpendTxBuilder, insufficient_balance, dummy_notes_not_filled, input, output}
use doxa.Client.Spend.Calls.{Enough, IsValid}
use doxa.Client.Spend.Build.{BuiltSpendTx, old_balance, build}
use doxa.Client.Spend.Build.Columns.{
  sum, amounts_in, amounts_out, InField, nullifiers, commitments, tx_inote_nulls-nullifiers,
  tx_onote_comms-commitments,
}
use doxa.Client.Spend.Build.Steps.{
  commitment-Holds, nullifier-Holds, accout_of, account_out-accout_of, account_out_panics,
  after_sums, build-after_sums, built_lem, balance-some, balance-none,
}

module _ (hash_no_pad : List ℕ → HashOutput) ⦃h : MerkleHash HashOutput⦄ where
  -- A builder for `build`: its balances are a tree with room for the asset, which is not the default
  -- one, it has a note, both kinds of seeds are sampled, the positions are elements of the field,
  -- the sums are below 2^256, and the account has the key that its consume mode needs.
  pub record IsReady (es : Entries) (b : SpendTxBuilder) (dinotes donotes : List HashOutput)
      : Type 0 where
    pub valid : IsValid hash_no_pad b.accin b.asset_id b
    pub holds : Holds hash_no_pad es b.accin.ast
    pub proper : (b.asset_id == 0) ≡ false
    pub room : find b.asset_id 0 es ≡ none → length es < 1024
    pub active : 0 < length b.input_notes + length b.output_notes + length b.rejected_notes
    pub input_positions : All InField b.input_notes
    pub rejected_positions : All InField b.rejected_notes
    pub sum_in : sum (amounts_in b) < 2 ^ 256
    pub sum_out : sum (amounts_out b) < 2 ^ 256
    pub sampled_in : b.dinotes ≡ some dinotes
    pub sampled_out : b.donotes ≡ some donotes
    pub consume : List ℕ
    pub consume_is : consume_words b.accin.consume_auth ≡ ok consume

  -- A built transaction with a new balance of the asset.
  pub record IsSettled {Signature : Type 0} (es : Entries) (b : SpendTxBuilder)
      (dinotes donotes : List HashOutput) (t : BuiltSpendTx Signature) : Type 0 where
    pub new_bal : ℕ
    pub conserved : new_bal + sum (amounts_out b) ≡ old_balance b + sum (amounts_in b)
    pub place : ℕ
    pub written : amount_for t.accout.ast b.asset_id ≡ some (place, new_bal)
    pub others :
        (a : AssetId)
        → (a == b.asset_id) ≡ false
        → amount_for t.accout.ast a ≡ amount_for b.accin.ast a
    pub holds : Holds hash_no_pad (upsert_entry b.asset_id new_bal es) t.accout.ast
    pub account : t.accout ≡ record b.accin { nonce = b.accin.nonce + 1; ast = t.accout.ast }
    pub notes :
        (t.inotes ≡ b.input_notes)
        × (t.onotes ≡ b.output_notes)
        × (t.rejected_inotes ≡ b.rejected_notes)
    pub accin_null : HashOutput
    pub accin_null_is : Account.nullifier hash_no_pad b.accin ≡ ok accin_null
    pub accout_comm : HashOutput
    pub accout_comm_is : Account.commitment hash_no_pad t.accout ≡ ok accout_comm
    pub tx_hash :
        t.tx_hash
        ≡ derive_priv_tx_hash hash_no_pad accin_null accout_comm
            (nullifiers hash_no_pad b dinotes)
            (commitments hash_no_pad b donotes)

  module _ {Signature : Type 0} where
    -- A builder that is ready is built where the old balance and the inputs stay below 2^256 and
    -- cover the outputs: the new balance and the outputs are the old balance and the inputs, no
    -- other balance and nothing else of the account changes but its nonce, which is one more, and
    -- the transaction hash is of the account's nullifier, the new account's commitment, and the
    -- nullifiers and commitments of the rejected, the active and the dummy notes in this order.
    -- Where they do not, `build` fails for insufficient balance.
    pub build-IsSettled :
        (es : Entries) (b : SpendTxBuilder) (dinotes donotes : List HashOutput)
        → IsReady es b dinotes donotes
        → (old_balance b + sum (amounts_in b) < 2 ^ 256
            → sum (amounts_out b) ≤ old_balance b + sum (amounts_in b)
            → (t : BuiltSpendTx Signature) × (build hash_no_pad b ≡ ok t)
              × IsSettled es b dinotes donotes t)
          × ((2 ^ 256 ≤ old_balance b + sum (amounts_in b))
                ⊎ (old_balance b + sum (amounts_in b) < sum (amounts_out b))
              → build hash_no_pad {Signature = Signature} b
                ≡ err (
                    insufficient_balance
                      (old_balance b)
                      (sum (amounts_in b))
                      (sum (amounts_out b))))
    unfolding amount_for
    build-IsSettled es b dinotes donotes r =
        let sums = build-after_sums hash_no_pad b r.active r.sum_in r.sum_out in
        (
          λ fits covers.
              let new_bal = old_balance b + sum (amounts_in b) - sum (amounts_out b) in
              let u = upsert_entry-Upserted b.asset_id new_bal es r.proper r.room in
              let (kept, returns) =
                insert_or_update_asset-Holds hash_no_pad es b.accin.ast b.asset_id new_bal
                  r.holds in
              let accout = accout_of hash_no_pad b new_bal in
              let (accin_null, null_is) =
                nullifier-Holds hash_no_pad es b.accin r.consume r.holds r.consume_is in
              let (accout_comm, comm_is) =
                commitment-Holds hash_no_pad (upsert_entry b.asset_id new_bal es) accout r.consume
                  kept r.consume_is in
              let nulls =
                tx_inote_nulls-nullifiers hash_no_pad b dinotes r.rejected_positions
                  r.input_positions r.valid.inputs
                  (subst (Enough (length b.rejected_notes + length b.input_notes)) r.sampled_in
                    r.valid.dinotes) in
              let comms = tx_onote_comms-commitments hash_no_pad b donotes r.valid.outputs (
                subst (Enough (length b.rejected_notes + length b.output_notes)) r.sampled_out
                  r.valid.donotes) in
              (
                _,
                sums
                    ∙ ap (after_sums hash_no_pad b) (balance-some _ _ _ fits covers)
                    ∙ bind_ok _ (
                        account_out-accout_of hash_no_pad b new_bal u.previous
                          (returns ∙ u.succeeds))
                    ∙ bind_ok _ (ap (λ d. ok_or d (dummy_notes_not_filled input)) r.sampled_in)
                    ∙ bind_ok _ (ap (λ d. ok_or d (dummy_notes_not_filled output)) r.sampled_out)
                    ∙ built_lem hash_no_pad b accout dinotes donotes _ _ accin_null accout_comm
                        nulls comms null_is comm_is,
                record {
                  new_bal = new_bal;
                  conserved = omega arith;
                  place = u.place;
                  written = kept.assets b.asset_id ∙ u.written;
                  others = λ a ne. kept.assets a ∙ u.others a ne ∙ sym (r.holds.assets a);
                  holds = kept;
                  account = refl;
                  notes = (refl, refl, refl);
                  accin_null = accin_null;
                  accin_null_is = null_is;
                  accout_comm = accout_comm;
                  accout_comm_is = comm_is;
                  tx_hash = refl;
                },
              ),
          λ out. sums ∙ ap (after_sums hash_no_pad b) (balance-none _ _ _ out),
        )

    -- For the default asset `build` panics where any other asset would be settled.
    pub build-default_asset :
        (es : Entries) (b : SpendTxBuilder)
        → Holds hash_no_pad es b.accin.ast
        → b.asset_id ≡ 0
        → 0 < length b.input_notes + length b.output_notes + length b.rejected_notes
        → sum (amounts_in b) < 2 ^ 256
        → sum (amounts_out b) ≤ sum (amounts_in b)
        → build hash_no_pad {Signature = Signature} b ≡ panic
    unfolding old_balance amount_for
    build-default_asset es b o default active fits covers =
        let found = o.assets b.asset_id ∙ ap (λ a. find a 0 es) default ∙ o.default in
        let nothing : old_balance b ≡ 0 = rw (found, old_balance) refl in
        let refused : upsert_result b.asset_id es ≡ panic =
          ap (λ a. upsert_result a es) default ∙ rw o.default refl in
        let new_bal = old_balance b + sum (amounts_in b) - sum (amounts_out b) in
        let updated =
          (insert_or_update_asset-Holds hash_no_pad es b.accin.ast b.asset_id new_bal o).1
          ∙ refused in
        build-after_sums hash_no_pad b active fits (omega arith)
        ∙ ap (after_sums hash_no_pad b) (balance-some _ _ _ (omega arith) (omega arith))
        ∙ bind_panic _ (account_out_panics hash_no_pad b new_bal updated)
