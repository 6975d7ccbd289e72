-- ===== src/Client/Spend/Build/Steps.antt =====
-- The steps of `build`, each on its own.
use doxa.Prelude.{
  ℕ, ◌+◌, ◌-◌, ◌^◌, ◌≤◌, ◌<◌, ◌≡◌, refl, ap, ◌∙◌, ◌⊎◌, inl, inr, Bool-cases, true, false, not, ◌&&◌,
  List, Option, none, some, arith, length, ltb, leb, ◌==◌, ok, panic, ◌>>=◌, ok_or, unfailing,
  bind_ok,
}
use doxa.Hasher.{MerkleHash, HashOutput}
use doxa.Client.Assets.{AccountStateTree, insert_or_update_asset}
use doxa.Client.Assets.Entries.{Entries}
use doxa.Client.Assets.Mirror.{Holds}
use doxa.Client.Assets.Upsert.{root-Holds}
use doxa.Client.Account
use doxa.Client.Account.{
  StandardAccount, consume_words, commitment_words, clone_with_incremented_nonce,
  derive_priv_tx_hash,
}
use doxa.Client.Spend.{
  SpendTxBuilder, SpendResult, insufficient_balance, dummy_notes_not_filled, input, output,
}
use doxa.Client.Spend.Build.{
  BuiltSpendTx, balance, account_out, old_balance, built, build, tx_inote_nulls, tx_onote_comms,
}
use doxa.Client.Spend.Build.Columns.{sum, u256_sum_lem, amounts_in, amounts_out}

active_lem : (a b c : ℕ) → 0 < a + b + c → not ((a == 0) && (b == 0) && (c == 0)) ≡ true
active_lem a b c l = ground arith

pub balance-some :
    (old delta_in delta_out : ℕ)
    → old + delta_in < 2 ^ 256
    → delta_out ≤ old + delta_in
    → balance old delta_in delta_out ≡ some (old + delta_in - delta_out)
balance-some old delta_in delta_out l l' =
    let fits : ltb (old + delta_in) (2 ^ 256) ≡ true = ground arith in
    let covers : leb delta_out (old + delta_in) ≡ true = ground arith in
    rw (fits, balance) (rw covers refl)

pub balance-none :
    (old delta_in delta_out : ℕ)
    → (2 ^ 256 ≤ old + delta_in) ⊎ (old + delta_in < delta_out)
    → balance old delta_in delta_out ≡ none
balance-none old delta_in delta_out (inl over) =
    let exceeds : ltb (old + delta_in) (2 ^ 256) ≡ false = ground arith in
    rw (exceeds, balance) refl
balance-none old delta_in delta_out (inr short) =
    elim (Bool-cases (ltb (old + delta_in) (2 ^ 256))) [
      | inl fits ↦
          let lacks : leb delta_out (old + delta_in) ≡ false = ground arith in
          rw (fits, balance) (rw lacks refl)
      | inr exceeds ↦ rw (exceeds, balance) refl
    ]

module _ (hash_no_pad : List ℕ → HashOutput) ⦃h : MerkleHash HashOutput⦄ where
  pub commitment-Holds :
      (es : Entries) (acc : StandardAccount) (consume : List ℕ)
      → Holds hash_no_pad es acc.ast
      → consume_words acc.consume_auth ≡ ok consume
      → (comm : HashOutput) × (Account.commitment hash_no_pad acc ≡ ok comm)
  unfolding Account.commitment commitment_words
  commitment-Holds es acc consume o c = (
    _,
    ap (λ words. words >>= λ w. ok (hash_no_pad w))
        (bind_ok _ (root-Holds hash_no_pad es acc.ast o) ∙ bind_ok _ c),
  )

  pub nullifier-Holds :
      (es : Entries) (acc : StandardAccount) (consume : List ℕ)
      → Holds hash_no_pad es acc.ast
      → consume_words acc.consume_auth ≡ ok consume
      → (null : HashOutput) × (Account.nullifier hash_no_pad acc ≡ ok null)
  unfolding Account.nullifier
  nullifier-Holds es acc consume o c =
      let (comm, is) = commitment-Holds es acc consume o c in (_, bind_ok _ is)

  abbrev pub ast_out : SpendTxBuilder → ℕ → AccountStateTree
  ast_out b new_bal = (insert_or_update_asset hash_no_pad b.asset_id new_bal b.accin.ast).0

  abbrev pub accout_of : SpendTxBuilder → ℕ → StandardAccount
  accout_of b new_bal = record b.accin { nonce = b.accin.nonce + 1; ast = ast_out b new_bal }

  pub account_out-accout_of :
      (b : SpendTxBuilder) (new_bal : ℕ) (previous : Option ℕ)
      → (insert_or_update_asset hash_no_pad b.asset_id new_bal b.accin.ast).1 ≡ ok previous
      → account_out hash_no_pad b new_bal ≡ ok (accout_of b new_bal)
  unfolding account_out clone_with_incremented_nonce
  account_out-accout_of b new_bal previous e =
      ap (λ updated. unfailing updated >>= λ previous. ok (accout_of b new_bal)) e

  pub account_out_panics :
      (b : SpendTxBuilder) (new_bal : ℕ)
      → (insert_or_update_asset hash_no_pad b.asset_id new_bal b.accin.ast).1 ≡ panic
      → account_out hash_no_pad b new_bal ≡ panic
  unfolding account_out clone_with_incremented_nonce
  account_out_panics b new_bal e =
      ap (λ updated. unfailing updated >>= λ previous. ok (accout_of b new_bal)) e

  module _ {Signature : Type 0} where
    -- After the sums, with the balance still to be taken.
    abbrev pub after_sums : SpendTxBuilder → Option ℕ → SpendResult (BuiltSpendTx Signature)
    after_sums b new_bal = do
      new_bal ←
          ok_or new_bal
            (insufficient_balance (old_balance b) (sum (amounts_in b)) (sum (amounts_out b)))
      accout ← account_out hash_no_pad b new_bal
      dinotes ← ok_or b.dinotes (dummy_notes_not_filled input)
      donotes ← ok_or b.donotes (dummy_notes_not_filled output)
      built hash_no_pad b accout dinotes donotes

    pub build-after_sums :
        (b : SpendTxBuilder)
        → 0 < length b.input_notes + length b.output_notes + length b.rejected_notes
        → sum (amounts_in b) < 2 ^ 256
        → sum (amounts_out b) < 2 ^ 256
        → build hash_no_pad b
          ≡ after_sums b (balance (old_balance b) (sum (amounts_in b)) (sum (amounts_out b)))
    unfolding build
    build-after_sums b active fits_in fits_out =
        rw
          (active_lem (length b.input_notes) (length b.output_notes) (length b.rejected_notes)
            active)
          (rw (u256_sum_lem (amounts_in b) fits_in)
            (rw (u256_sum_lem (amounts_out b) fits_out) refl))

    pub built_lem :
        (b : SpendTxBuilder) (accout : StandardAccount)
        (dinotes donotes nulls comms : List HashOutput) (accin_null accout_comm : HashOutput)
        → tx_inote_nulls hash_no_pad b dinotes ≡ ok nulls
        → tx_onote_comms hash_no_pad b donotes ≡ ok comms
        → Account.nullifier hash_no_pad b.accin ≡ ok accin_null
        → Account.commitment hash_no_pad accout ≡ ok accout_comm
        → built hash_no_pad {Signature = Signature} b accout dinotes donotes
          ≡ ok (record {
            accin = b.accin;
            accout = accout;
            rejected_inotes = b.rejected_notes;
            inotes = b.input_notes;
            onotes = b.output_notes;
            dinotes = dinotes;
            donotes = donotes;
            tx_hash = derive_priv_tx_hash hash_no_pad accin_null accout_comm nulls comms;
            subpool_id = b.accin.subpool_id;
            accin_proof = none;
            inotes_nct_proofs = none;
            rejected_inotes_nct_proofs = none;
            subpool_proof = none;
            spend_sig = none;
            consume_sig = none;
            approval_sig = none;
          })
    unfolding built
    built_lem b accout dinotes donotes nulls comms accin_null accout_comm n c i o =
        rw n (rw c (rw i (rw o refl)))
