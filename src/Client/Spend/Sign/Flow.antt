-- ===== src/Client/Spend/Sign/Flow.antt =====
-- A client that signs as `required_signatures` says.
use doxa.Prelude.{◌≡◌, refl, ap, ◌∙◌, Bool, true, false, not, ◌&&◌, some, if◌then◌else◌, ok, ◌>>=◌}
use doxa.Hasher.{HashOutput}
use doxa.Client.Keys.{nat_refl}
use doxa.Client.Account.{CompressedPublicKey}
use doxa.Client.Spend.Build.{BuiltSpendTx}
use doxa.Client.Spend.Sign.{
  SignResult, is_empty, same_key, required_signatures, consume_sign, spend_sign, approval_sign,
}

pub same_key_refl : (k : CompressedPublicKey) → same_key k k ≡ true
same_key_refl k =
    rw (nat_refl k.w0)
      (rw (nat_refl k.w1) (rw (nat_refl k.w2) (rw (nat_refl k.w3) (nat_refl k.w4))))

and_false : (a c : Bool) → (a && false && c) ≡ false
and_false true c = refl
and_false false c = refl

and_true : (a b c : Bool) → (a && b && c) ≡ true → (a ≡ true) × (b ≡ true) × (c ≡ true)
and_true true true c e = (refl, refl, e)
and_true true false c e = cc
and_true false b c e = cc

not-true : (b : Bool) → not b ≡ true → b ≡ false
not-true true e = cc
not-true false e = refl

module _ {Signature PrivateKey Scalar : Type 0} (public_key : PrivateKey → CompressedPublicKey)
    (schnorr_sign : PrivateKey → HashOutput → Scalar → Signature) where
  -- The private keys of a transaction, with a nonce for each signature.
  pub record Signers : Type 0 where
    pub spend_sk : PrivateKey
    pub consume_sk : PrivateKey
    pub approval_sk : PrivateKey
    pub spend_k : Scalar
    pub consume_k : Scalar
    pub approval_k : Scalar

  -- A client signs as `required_signatures` says.
  abbrev pub sign_required : Signers → BuiltSpendTx Signature → SignResult (BuiltSpendTx Signature)
  sign_required s t =
      let required = required_signatures t in
      do
        t1 ←
            (if required.spend
              then spend_sign public_key schnorr_sign s.spend_sk s.spend_k t
              else ok t)
        t2 ←
            (if required.consume
              then consume_sign public_key schnorr_sign s.consume_sk s.consume_k t1
              else ok t1)
        approval_sign public_key schnorr_sign s.approval_sk s.approval_k t2

  -- The account's keys are those of the signers, where they are needed.
  pub record HasKeys (s : Signers) (t : BuiltSpendTx Signature) : Type 0 where
    pub spend : is_empty t.onotes ≡ false → t.accin.spend_pk ≡ some (public_key s.spend_sk)
    pub consume :
        t.accin.consume_auth.config ≡ true
        → t.accin.consume_auth.pk ≡ some (public_key s.consume_sk)

  abbrev pub spend_signed : Signers → BuiltSpendTx Signature → BuiltSpendTx Signature
  spend_signed s t = record t { spend_sig = some (schnorr_sign s.spend_sk t.tx_hash s.spend_k) }

  abbrev pub consume_signed : Signers → BuiltSpendTx Signature → BuiltSpendTx Signature
  consume_signed s t = record t {
    consume_sig = some (schnorr_sign s.consume_sk t.tx_hash s.consume_k);
  }

  abbrev pub approved : Signers → BuiltSpendTx Signature → BuiltSpendTx Signature
  approved s t = record t {
    approval_sig = some (schnorr_sign s.approval_sk t.tx_hash s.approval_k);
  }

  spend_sign-HasKeys :
      (s : Signers) (t : BuiltSpendTx Signature)
      → HasKeys s t
      → is_empty t.onotes ≡ false
      → spend_sign public_key schnorr_sign s.spend_sk s.spend_k t ≡ ok (spend_signed s t)
  unfolding spend_sign
  spend_sign-HasKeys s t keys outputs =
      rw outputs (rw (keys.spend outputs) (rw (same_key_refl (public_key s.spend_sk)) refl))

  consume_sign-HasKeys :
      (s : Signers) (t : BuiltSpendTx Signature)
      → HasKeys s t
      → is_empty t.inotes ≡ false
      → is_empty t.onotes ≡ true
      → t.accin.consume_auth.config ≡ true
      → consume_sign public_key schnorr_sign s.consume_sk s.consume_k t ≡ ok (consume_signed s t)
  unfolding consume_sign
  consume_sign-HasKeys s t keys inputs no_outputs own = rw inputs (
      rw no_outputs
        (rw own (rw (keys.consume own) (rw (same_key_refl (public_key s.consume_sk)) refl))))

  -- What the flow gives, by the two tests.
  pub signed_outputs :
      (s : Signers) (t : BuiltSpendTx Signature)
      → HasKeys s t
      → is_empty t.onotes ≡ false
      → ((required_signatures t).spend ≡ true)
        × ((required_signatures t).consume ≡ false)
        × (sign_required s t ≡ ok (approved s (spend_signed s t)))
  unfolding required_signatures approval_sign
  signed_outputs s t keys outputs =
      let spends : not (is_empty t.onotes) ≡ true = rw outputs refl in
      let no_consume : (not (is_empty t.inotes) && is_empty t.onotes && t.accin.consume_auth.config)
          ≡ false =
        ap (λ e. not (is_empty t.inotes) && e && t.accin.consume_auth.config) outputs
        ∙ and_false (not (is_empty t.inotes)) t.accin.consume_auth.config in
      (
        spends,
        no_consume,
        rw spends (rw no_consume (rw (spend_sign-HasKeys s t keys outputs) refl)),
      )

  pub signed_inputs :
      (s : Signers) (t : BuiltSpendTx Signature)
      → HasKeys s t
      → (not (is_empty t.inotes) && is_empty t.onotes && t.accin.consume_auth.config) ≡ true
      → ((required_signatures t).spend ≡ false)
        × ((required_signatures t).consume ≡ true)
        × (sign_required s t ≡ ok (approved s (consume_signed s t)))
  unfolding required_signatures approval_sign
  signed_inputs s t keys consumes =
      let (inputs, no_outputs, own) =
        and_true (not (is_empty t.inotes)) (is_empty t.onotes) t.accin.consume_auth.config
          consumes in
      let no_spend : not (is_empty t.onotes) ≡ false = rw no_outputs refl in
      let some_inputs = not-true (is_empty t.inotes) inputs in
      (
        no_spend,
        consumes,
        rw no_spend
            (rw consumes (rw (consume_sign-HasKeys s t keys some_inputs no_outputs own) refl)),
      )

  pub signed_none :
      (s : Signers) (t : BuiltSpendTx Signature)
      → is_empty t.onotes ≡ true
      → (not (is_empty t.inotes) && is_empty t.onotes && t.accin.consume_auth.config) ≡ false
      → ((required_signatures t).spend ≡ false)
        × ((required_signatures t).consume ≡ false)
        × (sign_required s t ≡ ok (approved s t))
  unfolding required_signatures approval_sign
  signed_none s t no_outputs no_consume =
      let no_spend : not (is_empty t.onotes) ≡ false = rw no_outputs refl in
      (no_spend, no_consume, rw no_spend (rw no_consume refl))
