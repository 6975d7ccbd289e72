-- ===== src/Client/Schnorr.antt =====
-- doxa-client/src/schnorr.rs: Schnorr signatures.
pub mod Signed
mod Tests
use doxa.Prelude.{ℕ, Bool, List, ◌++◌, ok, ◌>>=◌}
use doxa.Client.Account.{CompressedPublicKey, key_words}
use doxa.Client.Spend.Sign.{same_key}
use doxa.Client.Scalar.{Scalar, add_mod, neg_mod, mul_mod}
use doxa.Client.Scalar.Decode.{from_hash}
use doxa.Client.Curve.{QuinticField, PointEw, PointResult, generator, scalar_mul, add, encode}

pub record Signature (X : Type 0) : Type 0 where
  pub r : PointEw X
  pub s : Scalar

-- `hash_n_to_m_no_pad` is plonky2's sponge with five elements of output.
module _ {X : Type 0} (field : QuinticField X) (hash_n_to_m_no_pad : List ℕ → List ℕ) where
  unfoldable pub poseidon_hash_to_scalar : List ℕ → Scalar
  unfolding from_hash
  poseidon_hash_to_scalar hash_input = from_hash (hash_n_to_m_no_pad hash_input)

  unfoldable pub schnorr_challenge : CompressedPublicKey → CompressedPublicKey → List ℕ → Scalar
  unfolding poseidon_hash_to_scalar
  schnorr_challenge cr cq m = poseidon_hash_to_scalar (key_words cr ++ (key_words cq ++ m))

  -- A private key is a scalar.
  unfoldable pub public_key : Scalar → PointResult (PointEw X)
  unfolding generator scalar_mul
  public_key privkey = scalar_mul field (generator field) privkey

  unfoldable pub schnorr_sign : Scalar → List ℕ → Scalar → PointResult (Signature X)
  unfolding schnorr_challenge public_key generator scalar_mul encode add_mod mul_mod neg_mod
  schnorr_sign privkey message k = do
    r ← scalar_mul field (generator field) k
    r_encoded ← encode field r
    q ← public_key privkey
    q_encoded ← encode field q
    let e = schnorr_challenge r_encoded q_encoded message
    ok (record { r = r; s = add_mod k (mul_mod privkey (neg_mod e)) })

  unfoldable pub schnorr_verify : PointEw X → List ℕ → Signature X → PointResult Bool
  unfolding schnorr_challenge generator scalar_mul add encode
  schnorr_verify pubkey message sig = do
    r_encoded ← encode field sig.r
    q_encoded ← encode field pubkey
    let e = schnorr_challenge r_encoded q_encoded message
    sg ← scalar_mul field (generator field) sig.s
    eq ← scalar_mul field pubkey e
    result ← add field sg eq
    left ← encode field result
    right ← encode field sig.r
    ok (same_key left right)
