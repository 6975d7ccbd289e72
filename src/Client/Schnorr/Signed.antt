-- ===== src/Client/Schnorr/Signed.antt =====
-- What a signature is, and what `schnorr_verify` compares for it.
use doxa.Prelude.{
  ℕ, ◌+◌, ◌-◌, ◌*◌, ◌/◌, ◌%◌, ◌^◌, ◌<◌, ◌≡◌, refl, ap, ap₂, sym, ◌∙◌, List, [], ◌∷◌, ◌++◌, arith,
  length, All, Bool, ok, ◌>>=◌,
}
use doxa.Client.Account.{CompressedPublicKey, key_words}
use doxa.Client.Spend.Sign.{same_key}
use doxa.Client.Scalar.{Scalar, order, add_mod, neg_mod, mul_mod}
use doxa.Client.Scalar.Limbs.{value, IsWord}
use doxa.Client.Scalar.Modular.{IsArray, IsScalar, add_mod-IsResult, add_mod-sub_mod}
use doxa.Client.Scalar.Montgomery.{mul_mod-IsResult}
use doxa.Client.Scalar.Decode.Reduced.{from_hash-IsScalar}
use doxa.Client.Curve.{QuinticField, PointEw, PointResult, generator, scalar_mul, add, encode}
use doxa.Client.Schnorr.{
  poseidon_hash_to_scalar, schnorr_challenge, public_key, schnorr_sign, schnorr_verify,
}

-- Words of the same number are the same.
same_words :
    (xs ys : List ℕ)
    → All IsWord xs
    → All IsWord ys
    → length xs ≡ length ys
    → value xs ≡ value ys
    → xs ≡ ys
same_words [] [] a b l e = refl
same_words [] (y ∷ ys) a b l e = absurd (omega arith)
same_words (x ∷ xs) [] a b l e = absurd (omega arith)
same_words (x ∷ xs) (y ∷ ys) a b l e =
    let below : x < 2 ^ 64 = a.0 in
    let below' : y < 2 ^ 64 = b.0 in
    let head : x ≡ y = omega arith in
    ap₂ ◌∷◌ head (same_words xs ys a.1 b.1 (omega arith) (omega arith))

same_scalar : (a b : Scalar) → IsScalar a → IsScalar b → value a ≡ value b → a ≡ b
same_scalar a b p q e =
    same_words a b p.array.words q.array.words (p.array.size ∙ sym q.array.size) e

-- The product with a negative cancels the product.
negative_cancels :
    (k d e n p q : ℕ)
    → k < value order
    → e < value order
    → n ≡ (value order - e) % value order
    → p ≡ (d * n) % value order
    → q ≡ (d * e) % value order
    → ((k + p) % value order + q) % value order ≡ k
negative_cancels k d e n p q l m nis pis qis =
    let c = (n + e) / value order in
    let whole : n + e ≡ value order * c = omega (arith, nis) in
    let product : d * (n + e) ≡ d * (value order * c) = ap (λ x. d * x) whole in
    omega (arith, pis, qis, product)

signed_scalar :
    (k d e : Scalar)
    → IsScalar k
    → IsScalar d
    → IsScalar e
    → IsScalar (add_mod k (mul_mod d (neg_mod e)))
      × (add_mod (add_mod k (mul_mod d (neg_mod e))) (mul_mod d e) ≡ k)
signed_scalar k d e pk pd pe =
    let negative = (add_mod-sub_mod d e pd pe).2 in
    let n = neg_mod e in
    let first = mul_mod-IsResult d n pd negative.scalar.array in
    let sum = add_mod-IsResult k (mul_mod d n) pk first.scalar in
    let second = mul_mod-IsResult d e pd pe.array in
    let whole = add_mod-IsResult (add_mod k (mul_mod d n)) (mul_mod d e) sum.scalar second.scalar in
    (
      sum.scalar,
      same_scalar _ k whole.scalar pk (
          whole.value_is
          ∙ ap (λ x. (x + value (mul_mod d e)) % value order) sum.value_is
          ∙ negative_cancels (value k) (value d) (value e) (value n) (value (mul_mod d n))
              (value (mul_mod d e)) pk.reduced pe.reduced negative.value_is first.value_is
              second.value_is),
    )

module _ {X : Type 0} (field : QuinticField X) (hash_n_to_m_no_pad : List ℕ → List ℕ) where
  challenge-IsScalar :
      ((xs : List ℕ) → IsArray (hash_n_to_m_no_pad xs))
      → (cr cq : CompressedPublicKey) (m : List ℕ)
      → IsScalar (schnorr_challenge field hash_n_to_m_no_pad cr cq m)
  unfolding schnorr_challenge poseidon_hash_to_scalar
  challenge-IsScalar sponge cr cq m =
      let words = key_words cr ++ (key_words cq ++ m) in
      (from_hash-IsScalar (hash_n_to_m_no_pad words) (sponge words)).0

  -- G * s + q * e against G * (s + d * e), by their encodings.
  pub same_points : PointEw X → Scalar → Scalar → Scalar → PointResult Bool
  same_points q d e s = do
    sg ← scalar_mul field (generator field) s
    eq ← scalar_mul field q e
    result ← add field sg eq
    whole ← scalar_mul field (generator field) (add_mod s (mul_mod d e))
    left ← encode field result
    right ← encode field whole
    ok (same_key left right)

  -- What the signature of a message by `d` with the nonce `k` is, for the challenge `e`.
  pub record Signed (d k e : Scalar) (q r : PointEw X) (message : List ℕ) : Type 0 where
    pub s : Scalar
    pub signature : schnorr_sign field hash_n_to_m_no_pad d message k ≡ ok (record { r = r; s = s })
    pub scalar : IsScalar s
    pub nonce : add_mod s (mul_mod d e) ≡ k
    pub verified :
        schnorr_verify field hash_n_to_m_no_pad q message (record { r = r; s = s })
        ≡ same_points q d e s

  -- Let the sponge give five words. For a private key `d` and a nonce `k` below the order, whose
  -- points `q` and `r` are computed and have encodings, `schnorr_sign` gives `r` and a scalar `s`
  -- below the order with s + d * e = k modulo the order, where `e` is the challenge of the encodings
  -- and the message; and `schnorr_verify`, with `q`, compares G * s + q * e with G * (s + d * e).
  pub schnorr_sign-Signed :
      ((xs : List ℕ) → IsArray (hash_n_to_m_no_pad xs))
      → (d k : Scalar) (message : List ℕ) (q r : PointEw X) (cq cr : CompressedPublicKey)
      → IsScalar d
      → IsScalar k
      → public_key field hash_n_to_m_no_pad d ≡ ok q
      → scalar_mul field (generator field) k ≡ ok r
      → encode field q ≡ ok cq
      → encode field r ≡ ok cr
      → Signed d k (schnorr_challenge field hash_n_to_m_no_pad cr cq message) q r message
  unfolding schnorr_sign schnorr_verify same_points
  schnorr_sign-Signed sponge d k message q r cq cr pd pk qis ris cqis cris =
      let e = schnorr_challenge field hash_n_to_m_no_pad cr cq message in
      let (ps, cancels) = signed_scalar k d e pk pd (challenge-IsScalar sponge cr cq message) in
      record {
        s = add_mod k (mul_mod d (neg_mod e));
        signature = signed;
        scalar = ps;
        nonce = cancels;
        verified = compared (add_mod k (mul_mod d (neg_mod e))) cancels;
      }
    where
      e : Scalar
      e = schnorr_challenge field hash_n_to_m_no_pad cr cq message

      signed :
          schnorr_sign field hash_n_to_m_no_pad d message k
          ≡ ok (record { r = r; s = add_mod k (mul_mod d (neg_mod e)) })
      signed = rw ris (rw cris (rw qis (rw cqis refl)))

      compared :
          (s : Scalar)
          → add_mod s (mul_mod d e) ≡ k
          → schnorr_verify field hash_n_to_m_no_pad q message (record { r = r; s = s })
            ≡ same_points q d e s
      compared s cancels = rw cris (rw cqis (rw cancels (rw ris (rw cris refl))))
