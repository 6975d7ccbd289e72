-- ===== src/Client/Schnorr/Tests.antt =====
-- Signatures over a small field: the curve's constants, read modulo 71 with 8 for the generator of
-- the extension, give a curve over that field whose point has 67 multiples.
use doxa.Prelude.{
  ℕ, ◌+◌, ◌-◌, ◌*◌, ◌%◌, ◌^◌, ◌≡◌, refl, true, false, List, [], ◌∷◌, none, some, ◌==◌, arith,
  if◌then◌else◌, ok, ◌>>=◌,
}
use doxa.Client.Account.{CompressedPublicKey}
use doxa.Client.Scalar.{Scalar}
use doxa.Client.Scalar.Modular.{IsArray, IsScalar}
use doxa.Client.Curve.{QuinticField, PointEw, generator, scalar_mul, encode}
use doxa.Client.Schnorr.{schnorr_challenge, public_key, schnorr_sign, schnorr_verify}
use doxa.Client.Schnorr.Signed.{Signed, schnorr_sign-Signed}

abbrev small_field : QuinticField ℕ
small_field = record {
  add = λ a b. (a + b) % 71;
  sub = λ a b. (a + (71 - b)) % 71;
  mul = λ a b. (a * b) % 71;
  try_inverse = λ a. if a == 0 then none else some (a ^ 69 % 71);
  eq = λ a b. a == b;
  from_array = λ k. (k.w0 + 8 * k.w1 + 64 * k.w2 + 512 * k.w3 + 4096 * k.w4) % 71;
  to_array = λ a. record { w0 = a; w1 = 0; w2 = 0; w3 = 0; w4 = 0 };
}

abbrev toy_five : List ℕ → List ℕ
toy_five [] = 3 ∷ 0 ∷ 0 ∷ 0 ∷ 0 ∷ []
toy_five (x ∷ xs) = (x % 3 + 1) ∷ 0 ∷ 0 ∷ 0 ∷ 0 ∷ []

toy_five-IsArray : (xs : List ℕ) → IsArray (toy_five xs)
toy_five-IsArray [] = record {
  size = refl;
  words = (omega arith, (omega arith, (omega arith, (omega arith, (omega arith, tt)))));
}
toy_five-IsArray (x ∷ xs) = record {
  size = refl;
  words = (omega arith, (omega arith, (omega arith, (omega arith, (omega arith, tt)))));
}

abbrev scalar : ℕ → Scalar
scalar n = n ∷ 0 ∷ 0 ∷ 0 ∷ 0 ∷ []

scalar-IsScalar : (n : ℕ) → n % 100 ≡ n → IsScalar (scalar n)
scalar-IsScalar n l = record {
  array = record {
    size = refl;
    words = (omega arith, (omega arith, (omega arith, (omega arith, (omega arith, tt)))));
  };
  reduced = omega arith;
}

abbrev point : ℕ → ℕ → PointEw ℕ
point x y = record { x = x; y = y; at_inf = false }

abbrev compressed : ℕ → CompressedPublicKey
compressed w = record { w0 = w; w1 = 0; w2 = 0; w3 = 0; w4 = 0 }

key_is : public_key small_field toy_five (scalar 20) ≡ ok (point 44 53)
unfolding public_key
key_is = refl

nonce_is : scalar_mul small_field (generator small_field) (scalar 65) ≡ ok (point 46 51)
unfolding scalar_mul generator
nonce_is = refl

schnorr_sign-Signed_example :
    Signed small_field toy_five
      (scalar 20)
      (scalar 65)
      (schnorr_challenge small_field toy_five (compressed 28) (compressed 57) (1 ∷ 2 ∷ []))
      (point 44 53)
      (point 46 51)
      (1 ∷ 2 ∷ [])
unfolding encode
schnorr_sign-Signed_example =
    schnorr_sign-Signed small_field toy_five toy_five-IsArray (scalar 20) (scalar 65) (1 ∷ 2 ∷ [])
      (point 44 53) (point 46 51) (compressed 57) (compressed 28) (scalar-IsScalar 20 refl)
      (scalar-IsScalar 65 refl) key_is nonce_is refl refl

-- A signature whose sum does not wrap is accepted, and for another public key it is refused.
accepted :
    (schnorr_sign small_field toy_five (scalar 20) (1 ∷ 2 ∷ []) (scalar 65) >>= λ sig.
    schnorr_verify small_field toy_five (point 44 53) (1 ∷ 2 ∷ []) sig)
    ≡ ok true
unfolding schnorr_sign schnorr_verify
accepted = refl

other_key :
    (schnorr_sign small_field toy_five (scalar 20) (1 ∷ 2 ∷ []) (scalar 65) >>= λ sig.
    schnorr_verify small_field toy_five (point 64 24) (1 ∷ 2 ∷ []) sig)
    ≡ ok false
unfolding schnorr_sign schnorr_verify
other_key = refl
