-- ===== src/StateSync/Contract/Bytes.antt =====
-- Numbers and their bytes.
use native.Mathlib.Nat.{pow-suc}
use doxa.Prelude.{
  ℕ, zero, suc, ◌+◌, ◌*◌, ◌/◌, ◌%◌, ◌^◌, ◌<◌, ◌≡◌, refl, ap, ◌∙◌, List, [], ◌∷◌, ◌++◌, arith,
  length, length-append, take, drop,
}
use doxa.Hasher.{HashOutput}
use doxa.StateSync.Contract.{Bytes, to_be_bytes, be_bytes_after, from_be_bytes}

module _ {A : Type 0} where
  pub take-append_exact : (n : ℕ) (xs ys : List A) → length xs ≡ n → take n (xs ++ ys) ≡ xs
  take-append_exact zero [] ys e = refl
  take-append_exact zero (x ∷ xs) ys e = absurd (omega arith)
  take-append_exact (suc n) [] ys e = absurd (omega arith)
  take-append_exact (suc n) (x ∷ xs) ys e = ap (◌∷◌ x) (take-append_exact n xs ys (omega arith))

  pub drop-append_exact : (n : ℕ) (xs ys : List A) → length xs ≡ n → drop n (xs ++ ys) ≡ ys
  drop-append_exact zero [] ys e = refl
  drop-append_exact zero (x ∷ xs) ys e = absurd (omega arith)
  drop-append_exact (suc n) [] ys e = absurd (omega arith)
  drop-append_exact (suc n) (x ∷ xs) ys e = drop-append_exact n xs ys (omega arith)

pub length-to_be_bytes : (n v : ℕ) → length (to_be_bytes n v) ≡ n
unfolding to_be_bytes
length-to_be_bytes zero v = refl
length-to_be_bytes (suc n) v =
    length-append (to_be_bytes n (v / 256)) (v % 256 ∷ [])
    ∙ omega (arith, length-to_be_bytes n (v / 256))

be_bytes_after-append :
    (high : ℕ) (xs : Bytes) (b : ℕ)
    → be_bytes_after high (xs ++ b ∷ []) ≡ be_bytes_after high xs * 256 + b
unfolding be_bytes_after
be_bytes_after-append high [] b = refl
be_bytes_after-append high (x ∷ xs) b = be_bytes_after-append (high * 256 + x) xs b

be_bytes_after-to_be_bytes : (n v : ℕ) → v < 256 ^ n → be_bytes_after 0 (to_be_bytes n v) ≡ v
unfolding to_be_bytes be_bytes_after
be_bytes_after-to_be_bytes zero v l = omega arith
be_bytes_after-to_be_bytes (suc n) v l =
    be_bytes_after-append 0 (to_be_bytes n (v / 256)) (v % 256)
    ∙ omega (arith, be_bytes_after-to_be_bytes n (v / 256) (omega (arith, l, pow-suc 256 n)))

pub from_be_bytes-to_be_bytes : (n v : ℕ) → v < 256 ^ n → from_be_bytes (to_be_bytes n v) ≡ v
unfolding from_be_bytes
from_be_bytes-to_be_bytes n v l = be_bytes_after-to_be_bytes n v l

-- The elements fit `u64`.
pub record IsU64 (h : HashOutput) : Type 0 where
  pub c0 : h.e0 < 2 ^ 64
  pub c1 : h.e1 < 2 ^ 64
  pub c2 : h.e2 < 2 ^ 64
  pub c3 : h.e3 < 2 ^ 64
