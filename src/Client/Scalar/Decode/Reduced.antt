-- ===== src/Client/Scalar/Decode/Reduced.antt =====
-- `decode_reduce` ends, and reduces any bytes modulo the order.
use doxa.Prelude.{
  ℕ, zero, suc, ◌+◌, ◌-◌, ◌*◌, ◌/◌, ◌%◌, ◌^◌, ◌≤◌, ◌≡◌, refl, ap, sym, subst, ◌∙◌, Bool-cases, inl,
  inr, Bool, true, List, [], ◌∷◌, arith, length, length-take, length-drop, take, drop, leb,
  if◌then◌else◌, All, ok, ◌>>=◌, unwrap, bind_ok, leb→le,
}
use doxa.Client.Scalar.{Scalar, order, add_mod, montymul}
use doxa.Client.Scalar.Limbs.{value}
use doxa.Client.Scalar.Modular.{IsArray, IsScalar, IsResult, add_mod-IsResult}
use doxa.Client.Scalar.Montgomery.{montymul-IsMontgomery}
use doxa.Client.Scalar.Decode.{power_632, decode, reduce_loop, decode_reduce, from_hash}
use doxa.Client.Scalar.Decode.Words.{number, bytes_up, IsByte, decode-IsScalar}

All-take : (n : ℕ) (xs : List ℕ) → All IsByte xs → All IsByte (take n xs)
All-take zero xs a = tt
All-take (suc n) [] a = tt
All-take (suc n) (x ∷ xs) a = (a.0, All-take n xs a.1)

All-drop : (n : ℕ) (xs : List ℕ) → All IsByte xs → All IsByte (drop n xs)
All-drop zero xs a = a
All-drop (suc n) [] a = tt
All-drop (suc n) (x ∷ xs) a = All-drop n xs a.1

drop-nil : (n : ℕ) → drop {A = ℕ} n [] ≡ []
drop-nil zero = refl
drop-nil (suc n) = refl

drop-drop : (n m : ℕ) (xs : List ℕ) → drop m (drop n xs) ≡ drop (n + m) xs
drop-drop zero m xs = ap (λ k. drop k xs) (omega arith)
drop-drop (suc n) m [] = drop-nil m ∙ sym (drop-nil (suc n + m))
drop-drop (suc n) m (x ∷ xs) =
    let sizes : suc (n + m) ≡ suc n + m = omega arith in
    drop-drop n m xs ∙ ap (λ k. drop k (x ∷ xs)) sizes

number-take :
    (n : ℕ) (xs : List ℕ)
    → n ≤ length xs
    → number xs ≡ number (take n xs) + bytes_up n * number (drop n xs)
number-take zero xs l = omega arith
number-take (suc n) [] l = absurd (omega arith)
number-take (suc n) (x ∷ xs) l = let ih = number-take n xs (omega arith) in omega (arith, ih)

power_632-IsArray : IsArray power_632
power_632-IsArray = record {
  size = refl;
  words = (omega arith, (omega arith, (omega arith, (omega arith, (omega arith, tt)))));
}

-- A step of the loop: the new chunk below what was there.
step :
    (acc b : Scalar) (high : ℕ)
    → IsScalar acc
    → IsScalar b
    → value acc ≡ high % value order
    → IsResult (value b + 2 ^ 312 * high) (add_mod (montymul acc power_632) b)
step acc b high p q is =
    let m = montymul-IsMontgomery acc power_632 p power_632-IsArray in
    let r = add_mod-IsResult (montymul acc power_632) b m.scalar q in
    record { scalar = r.scalar; value_is = omega (arith, r.value_is, m.product, is) }

reduce_loop-IsResult :
    (fuel : ℕ) (buf : List ℕ) (j : ℕ) (acc : Scalar)
    → All IsByte buf
    → j * 39 ≤ fuel
    → j * 39 ≤ length buf
    → IsResult (number (drop (j * 39) buf)) acc
    → (r : Scalar) × (reduce_loop fuel buf (j * 39) acc ≡ ok r) × IsResult (number buf) r
unfolding reduce_loop
reduce_loop-IsResult zero buf zero acc a l l' p = (acc, refl, p)
reduce_loop-IsResult (suc fuel) buf zero acc a l l' p = (acc, refl, p)
reduce_loop-IsResult zero buf (suc j) acc a l l' p = absurd (omega arith)
reduce_loop-IsResult (suc fuel) buf (suc j) acc a l l' p =
    let k = j * 39 + 38 in
    let from : suc j * 39 ≡ suc k = omega arith in
    let to : suc k - 39 ≡ j * 39 = omega arith in
    let chunk = take 39 (drop (j * 39) buf) in
    let left = length-drop (j * 39) buf in
    let size = length-take 39 (drop (j * 39) buf) in
    let (b, decoded, scalar, is) =
      decode-IsScalar chunk (omega (arith, size))
        (All-take 39 (drop (j * 39) buf) (All-drop (j * 39) buf a)) in
    let parts = number-take 39 (drop (j * 39) buf) (omega (arith, left)) in
    let above : number (drop 39 (drop (j * 39) buf)) ≡ number (drop (suc j * 39) buf) =
      ap number (drop-drop (j * 39) 39 buf ∙ ap (λ k. drop k buf) (omega arith)) in
    let high = number (drop (suc j * 39) buf) in
    let acc' = add_mod (montymul acc power_632) b in
    let next = step acc b high p.scalar scalar p.value_is in
    let whole : value b + 2 ^ 312 * high ≡ number (drop (j * 39) buf) =
      omega (arith, parts, above, is) in
    let (r, runs, result) =
      reduce_loop-IsResult fuel buf j acc' a (omega arith) (omega arith)
        (subst (λ n. IsResult n acc') whole next) in
    (
      r,
      ap (λ k. reduce_loop (suc fuel) buf k acc) from
          ∙ ap
              (λ k. unwrap (decode (take 39 (drop k buf))) >>= λ b.
                reduce_loop fuel buf k (add_mod (montymul acc power_632) b))
              to
          ∙ bind_ok _ (ap unwrap decoded)
          ∙ runs,
      result,
    )

if_true : {A : Type 0} (b : Bool) (x y : A) → b ≡ true → (if b then x else y) ≡ x
if_true b x y e = ap (λ b. if b then x else y) e

-- `decode_reduce` never panics, its loop ends with as much fuel as the index it starts from, and the
-- scalar is that of the number of the bytes, however many, modulo the order.
pub decode_reduce-IsResult :
    (buf : List ℕ)
    → All IsByte buf
    → (r : Scalar) × (decode_reduce buf ≡ ok r) × IsResult (number buf) r
unfolding decode_reduce
decode_reduce-IsResult buf a = elim (Bool-cases (leb (length buf) 39)) [
  | inl short ↦
      let (r, decoded, scalar, is) = decode-IsScalar buf (leb→le (length buf) 39 short) a in
      (
        r,
        if_true (leb (length buf) 39) _ _ short ∙ ap unwrap decoded,
        record { scalar = scalar; value_is = omega (arith, is, scalar.reduced) },
      )
  | inr long ↦
      let more : 40 ≤ length buf = ground (arith, long) in
      let j = (length buf - 1) / 39 in
      let left = length-drop (j * 39) buf in
      let (acc, decoded, scalar, is) =
        decode-IsScalar (drop (j * 39) buf) (omega (arith, left)) (All-drop (j * 39) buf a) in
      let (r, runs, result) =
        reduce_loop-IsResult (j * 39) buf j acc a (omega arith) (omega arith)
          (record { scalar = scalar; value_is = omega (arith, is, scalar.reduced) }) in
      (r, rw long (bind_ok _ (ap unwrap decoded) ∙ runs), result)
]

-- `from_hash` gives a scalar: the number of the words modulo `2 ^ 318`.
pub from_hash-IsScalar :
    (elements : Scalar)
    → IsArray elements
    → IsScalar (from_hash elements) × (value (from_hash elements) ≡ value elements % 2 ^ 318)
unfolding from_hash
from_hash-IsScalar [] a = absurd (omega (arith, a.size))
from_hash-IsScalar (e0 ∷ []) a = absurd (omega (arith, a.size))
from_hash-IsScalar (e0 ∷ e1 ∷ []) a = absurd (omega (arith, a.size))
from_hash-IsScalar (e0 ∷ e1 ∷ e2 ∷ []) a = absurd (omega (arith, a.size))
from_hash-IsScalar (e0 ∷ e1 ∷ e2 ∷ e3 ∷ []) a = absurd (omega (arith, a.size))
from_hash-IsScalar (e0 ∷ e1 ∷ e2 ∷ e3 ∷ e4 ∷ e5 ∷ es) a = absurd (omega (arith, a.size))
from_hash-IsScalar (e0 ∷ e1 ∷ e2 ∷ e3 ∷ e4 ∷ []) a =
    let (w0, (w1, (w2, (w3, (w4, end))))) = a.words in
    (
      record {
        array = record { size = refl; words = (w0, (w1, (w2, (w3, (omega arith, tt))))) };
        reduced = omega arith;
      },
      omega arith,
    )
