-- ===== src/Client/Scalar/Limbs.antt =====
-- The number that words stand for, and the loops of sums and differences.
use doxa.Prelude.{
  ℕ, suc, ◌+◌, ◌*◌, ◌/◌, ◌%◌, ◌^◌, ◌<◌, ◌≤◌, ◌≡◌, refl, ap, List, [], ◌∷◌, arith, length, All,
}
use doxa.Client.Scalar.{add_loop, sub_loop, wrapping_sub}

abbrev pub value : List ℕ → ℕ
value [] = 0
value (x ∷ xs) = x + 2 ^ 64 * value xs

-- `2 ^ 64` to the number of words.
abbrev pub span : List ℕ → ℕ
span [] = 1
span (x ∷ xs) = 2 ^ 64 * span xs

abbrev pub IsWord : ℕ → Type 0
IsWord x = x < 2 ^ 64

pub value-span : (xs : List ℕ) → All IsWord xs → value xs < span xs
value-span [] a = omega arith
value-span (x ∷ xs) a = let ih = value-span xs a.1 in omega (arith, a.0)

-- What the loop of `add_inner` gives.
pub record IsSum (c : ℕ) (xs ys : List ℕ) (r : List ℕ × ℕ) : Type 0 where
  pub words : All IsWord r.0
  pub size : length r.0 ≡ length xs
  pub carry : r.1 ≤ 1
  pub sum : value r.0 + span xs * r.1 ≡ value xs + value ys + c

pub add_loop-IsSum :
    (c : ℕ) (xs ys : List ℕ)
    → c ≤ 1
    → All IsWord xs
    → All IsWord ys
    → length xs ≡ length ys
    → IsSum c xs ys (add_loop c xs ys)
unfolding add_loop
add_loop-IsSum c [] [] l a b s = record { words = tt; size = refl; carry = l; sum = omega arith }
add_loop-IsSum c [] (y ∷ ys) l a b s = absurd (omega arith)
add_loop-IsSum c (x ∷ xs) [] l a b s = absurd (omega arith)
add_loop-IsSum c (x ∷ xs) (y ∷ ys) l a b s =
    let z = (x + y + c) % 2 ^ 128 in
    let below : x < 2 ^ 64 = a.0 in
    let below' : y < 2 ^ 64 = b.0 in
    let rest = add_loop-IsSum (z / 2 ^ 64) xs ys (omega arith) a.1 b.1 (omega arith) in
    record {
      words = (omega arith, rest.words);
      size = ap suc rest.size;
      carry = rest.carry;
      sum = omega (arith, rest.sum);
    }

-- What the loop of `sub_inner` gives.
pub record IsDifference (c : ℕ) (xs ys : List ℕ) (r : List ℕ × ℕ) : Type 0 where
  pub words : All IsWord r.0
  pub size : length r.0 ≡ length xs
  pub borrow : r.1 ≤ 1
  pub difference : value r.0 + value ys + c ≡ value xs + span xs * r.1

pub sub_loop-IsDifference :
    (c : ℕ) (xs ys : List ℕ)
    → c ≤ 1
    → All IsWord xs
    → All IsWord ys
    → length xs ≡ length ys
    → IsDifference c xs ys (sub_loop c xs ys)
unfolding sub_loop
sub_loop-IsDifference c [] [] l a b s = record {
  words = tt;
  size = refl;
  borrow = l;
  difference = omega arith;
}
sub_loop-IsDifference c [] (y ∷ ys) l a b s = absurd (omega arith)
sub_loop-IsDifference c (x ∷ xs) [] l a b s = absurd (omega arith)
sub_loop-IsDifference c (x ∷ xs) (y ∷ ys) l a b s =
    let z = wrapping_sub (wrapping_sub x y) c in
    let below : x < 2 ^ 64 = a.0 in
    let below' : y < 2 ^ 64 = b.0 in
    let rest = sub_loop-IsDifference ((z / 2 ^ 64) % 2) xs ys (omega arith) a.1 b.1 (omega arith) in
    record {
      words = (omega arith, rest.words);
      size = ap suc rest.size;
      borrow = rest.borrow;
      difference = omega (arith, rest.difference);
    }
