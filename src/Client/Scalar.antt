-- ===== src/Client/Scalar.antt =====
-- doxa-client/src/schnorr.rs: `Scalar`, integers modulo the order of the group.
pub mod Limbs
pub mod Modular
pub mod Montgomery
pub mod Decode
mod Tests
use doxa.Prelude.{
  ℕ, ◌+◌, ◌-◌, ◌*◌, ◌/◌, ◌%◌, ◌^◌, List, [], ◌∷◌, ◌++◌, get_or, drop, ◌==◌, if◌then◌else◌,
}

-- Five words of 64 bits, the lowest first.
abbrev pub Scalar : Type 0
Scalar = List ℕ

abbrev pub order : Scalar
order =
    0xe80fd996948bffe1 ∷ 0xe8885c39d724a09c ∷ 0x7fffffe6cfb80639 ∷ 0x7ffffff100000016
    ∷ 0x7ffffffd80000007 ∷ []

-- `N0I`
abbrev pub order_inverse : ℕ
order_inverse = 0xd78bef72057b7bdf

abbrev pub zero : Scalar
zero = 0 ∷ 0 ∷ 0 ∷ 0 ∷ 0 ∷ []

abbrev pub one : Scalar
one = 1 ∷ 0 ∷ 0 ∷ 0 ∷ 0 ∷ []

-- `R2`
abbrev pub power_640 : Scalar
power_640 =
    0xa01001dce33dc739 ∷ 0x6c3228d33f62accf ∷ 0xd1d796cc91cf8525 ∷ 0xaadfff5d1574c1d8
    ∷ 0x4aca13b28ca251f5 ∷ []

abbrev pub wrapping_sub : ℕ → ℕ → ℕ
wrapping_sub a b = (a + (2 ^ 128 - b)) % 2 ^ 128

-- The loop of `add_inner`, with the carry that it leaves.
unfoldable pub add_loop : ℕ → List ℕ → List ℕ → List ℕ × ℕ
add_loop c [] ys = ([], c)
add_loop c (x ∷ xs) [] = ([], c)
add_loop c (x ∷ xs) (y ∷ ys) =
    let z = (x + y + c) % 2 ^ 128 in
    let rest = add_loop (z / 2 ^ 64) xs ys in (z % 2 ^ 64 ∷ rest.0, rest.1)

unfoldable pub add_inner : Scalar → Scalar → Scalar
unfolding add_loop
add_inner s a = (add_loop 0 s a).0

-- The loop of `sub_inner`, with the borrow that it leaves.
unfoldable pub sub_loop : ℕ → List ℕ → List ℕ → List ℕ × ℕ
sub_loop c [] ys = ([], c)
sub_loop c (x ∷ xs) [] = ([], c)
sub_loop c (x ∷ xs) (y ∷ ys) =
    let z = wrapping_sub (wrapping_sub x y) c in
    let rest = sub_loop ((z / 2 ^ 64) % 2) xs ys in (z % 2 ^ 64 ∷ rest.0, rest.1)

unfoldable pub sub_inner : Scalar → Scalar → Scalar × ℕ
unfolding sub_loop
sub_inner s a = sub_loop 0 s a

unfoldable pub add_mod : Scalar → Scalar → Scalar
unfolding add_inner sub_inner
add_mod s a = let t = add_inner s a in let (w, cc) = sub_inner t order in if cc == 0 then w else t

unfoldable pub sub_mod : Scalar → Scalar → Scalar
unfolding add_inner sub_inner
sub_mod s a = let (t, cc) = sub_inner s a in if cc == 0 then t else add_inner t order

unfoldable pub neg_mod : Scalar → Scalar
unfolding sub_mod
neg_mod s = sub_mod zero s

-- The inner loop of `montymul`: the low words of its sums, and the two carries.
unfoldable pub monty_row : ℕ → ℕ → ℕ → ℕ → List ℕ → List ℕ → List ℕ → List ℕ × (ℕ × ℕ)
monty_row m f cc1 cc2 [] rs ns = ([], (cc1, cc2))
monty_row m f cc1 cc2 (s ∷ ss) [] ns = ([], (cc1, cc2))
monty_row m f cc1 cc2 (s ∷ ss) (r ∷ rs) [] = ([], (cc1, cc2))
monty_row m f cc1 cc2 (s ∷ ss) (r ∷ rs) (n ∷ ns) =
    let z1 = (s * m + r + cc1) % 2 ^ 128 in
    let z2 = (f * n + z1 % 2 ^ 64 + cc2) % 2 ^ 128 in
    let rest = monty_row m f (z1 / 2 ^ 64) (z2 / 2 ^ 64) ss rs ns in (z2 % 2 ^ 64 ∷ rest.0, rest.1)

-- One round: the lowest word of the sums is dropped.
unfoldable pub monty_round : Scalar → ℕ → Scalar → Scalar
unfolding monty_row
monty_round s m r =
    let f = ((get_or s 0 0 * m + get_or r 0 0) * order_inverse) % 2 ^ 64 in
    let (words, (cc1, cc2)) = monty_row m f 0 0 s r order in
    drop 1 words ++ (cc1 + cc2) % 2 ^ 64 ∷ []

unfoldable pub monty_rounds : Scalar → List ℕ → Scalar → Scalar
unfolding monty_round
monty_rounds s [] r = r
monty_rounds s (m ∷ ms) r = monty_rounds s ms (monty_round s m r)

unfoldable pub montymul : Scalar → Scalar → Scalar
unfolding monty_rounds sub_inner
montymul s rhs =
    let r = monty_rounds s rhs zero in let (r2, cc) = sub_inner r order in if cc == 0 then r2 else r

unfoldable pub mul_mod : Scalar → Scalar → Scalar
unfolding montymul
mul_mod s rhs = montymul (montymul s power_640) rhs
