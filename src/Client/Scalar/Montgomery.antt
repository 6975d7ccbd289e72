-- ===== src/Client/Scalar/Montgomery.antt =====
-- `montymul` and `mul_mod`: products modulo the order.
use doxa.Prelude.{
  ℕ, suc, ◌+◌, ◌*◌, ◌/◌, ◌%◌, ◌^◌, ◌<◌, ◌≤◌, ◌≡◌, refl, ap, sym, ◌∙◌, List, [], ◌∷◌, ◌++◌, arith,
  length, All, All-append, length-append, drop,
}
use doxa.Client.Scalar.{
  Scalar, order, order_inverse, zero, power_640, monty_row, monty_round, monty_rounds, montymul,
  mul_mod,
}
use doxa.Client.Scalar.Limbs.{value, span, IsWord}
use doxa.Client.Scalar.Modular.{
  IsArray, IsScalar, span-IsArray, order-IsArray, reduce_once, zero-IsScalar, IsResult,
}

no_wrap : (a m r c : ℕ) → IsWord a → IsWord m → IsWord r → IsWord c → a * m + r + c < 2 ^ 128
no_wrap a m r c p q s t = grind arith

-- What the inner loop gives: the words and the carries hold the sum of two products.
record IsRow (m f cc1 cc2 : ℕ) (ss rs ns : List ℕ) (r : List ℕ × (ℕ × ℕ)) : Type 0 where
  words : All IsWord r.0
  size : length r.0 ≡ length ss
  carry1 : IsWord r.1.0
  carry2 : IsWord r.1.1
  sum : value r.0 + span ss * (r.1.0 + r.1.1) ≡ m * value ss + value rs + f * value ns + cc1 + cc2

monty_row-IsRow :
    (m f cc1 cc2 : ℕ) (ss rs ns : List ℕ)
    → IsWord m
    → IsWord f
    → IsWord cc1
    → IsWord cc2
    → All IsWord ss
    → All IsWord rs
    → All IsWord ns
    → length ss ≡ length rs
    → length ss ≡ length ns
    → IsRow m f cc1 cc2 ss rs ns (monty_row m f cc1 cc2 ss rs ns)
unfolding monty_row
monty_row-IsRow m f cc1 cc2 [] [] [] p q s t a b c l l' = record {
  words = tt;
  size = refl;
  carry1 = s;
  carry2 = t;
  sum = omega arith;
}
monty_row-IsRow m f cc1 cc2 [] (r ∷ rs) ns p q s t a b c l l' = absurd (omega arith)
monty_row-IsRow m f cc1 cc2 [] [] (n ∷ ns) p q s t a b c l l' = absurd (omega arith)
monty_row-IsRow m f cc1 cc2 (x ∷ ss) [] ns p q s t a b c l l' = absurd (omega arith)
monty_row-IsRow m f cc1 cc2 (x ∷ ss) (r ∷ rs) [] p q s t a b c l l' = absurd (omega arith)
monty_row-IsRow m f cc1 cc2 (x ∷ ss) (r ∷ rs) (n ∷ ns) p q s t a b c l l' =
    let z1 = (x * m + r + cc1) % 2 ^ 128 in
    let z2 = (f * n + z1 % 2 ^ 64 + cc2) % 2 ^ 128 in
    let fits1 = no_wrap x m r cc1 a.0 p b.0 s in
    let fits2 = no_wrap f n (z1 % 2 ^ 64) cc2 q c.0 (omega arith) t in
    let rest =
      monty_row-IsRow m f (z1 / 2 ^ 64) (z2 / 2 ^ 64) ss rs ns p q (omega arith) (omega arith) a.1
        b.1 c.1 (omega arith) (omega arith) in
    record {
      words = (omega arith, rest.words);
      size = ap suc rest.size;
      carry1 = rest.carry1;
      carry2 = rest.carry2;
      sum = omega (arith, rest.sum, fits1, fits2);
    }

value-snoc : (xs : List ℕ) (y : ℕ) → value (xs ++ y ∷ []) ≡ value xs + span xs * y
value-snoc [] y = omega arith
value-snoc (x ∷ xs) y = let ih = value-snoc xs y in omega (arith, ih)

product_bound : (m a : ℕ) → IsWord m → m * a + a ≤ 2 ^ 64 * a
product_bound m a l = grind arith

-- The factor of a round makes the lowest word of its sums vanish.
lowest_zero :
    (t f z : ℕ)
    → f ≡ (t * order_inverse) % 2 ^ 64
    → z < 2 ^ 64
    → (a b : ℕ) → z + 2 ^ 64 * a ≡ t + f * 16721823182210465761 + 2 ^ 64 * b
    → z ≡ 0
lowest_zero t f z is l a b e = omega (arith, is, e)

-- What a round gives, with the multiple of the order that it has added.
record IsRound (s : Scalar) (m : ℕ) (r r' : Scalar) : Type 0 where
  array : IsArray r'
  bound : value r' < value s + value order
  factor : ℕ
  product : 2 ^ 64 * value r' ≡ m * value s + value r + factor * value order

row-IsRound :
    (s0 : ℕ) (ss : List ℕ) (m r0 : ℕ) (rs : List ℕ) (f : ℕ) (zs : List ℕ) (cc1 cc2 : ℕ)
    → IsScalar (s0 ∷ ss)
    → IsWord m
    → IsArray (r0 ∷ rs)
    → value (r0 ∷ rs) < value (s0 ∷ ss) + value order
    → f ≡ ((s0 * m + r0) * order_inverse) % 2 ^ 64
    → IsRow m f 0 0 (s0 ∷ ss) (r0 ∷ rs) order (zs, (cc1, cc2))
    → IsRound (s0 ∷ ss) m (r0 ∷ rs) (drop 1 zs ++ (cc1 + cc2) % 2 ^ 64 ∷ [])
row-IsRound s0 ss m r0 rs f [] cc1 cc2 p w q l is row = absurd (omega (arith, row.size))
row-IsRound s0 ss m r0 rs f (z ∷ zs) cc1 cc2 p w q l is row =
    let size : length zs ≡ 4 = omega (arith, row.size, p.array.size) in
    let width : 2 ^ 64 * span ss ≡ 2 ^ 320 = span-IsArray (s0 ∷ ss) p.array in
    let width' : 2 ^ 64 * span zs ≡ 2 ^ 320 =
      span-IsArray (z ∷ zs) (record { size = ap suc size; words = row.words }) in
    let at : span ss ≡ 2 ^ 256 = omega arith in
    let at' : span zs ≡ 2 ^ 256 = omega arith in
    let vanishes =
      lowest_zero (s0 * m + r0) f z is row.words.0 (value zs + span ss * (cc1 + cc2))
        (m * value ss + value rs + f * value (drop 1 order)) (omega (arith, row.sum)) in
    let total : 2 ^ 64 * (value zs + span ss * (cc1 + cc2))
        ≡ m * value (s0 ∷ ss) + value (r0 ∷ rs) + f * value order =
      omega (arith, row.sum, vanishes) in
    let total' : 2 ^ 64 * (value zs + 2 ^ 256 * (cc1 + cc2))
        ≡ m * value (s0 ∷ ss) + value (r0 ∷ rs) + f * value order =
      ap (λ n. 2 ^ 64 * (value zs + n * (cc1 + cc2))) (sym at) ∙ total in
    let limit = product_bound m (value (s0 ∷ ss)) w in
    let word : f < 2 ^ 64 = omega (arith, is) in
    let top : cc1 + cc2 < 2 ^ 64 = omega (arith, total', limit, l, word, p.reduced) in
    let r' = zs ++ (cc1 + cc2) % 2 ^ 64 ∷ [] in
    let same : value r' ≡ value zs + 2 ^ 256 * (cc1 + cc2) =
      value-snoc zs ((cc1 + cc2) % 2 ^ 64)
      ∙ ap (λ n. value zs + n * ((cc1 + cc2) % 2 ^ 64)) at'
      ∙ omega (arith, top) in
    record {
      array = record {
        size = length-append zs ((cc1 + cc2) % 2 ^ 64 ∷ []) ∙ omega arith;
        words = All-append IsWord zs ((cc1 + cc2) % 2 ^ 64 ∷ []) row.words.1 (omega arith, tt);
      };
      bound = omega (arith, same, total', limit, l, word, p.reduced);
      factor = f;
      product = ap (λ n. 2 ^ 64 * n) same ∙ total';
    }

monty_round-IsRound :
    (s : Scalar) (m : ℕ) (r : Scalar)
    → IsScalar s
    → IsWord m
    → IsArray r
    → value r < value s + value order
    → IsRound s m r (monty_round s m r)
unfolding monty_round
monty_round-IsRound [] m r p w q l = absurd (omega (arith, p.array.size))
monty_round-IsRound (s0 ∷ ss) m [] p w q l = absurd (omega (arith, q.size))
monty_round-IsRound (s0 ∷ ss) m (r0 ∷ rs) p w q l =
    let f = ((s0 * m + r0) * order_inverse) % 2 ^ 64 in
    let s = s0 ∷ ss in
    let r = r0 ∷ rs in
    let done = monty_row m f 0 0 s r order in
    row-IsRound s0 ss m r0 rs f done.0 done.1.0 done.1.1 p w q l refl (
      monty_row-IsRow m f 0 0 s r order w (omega arith) (omega arith) (omega arith) p.array.words
        q.words order-IsArray.words (p.array.size ∙ sym q.size) p.array.size)

-- What the rounds give.
record IsRounds (s : Scalar) (ms : List ℕ) (r r' : Scalar) : Type 0 where
  array : IsArray r'
  bound : value r' < value s + value order
  factor : ℕ
  product : span ms * value r' ≡ value s * value ms + value r + factor * value order

monty_rounds-IsRounds :
    (s : Scalar) (ms : List ℕ) (r : Scalar)
    → IsScalar s
    → All IsWord ms
    → IsArray r
    → value r < value s + value order
    → IsRounds s ms r (monty_rounds s ms r)
unfolding monty_rounds
monty_rounds-IsRounds s [] r p a q l = record {
  array = q;
  bound = l;
  factor = 0;
  product = omega arith;
}
monty_rounds-IsRounds s (m ∷ ms) r p a q l =
    let first = monty_round-IsRound s m r p a.0 q l in
    let rest = monty_rounds-IsRounds s ms (monty_round s m r) p a.1 first.array first.bound in
    record {
      array = rest.array;
      bound = rest.bound;
      factor = first.factor + 2 ^ 64 * rest.factor;
      product = omega (arith, first.product, rest.product);
    }

-- The result is the product over `2 ^ 320`, up to multiples of the order.
pub record IsMontgomery (a b : ℕ) (r : Scalar) : Type 0 where
  pub scalar : IsScalar r
  pub over : ℕ
  pub under : ℕ
  pub product : 2 ^ 320 * value r + over * value order ≡ a * b + under * value order

pub montymul-IsMontgomery :
    (s rhs : Scalar)
    → IsScalar s
    → IsArray rhs
    → IsMontgomery (value s) (value rhs) (montymul s rhs)
unfolding montymul
montymul-IsMontgomery s rhs p q =
    let rounds = monty_rounds-IsRounds s rhs zero p q.words zero-IsScalar.array (omega arith) in
    let r = monty_rounds s rhs zero in
    let reduced = reduce_once r rounds.array (omega (arith, rounds.bound, p.reduced)) in
    let whole : 2 ^ 320 * value r ≡ value s * value rhs + value zero + rounds.factor * value order =
      ap (λ n. n * value r) (sym (span-IsArray rhs q)) ∙ rounds.product in
    record {
      scalar = reduced.scalar;
      over = 2 ^ 320 * (value r / value order);
      under = rounds.factor;
      product = omega (arith, whole, reduced.value_is);
    }

power_640-IsArray : IsArray power_640
power_640-IsArray = record {
  size = refl;
  words = (omega arith, (omega arith, (omega arith, (omega arith, (omega arith, tt)))));
}

cancelled :
    (a b u w o1 u1 o2 u2 : ℕ)
    → 2 ^ 320 * u + o1 * value order ≡ a * value power_640 + u1 * value order
    → 2 ^ 320 * w + o2 * value order ≡ u * b + u2 * value order
    → w < value order
    → w ≡ (a * b) % value order
cancelled a b u w o1 u1 o2 u2 e1 e2 l =
    let e1' : (2 ^ 320 * u + o1 * value order) * b ≡ (a * value power_640 + u1 * value order) * b =
      ap (λ n. n * b) e1 in
    omega (arith, e1', e2)

-- The product of a scalar and any five words is a scalar, and stands for the product modulo the
-- order: in each round of `montymul` the carries stay within a word and the dropped word is zero, and
-- the two powers of `2 ^ 320` that `mul_mod` multiplies and divides by cancel.
pub mul_mod-IsResult :
    (s rhs : Scalar) → IsScalar s → IsArray rhs → IsResult (value s * value rhs) (mul_mod s rhs)
unfolding mul_mod
mul_mod-IsResult s rhs p q =
    let first = montymul-IsMontgomery s power_640 p power_640-IsArray in
    let u = montymul s power_640 in
    let second = montymul-IsMontgomery u rhs first.scalar q in
    record {
      scalar = second.scalar;
      value_is =
          cancelled (value s) (value rhs) (value u) (value (montymul u rhs)) first.over first.under
            second.over second.under first.product second.product second.scalar.reduced;
    }
