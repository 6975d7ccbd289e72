-- ===== src/Client/Scalar/Modular.antt =====
-- Sums, differences and negatives modulo the order.
use doxa.Prelude.{
  ℕ, ◌+◌, ◌-◌, ◌*◌, ◌%◌, ◌^◌, ◌<◌, ◌≤◌, ◌≡◌, refl, ap, sym, subst, ◌∙◌, Bool-cases, inl, inr, List,
  [], ◌∷◌, arith, length, All, ◌==◌, if◌then◌else◌,
}
use doxa.Client.Keys.{nat_sound}
use doxa.Client.Scalar.{
  Scalar, order, zero, add_loop, sub_loop, add_inner, sub_inner, add_mod, sub_mod, neg_mod,
}
use doxa.Client.Scalar.Limbs.{
  value, span, IsWord, value-span, add_loop-IsSum, sub_loop-IsDifference,
}

-- Five words.
pub record IsArray (s : Scalar) : Type 0 where
  pub size : length s ≡ 5
  pub words : All IsWord s

-- Five words of a number below the order.
pub record IsScalar (s : Scalar) : Type 0 where
  pub array : IsArray s
  pub reduced : value s < value order

span-length : (xs ys : List ℕ) → length xs ≡ length ys → span xs ≡ span ys
span-length [] [] e = refl
span-length [] (y ∷ ys) e = absurd (omega arith)
span-length (x ∷ xs) [] e = absurd (omega arith)
span-length (x ∷ xs) (y ∷ ys) e = ap (λ n. 2 ^ 64 * n) (span-length xs ys (omega arith))

pub span-IsArray : (s : Scalar) → IsArray s → span s ≡ 2 ^ 320
span-IsArray s a = span-length s zero a.size

pub value-IsArray : (s : Scalar) → IsArray s → value s < 2 ^ 320
value-IsArray s a = subst (λ n. value s < n) (span-IsArray s a) (value-span s a.words)

pub order-IsArray : IsArray order
order-IsArray = record {
  size = refl;
  words = (omega arith, (omega arith, (omega arith, (omega arith, (omega arith, tt)))));
}

add_inner-IsArray : (s a : Scalar) → IsArray s → IsArray a → IsArray (add_inner s a)
unfolding add_inner
add_inner-IsArray s a p q =
    let r = add_loop-IsSum 0 s a (omega arith) p.words q.words (p.size ∙ sym q.size) in
    record { size = r.size ∙ p.size; words = r.words }

-- The sum of two arrays loses its carry.
add_inner-value :
    (s a : Scalar)
    → IsArray s
    → IsArray a
    → (c : ℕ) × (c ≤ 1) × (value (add_inner s a) + 2 ^ 320 * c ≡ value s + value a)
unfolding add_inner
add_inner-value s a p q =
    let r = add_loop-IsSum 0 s a (omega arith) p.words q.words (p.size ∙ sym q.size) in
    let c = (add_loop 0 s a).1 in
    (
      c,
      r.carry,
      ap (λ n. value (add_loop 0 s a).0 + n * c) (sym (span-IsArray s p)) ∙ r.sum ∙ omega arith,
    )

-- The difference of two arrays, with its borrow.
pub record IsBorrowed (s a : Scalar) (r : Scalar × ℕ) : Type 0 where
  pub array : IsArray r.0
  pub borrow : r.1 ≤ 1
  pub difference : value r.0 + value a ≡ value s + 2 ^ 320 * r.1

pub sub_inner-IsBorrowed : (s a : Scalar) → IsArray s → IsArray a → IsBorrowed s a (sub_inner s a)
unfolding sub_inner
sub_inner-IsBorrowed s a p q =
    let r = sub_loop-IsDifference 0 s a (omega arith) p.words q.words (p.size ∙ sym q.size) in
    let c = (sub_loop 0 s a).1 in
    record {
      array = record { size = r.size ∙ p.size; words = r.words };
      borrow = r.borrow;
      difference = omega arith ∙ r.difference ∙ ap (λ n. value s + n * c) (span-IsArray s p);
    }

-- What is left after the order is taken off once, where that is possible.
pub record IsReduced (s r : Scalar) : Type 0 where
  pub scalar : IsScalar r
  pub value_is : value r ≡ value s % value order

pub reduce_once :
    (s : Scalar)
    → IsArray s
    → value s < value order + value order
    → IsReduced s (let r = sub_inner s order in if r.1 == 0 then r.0 else s)
reduce_once s a l =
    let b = sub_inner-IsBorrowed s order a order-IsArray in
    let room = value-IsArray (sub_inner s order).0 b.array in
    elim (Bool-cases ((sub_inner s order).1 == 0)) [
      | inl none_left ↦
          let no_borrow = nat_sound (sub_inner s order).1 0 none_left in
          rw none_left (record {
            scalar = record { array = b.array; reduced = omega (arith, b.difference, no_borrow) };
            value_is = omega (arith, b.difference, no_borrow);
          })
      | inr borrowed ↦
          let one_borrow : (sub_inner s order).1 ≡ 1 = ground (arith, b.borrow) in
          rw borrowed (record {
            scalar = record { array = a; reduced = omega (arith, b.difference, one_borrow, room) };
            value_is = omega (arith, b.difference, one_borrow, room);
          })
    ]

-- A scalar of a number modulo the order.
pub record IsResult (n : ℕ) (r : Scalar) : Type 0 where
  pub scalar : IsScalar r
  pub value_is : value r ≡ n % value order

pub add_mod-IsResult :
    (s a : Scalar) → IsScalar s → IsScalar a → IsResult (value s + value a) (add_mod s a)
unfolding add_mod
add_mod-IsResult s a p q =
    let (c, l, sums) = add_inner-value s a p.array q.array in
    let no_carry : value (add_inner s a) ≡ value s + value a =
      omega (arith, p.reduced, q.reduced) in
    let r =
      reduce_once (add_inner s a) (add_inner-IsArray s a p.array q.array)
        (omega (arith, no_carry, p.reduced, q.reduced)) in
    record { scalar = r.scalar; value_is = r.value_is ∙ ap (λ n. n % value order) no_carry }

sub_mod-IsResult :
    (s a : Scalar)
    → IsScalar s
    → IsScalar a
    → IsResult (value s + (value order - value a)) (sub_mod s a)
unfolding sub_mod
sub_mod-IsResult s a p q =
    let b = sub_inner-IsBorrowed s a p.array q.array in
    let t = (sub_inner s a).0 in
    elim (Bool-cases ((sub_inner s a).1 == 0)) [
      | inl none_left ↦
          let no_borrow = nat_sound (sub_inner s a).1 0 none_left in
          rw none_left (record {
            scalar = record {
              array = b.array;
              reduced = omega (arith, b.difference, no_borrow, p.reduced);
            };
            value_is = omega (arith, b.difference, no_borrow, p.reduced, q.reduced);
          })
      | inr borrowed ↦
          let one_borrow : (sub_inner s a).1 ≡ 1 = ground (arith, b.borrow) in
          let (c, l, sums) = add_inner-value t order b.array order-IsArray in
          let whole = add_inner-IsArray t order b.array order-IsArray in
          let room = value-IsArray (add_inner t order) whole in
          let room' = value-IsArray t b.array in
          rw borrowed (record {
            scalar = record {
              array = whole;
              reduced =
                  omega
                    (arith, b.difference, one_borrow, sums, l, room, room', p.reduced, q.reduced);
            };
            value_is =
                omega (arith, b.difference, one_borrow, sums, l, room, room', p.reduced, q.reduced);
          })
    ]

pub zero-IsScalar : IsScalar zero
zero-IsScalar = record {
  array = record {
    size = refl;
    words = (omega arith, (omega arith, (omega arith, (omega arith, (omega arith, tt)))));
  };
  reduced = omega arith;
}

-- The sum, the difference and the negative of scalars are scalars, and stand for the sum, the
-- difference and the negative modulo the order.
pub add_mod-sub_mod :
    (s a : Scalar)
    → IsScalar s
    → IsScalar a
    → IsResult (value s + value a) (add_mod s a)
      × IsResult (value s + (value order - value a)) (sub_mod s a)
      × IsResult (value order - value a) (neg_mod a)
unfolding neg_mod
add_mod-sub_mod s a p q =
    let negative = sub_mod-IsResult zero a zero-IsScalar q in
    (
      add_mod-IsResult s a p q,
      sub_mod-IsResult s a p q,
      subst (λ n. IsResult n (sub_mod zero a)) (omega arith) negative,
    )
