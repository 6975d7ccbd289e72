-- ===== src/Client/Spend/Build/Slots.antt =====
-- The seven slots of nullifiers and of commitments, as lists.
use doxa.Prelude.{
  Result, ℕ, zero, suc, true, false, ◌+◌, ◌-◌, ◌≤◌, ◌≡◌, refl, ap, sym, ◌∙◌, fun_ext, List, [], ◌∷◌,
  ◌++◌, map, arith, length, take, ltb, ok, ◌>>=◌, All,
}
use doxa.Hasher.{HashOutput}
use doxa.Client.Spend.{SpendResult}
use doxa.Client.Spend.Build.{from_fn, slot_at}

pub from_fn-suc :
    {E A : Type 0} (n i : ℕ) (f : ℕ → Result E A)
    → from_fn n (suc i) f ≡ from_fn n i (λ j. f (suc j))
unfolding from_fn
from_fn-suc zero i f = refl
from_fn-suc (suc n) i f =
    ap (λ rest. f (suc i) >>= λ a. rest >>= λ xs. ok (a ∷ xs)) (from_fn-suc n (suc i) f)

-- Tests and differences one further on.
ltb-suc : (i n : ℕ) → ltb (suc i) (suc n) ≡ ltb i n
ltb-suc i n = ground arith

ltb_zero : (i : ℕ) → ltb i 0 ≡ false
ltb_zero i = ground arith

zero_ltb : (n : ℕ) → ltb 0 (suc n) ≡ true
zero_ltb n = ground arith

minus_suc : (i n : ℕ) → suc i - suc n ≡ i - n
minus_suc i n = omega arith

minus_zero : (i : ℕ) → i - 0 ≡ i
minus_zero i = omega arith

ruleset steps = (ltb-suc, ltb_zero, minus_suc, minus_zero)

module _ {R N A : Type 0} (of_rejected : R → SpendResult A) (of_active : N → SpendResult A)
    (of_dummy : HashOutput → SpendResult A) (rejected' : R → A) (active' : N → A)
    (dummy' : HashOutput → A)
    (dummies_ok : (seed : HashOutput) → of_dummy seed ≡ ok (dummy' seed)) where
  abbrev pub slots_of : List R → List N → List HashOutput → ℕ → SpendResult A
  slots_of rs ns ds = slot_at rs ns ds of_rejected of_active of_dummy

  -- A slot further on, with one note less before it.
  slot_rejected :
      (r : R) (rs : List R) (ns : List N) (ds : List HashOutput) (i : ℕ)
      → slots_of (r ∷ rs) ns ds (suc i) ≡ slots_of rs ns ds i
  unfolding slot_at
  slot_rejected r rs ns ds i = simp steps refl

  first_rejected :
      (r : R) (rs : List R) (ns : List N) (ds : List HashOutput)
      → slots_of (r ∷ rs) ns ds 0 ≡ of_rejected r
  unfolding slot_at
  first_rejected r rs ns ds = rw (zero_ltb (length rs)) refl

  first_active :
      (x : N) (ns : List N) (ds : List HashOutput) → slots_of [] (x ∷ ns) ds 0 ≡ of_active x
  unfolding slot_at
  first_active x ns ds = rw (zero_ltb (length ns)) refl

  slot_active :
      (n : N) (ns : List N) (ds : List HashOutput) (i : ℕ)
      → slots_of [] (n ∷ ns) ds (suc i) ≡ slots_of [] ns ds i
  unfolding slot_at
  slot_active n ns ds i = simp steps refl

  slot_dummy :
      (d : HashOutput) (ds : List HashOutput) (i : ℕ)
      → slots_of [] [] (d ∷ ds) (suc i) ≡ slots_of [] [] ds i
  unfolding slot_at
  slot_dummy d ds i = simp steps refl

  from_fn_step :
      (n : ℕ) (f g : ℕ → SpendResult A) (a : A) (rest : List A)
      → f 0 ≡ ok a
      → ((i : ℕ) → f (suc i) ≡ g i)
      → from_fn n 0 g ≡ ok rest
      → from_fn (suc n) 0 f ≡ ok (a ∷ rest)
  unfolding from_fn
  from_fn_step n f g a rest first later ih =
      rw first (rw (from_fn-suc n 0 f) (rw (fun_ext later) (rw ih refl)))

  only_dummies :
      (ds : List HashOutput) (n : ℕ)
      → n ≤ length ds
      → from_fn n 0 (slots_of [] [] ds) ≡ ok (map dummy' (take n ds))
  unfolding from_fn slot_at
  only_dummies ds zero l = refl
  only_dummies [] (suc n) l = absurd (omega arith)
  only_dummies (d ∷ ds) (suc n) l =
      from_fn_step n (slots_of [] [] (d ∷ ds)) (slots_of [] [] ds) (dummy' d)
        (map dummy' (take n ds)) (dummies_ok d) (slot_dummy d ds) (only_dummies ds n (omega arith))

  active_slots :
      (ns : List N) (ds : List HashOutput) (n : ℕ)
      → All (λ x. of_active x ≡ ok (active' x)) ns
      → length ns ≤ n
      → n ≤ length ns + length ds
      → from_fn n 0 (slots_of [] ns ds)
        ≡ ok (map active' ns ++ map dummy' (take (n - length ns) ds))
  unfolding slot_at
  active_slots [] ds n q l l' =
      only_dummies ds n (omega arith) ∙ ap (λ k. ok (map dummy' (take k ds))) (sym (minus_zero n))
  active_slots (x ∷ ns) ds zero q l l' = absurd (omega arith)
  active_slots (x ∷ ns) ds (suc n) q l l' =
      from_fn_step n (slots_of [] (x ∷ ns) ds) (slots_of [] ns ds) (active' x) _
        (first_active x ns ds ∙ q.0) (slot_active x ns ds)
        (active_slots ns ds n q.1 (omega arith) (omega arith))
      ∙ ap (λ k. ok (map active' (x ∷ ns) ++ map dummy' (take k ds)))
          (sym (minus_suc n (length ns)))

  -- Where no slot panics and there are enough dummies, the slots are the rejected notes, the active
  -- notes and as many dummies as are left.
  pub from_fn-slot_at :
      (rs : List R) (ns : List N) (ds : List HashOutput) (n : ℕ)
      → All (λ r. of_rejected r ≡ ok (rejected' r)) rs
      → All (λ x. of_active x ≡ ok (active' x)) ns
      → length rs + length ns ≤ n
      → n ≤ length rs + length ns + length ds
      → from_fn n 0 (slots_of rs ns ds)
        ≡ ok (
            map rejected' rs
            ++ (map active' ns ++ map dummy' (take (n - length rs - length ns) ds)))
  unfolding slot_at
  from_fn-slot_at [] ns ds n p q l l' =
      active_slots ns ds n q (omega arith) (omega arith)
      ∙ ap (λ k. ok (map active' ns ++ map dummy' (take (k - length ns) ds))) (sym (minus_zero n))
  from_fn-slot_at (r ∷ rs) ns ds zero p q l l' = absurd (omega arith)
  from_fn-slot_at (r ∷ rs) ns ds (suc n) p q l l' =
      from_fn_step n (slots_of (r ∷ rs) ns ds) (slots_of rs ns ds) (rejected' r) _
        (first_rejected r rs ns ds ∙ p.0) (slot_rejected r rs ns ds)
        (from_fn-slot_at rs ns ds n p.1 q (omega arith) (omega arith))
      ∙ ap
          (λ k.
            ok (map rejected' (r ∷ rs) ++ (map active' ns ++ map dummy' (take (k - length ns) ds))))
          (sym (minus_suc n (length rs)))
