-- ===== src/Prelude/Results.antt =====
-- The outcome of Rust code: a value, an error that is returned, or a panic.
use Prim.Native.Nat.{ℕ, zero, suc, ◌+◌, ◌≤◌, ◌<◌}
use mathlib.Core.Path.{◌≡◌, refl, ap, subst, ◌∙◌}
use mathlib.Core.Logic.{◌≢◌}
use mathlib.Core.Bool.{Bool, true, false}
use mathlib.Core.List.{List, [], ◌∷◌}
use mathlib.Core.Option.{Option, none, some}
use native.Mathlib.Omega.{arith}
use doxa.Prelude.Lists.{length, get_or}

pub data Result {ℓ κ} (E : Type ℓ) (A : Type κ) : Type (ℓ ⊔ κ) where
  ok : A → Result E A
  err : E → Result E A
  panic : Result E A

infixl 5 ◌>>=◌ ◌>>◌
abbrev pub ◌>>=◌ {ℓ κ μ} :
    {E : Type ℓ} {A : Type κ} {B : Type μ} → Result E A → (A → Result E B) → Result E B
ok a >>= f = f a
err e >>= f = err e
panic >>= f = panic

abbrev pub ◌>>◌ {ℓ κ} : {E : Type ℓ} {B : Type κ} → Result E (Unit {0}) → Result E B → Result E B
m >> k = m >>= λ _. k

-- `anyhow::ensure!`
abbrev pub ensure {ℓ} : {E : Type ℓ} → Bool → E → Result E (Unit {0})
ensure true e = ok tt
ensure false e = err e

-- `assert!`
abbrev pub assert {ℓ} : {E : Type ℓ} → Bool → Result E (Unit {0})
assert true = ok tt
assert false = panic

-- `Option::ok_or`
abbrev pub ok_or {ℓ κ} : {E : Type ℓ} {A : Type κ} → Option A → E → Result E A
ok_or none e = err e
ok_or (some a) e = ok a

-- `Option::unwrap`, `Result::unwrap`
abbrev pub unwrap {ℓ κ} : {E : Type ℓ} {A : Type κ} → Option A → Result E A
unwrap none = panic
unwrap (some a) = ok a

-- `xs[i]` panics out of bounds.
abbrev pub index {ℓ κ} : {E : Type ℓ} {A : Type κ} → List A → ℕ → Result E A
index [] i = panic
index (x ∷ xs) zero = ok x
index (x ∷ xs) (suc i) = index xs i

pub index-get_or {ℓ κ} :
    {E : Type ℓ} {A : Type κ} (xs : List A) (i : ℕ) (d : A)
    → i < length xs
    → index {E = E} xs i ≡ ok (get_or xs i d)
index-get_or [] i d h = elim h [ ]
index-get_or (x ∷ xs) zero d h = refl
index-get_or (x ∷ xs) (suc i) d h = index-get_or xs i d (omega arith)

-- `?` in a method on `&mut self`: without a value the method ends, with the state as it is.
abbrev pub attempt {ℓ κ μ ν} :
    {S : Type ℓ} {E : Type κ} {A : Type μ} {B : Type ν}
    → S
    → Result E A
    → (A → S × Result E B)
    → S × Result E B
attempt s (ok a) k = k a
attempt s (err e) k = (s, err e)
attempt s panic k = (s, panic)

-- A method that goes on, after a part that changed the state.
abbrev pub chain {ℓ κ μ ν} :
    {S : Type ℓ} {E : Type κ} {A : Type μ} {B : Type ν}
    → S × Result E A
    → (S → S × Result E B)
    → S × Result E B
chain done k = attempt done.0 done.1 (λ _. k done.0)

-- `for i in i..i + rounds`, with a body that changes the state and may end the method.
unfoldable pub for_range {ℓ κ} :
    {S : Type ℓ} {E : Type κ}
    → ℕ
    → ℕ
    → (ℕ → S → S × Result E (Unit {0}))
    → S
    → S × Result E (Unit {0})
for_range zero i body s = (s, ok tt)
for_range (suc rounds) i body s = chain (body i s) (for_range rounds (i + 1) body)

-- A loop keeps what each round carries one step further.
pub for_range-invariant {ℓ κ μ} :
    {S : Type ℓ} {E : Type κ} (P : ℕ → S → Type μ) (body : ℕ → S → S × Result E (Unit {0}))
    (bound rounds i : ℕ) (s : S)
    → i + rounds ≤ bound
    → ((j : ℕ) (s : S) → j < bound → P j s → (s' : S) × (body j s ≡ (s', ok tt)) × P (j + 1) s')
    → P i s
    → (s' : S) × (for_range rounds i body s ≡ (s', ok tt)) × P (i + rounds) s'
unfolding for_range
for_range-invariant P body bound zero i s l step p = (s, refl, subst (λ k. P k s) (omega arith) p)
for_range-invariant P body bound (suc rounds) i s l step p =
    let (s1, runs, p1) = step i s (omega arith) p in
    let (s2, runs', p2) =
      for_range-invariant P body bound rounds (i + 1) s1 (omega arith) step p1 in
    (
      s2,
      ap (λ done. chain done (for_range rounds (i + 1) body)) runs ∙ runs',
      subst (λ k. P k s2) (omega arith) p2,
    )

-- A result whose type has no error.
abbrev pub unfailing {ℓ κ μ} : {E : Type ℓ} {F : Type κ} {A : Type μ} → Result E A → Result F A
unfailing (ok a) = ok a
unfailing (err e) = panic
unfailing panic = panic

-- A bind succeeds only through a value of its first part.
module _ {ℓ κ μ} {E : Type ℓ} {A : Type κ} {B : Type μ} (k : A → Result E B) where
  pub ok_of_bind :
      (first : Result E A) (b : B) → (first >>= k) ≡ ok b → (x : A) × (k x ≡ ok b) × (first ≡ ok x)
  ok_of_bind panic b e = cc
  ok_of_bind (err reason) b e = cc
  ok_of_bind (ok x) b e = (x, e, refl)

-- A check before the rest of a method.
module _ {ℓ κ} {E : Type ℓ} {B : Type κ} where
  pub ok_of_ensure :
      (t : Bool) (e : E) (rest : Result E B) (b : B)
      → (ensure t e >> rest) ≡ ok b
      → (t ≡ true) × (rest ≡ ok b)
  ok_of_ensure true e rest b r = (refl, r)
  ok_of_ensure false e rest b r = cc

  pub ensure-total :
      (t : Bool) (e : E) (rest : Result E B) → rest ≢ panic → (ensure t e >> rest) ≢ panic
  ensure-total true e rest total = total
  ensure-total false e rest total = λ r. cc

pub ok-total {ℓ κ} : {E : Type ℓ} {B : Type κ} (r : Result E B) (b : B) → r ≡ ok b → r ≢ panic
ok-total r b e p = cc

pub true_of_ensure {ℓ} : {E : Type ℓ} (t : Bool) (e : E) (u : Unit) → ensure t e ≡ ok u → t ≡ true
true_of_ensure true e u r = refl
true_of_ensure false e u r = cc

pub ensure-never_panics {ℓ} : {E : Type ℓ} (t : Bool) (e : E) → ensure t e ≢ panic
ensure-never_panics true e r = cc
ensure-never_panics false e r = cc

module _ {ℓ κ μ} {E : Type ℓ} {A : Type κ} {B : Type μ} (k : A → Result E B) where
  -- A bind whose first part has a value goes on with it.
  pub bind_ok : {first : Result E A} {x : A} → first ≡ ok x → (first >>= k) ≡ k x
  bind_ok e = ap (λ r. r >>= k) e

  pub bind_panic : {first : Result E A} → first ≡ panic → (first >>= k) ≡ panic
  bind_panic e = ap (λ r. r >>= k) e

  -- A bind panics only where one of its parts does.
  pub bind-total :
      (first : Result E A)
      → first ≢ panic
      → ((x : A) → first ≡ ok x → k x ≢ panic)
      → (first >>= k) ≢ panic
  bind-total (ok x) total rest = rest x refl
  bind-total (err e) total rest = λ r. cc
  bind-total panic total rest = absurd (total refl)
