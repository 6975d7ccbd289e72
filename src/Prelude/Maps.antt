-- ===== src/Prelude/Maps.antt =====
-- `HashMap` and `HashSet`: an association list, of which the first entry for a key counts.
use mathlib.Core.Path.{◌≡◌, refl, sym, ap, ◌∙◌}
use mathlib.Core.Logic.{inl, inr}
use mathlib.Core.Bool.{Bool, true, false}
use mathlib.Core.List.{List, [], ◌∷◌}
use mathlib.Core.Option.{Option, none, some}
use doxa.Prelude.Tests.{if◌then◌else◌, Bool-cases}

pub record Key (K : Type 0) : Type 0 where
  pub eq : K → K → Bool
  pub eq_sound : (a b : K) → eq a b ≡ true → a ≡ b
  pub eq_refl : (a : K) → eq a a ≡ true

abbrev pub Map : Type 0 → Type 0 → Type 0
Map K V = List (K × V)

abbrev pub is_some {ℓ} : {A : Type ℓ} → Option A → Bool
is_some none = false
is_some (some a) = true

-- Whether a key's value passes a test.
abbrev pub passes {ℓ} : {V : Type ℓ} → (V → Bool) → Option V → Bool
passes p none = false
passes p (some v) = p v

module _ {K : Type 0} ⦃key : Key K⦄ where
  abbrev pub member : K → List K → Bool
  member k [] = false
  member k (x ∷ xs) = let rest = member k xs in if key.eq k x then true else rest

  abbrev pub drop_key : K → List K → List K
  drop_key k [] = []
  drop_key k (x ∷ xs) = let rest = drop_key k xs in if key.eq k x then rest else x ∷ rest

  member-drop_key_self : (k k' : K) (xs : List K) → k' ≡ k → member k' (drop_key k xs) ≡ false
  member-drop_key_self k k' [] e = refl
  member-drop_key_self k k' (x ∷ xs) e = elim (Bool-cases (key.eq k x)) [
    | inl same ↦ rw same (member-drop_key_self k k' xs e)
    | inr other ↦ rw other (rw (ap (λ a. key.eq a x) e ∙ other) (member-drop_key_self k k' xs e))
  ]

  member-drop_key_ne :
      (k k' : K) (xs : List K) → key.eq k' k ≡ false → member k' (drop_key k xs) ≡ member k' xs
  member-drop_key_ne k k' [] n = refl
  member-drop_key_ne k k' (x ∷ xs) n = elim (Bool-cases (key.eq k x)) [
    | inl same ↦
        rw same
          (rw (ap (key.eq k') (sym (key.eq_sound k x same)) ∙ n) (member-drop_key_ne k k' xs n))
    | inr other ↦
        rw other (ap (λ rest. if key.eq k' x then true else rest) (member-drop_key_ne k k' xs n))
  ]

module _ {K V : Type 0} ⦃key : Key K⦄ where
  abbrev pub get : Map K V → K → Option V
  get [] k = none
  get ((k', v) ∷ m) k = let rest = get m k in if key.eq k k' then some v else rest

  abbrev pub contains_key : Map K V → K → Bool
  contains_key m k = is_some (get m k)

  abbrev pub remove : Map K V → K → Map K V
  remove [] k = []
  remove ((k', v) ∷ m) k = let rest = remove m k in if key.eq k k' then rest else (k', v) ∷ rest

  abbrev pub insert : Map K V → K → V → Map K V
  insert m k v = (k, v) ∷ remove m k

  -- The keys of the entries whose value passes a test.
  abbrev pub keys_where : (V → Bool) → Map K V → List K
  keys_where p [] = []
  keys_where p ((k, v) ∷ m) =
      let rest = drop_key k (keys_where p m) in if p v then k ∷ rest else rest

  pub get-remove_self : (m : Map K V) (k k' : K) → k' ≡ k → get (remove m k) k' ≡ none
  get-remove_self [] k k' e = refl
  get-remove_self ((x, v) ∷ m) k k' e = elim (Bool-cases (key.eq k x)) [
    | inl same ↦ rw same (get-remove_self m k k' e)
    | inr other ↦ rw other (rw (ap (λ a. key.eq a x) e ∙ other) (get-remove_self m k k' e))
  ]

  pub get-remove_ne :
      (m : Map K V) (k k' : K) → key.eq k' k ≡ false → get (remove m k) k' ≡ get m k'
  get-remove_ne [] k k' n = refl
  get-remove_ne ((x, v) ∷ m) k k' n = elim (Bool-cases (key.eq k x)) [
    | inl same ↦
        rw same (rw (ap (key.eq k') (sym (key.eq_sound k x same)) ∙ n) (get-remove_ne m k k' n))
    | inr other ↦
        rw other (ap (λ rest. if key.eq k' x then some v else rest) (get-remove_ne m k k' n))
  ]

  pub get-insert_self : (m : Map K V) (k : K) (v : V) → get (insert m k v) k ≡ some v
  get-insert_self m k v = rw (key.eq_refl k)

  pub get-insert_ne :
      (m : Map K V) (k k' : K) (v : V) → key.eq k' k ≡ false → get (insert m k v) k' ≡ get m k'
  get-insert_ne m k k' v n = rw n (get-remove_ne m k k' n)

  pub member-keys_where :
      (p : V → Bool) (m : Map K V) (k : K) → member k (keys_where p m) ≡ passes p (get m k)
  member-keys_where p [] k = refl
  member-keys_where p ((x, v) ∷ m) k = elim (Bool-cases (key.eq k x)) [
    | inl same ↦ elim (Bool-cases (p v)) [
      | inl yes_p ↦ rw same (rw yes_p (rw same))
      | inr no_p ↦
          rw same (rw no_p (member-drop_key_self x k (keys_where p m) (key.eq_sound k x same)))
    ]
    | inr other ↦ elim (Bool-cases (p v)) [
      | inl yes_p ↦ rw other (
          rw yes_p
            (rw other (member-drop_key_ne x k (keys_where p m) other ∙ member-keys_where p m k)))
      | inr no_p ↦
          rw other
            (rw no_p (member-drop_key_ne x k (keys_where p m) other ∙ member-keys_where p m k))
    ]
  ]

-- A set is a list of keys.
module _ {K : Type 0} ⦃key : Key K⦄ where
  abbrev pub put_key : K → List K → List K
  put_key k xs = k ∷ drop_key k xs

  pub member-put_key_self : (k : K) (xs : List K) → member k (put_key k xs) ≡ true
  member-put_key_self k xs = rw (key.eq_refl k)

  pub member-put_key_ne :
      (k k' : K) (xs : List K) → key.eq k' k ≡ false → member k' (put_key k xs) ≡ member k' xs
  member-put_key_ne k k' xs n = rw n (member-drop_key_ne k k' xs n)
