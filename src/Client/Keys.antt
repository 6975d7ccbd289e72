-- ===== src/Client/Keys.antt =====
-- The keys of the maps: hashes, byte strings and numbers.
use doxa.Prelude.{
  ℕ, ◌≡◌, refl, sym, ap, ap₂, ◌∙◌, Bool-cases, inl, inr, Bool, true, false, ◌&&◌, List, [], ◌∷◌,
  ◌==◌, arith, Key,
}
use doxa.Hasher.{HashOutput}
use doxa.Client.PublicInputs.{same_hash, same_hash_eq, same_hash_refl}

instance abbrev pub hash_key : Key HashOutput
hash_key = record { eq = same_hash; eq_sound = same_hash_eq; eq_refl = same_hash_refl }

pub nat_sound : (a b : ℕ) → (a == b) ≡ true → a ≡ b
nat_sound a b e = ground arith

pub nat_refl : (a : ℕ) → (a == a) ≡ true
nat_refl a = ground arith

instance abbrev pub nat_key : Key ℕ
nat_key = record { eq = λ a b. a == b; eq_sound = nat_sound; eq_refl = nat_refl }

abbrev pub bytes_eq : List ℕ → List ℕ → Bool
bytes_eq [] [] = true
bytes_eq [] (y ∷ ys) = false
bytes_eq (x ∷ xs) [] = false
bytes_eq (x ∷ xs) (y ∷ ys) = let rest = bytes_eq xs ys in (x == y) && rest

pub bytes_sound : (xs ys : List ℕ) → bytes_eq xs ys ≡ true → xs ≡ ys
bytes_sound [] [] e = refl
bytes_sound [] (y ∷ ys) e = cc
bytes_sound (x ∷ xs) [] e = cc
bytes_sound (x ∷ xs) (y ∷ ys) e = elim (Bool-cases (x == y)) [
  | inl same ↦ ap₂ ◌∷◌ (nat_sound x y same) (bytes_sound xs ys (rw_true same e))
  | inr other ↦ cc
]
  where
    rw_true : (x == y) ≡ true → ((x == y) && bytes_eq xs ys) ≡ true → bytes_eq xs ys ≡ true
    rw_true s e = ap (λ b. b && bytes_eq xs ys) (sym s) ∙ e

pub bytes_refl : (xs : List ℕ) → bytes_eq xs xs ≡ true
bytes_refl [] = refl
bytes_refl (x ∷ xs) = rw (nat_refl x) (bytes_refl xs)

instance abbrev pub bytes_key : Key (List ℕ)
bytes_key = record { eq = bytes_eq; eq_sound = bytes_sound; eq_refl = bytes_refl }
