-- ===== src/Client/Amounts.antt =====
-- `U256` of the crate primitive_types: a number below 2^256, by its words and their halves.
use doxa.Prelude.{ℕ, ◌+◌, ◌*◌, ◌/◌, ◌%◌, ◌^◌, ◌<◌, ◌≡◌, List, [], ◌∷◌, arith}

-- `v.0[i]`: the words, the lowest first.
abbrev pub word : ℕ → ℕ → ℕ
word v i = v / 2 ^ (64 * i) % 2 ^ 64

-- `word as u32` and `(word >> 32) as u32`, in front of what follows.
abbrev pub push_halves : ℕ → List ℕ → List ℕ
push_halves w rest = w % 2 ^ 32 ∷ (w / 2 ^ 32) % 2 ^ 32 ∷ rest

unfoldable pub amount_limbs : ℕ → List ℕ
amount_limbs v =
    push_halves (word v 0)
      (push_halves (word v 1) (push_halves (word v 2) (push_halves (word v 3) [])))

abbrev pub from_limbs32 : List ℕ → ℕ
from_limbs32 [] = 0
from_limbs32 (limb ∷ limbs) = limb + 2 ^ 32 * from_limbs32 limbs

pub from_limbs32-amount_limbs : (v : ℕ) → v < 2 ^ 256 → from_limbs32 (amount_limbs v) ≡ v
unfolding amount_limbs
from_limbs32-amount_limbs v l = omega arith
