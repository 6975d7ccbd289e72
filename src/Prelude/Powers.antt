-- ===== src/Prelude/Powers.antt =====
-- `usize::is_power_of_two`.
use Prim.Native.Nat.{ℕ, zero, suc, ◌/◌, ◌%◌, ◌^◌, ◌<◌}
use mathlib.Core.Path.{◌≡◌, refl}
use mathlib.Core.Bool.{Bool, true, false}
use mathlib.Core.Logic.{inl, inr}
use native.Mathlib.Nat.{pow-suc}
use native.Mathlib.Omega.{arith}
use doxa.Prelude.Tests.{◌==◌, if◌then◌else◌, Bool-cases}

-- Halving a number that is even, down to 1.
halves_to_one : ℕ → ℕ → Bool
halves_to_one zero n = false
halves_to_one (suc fuel) n =
    let rest = halves_to_one fuel (n / 2) in
    if n == 1 then true else (if n == 0 then false else (if n % 2 == 1 then false else rest))

unfoldable pub is_power_of_two : ℕ → Bool
unfolding halves_to_one
is_power_of_two n = halves_to_one n n

pub pow-pos : (k : ℕ) → 0 < 2 ^ k
pow-pos zero = omega arith
pow-pos (suc k) = omega (arith, pow-suc 2 k, pow-pos k)

pub lt-pow : (k : ℕ) → k < 2 ^ k
lt-pow zero = omega arith
lt-pow (suc k) = omega (arith, pow-suc 2 k, lt-pow k)

halves_to_one-pow : (fuel k : ℕ) → k < fuel → halves_to_one fuel (2 ^ k) ≡ true
unfolding halves_to_one
halves_to_one-pow zero k p = elim p [ ]
halves_to_one-pow (suc fuel) zero p = refl
halves_to_one-pow (suc fuel) (suc k) p =
    let half : 2 ^ suc k / 2 ≡ 2 ^ k = omega (arith, pow-suc 2 k) in
    rw half (ground (arith, pow-suc 2 k, pow-pos k, halves_to_one-pow fuel k))

pub is_power_of_two-pow : (k : ℕ) → is_power_of_two (2 ^ k) ≡ true
unfolding is_power_of_two
is_power_of_two-pow k = halves_to_one-pow (2 ^ k) k (lt-pow k)

pow_of_halves : (fuel n : ℕ) → halves_to_one fuel n ≡ true → (k : ℕ) × (n ≡ 2 ^ k)
unfolding halves_to_one
pow_of_halves zero n e = cc
pow_of_halves (suc fuel) n e = elim (Bool-cases (n == 1)) [
  | inl one ↦ (0, ground arith)
  | inr more ↦
      let (k, half) = pow_of_halves fuel (n / 2) (ground arith) in
      (suc k, ground (arith, pow-suc 2 k))
]

pub pow_of_is_power_of_two : (n : ℕ) → is_power_of_two n ≡ true → (k : ℕ) × (n ≡ 2 ^ k)
unfolding is_power_of_two
pow_of_is_power_of_two n e = pow_of_halves n n e
