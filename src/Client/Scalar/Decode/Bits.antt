-- ===== src/Client/Scalar/Decode/Bits.antt =====
-- The bit operation of `decode`: bytes at different places of a word add up.
use Prim.Native.Nat.{bit_or, digits, bit_or-bitwise}
use Prim.Native.Nat.pow
use doxa.Prelude.{ℕ, zero, suc, ◌+◌, ◌*◌, ◌/◌, ◌%◌, ◌^◌, ◌<◌, ◌≤◌, ◌≡◌, ap, ap₂, ◌∙◌, max, arith}

digits_disjoint :
    (k n a y : ℕ) → a ≤ n → a < 2 ^ k → digits (λ b. b) max n a (y * 2 ^ k) ≡ a + y * 2 ^ k
digits_disjoint zero zero a y l l' = omega arith
digits_disjoint zero (suc n) zero y l l' = omega arith
digits_disjoint zero (suc n) (suc a) y l l' = absurd (omega arith)
digits_disjoint (suc k) zero a y l l' = omega arith
digits_disjoint (suc k) (suc n) zero y l l' = omega arith
digits_disjoint (suc k) (suc n) (suc a) y l l' =
    let doubled : 2 ^ suc k ≡ 2 ^ k * 2 = λ i. pow.suc 2 k i in
    let wide : y * 2 ^ suc k ≡ y * 2 ^ k * 2 = ap (λ n. y * n) doubled ∙ omega arith in
    let half : (y * 2 ^ suc k) / 2 ≡ y * 2 ^ k = omega (arith, wide) in
    let even : (y * 2 ^ suc k) % 2 ≡ 0 = omega (arith, wide) in
    let ih = digits_disjoint k n (suc a / 2) y (omega arith) (omega (arith, doubled)) in
    ap₂ (λ h e. digits (λ b. b) max n (suc a / 2) h * 2 + max (suc a % 2) e) half even
    ∙ omega (arith, ih, wide)

pub bit_or_disjoint : (k a y : ℕ) → a < 2 ^ k → bit_or a (y * 2 ^ k) ≡ a + y * 2 ^ k
bit_or_disjoint k a y l =
    (λ i. bit_or-bitwise a (y * 2 ^ k) i) ∙ digits_disjoint k a a y (omega arith) l
