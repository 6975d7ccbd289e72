-- ===== src/Client/Scalar/Decode/Words.antt =====
-- The words that `decode` makes of bytes.
use Prim.Native.Nat.{bit_or}
use Prim.Native.Nat.pow
use doxa.Prelude.{
  ℕ, zero, suc, ◌+◌, ◌*◌, ◌/◌, ◌%◌, ◌^◌, ◌<◌, ◌≤◌, ◌≡◌, refl, ap, ap₂, sym, subst, ◌∙◌, ◌⊎◌, inl,
  inr, List, [], ◌∷◌, arith, length, All, set, get_or, ltb, leb, true, some,
}
use doxa.Client.Scalar
use doxa.Client.Scalar.{Scalar, order}
use doxa.Client.Scalar.Limbs.{value, IsWord}
use doxa.Client.Scalar.Modular.{IsArray, IsScalar, zero-IsScalar}
use doxa.Client.Scalar.Decode.{with_byte, decode_loop, decode}
use doxa.Client.Scalar.Decode.Bits.{bit_or_disjoint}

-- The number of bytes, the lowest first.
abbrev pub number : List ℕ → ℕ
number [] = 0
number (b ∷ bytes) = b + 256 * number bytes

abbrev pub IsByte : ℕ → Type 0
IsByte b = b < 256

-- `2 ^ 64` to a power, and `256` to a power.
abbrev words_up : ℕ → ℕ
words_up zero = 1
words_up (suc w) = 2 ^ 64 * words_up w

abbrev pub bytes_up : ℕ → ℕ
bytes_up zero = 1
bytes_up (suc n) = 256 * bytes_up n

-- A byte at a place of a word: the word before holds less, and those after it nothing.
record IsPlaced (w p b : ℕ) (r r' : Scalar) : Type 0 where
  size : length r' ≡ length r
  words : All IsWord r'
  placed : value r' ≡ value r + words_up w * (b * p)

set-IsPlaced :
    (w k b : ℕ) (r : List ℕ)
    → All IsWord r
    → w < length r
    → 256 * 2 ^ k ≤ 2 ^ 64
    → IsByte b
    → value r < words_up w * 2 ^ k
    → IsPlaced w (2 ^ k) b r (set r w (bit_or (get_or r w 0) ((b * 2 ^ k) % 2 ^ 64)))
set-IsPlaced w k b [] a i l q v = absurd (omega arith)
set-IsPlaced zero k b (x ∷ r) a i l q v =
    let p = 2 ^ k in
    let byte_bound : b * p + p ≤ 256 * p = grind arith in
    let fits : (b * p) % 2 ^ 64 ≡ b * p = omega (arith, byte_bound) in
    let low : x < p = omega arith in
    let joined = ap (bit_or x) fits ∙ bit_or_disjoint k x b low in
    record {
      size = refl;
      words = (omega (arith, joined, byte_bound), a.1);
      placed = omega (arith, joined);
    }
set-IsPlaced (suc w) k b (x ∷ r) a i l q v =
    let ih = set-IsPlaced w k b r a.1 (omega arith) l q (omega (arith, v)) in
    record { size = ap suc ih.size; words = (a.0, ih.words); placed = omega (arith, ih.placed) }

power_8 : (j : ℕ) → 2 ^ (8 * j) ≡ bytes_up j
power_8 zero = refl
power_8 (suc j) =
    let m = 8 * j in
    let next : 8 * suc j ≡ suc (suc (suc (suc (suc (suc (suc (suc m))))))) = omega arith in
    let d : (n : ℕ) → 2 ^ suc n ≡ 2 ^ n * 2 = λ n i. pow.suc 2 n i in
    ap (λ n. 2 ^ n) next
    ∙ omega (
      arith,
      power_8 j,
      d m,
      d (suc m),
      d (suc (suc m)),
      d (suc (suc (suc m))),
      d (suc (suc (suc (suc m)))),
      d (suc (suc (suc (suc (suc m))))),
      d (suc (suc (suc (suc (suc (suc m)))))),
      d (suc (suc (suc (suc (suc (suc (suc m))))))),
    )

byte_room : (j : ℕ) → j < 8 → 256 * bytes_up j ≤ 2 ^ 64
byte_room zero l = omega arith
byte_room (suc zero) l = omega arith
byte_room (suc (suc zero)) l = omega arith
byte_room (suc (suc (suc zero))) l = omega arith
byte_room (suc (suc (suc (suc zero)))) l = omega arith
byte_room (suc (suc (suc (suc (suc zero))))) l = omega arith
byte_room (suc (suc (suc (suc (suc (suc zero)))))) l = omega arith
byte_room (suc (suc (suc (suc (suc (suc (suc zero))))))) l = omega arith
byte_room (suc (suc (suc (suc (suc (suc (suc (suc j)))))))) l = absurd (omega arith)

-- The weight of the byte at an index.
abbrev place : ℕ → ℕ
place i = words_up (i / 8) * 2 ^ (8 * (i % 8))

place_suc : (i : ℕ) → place (i + 1) ≡ 256 * place i
place_suc i = elim (within_or_last (i % 8) (omega arith)) [
  | inl inside ↦
      let word : (i + 1) / 8 ≡ i / 8 = omega (arith, inside) in
      let at : (i + 1) % 8 ≡ suc (i % 8) = omega (arith, inside) in
      ap₂ (λ w j. words_up w * 2 ^ (8 * j)) word at
      ∙ ap (λ n. words_up (i / 8) * n) (power_8 (suc (i % 8)))
      ∙ omega (arith, ap (λ n. words_up (i / 8) * n) (power_8 (i % 8)))
  | inr last ↦
      let word : (i + 1) / 8 ≡ suc (i / 8) = omega (arith, last) in
      let at : (i + 1) % 8 ≡ 0 = omega (arith, last) in
      ap₂ (λ w j. words_up w * 2 ^ (8 * j)) word at
      ∙ omega (arith, ap (λ j. words_up (i / 8) * 2 ^ (8 * j)) last)
]
  where
    within_or_last : (j : ℕ) → j < 8 → (j < 7) ⊎ (j ≡ 7)
    within_or_last j l = ground arith

-- What the loop leaves of bytes that fit.
record IsDecoded (i : ℕ) (bytes : List ℕ) (r : Scalar) (done : Scalar × ℕ) : Type 0 where
  array : IsArray done.0
  value_is : value done.0 ≡ value r + place i * number bytes

decode_loop-IsDecoded :
    (i : ℕ) (bytes : List ℕ) (r : Scalar) (extra : ℕ)
    → i + length bytes ≤ 40
    → All IsByte bytes
    → IsArray r
    → value r < place i
    → IsDecoded i bytes r (decode_loop i bytes r extra)
unfolding decode_loop
decode_loop-IsDecoded i [] r extra l a q v = record { array = q; value_is = omega arith }
decode_loop-IsDecoded i (b ∷ bytes) r extra l a q v =
    let inside : ltb i 40 ≡ true = ground arith in
    let room : 256 * 2 ^ (8 * (i % 8)) ≤ 2 ^ 64 =
      subst (λ n. 256 * n ≤ 2 ^ 64) (sym (power_8 (i % 8))) (byte_room (i % 8) (omega arith)) in
    let p = set-IsPlaced (i / 8) (8 * (i % 8)) b r q.words (omega (arith, q.size)) room a.0 v in
    let next = place_suc i in
    let placed : value (with_byte i b r) ≡ value r + place i * b = p.placed ∙ omega arith in
    let bound : place i * b + place i ≤ 256 * place i = byte_product b (place i) a.0 in
    let rest =
      decode_loop-IsDecoded (i + 1) bytes (with_byte i b r) extra (omega arith) a.1
        (record { size = p.size ∙ q.size; words = p.words })
        (omega (arith, placed, next, bound, v)) in
    rw inside (record {
      array = rest.array;
      value_is = rest.value_is ∙ omega (arith, placed, ap (λ n. n * number bytes) next);
    })
  where
    byte_product : (b n : ℕ) → IsByte b → n * b + n ≤ 256 * n
    byte_product b n l = grind arith

number_bound :
    (n : ℕ) (bytes : List ℕ) → length bytes ≤ n → All IsByte bytes → number bytes < bytes_up n
number_bound zero [] l a = omega arith
number_bound zero (b ∷ bytes) l a = absurd (omega arith)
number_bound (suc n) [] l a = let ih = number_bound n [] (omega arith) tt in omega (arith, ih)
number_bound (suc n) (b ∷ bytes) l a =
    let ih = number_bound n bytes (omega arith) a.1 in omega (arith, ih, a.0)

-- At most 39 bytes are decoded to the scalar of their number.
pub decode-IsScalar :
    (bytes : List ℕ)
    → length bytes ≤ 39
    → All IsByte bytes
    → (r : Scalar) × (decode bytes ≡ some r) × IsScalar r × (value r ≡ number bytes)
unfolding decode
decode-IsScalar bytes l a =
    let short : leb (length bytes) 39 ≡ true = ground arith in
    let d =
      decode_loop-IsDecoded 0 bytes Scalar.zero 0 (omega arith) a zero-IsScalar.array
        (omega arith) in
    let r = (decode_loop 0 bytes Scalar.zero 0).0 in
    let is : value r ≡ number bytes = d.value_is ∙ omega arith in
    let bound = number_bound 39 bytes l a in
    (r, rw short refl, record { array = d.array; reduced = omega (arith, is, bound) }, is)
