-- ===== src/Client/Words.antt =====
-- 8-byte words, the low byte first: `u64::to_le_bytes` and the buffers made of such words.
use native.Mathlib.Nat.{pow-suc}
use doxa.Prelude.{
  ℕ, zero, suc, ◌+◌, ◌*◌, ◌/◌, ◌%◌, ◌^◌, ◌<◌, ◌≡◌, refl, ap, ◌∙◌, List, [], ◌∷◌, ◌++◌, arith,
  length, length-append, take, drop, get_or,
}
use doxa.StateSync.Contract.{Bytes, limb_bytes, goldilocks_prime}
use doxa.StateSync.Contract.Bytes.{take-append_exact}

-- Of a number of `n` bytes.
unfoldable pub to_le_bytes : ℕ → ℕ → Bytes
to_le_bytes zero v = []
to_le_bytes (suc n) v = v % 256 ∷ to_le_bytes n (v / 256)

unfoldable pub from_le_bytes : Bytes → ℕ
from_le_bytes [] = 0
from_le_bytes (b ∷ bytes) = b + 256 * from_le_bytes bytes

-- A buffer that is filled word by word.
unfoldable pub le_words : List ℕ → Bytes
unfolding to_le_bytes
le_words [] = []
le_words (v ∷ vs) = to_le_bytes 8 v ++ le_words vs

-- The word at a position, and its element of the field. A release build takes any word for an
-- element; elements are equal if their remainders are.
abbrev pub word_at : ℕ → Bytes → ℕ
word_at i bytes = from_le_bytes (limb_bytes i bytes)

abbrev pub from_canonical_u64 : ℕ → ℕ
from_canonical_u64 v = v % goldilocks_prime

abbrev pub AllU64 : List ℕ → Type 0
AllU64 [] = Unit {0}
AllU64 (v ∷ vs) = (v < 2 ^ 64) × AllU64 vs

pub length-to_le_bytes : (n v : ℕ) → length (to_le_bytes n v) ≡ n
unfolding to_le_bytes
length-to_le_bytes zero v = refl
length-to_le_bytes (suc n) v = ap suc (length-to_le_bytes n (v / 256))

pub from_le_bytes-to_le_bytes : (n v : ℕ) → v < 256 ^ n → from_le_bytes (to_le_bytes n v) ≡ v
unfolding to_le_bytes from_le_bytes
from_le_bytes-to_le_bytes zero v l = omega arith
from_le_bytes-to_le_bytes (suc n) v l =
    omega (arith, from_le_bytes-to_le_bytes n (v / 256) (omega (arith, l, pow-suc 256 n)))

pub length-le_words : (vs : List ℕ) → length (le_words vs) ≡ 8 * length vs
unfolding le_words
length-le_words [] = refl
length-le_words (v ∷ vs) =
    length-append (to_le_bytes 8 v) (le_words vs)
    ∙ omega (arith, length-to_le_bytes 8 v, length-le_words vs)

drop_later : (n m : ℕ) (xs ys : Bytes) → length xs ≡ n → drop (n + m) (xs ++ ys) ≡ drop m ys
drop_later zero m [] ys e = ap (λ k. drop k ys) (omega arith)
drop_later zero m (x ∷ xs) ys e = absurd (omega arith)
drop_later (suc n) m [] ys e = absurd (omega arith)
drop_later (suc n) m (x ∷ xs) ys e =
    let step : suc n + m ≡ suc (n + m) = omega arith in
    ap (λ k. drop k (x ∷ (xs ++ ys))) step ∙ drop_later n m xs ys (omega arith)

pub limb_bytes-le_words :
    (i : ℕ) (vs : List ℕ)
    → i < length vs
    → limb_bytes i (le_words vs) ≡ to_le_bytes 8 (get_or vs i 0)
unfolding le_words
limb_bytes-le_words i [] l = elim l [ ]
limb_bytes-le_words zero (v ∷ vs) l =
    take-append_exact 8 (to_le_bytes 8 v) (le_words vs) (length-to_le_bytes 8 v)
limb_bytes-le_words (suc i) (v ∷ vs) l =
    let place : suc i * 8 ≡ 8 + i * 8 = omega arith in
    ap (λ k. take 8 (drop k (to_le_bytes 8 v ++ le_words vs))) place
    ∙ ap (take 8) (drop_later 8 (i * 8) (to_le_bytes 8 v) (le_words vs) (length-to_le_bytes 8 v))
    ∙ limb_bytes-le_words i vs (omega arith)

get_or-lt : (i : ℕ) (vs : List ℕ) → AllU64 vs → get_or vs i 0 < 256 ^ 8
get_or-lt i [] all = omega arith
get_or-lt zero (v ∷ vs) all = omega (arith, all.0)
get_or-lt (suc i) (v ∷ vs) all = get_or-lt i vs all.1

pub word_at-le_words :
    (i : ℕ) (vs : List ℕ) → AllU64 vs → i < length vs → word_at i (le_words vs) ≡ get_or vs i 0
word_at-le_words i vs all l =
    ap from_le_bytes (limb_bytes-le_words i vs l)
    ∙ from_le_bytes-to_le_bytes 8 (get_or vs i 0) (get_or-lt i vs all)
