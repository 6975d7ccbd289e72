-- ===== src/StateSync/Contract/Decoding.antt =====
-- What decoding accepts, and the exchange of the two byte orders.
use doxa.Prelude.{
  ℕ, zero, suc, ◌*◌, ◌<◌, ◌≡◌, refl, sym, ap, subst, ◌∙◌, [], ◌∷◌, ◌++◌, arith, length, length-take,
  length-drop, append_assoc, take-append-drop, take, drop, ltb, ltb→lt, Bool-cases, inl, inr,
  Result, ok, err, panic, ok_of_bind,
}
use doxa.Hasher.{HashOutput}
use doxa.StateSync.Contract.{
  Bytes, ContractError, goldilocks_prime, checked_limb, checked_hash, from_be_bytes, limb_bytes,
  limb_of, bytes32_to_hash, u256_le_to_hash, swap_halves, raw_to_preimage_bytes32,
  preimage_bytes32_to_raw,
}
use doxa.StateSync.Contract.Encodings.{IsCanonical}
use doxa.StateSync.Contract.Halves.{swap_halves_step}

checked_limb_lem : (i v e : ℕ) → checked_limb i v ≡ ok e → e < goldilocks_prime
checked_limb_lem i v e p = elim (Bool-cases (ltb v goldilocks_prime)) [
  | inl below ↦ let same : v ≡ e = cc in omega (arith, ltb→lt v goldilocks_prime below, same)
  | inr above ↦ cc
]

abbrev value : HashOutput → Result ContractError HashOutput → HashOutput
value d (ok h) = h
value d (err e) = d
value d panic = d

checked_hash-IsCanonical :
    (v0 v1 v2 v3 : ℕ) (h : HashOutput) → checked_hash v0 v1 v2 v3 ≡ ok h → IsCanonical h
checked_hash-IsCanonical v0 v1 v2 v3 h e =
    let (e0, k0, c0) = ok_of_bind _ (checked_limb 0 v0) h e in
    let (e1, k1, c1) = ok_of_bind _ (checked_limb 1 v1) h k0 in
    let (e2, k2, c2) = ok_of_bind _ (checked_limb 2 v2) h k1 in
    let (e3, k3, c3) = ok_of_bind _ (checked_limb 3 v3) h k2 in
    let same = ap (value h) k3 in
    subst IsCanonical same (record {
      c0 = checked_limb_lem 0 v0 e0 c0;
      c1 = checked_limb_lem 1 v1 e1 c1;
      c2 = checked_limb_lem 2 v2 e2 c2;
      c3 = checked_limb_lem 3 v3 e3 c3;
    })

-- Every hash that is decoded from 32 bytes, and from a number, is canonical.
pub decoded-IsCanonical :
    (bytes : Bytes) (v : ℕ) (h g : HashOutput)
    → bytes32_to_hash bytes ≡ ok h
    → u256_le_to_hash v ≡ ok g
    → IsCanonical h × IsCanonical g
unfolding bytes32_to_hash u256_le_to_hash
decoded-IsCanonical bytes v h g e f = (
  checked_hash-IsCanonical (from_be_bytes (limb_bytes 0 bytes)) (from_be_bytes (limb_bytes 1 bytes))
      (from_be_bytes (limb_bytes 2 bytes)) (from_be_bytes (limb_bytes 3 bytes)) h e,
  checked_hash-IsCanonical (limb_of 0 v) (limb_of 1 v) (limb_of 2 v) (limb_of 3 v) g f,
)

drop-drop : (raw : Bytes) → drop 4 (drop 4 raw) ≡ drop 8 raw
drop-drop [] = refl
drop-drop (a ∷ []) = refl
drop-drop (a ∷ b ∷ []) = refl
drop-drop (a ∷ b ∷ c ∷ []) = refl
drop-drop (a ∷ b ∷ c ∷ d ∷ raw) = refl

swap_halves-twice :
    (count : ℕ) (raw : Bytes)
    → length raw ≡ count * 8
    → swap_halves count (swap_halves count raw) ≡ raw
unfolding swap_halves
swap_halves-twice zero [] l = refl
swap_halves-twice zero (x ∷ raw) l = absurd (omega arith)
swap_halves-twice (suc count) raw l =
    let a = take 4 raw in
    let b = take 4 (drop 4 raw) in
    let rest = drop 8 raw in
    let la : length a ≡ 4 = omega (arith, l, length-take 4 raw) in
    let lb : length b ≡ 4 = omega (arith, l, length-take 4 (drop 4 raw), length-drop 4 raw) in
    let lr : length rest ≡ count * 8 = omega (arith, l, length-drop 8 raw) in
    ap (swap_halves (suc count)) (sym (append_assoc b a (swap_halves count rest)))
    ∙ swap_halves_step count b a (swap_halves count rest) lb la
    ∙ ap (λ bytes. a ++ (b ++ bytes)) (swap_halves-twice count rest lr ∙ sym (drop-drop raw))
    ∙ ap (λ bytes. a ++ bytes) (take-append-drop 4 (drop 4 raw))
    ∙ take-append-drop 4 raw

-- Swapping the halves of 32 bytes twice gives the bytes back.
pub preimage_bytes32_to_raw-raw :
    (raw : Bytes) → length raw ≡ 32 → preimage_bytes32_to_raw (raw_to_preimage_bytes32 raw) ≡ raw
unfolding preimage_bytes32_to_raw raw_to_preimage_bytes32
preimage_bytes32_to_raw-raw raw l = swap_halves-twice 4 raw l
