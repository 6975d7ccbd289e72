-- ===== src/StateSync/Contract/Halves.antt =====
-- The pre-image form of a hash: 4-byte halves in the other order.
use doxa.Prelude.{
  ℕ, suc, ◌/◌, ◌%◌, ◌^◌, ◌<◌, ◌≡◌, sym, ap, ◌∙◌, [], ◌∷◌, ◌++◌, arith, length, length-append,
  append_assoc, append-nil, take, drop,
}
use doxa.Hasher.{HashOutput}
use doxa.StateSync.Contract.{
  Bytes, to_be_bytes, hash_to_bytes32, element_preimage, hash_to_preimage_bytes32, swap_halves,
  raw_to_preimage_bytes32, preimage_bytes32_to_raw,
}
use doxa.StateSync.Contract.Bytes.{IsU64, take-append_exact, drop-append_exact, length-to_be_bytes}

pub swap_halves_step :
    (count : ℕ) (a b rest : Bytes)
    → length a ≡ 4
    → length b ≡ 4
    → swap_halves (suc count) ((a ++ b) ++ rest) ≡ b ++ (a ++ swap_halves count rest)
unfolding swap_halves
swap_halves_step count a b rest la lb =
    let whole = append_assoc a b rest in
    let second : take 4 (drop 4 ((a ++ b) ++ rest)) ≡ b =
      ap (λ bytes. take 4 (drop 4 bytes)) whole
      ∙ ap (take 4) (drop-append_exact 4 a (b ++ rest) la)
      ∙ take-append_exact 4 b rest lb in
    let first : take 4 ((a ++ b) ++ rest) ≡ a =
      ap (take 4) whole ∙ take-append_exact 4 a (b ++ rest) la in
    let others : drop 8 ((a ++ b) ++ rest) ≡ rest =
      drop-append_exact 8 (a ++ b) rest (omega (arith, length-append a b, la, lb)) in
    λ i. second i ++ (first i ++ swap_halves count (others i))

element_bytes :
    (v : ℕ)
    → v < 2 ^ 64
    → to_be_bytes 4 ((v / 2 ^ 32) % 2 ^ 32) ++ to_be_bytes 4 (v % 2 ^ 32) ≡ to_be_bytes 8 v
unfolding to_be_bytes
element_bytes v l =
    let h3 : ((v / 2 ^ 32) % 2 ^ 32) / 256 / 256 / 256 % 256
        ≡ v / 256 / 256 / 256 / 256 / 256 / 256 / 256 % 256 =
      omega (arith, l) in
    let h2 : ((v / 2 ^ 32) % 2 ^ 32) / 256 / 256 % 256
        ≡ v / 256 / 256 / 256 / 256 / 256 / 256 % 256 =
      omega (arith, l) in
    let h1 : ((v / 2 ^ 32) % 2 ^ 32) / 256 % 256 ≡ v / 256 / 256 / 256 / 256 / 256 % 256 =
      omega (arith, l) in
    let h0 : ((v / 2 ^ 32) % 2 ^ 32) % 256 ≡ v / 256 / 256 / 256 / 256 % 256 = omega (arith, l) in
    let l3 : (v % 2 ^ 32) / 256 / 256 / 256 % 256 ≡ v / 256 / 256 / 256 % 256 = omega (arith, l) in
    let l2 : (v % 2 ^ 32) / 256 / 256 % 256 ≡ v / 256 / 256 % 256 = omega (arith, l) in
    let l1 : (v % 2 ^ 32) / 256 % 256 ≡ v / 256 % 256 = omega (arith, l) in
    let l0 : (v % 2 ^ 32) % 256 ≡ v % 256 = omega (arith, l) in
    λ i. h3 i ∷ h2 i ∷ h1 i ∷ h0 i ∷ l3 i ∷ l2 i ∷ l1 i ∷ l0 i ∷ []

swap_element :
    (count v : ℕ) (rest : Bytes)
    → v < 2 ^ 64
    → swap_halves (suc count) (element_preimage v ++ rest)
      ≡ to_be_bytes 8 v ++ swap_halves count rest
unfolding element_preimage
swap_element count v rest l =
    let lo = to_be_bytes 4 (v % 2 ^ 32) in
    let hi = to_be_bytes 4 ((v / 2 ^ 32) % 2 ^ 32) in
    swap_halves_step count lo hi rest (length-to_be_bytes 4 (v % 2 ^ 32))
      (length-to_be_bytes 4 ((v / 2 ^ 32) % 2 ^ 32))
    ∙ sym (append_assoc hi lo (swap_halves count rest))
    ∙ ap (λ bytes. bytes ++ swap_halves count rest) (element_bytes v l)

pub hash_to_preimage_bytes32-swapped :
    (h : HashOutput)
    → IsU64 h
    → preimage_bytes32_to_raw (hash_to_preimage_bytes32 h) ≡ hash_to_bytes32 h
unfolding preimage_bytes32_to_raw raw_to_preimage_bytes32 hash_to_preimage_bytes32 hash_to_bytes32
hash_to_preimage_bytes32-swapped h u =
    ap (λ bytes. swap_halves 4 (p0 ++ (p1 ++ (p2 ++ bytes)))) (sym (append-nil p3))
    ∙ swap_element 3 h.e0 (p1 ++ (p2 ++ (p3 ++ []))) u.c0
    ∙ ap (λ bytes. to_be_bytes 8 h.e0 ++ bytes)
        (swap_element 2 h.e1 (p2 ++ (p3 ++ [])) u.c1
          ∙ ap (λ bytes. to_be_bytes 8 h.e1 ++ bytes)
              (swap_element 1 h.e2 (p3 ++ []) u.c2
                ∙ ap (λ bytes. to_be_bytes 8 h.e2 ++ bytes)
                    (swap_element 0 h.e3 [] u.c3 ∙ append-nil (to_be_bytes 8 h.e3))))
  where
    p0 : Bytes
    p0 = element_preimage h.e0

    p1 : Bytes
    p1 = element_preimage h.e1

    p2 : Bytes
    p2 = element_preimage h.e2

    p3 : Bytes
    p3 = element_preimage h.e3
