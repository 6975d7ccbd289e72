-- ===== src/StateSync/Contract/Encodings.antt =====
-- What the encodings of a hash on chain give back.
use doxa.Prelude.{
  ℕ, ◌*◌, ◌<◌, ◌≡◌, refl, sym, ap, ◌∙◌, [], ◌∷◌, ◌++◌, arith, length, length-append, append_assoc,
  append-nil, take, lt→ltb, ok,
}
use doxa.Hasher.{HashOutput}
use doxa.StateSync.Contract.{
  Bytes, to_be_bytes, from_be_bytes, hash_to_bytes32, goldilocks_prime, checked_hash, limb_bytes,
  bytes32_to_hash, from_limbs, limb_of, hash_to_u256_le, bytes32_be_to_u256_le, u256_le_to_hash,
  hash_to_preimage_bytes32, preimage_bytes32_to_raw,
}
use doxa.StateSync.Contract.Halves.{hash_to_preimage_bytes32-swapped}
use doxa.StateSync.Contract.Bytes.{
  IsU64, take-append_exact, drop-append_exact, length-to_be_bytes, from_be_bytes-to_be_bytes,
}

-- The elements are canonical: below the prime.
pub record IsCanonical (h : HashOutput) : Type 0 where
  pub c0 : h.e0 < goldilocks_prime
  pub c1 : h.e1 < goldilocks_prime
  pub c2 : h.e2 < goldilocks_prime
  pub c3 : h.e3 < goldilocks_prime

IsU64-IsCanonical : (h : HashOutput) → IsCanonical h → IsU64 h
IsU64-IsCanonical h c = record {
  c0 = omega (arith, c.c0);
  c1 = omega (arith, c.c1);
  c2 = omega (arith, c.c2);
  c3 = omega (arith, c.c3);
}

checked_hash-canonical : (h : HashOutput) → IsCanonical h → checked_hash h.e0 h.e1 h.e2 h.e3 ≡ ok h
checked_hash-canonical h c = rw (lt→ltb h.e0 goldilocks_prime c.c0) (
    rw (lt→ltb h.e1 goldilocks_prime c.c1)
      (rw (lt→ltb h.e2 goldilocks_prime c.c2) (rw (lt→ltb h.e3 goldilocks_prime c.c3))))

limb_at :
    (i : ℕ) (front limb back : Bytes)
    → length front ≡ i * 8
    → length limb ≡ 8
    → limb_bytes i (front ++ (limb ++ back)) ≡ limb
limb_at i front limb back f l =
    ap (take 8) (drop-append_exact (i * 8) front (limb ++ back) f) ∙ take-append_exact 8 limb back l

-- The limbs of four 8-byte pieces.
module _ (b0 b1 b2 b3 : Bytes) (l0 : length b0 ≡ 8) (l1 : length b1 ≡ 8) (l2 : length b2 ≡ 8)
    (l3 : length b3 ≡ 8) where
  abbrev pieces : Bytes
  pieces = b0 ++ (b1 ++ (b2 ++ b3))

  limb0 : limb_bytes 0 pieces ≡ b0
  limb0 = limb_at 0 [] b0 (b1 ++ (b2 ++ b3)) refl l0

  limb1 : limb_bytes 1 pieces ≡ b1
  limb1 = limb_at 1 b0 b1 (b2 ++ b3) l0 l1

  limb2 : limb_bytes 2 pieces ≡ b2
  limb2 =
      ap (limb_bytes 2) (sym (append_assoc b0 b1 (b2 ++ b3)))
      ∙ limb_at 2 (b0 ++ b1) b2 b3 (omega (arith, length-append b0 b1, l0, l1)) l2

  limb3 : limb_bytes 3 pieces ≡ b3
  limb3 =
      ap (limb_bytes 3) (
        ap (λ b. b0 ++ (b1 ++ (b2 ++ b))) (sym (append-nil b3))
        ∙ ap (λ b. b0 ++ b) (sym (append_assoc b1 b2 (b3 ++ [])))
        ∙ sym (append_assoc b0 (b1 ++ b2) (b3 ++ [])))
      ∙ limb_at 3 (b0 ++ (b1 ++ b2)) b3 []
          (omega (arith, length-append b0 (b1 ++ b2), length-append b1 b2, l0, l1, l2)) l3

module _ (h : HashOutput) (u : IsU64 h) where
  abbrev bytes_of : ℕ → Bytes
  bytes_of v = to_be_bytes 8 v

  read0 : from_be_bytes (limb_bytes 0 (hash_to_bytes32 h)) ≡ h.e0
  unfolding hash_to_bytes32
  read0 =
      ap from_be_bytes (
        limb0 (bytes_of h.e0) (bytes_of h.e1) (bytes_of h.e2) (bytes_of h.e3)
          (length-to_be_bytes 8 h.e0) (length-to_be_bytes 8 h.e1) (length-to_be_bytes 8 h.e2)
          (length-to_be_bytes 8 h.e3))
      ∙ from_be_bytes-to_be_bytes 8 h.e0 u.c0

  read1 : from_be_bytes (limb_bytes 1 (hash_to_bytes32 h)) ≡ h.e1
  unfolding hash_to_bytes32
  read1 =
      ap from_be_bytes (
        limb1 (bytes_of h.e0) (bytes_of h.e1) (bytes_of h.e2) (bytes_of h.e3)
          (length-to_be_bytes 8 h.e0) (length-to_be_bytes 8 h.e1) (length-to_be_bytes 8 h.e2)
          (length-to_be_bytes 8 h.e3))
      ∙ from_be_bytes-to_be_bytes 8 h.e1 u.c1

  read2 : from_be_bytes (limb_bytes 2 (hash_to_bytes32 h)) ≡ h.e2
  unfolding hash_to_bytes32
  read2 =
      ap from_be_bytes (
        limb2 (bytes_of h.e0) (bytes_of h.e1) (bytes_of h.e2) (bytes_of h.e3)
          (length-to_be_bytes 8 h.e0) (length-to_be_bytes 8 h.e1) (length-to_be_bytes 8 h.e2)
          (length-to_be_bytes 8 h.e3))
      ∙ from_be_bytes-to_be_bytes 8 h.e2 u.c2

  read3 : from_be_bytes (limb_bytes 3 (hash_to_bytes32 h)) ≡ h.e3
  unfolding hash_to_bytes32
  read3 =
      ap from_be_bytes (
        limb3 (bytes_of h.e0) (bytes_of h.e1) (bytes_of h.e2) (bytes_of h.e3)
          (length-to_be_bytes 8 h.e0) (length-to_be_bytes 8 h.e1) (length-to_be_bytes 8 h.e2)
          (length-to_be_bytes 8 h.e3))
      ∙ from_be_bytes-to_be_bytes 8 h.e3 u.c3

bytes32_to_hash-checked :
    (h : HashOutput)
    → IsU64 h
    → bytes32_to_hash (hash_to_bytes32 h) ≡ checked_hash h.e0 h.e1 h.e2 h.e3
unfolding bytes32_to_hash
bytes32_to_hash-checked h u =
    λ i. checked_hash (read0 h u i) (read1 h u i) (read2 h u i) (read3 h u i)

bytes32_be_to_u256_le-hash :
    (h : HashOutput) → IsU64 h → bytes32_be_to_u256_le (hash_to_bytes32 h) ≡ hash_to_u256_le h
unfolding bytes32_be_to_u256_le hash_to_u256_le
bytes32_be_to_u256_le-hash h u =
    λ i. from_limbs (read0 h u i ∷ read1 h u i ∷ read2 h u i ∷ read3 h u i ∷ [])

u256_le_to_hash-checked :
    (h : HashOutput)
    → IsU64 h
    → u256_le_to_hash (hash_to_u256_le h) ≡ checked_hash h.e0 h.e1 h.e2 h.e3
unfolding u256_le_to_hash hash_to_u256_le from_limbs
u256_le_to_hash-checked h u =
    let r0 : limb_of 0 (hash_to_u256_le h) ≡ h.e0 = omega (arith, u.c0) in
    let r1 : limb_of 1 (hash_to_u256_le h) ≡ h.e1 = omega (arith, u.c0, u.c1) in
    let r2 : limb_of 2 (hash_to_u256_le h) ≡ h.e2 = omega (arith, u.c0, u.c1, u.c2) in
    let r3 : limb_of 3 (hash_to_u256_le h) ≡ h.e3 = omega (arith, u.c0, u.c1, u.c2, u.c3) in
    λ i. checked_hash (r0 i) (r1 i) (r2 i) (r3 i)

-- For a hash of canonical elements, each encoding gives the hash back: as 32 bytes, as the number
-- made of those bytes, and as the number of its limbs; and the bytes of its pre-image form, with
-- the halves of each element swapped, are its 32 bytes.
pub hash_encodings :
    (h : HashOutput)
    → IsCanonical h
    → (bytes32_to_hash (hash_to_bytes32 h) ≡ ok h)
      × (u256_le_to_hash (bytes32_be_to_u256_le (hash_to_bytes32 h)) ≡ ok h)
      × (u256_le_to_hash (hash_to_u256_le h) ≡ ok h)
      × (preimage_bytes32_to_raw (hash_to_preimage_bytes32 h) ≡ hash_to_bytes32 h)
hash_encodings h c =
    let u = IsU64-IsCanonical h c in
    let number = u256_le_to_hash-checked h u ∙ checked_hash-canonical h c in
    (
      bytes32_to_hash-checked h u ∙ checked_hash-canonical h c,
      ap u256_le_to_hash (bytes32_be_to_u256_le-hash h u) ∙ number,
      number,
      hash_to_preimage_bytes32-swapped h u,
    )
