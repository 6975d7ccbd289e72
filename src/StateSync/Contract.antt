-- ===== src/StateSync/Contract.antt =====
-- doxa-state-sync/src/contract.rs: the encodings of hashes on chain. Bytes are numbers below 256.
pub mod Bytes
pub mod Halves
pub mod Encodings
pub mod Decoding
use doxa.Prelude.{
  ℕ, zero, suc, ◌+◌, ◌-◌, ◌*◌, ◌/◌, ◌%◌, ◌^◌, List, [], ◌∷◌, ◌++◌, take, drop, ltb, Result, ok,
  ◌>>=◌, ◌>>◌, ensure,
}
use doxa.Hasher.{HashOutput}

abbrev pub Bytes : Type 0
Bytes = List ℕ

-- The limb, by its position, that is not below the prime.
pub data ContractError : Type 0 where
  limb_out_of_range : ℕ → ContractError

-- `to_be_bytes` of a number of `n` bytes.
unfoldable pub to_be_bytes : ℕ → ℕ → Bytes
to_be_bytes zero v = []
to_be_bytes (suc n) v = to_be_bytes n (v / 256) ++ v % 256 ∷ []

unfoldable pub be_bytes_after : ℕ → Bytes → ℕ
be_bytes_after high [] = high
be_bytes_after high (b ∷ bytes) = be_bytes_after (high * 256 + b) bytes

-- `u64::from_be_bytes`
unfoldable pub from_be_bytes : Bytes → ℕ
unfolding be_bytes_after
from_be_bytes bytes = be_bytes_after 0 bytes

unfoldable pub hash_to_bytes32 : HashOutput → Bytes
unfolding to_be_bytes
hash_to_bytes32 h =
    to_be_bytes 8 h.e0 ++ (to_be_bytes 8 h.e1 ++ (to_be_bytes 8 h.e2 ++ to_be_bytes 8 h.e3))

abbrev pub goldilocks_prime : ℕ
goldilocks_prime = 2 ^ 64 - 2 ^ 32 + 1

-- A limb as an element of the field.
abbrev pub checked_limb : ℕ → ℕ → Result ContractError ℕ
checked_limb i v = do ensure (ltb v goldilocks_prime) (limb_out_of_range i); ok v

-- The four rounds of a loop that checks one limb after another.
abbrev pub checked_hash : ℕ → ℕ → ℕ → ℕ → Result ContractError HashOutput
checked_hash v0 v1 v2 v3 = do
  e0 ← checked_limb 0 v0
  e1 ← checked_limb 1 v1
  e2 ← checked_limb 2 v2
  e3 ← checked_limb 3 v3
  ok (record { e0 = e0; e1 = e1; e2 = e2; e3 = e3 })

abbrev pub limb_bytes : ℕ → Bytes → Bytes
limb_bytes i bytes = take 8 (drop (i * 8) bytes)

-- Of 32 bytes.
unfoldable pub bytes32_to_hash : Bytes → Result ContractError HashOutput
unfolding from_be_bytes
bytes32_to_hash bytes =
    checked_hash (from_be_bytes (limb_bytes 0 bytes)) (from_be_bytes (limb_bytes 1 bytes))
      (from_be_bytes (limb_bytes 2 bytes)) (from_be_bytes (limb_bytes 3 bytes))

unfoldable pub bytes_slice_to_hashes : List Bytes → Result ContractError (List HashOutput)
unfolding bytes32_to_hash
bytes_slice_to_hashes [] = ok []
bytes_slice_to_hashes (b ∷ raw) = do
  h ← bytes32_to_hash b
  rest ← bytes_slice_to_hashes raw
  ok (h ∷ rest)

-- `U256::from_limbs` and `into_limbs`.
unfoldable pub from_limbs : List ℕ → ℕ
from_limbs [] = 0
from_limbs (l ∷ limbs) = l + 2 ^ 64 * from_limbs limbs

abbrev pub limb_of : ℕ → ℕ → ℕ
limb_of zero v = v % 2 ^ 64
limb_of (suc i) v = limb_of i (v / 2 ^ 64)

unfoldable pub hash_to_u256_le : HashOutput → ℕ
unfolding from_limbs
hash_to_u256_le h = from_limbs (h.e0 ∷ h.e1 ∷ h.e2 ∷ h.e3 ∷ [])

unfoldable pub bytes32_be_to_u256_le : Bytes → ℕ
unfolding from_limbs from_be_bytes
bytes32_be_to_u256_le b = from_limbs (
    from_be_bytes (limb_bytes 0 b)
    ∷ from_be_bytes (limb_bytes 1 b)
    ∷ from_be_bytes (limb_bytes 2 b)
    ∷ from_be_bytes (limb_bytes 3 b)
    ∷ [])

unfoldable pub u256_le_to_hash : ℕ → Result ContractError HashOutput
u256_le_to_hash v = checked_hash (limb_of 0 v) (limb_of 1 v) (limb_of 2 v) (limb_of 3 v)

-- An element as its low half and then its high half.
unfoldable pub element_preimage : ℕ → Bytes
unfolding to_be_bytes
element_preimage v = to_be_bytes 4 (v % 2 ^ 32) ++ to_be_bytes 4 ((v / 2 ^ 32) % 2 ^ 32)

unfoldable pub hash_to_preimage_bytes32 : HashOutput → Bytes
unfolding element_preimage
hash_to_preimage_bytes32 h =
    element_preimage h.e0
    ++ (element_preimage h.e1 ++ (element_preimage h.e2 ++ element_preimage h.e3))

-- `for i in 0..count`, which swaps the two halves of each 8 bytes.
unfoldable pub swap_halves : ℕ → Bytes → Bytes
swap_halves zero raw = []
swap_halves (suc count) raw = take 4 (drop 4 raw) ++ (take 4 raw ++ swap_halves count (drop 8 raw))

unfoldable pub raw_to_preimage_bytes32 : Bytes → Bytes
unfolding swap_halves
raw_to_preimage_bytes32 raw = swap_halves 4 raw

unfoldable pub preimage_bytes32_to_raw : Bytes → Bytes
unfolding raw_to_preimage_bytes32
preimage_bytes32_to_raw b = raw_to_preimage_bytes32 b
