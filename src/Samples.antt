-- ===== src/Samples.antt =====
-- Small concrete hashes, to run the definitions on.
use doxa.Prelude.{
  ℕ, ◌+◌, ◌*◌, ◌%◌, ◌≡◌, refl, Bool, true, false, if◌then◌else◌, ℕ_discrete, List, [], ◌∷◌,
}
use doxa.Hasher.{MerkleHash, HashOutput, poseidon}

abbrev pub toy_swapped : ℕ → ℕ → Bool → ℕ
toy_swapped l r dir = if dir then (1 + 3 * r + 5 * l) % 1009 else (1 + 3 * l + 5 * r) % 1009

pub toy_swapped_lem : (l r : ℕ) → toy_swapped l r true ≡ toy_swapped r l false
toy_swapped_lem l r = refl

instance abbrev pub toy_hash : MerkleHash ℕ
toy_hash = record {
  zero_digest = 0;
  hash_2_to_1_swapped = toy_swapped;
  eq_digest = ℕ_discrete;
  swapped = toy_swapped_lem;
}

-- A sponge in place of plonky2's.
abbrev pub toy_sum : List ℕ → ℕ
toy_sum [] = 7
toy_sum (x ∷ xs) = (1 + 3 * x + 5 * toy_sum xs) % 1009

abbrev pub toy_no_pad : List ℕ → HashOutput
toy_no_pad xs = record { e0 = toy_sum xs; e1 = 1; e2 = 2; e3 = 3 }

instance abbrev pub toy_poseidon : MerkleHash HashOutput
toy_poseidon = poseidon toy_no_pad
