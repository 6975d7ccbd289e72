-- ===== src/Hasher.antt =====
-- doxa-utils/src/hasher.rs: the trait `MerkleHash` and its implementation for `HashOutput`.
use doxa.Prelude.{ℕ, ◌≡◌, refl, Bool, true, false, if◌then◌else◌, List, [], ◌∷◌, ℕ_discrete}

-- The digests' equality is `Eq`. The direction bit says on which side the running hash stands.
pub record MerkleHash (D : Type 0) : Type 0 where
  pub zero_digest : D
  pub hash_2_to_1_swapped : D → D → Bool → D
  pub eq_digest : Discrete D
  pub swapped : (l r : D) → hash_2_to_1_swapped l r true ≡ hash_2_to_1_swapped r l false

-- Four Goldilocks elements, by their canonical values.
pub record HashOutput : Type 0 where
  pub e0 : ℕ
  pub e1 : ℕ
  pub e2 : ℕ
  pub e3 : ℕ

pub HashOutput-discrete : Discrete HashOutput
HashOutput-discrete = hlevel ℕ_discrete

abbrev pub zero_hash : HashOutput
zero_hash = record { e0 = 0; e1 = 0; e2 = 0; e3 = 0 }

-- `hash_no_pad` is plonky2's Poseidon sponge.
module _ (hash_no_pad : List ℕ → HashOutput) where
  unfoldable pub poseidon_swapped : HashOutput → HashOutput → Bool → HashOutput
  poseidon_swapped l r dir = hash_no_pad (
      if dir
      then r.e0 ∷ r.e1 ∷ r.e2 ∷ r.e3 ∷ l.e0 ∷ l.e1 ∷ l.e2 ∷ l.e3 ∷ []
      else l.e0 ∷ l.e1 ∷ l.e2 ∷ l.e3 ∷ r.e0 ∷ r.e1 ∷ r.e2 ∷ r.e3 ∷ [])

  pub poseidon_swapped_lem :
      (l r : HashOutput) → poseidon_swapped l r true ≡ poseidon_swapped r l false
  unfolding poseidon_swapped
  poseidon_swapped_lem l r = refl

  abbrev pub poseidon : MerkleHash HashOutput
  poseidon = record {
    zero_digest = zero_hash;
    hash_2_to_1_swapped = poseidon_swapped;
    eq_digest = HashOutput-discrete;
    swapped = poseidon_swapped_lem;
  }
