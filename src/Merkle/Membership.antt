-- ===== src/Merkle/Membership.antt =====
-- doxa-trees/src/merkle_proof.rs: membership proofs.
pub mod Walk
use mathlib.Core.Logic.{ite}
use doxa.Prelude.{
  ℕ, zero, suc, ◌+◌, ◌/◌, ◌%◌, ◌^◌, Bool, true, false, List, [], ◌∷◌, ltb, ◌==◌, if◌then◌else◌,
  Result, ok, index, ◌>>=◌,
}
use doxa.Hasher.{MerkleHash}
use doxa.Merkle.{MerkleTree, MerkleTreeResult, depth, num_leaves, merkle_path, root}

pub record MerkleProof (D : Type 0) : Type 0 where
  pub leaf : D
  pub siblings : List D
  pub path : List Bool
  pub pos : ℕ
  pub num_leaves : ℕ
  pub root : D

-- `(j..j + rounds).map(|j| (index >> j) & 1 == 1)`
pub path_bits : ℕ → ℕ → ℕ → List Bool
path_bits zero j i = []
path_bits (suc rounds) j i = (i / 2 ^ j % 2 == 1) ∷ path_bits rounds (j + 1) i

module _ {D : Type 0} ⦃h : MerkleHash D⦄ where
  unfoldable pub merkle_proof : MerkleTree D → ℕ → MerkleTreeResult (MerkleProof D)
  unfolding path_bits
  merkle_proof t i = do
    siblings ← merkle_path t i 0 (depth t)
    leaf ← if ltb i (num_leaves t) then index t.leaves i else ok h.zero_digest
    root ← root t
    ok (record {
      leaf = leaf;
      siblings = siblings;
      path = path_bits (depth t) 0 i;
      pos = i;
      num_leaves = num_leaves t;
      root = root;
    })

  -- The loop of `verify`, over the zip of the bits and the siblings.
  pub walk : D → List Bool → List D → D
  walk current (bit ∷ bits) (sibling ∷ siblings) =
      walk (h.hash_2_to_1_swapped current sibling bit) bits siblings
  walk current [] siblings = current
  walk current (bit ∷ bits) [] = current

  unfoldable pub verify : MerkleProof D → Bool
  unfolding walk
  verify p = ite (h.eq_digest (walk p.leaf p.path p.siblings) p.root) true false
