-- ===== src/Server/SubtreeRoot.antt =====
-- doxa-server/src/prover_service/subtree_root.rs: `compute_root_native`.
pub mod InPlace
use doxa.Prelude.{
  ℕ, zero, suc, ◌+◌, ◌*◌, ◌/◌, true, false, not, List, [], ◌∷◌, length, set, take, ltb, ◌==◌,
  Result, ok, panic, ◌>>=◌, ◌>>◌, assert, index, is_power_of_two,
}
use doxa.Hasher.{MerkleHash}
use doxa.Merkle.{MerkleTreeResult}

module _ {D : Type 0} ⦃h : MerkleHash D⦄ where
  -- `for i in i..i + rounds`, which overwrites the vector that it reads.
  pub hash_pairs : ℕ → ℕ → List D → MerkleTreeResult (List D)
  hash_pairs zero i leaves = ok leaves
  hash_pairs (suc rounds) i leaves = do
    left ← index leaves (2 * i)
    right ← index leaves (2 * i + 1)
    hash_pairs rounds (i + 1) (set leaves i (h.hash_2_to_1_swapped left right false))

  -- `while leaves.len() > 1`
  pub shrink : ℕ → List D → MerkleTreeResult (List D)
  unfolding hash_pairs
  shrink zero leaves = panic
  shrink (suc fuel) leaves = elim (ltb 1 (length leaves)) [
    | true ↦ do
      let parent_len = length leaves / 2
      hashed ← hash_pairs parent_len 0 leaves
      shrink fuel (take parent_len hashed)
    | false ↦ ok leaves
  ]

  -- Each round at least halves the list, so its length is enough fuel.
  unfoldable pub compute_root_native : List D → MerkleTreeResult D
  unfolding shrink is_power_of_two
  compute_root_native leaves = do
    assert (not (length leaves == 0))
    assert (is_power_of_two (length leaves))
    top ← shrink (length leaves) leaves
    index top 0
