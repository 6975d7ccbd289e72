-- ===== src/Merkle/Verification.antt =====
-- doxa-trees/src/verification.rs: recomputing a tree from its leaves.
pub mod Sound
use mathlib.Core.Logic.{ite}
use doxa.Prelude.{
  ℕ, zero, suc, ◌+◌, Bool, true, false, ◌&&◌, List, [], ◌∷◌, if◌then◌else◌, Result, ok, err, index,
  ◌>>=◌, ◌>>◌,
}
use doxa.Hasher.{MerkleHash}
use doxa.Merkle.{MerkleTree, MerkleTreeResult, layer_mismatch, root_mismatch, depth, root}

module _ {D : Type 0} ⦃h : MerkleHash D⦄ where
  -- The `while` loop over the pairs of a layer, which steps by two.
  pub expected_layer : List D → ℕ → List D → MerkleTreeResult (List D)
  expected_layer defaults level [] = ok []
  expected_layer defaults level (left ∷ []) = do
    right ← index defaults level
    ok (h.hash_2_to_1_swapped left right false ∷ [])
  expected_layer defaults level (left ∷ right ∷ rest) = do
    next ← expected_layer defaults level rest
    ok (h.hash_2_to_1_swapped left right false ∷ next)

  -- `==` of two vectors of digests
  pub same_layer : List D → List D → Bool
  same_layer [] [] = true
  same_layer [] (y ∷ ys) = false
  same_layer (x ∷ xs) [] = false
  same_layer (x ∷ xs) (y ∷ ys) = ite (h.eq_digest x y) true false && same_layer xs ys

  unfoldable pub verify_layers : List D → ℕ → List D → List (List D) → MerkleTreeResult (Unit {0})
  unfolding expected_layer same_layer
  verify_layers defaults level prev_hashes [] = ok tt
  verify_layers defaults level prev_hashes (layer ∷ layers) = do
    expected ← expected_layer defaults level prev_hashes
    let rest = verify_layers defaults (level + 1) expected layers
    if same_layer expected layer then rest else err (layer_mismatch level)

  pub recompute_loop : List D → ℕ → ℕ → List D → MerkleTreeResult (List D)
  unfolding expected_layer
  recompute_loop defaults zero level current = ok current
  recompute_loop defaults (suc rounds) level current = do
    next ← expected_layer defaults level current
    recompute_loop defaults rounds (level + 1) next

  unfoldable pub recompute_root : MerkleTree D → MerkleTreeResult D
  unfolding recompute_loop
  recompute_root t = do
    current ← recompute_loop t.default_siblings (depth t) 0 t.leaves
    index current 0

  unfoldable pub verify_root : MerkleTree D → MerkleTreeResult (Unit {0})
  unfolding recompute_root
  verify_root t = do
    recomputed_root ← recompute_root t
    stored_root ← root t
    ite (h.eq_digest recomputed_root stored_root) (ok tt) (err root_mismatch)

  unfoldable pub verify : MerkleTree D → MerkleTreeResult (Unit {0})
  verify t = do verify_layers t.default_siblings 0 t.leaves t.layers; verify_root t
