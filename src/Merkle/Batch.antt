-- ===== src/Merkle/Batch.antt =====
-- doxa-trees/src/tree.rs: inserting a batch of leaves at once.
pub mod Fill
pub mod Insert
use doxa.Prelude.{
  ℕ, zero, suc, ◌+◌, ◌-◌, ◌/◌, ◌%◌, ◌^◌, Bool, true, false, List, [], ◌∷◌, ◌++◌, length, ltb, leb,
  ◌==◌, if◌then◌else◌, Result, ok, err, panic, ◌>>=◌, index,
}
use doxa.Hasher.{MerkleHash}
use doxa.Merkle.{
  MerkleTree, MerkleTreeError, MerkleTreeResult, full_tree, index_error, invalid_batch, depth,
  num_leaves, write,
}

-- `usize::is_multiple_of`
abbrev pub is_multiple_of : ℕ → ℕ → Bool
is_multiple_of a b = if b == 0 then a == 0 else a % b == 0

module _ {D : Type 0} where
  -- What a call leaves in the tree, and what it returns.
  abbrev pub keep :
      MerkleTree D → MerkleTreeResult (MerkleTree D) → MerkleTree D × MerkleTreeResult (Unit {0})
  keep t (ok t') = (t', ok tt)
  keep t (err e) = (t, err e)
  keep t panic = (t, panic)

module _ {D : Type 0} ⦃h : MerkleHash D⦄ where
  -- The parent hash of one round of the inner loop.
  pub round_hash : List D → List D → ℕ → ℕ → MerkleTreeResult D
  round_hash defaults prev level pos = do
    let is_right = pos % 2 == 1
    current ← if ltb pos (length prev) then index prev pos else ok h.zero_digest
    let sibling_pos = if is_right then pos - 1 else pos + 1
    sibling ← if ltb sibling_pos (length prev) then index prev sibling_pos else index defaults level
    ok (h.hash_2_to_1_swapped current sibling is_right)

  -- `for pos in pos..pos + rounds`, over the layer that is written.
  pub fill_layer : List D → List D → ℕ → ℕ → ℕ → List D → MerkleTreeResult (List D)
  unfolding round_hash write
  fill_layer defaults prev level zero pos layer = ok layer
  fill_layer defaults prev level (suc rounds) pos layer = do
    parent_hash ← round_hash defaults prev level pos
    fill_layer defaults prev level rounds (pos + 1) (write layer (pos / 2) parent_hash)

  -- `for level in 0..depth`; `prev` is the leaves, or the layer that was just written.
  pub fill_layers : List D → List D → ℕ → ℕ → ℕ → List (List D) → MerkleTreeResult (List (List D))
  unfolding fill_layer
  fill_layers defaults prev level cur_start cur_end [] = ok []
  fill_layers defaults prev level cur_start cur_end (layer ∷ rest) = do
    layer' ← fill_layer defaults prev level (cur_end - cur_start) cur_start layer
    rest' ← fill_layers defaults layer' (level + 1) (cur_start / 2) ((cur_end + 1) / 2) rest
    ok (layer' ∷ rest')

  pub update_consecutive_paths : MerkleTree D → ℕ → ℕ → MerkleTreeResult (MerkleTree D)
  unfolding fill_layers depth
  update_consecutive_paths t start batch_size =
      if ltb (2 ^ depth t) (start + batch_size) then err (index_error (start + batch_size)) else (do
        layers ← fill_layers t.default_siblings t.leaves 0 start (start + batch_size) t.layers
        ok (record t { layers = layers }))

  -- The leaves are extended before `update_consecutive_paths` tests whether they fit.
  pub insert_batch : MerkleTree D → List D → MerkleTree D × MerkleTreeResult (Unit {0})
  unfolding num_leaves depth
  insert_batch t leaves =
      let batch_size = length leaves in
      if is_multiple_of (num_leaves t) batch_size
      then (if leb (2 ^ depth t) (num_leaves t)
          then (t, err full_tree)
          else (let extended = record t { leaves = t.leaves ++ leaves } in
              keep extended
                (update_consecutive_paths extended (num_leaves extended - batch_size) batch_size)))
      else (t, err (invalid_batch batch_size))
