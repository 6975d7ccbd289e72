-- ===== src/Merkle.antt =====
-- doxa-trees/src/tree.rs: the append-only Merkle tree.
use doxa.Prelude.{
  ℕ, zero, suc, ◌+◌, ◌-◌, ◌/◌, ◌%◌, ◌^◌, Bool, true, false, List, [], ◌∷◌, ◌++◌, Option, none, some,
  length, set, replicate, ltb, leb, ◌==◌, if◌then◌else◌, Result, ok, err, panic, ◌>>=◌, ◌>>◌,
  assert, index, unwrap,
}
pub mod Layers
pub mod Climb
pub mod Ops
pub mod Run
pub mod Full
pub mod Membership
pub mod Verification
pub mod Batch
mod Tests
use doxa.Hasher.{MerkleHash}

pub data MerkleTreeError : Type 0 where
  full_tree root_mismatch : MerkleTreeError
  index_error invalid_batch layer_mismatch : ℕ → MerkleTreeError

pub record MerkleTree (D : Type 0) : Type 0 where
  pub leaves : List D
  pub layers : List (List D)
  pub default_siblings : List D

abbrev pub MerkleTreeResult : Type 0 → Type 0
MerkleTreeResult A = Result MerkleTreeError A

module _ {D : Type 0} where
  pub depth : MerkleTree D → ℕ
  depth t = length t.layers

  unfoldable pub num_leaves : MerkleTree D → ℕ
  num_leaves t = length t.leaves

  pub leaf : MerkleTree D → ℕ → MerkleTreeResult D
  unfolding num_leaves
  leaf t i = if leb (num_leaves t) i then err (index_error i) else index t.leaves i

  -- An existing entry is overwritten and a missing one is appended.
  unfoldable pub write : List D → ℕ → D → List D
  write layer parent h = if ltb parent (length layer) then set layer parent h else layer ++ h ∷ []

  abbrev pub last? : List D → Option D
  last? [] = none
  last? (x ∷ []) = some x
  last? (x ∷ y ∷ xs) = last? (y ∷ xs)

module _ {D : Type 0} ⦃h : MerkleHash D⦄ where
  -- The `count` digests that follow `previous` in `default_siblings`.
  unfoldable pub next_defaults : ℕ → D → List D
  next_defaults zero previous = []
  next_defaults (suc count) previous =
      let d = h.hash_2_to_1_swapped previous previous false in d ∷ next_defaults count d

  unfoldable pub new : ℕ → MerkleTree D
  unfolding next_defaults
  new n = record {
    leaves = [];
    layers = replicate n [];
    default_siblings = h.zero_digest ∷ next_defaults (n - 1) h.zero_digest;
  }

  -- The sibling that the loop bodies read: a right child's must exist, a left child's may be missing.
  pub fetch_sibling : List D → List D → ℕ → ℕ → MerkleTreeResult D
  fetch_sibling defaults below level pos =
      if pos % 2 == 1
      then index below (pos - 1)
      else (if ltb (pos + 1) (length below) then index below (pos + 1) else index defaults level)

  -- One round of the loop for each layer; `below` is the leaves, or the layer that was just written.
  pub climb : List D → List D → ℕ → ℕ → D → List (List D) → MerkleTreeResult (List (List D))
  unfolding write fetch_sibling
  climb defaults below level pos current [] = ok []
  climb defaults below level pos current (layer ∷ rest) = do
    sibling ← fetch_sibling defaults below level pos
    let parent = pos / 2
    let next = h.hash_2_to_1_swapped current sibling (pos % 2 == 1)
    let layer' = write layer parent next
    rest' ← climb defaults layer' (level + 1) parent next rest
    ok (layer' ∷ rest')

  pub update_merkle_path : MerkleTree D → ℕ → MerkleTreeResult (MerkleTree D)
  unfolding climb
  update_merkle_path t i = do
    current ← index t.leaves i
    layers ← climb t.default_siblings t.leaves 0 i current t.layers
    ok (record t { layers = layers })

  pub update_leaf : MerkleTree D → ℕ → D → MerkleTreeResult (MerkleTree D)
  unfolding update_merkle_path
  update_leaf t i new_leaf =
      if leb (length t.leaves) i
      then err (index_error i)
      else update_merkle_path (record t { leaves = set t.leaves i new_leaf }) i

  -- The new tree and the position of the leaf. On an error the caller's tree is as it was.
  unfoldable pub insert : MerkleTree D → D → MerkleTreeResult (MerkleTree D × ℕ)
  unfolding num_leaves depth update_merkle_path
  insert t leaf = if leb (2 ^ depth t) (num_leaves t) then err full_tree else (do
    let pushed = record t { leaves = t.leaves ++ leaf ∷ [] }
    t' ← update_merkle_path pushed (num_leaves pushed - 1)
    ok (t', num_leaves t' - 1))

  -- The root from the last layer.
  pub root_of_layer : List D → List D → MerkleTreeResult D
  root_of_layer defaults [] = do
    last_default ← unwrap (last? defaults)
    ok (h.hash_2_to_1_swapped last_default last_default false)
  root_of_layer defaults (x ∷ xs) = do assert (length (x ∷ xs) == 1); ok x

  unfoldable pub root : MerkleTree D → MerkleTreeResult D
  unfolding root_of_layer
  root t = do last_layer ← unwrap (last? t.layers); root_of_layer t.default_siblings last_layer

  -- `below` of level 0 is the leaves, and of a level above it is `layers[level - 1]`.
  pub path_sibling : MerkleTree D → ℕ → ℕ → MerkleTreeResult D
  path_sibling t level pos = do
    let sibling_pos = if pos % 2 == 1 then pos - 1 else pos + 1
    below ← index (t.leaves ∷ t.layers) level
    if ltb sibling_pos (length below)
        then index below sibling_pos
        else index t.default_siblings level

  -- `for level in level..level + rounds`
  pub path_loop : MerkleTree D → ℕ → ℕ → ℕ → MerkleTreeResult (List D)
  unfolding path_sibling
  path_loop t zero level pos = ok []
  path_loop t (suc rounds) level pos = do
    sibling ← path_sibling t level pos
    rest ← path_loop t rounds (level + 1) (pos / 2)
    ok (sibling ∷ rest)

  pub merkle_path : MerkleTree D → ℕ → ℕ → ℕ → MerkleTreeResult (List D)
  unfolding depth path_loop
  merkle_path t i start_depth end_depth = do
    assert (leb end_depth (depth t))
    assert (ltb start_depth end_depth)
    path_loop t (end_depth - start_depth) start_depth (i / 2 ^ start_depth)
