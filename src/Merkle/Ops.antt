-- ===== src/Merkle/Ops.antt =====
-- `insert` and `update_leaf` on the tree of given leaves, and on any sequence of calls.
use doxa.Prelude.{
  ℕ, zero, suc, ◌-◌, ◌^◌, ◌≤◌, ◌≡◌, refl, ap, List, [], ◌∷◌, ◌++◌, arith, length, set, leb,
  if◌then◌else◌, ok, err, index, Bool-cases, inl, inr, length-append,
}
use doxa.Hasher.{MerkleHash}
use doxa.Merkle.{MerkleTreeError, full_tree, index_error, update_merkle_path, update_leaf, insert}
use doxa.Merkle.Layers.{put, put_end, put-set, tree_of, length-build}
use doxa.Merkle.Climb.{climb-build}

module _ {D : Type 0} ⦃h : MerkleHash D⦄ where
  index-put :
      (xs : List D) (i : ℕ) (v : D)
      → i ≤ length xs
      → index {E = MerkleTreeError} (put xs i v) i ≡ ok v
  index-put [] zero v p = refl
  index-put [] (suc i) v p = absurd (omega arith)
  index-put (x ∷ xs) zero v p = refl
  index-put (x ∷ xs) (suc i) v p = index-put xs i v (omega arith)

  pub update_merkle_path-tree_of :
      (n : ℕ) (xs : List D) (i : ℕ) (v : D)
      → i ≤ length xs
      → update_merkle_path (record (tree_of n xs) { leaves = put xs i v }) i
        ≡ ok (tree_of n (put xs i v))
  unfolding update_merkle_path tree_of
  update_merkle_path-tree_of n xs i v p =
      rw (index-put xs i v p) (rw (climb-build n n 0 xs i v (omega arith) p))

  pub update_leaf-tree_of :
      (n : ℕ) (xs : List D) (i : ℕ) (v : D)
      → update_leaf (tree_of n xs) i v
        ≡ (if leb (length xs) i then err (index_error i) else ok (tree_of n (set xs i v)))
  unfolding update_leaf tree_of
  update_leaf-tree_of n xs i v = elim (Bool-cases (leb (length xs) i)) [
    | inl out ↦ rw out
    | inr inside ↦
        rw inside (
          rw (← put-set xs i v (ground arith)) (update_merkle_path-tree_of n xs i v (ground arith)))
  ]

  pub insert-tree_of :
      (n : ℕ) (xs : List D) (leaf : D)
      → insert (tree_of n xs) leaf ≡ (
          if leb (2 ^ n) (length xs)
          then err full_tree
          else ok (tree_of n (xs ++ leaf ∷ []), length xs))
  unfolding insert tree_of
  insert-tree_of n xs leaf = rw (length-build n 0 xs) (elim (Bool-cases (leb (2 ^ n) (length xs))) [
    | inl full ↦ rw full
    | inr room ↦ rw room (
        rw (← put_end xs leaf) (
          let last : length (put xs (length xs) leaf) - 1 ≡ length xs =
            omega (arith, ap length (put_end xs leaf), length-append xs (leaf ∷ [])) in
          rw last (
            rw (index-put xs (length xs) leaf (omega arith))
              (rw (climb-build n n 0 xs (length xs) leaf (omega arith) (omega arith)) (rw last)))))
  ])
