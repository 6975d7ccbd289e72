-- ===== src/Merkle/Batch/Insert.antt =====
-- `insert_batch` on the tree of given leaves.
use doxa.Prelude.{
  ℕ, zero, suc, ◌+◌, ◌-◌, ◌^◌, ◌<◌, ◌≡◌, refl, ◌⊎◌, true, List, [], ◌∷◌, ◌++◌, arith, length,
  length-append, get_or, leb, ltb, if◌then◌else◌, ok, err, Bool-cases, inl, inr,
}
use doxa.Hasher.{MerkleHash}
use doxa.Merkle.{full_tree, index_error, invalid_batch, depth}
use doxa.Merkle.Layers.{build, tree_of, length-build}
use doxa.Merkle.Climb.{defaults_of}
use doxa.Merkle.Batch.{
  is_multiple_of, fill_layers, fill_layer, update_consecutive_paths, insert_batch,
}
use doxa.Merkle.Batch.Fill.{Fills, fill_layers-build}

nonempty_batch : (a b : ℕ) → is_multiple_of a b ≡ true → (a ≡ 0) ⊎ (0 < b)
nonempty_batch a b e = ground arith

module _ {D : Type 0} where
  length_before : (xs ys : List D) → length (xs ++ ys) - length ys ≡ length xs
  length_before xs ys = omega (arith, length-append xs ys)

  get_or-append :
      (xs ys : List D) (i : ℕ) (d : D) → i < length xs → get_or xs i d ≡ get_or (xs ++ ys) i d
  get_or-append [] ys i d p = elim p [ ]
  get_or-append (x ∷ xs) ys zero d p = refl
  get_or-append (x ∷ xs) ys (suc i) d p = get_or-append xs ys i d (omega arith)

  Fills-append : (d : D) (xs ys : List D) → Fills d (xs ++ ys) xs (length xs)
  Fills-append d xs ys = record {
    short = omega (arith, length-append xs ys);
    long = omega arith;
    reads = λ i p. get_or-append xs ys i d p;
  }

module _ {D : Type 0} ⦃h : MerkleHash D⦄ where
  depth-tree_of : (n : ℕ) (xs : List D) → depth (tree_of n xs) ≡ n
  unfolding depth tree_of
  depth-tree_of n xs = length-build n 0 xs

  -- With nothing to write the loops leave the layers as they were.
  fill_layers-nil :
      (n m level : ℕ) (xs : List D)
      → length xs ≡ 0
      → fill_layers (defaults_of n) xs level 0 0 (build m level xs) ≡ ok (build m level xs)
  unfolding fill_layers fill_layer build
  fill_layers-nil n zero level xs e = refl
  fill_layers-nil n (suc m) level [] e = rw (fill_layers-nil n m (level + 1) [] refl)
  fill_layers-nil n (suc m) level (x ∷ xs) e = absurd (omega arith)

  fill_layers-append :
      (n : ℕ) (xs ys : List D)
      → (length xs ≡ 0) ⊎ (0 < length ys)
      → fill_layers (defaults_of n) (xs ++ ys) 0 (length xs) (length xs + length ys) (build n 0 xs)
        ≡ ok (build n 0 (xs ++ ys))
  fill_layers-append n [] [] c = fill_layers-nil n n 0 [] refl
  fill_layers-append n (x ∷ xs) [] c = absurd (omega arith)
  fill_layers-append n xs (y ∷ ys) c =
      let zs = xs ++ y ∷ ys in
      rw (← length-append xs (y ∷ ys)) (
        fill_layers-build n n 0 (length xs) xs zs (omega arith)
          (omega (arith, length-append xs (y ∷ ys))) (Fills-append h.zero_digest xs (y ∷ ys)))

  update_consecutive_paths-append :
      (n : ℕ) (xs ys : List D)
      → (length xs ≡ 0) ⊎ (0 < length ys)
      → update_consecutive_paths
          (record (tree_of n xs) { leaves = xs ++ ys })
          (length xs)
          (length ys)
        ≡ (if ltb (2 ^ n) (length xs + length ys)
            then err (index_error (length xs + length ys))
            else ok (tree_of n (xs ++ ys)))
  unfolding update_consecutive_paths tree_of
  update_consecutive_paths-append n xs ys c =
      rw (length-build n 0 xs) (rw (fill_layers-append n xs ys c))

  -- What `insert_batch` does on every branch, on the tree of depth n of any leaves: a size that
  -- does not divide the number of leaves is refused, and so is any batch for a full tree, and both
  -- leave the tree as it was; a batch that does not fit is refused with the leaves extended under
  -- the old layers; any other batch leaves the tree of depth n of the leaves with it at their end.
  pub insert_batch-tree_of :
      (n : ℕ) (xs ys : List D)
      → insert_batch (tree_of n xs) ys ≡ (
          if is_multiple_of (length xs) (length ys)
          then (if leb (2 ^ n) (length xs)
              then (tree_of n xs, err full_tree)
              else (if ltb (2 ^ n) (length xs + length ys)
                  then (
                    record (tree_of n xs) { leaves = xs ++ ys },
                    err (index_error (length xs + length ys)),
                  )
                  else (tree_of n (xs ++ ys), ok tt)))
          else (tree_of n xs, err (invalid_batch (length ys))))
  unfolding insert_batch tree_of
  insert_batch-tree_of n xs ys =
      rw (length-build n 0 xs) (elim (Bool-cases (is_multiple_of (length xs) (length ys))) [
        | inl divides ↦ rw divides (elim (Bool-cases (leb (2 ^ n) (length xs))) [
          | inl full ↦ rw full
          | inr room ↦ rw room (
              rw (length_before xs ys) (
                rw (update_consecutive_paths-append n xs ys (nonempty_batch _ _ divides))
                  (elim (Bool-cases (ltb (2 ^ n) (length xs + length ys))) [
                    | inl over ↦ rw over
                    | inr fits ↦ rw fits
                  ])))
        ])
        | inr other ↦ rw other
      ])
