-- ===== src/Merkle/Run.antt =====
-- Any sequence of `insert` and `update_leaf` calls on a new tree.
use doxa.Prelude.{
  ℕ, zero, suc, ◌^◌, ◌≤◌, ◌≡◌, refl, ap, List, [], ◌∷◌, ◌++◌, arith, length, set, leb,
  if◌then◌else◌, Result, ok, err, panic, Bool-cases, inl, inr, ◌>>=◌,
}
use doxa.Hasher.{MerkleHash}
use doxa.Merkle.{MerkleTree, MerkleTreeError, new, update_leaf, insert}
use doxa.Merkle.Layers.{tree_of, new-tree_of}
use doxa.Merkle.Ops.{update_leaf-tree_of, insert-tree_of}

pub data Op (D : Type 0) : Type 0 where
  insert_leaf : D → Op D
  replace_leaf : ℕ → D → Op D

-- A call that returns an error leaves the tree as it was; a panic ends the run.
pub after {ℓ} : {A : Type ℓ} → A → Result MerkleTreeError A → Result MerkleTreeError A
after t (ok t') = ok t'
after t (err e) = ok t
after t panic = panic

module _ {D : Type 0} where
  -- The same calls on the list of leaves, with room for `capacity` of them.
  unfoldable pub replay : ℕ → List (Op D) → List D → List D
  replay capacity [] xs = xs
  replay capacity (insert_leaf leaf ∷ ops) xs =
      replay capacity ops (if leb capacity (length xs) then xs else xs ++ leaf ∷ [])
  replay capacity (replace_leaf i leaf ∷ ops) xs = replay capacity ops (set xs i leaf)

  set_beyond : (xs : List D) (i : ℕ) (v : D) → length xs ≤ i → set xs i v ≡ xs
  set_beyond [] i v p = refl
  set_beyond (x ∷ xs) zero v p = absurd (omega arith)
  set_beyond (x ∷ xs) (suc i) v p = ap (◌∷◌ x) (set_beyond xs i v (omega arith))

module _ {D : Type 0} ⦃h : MerkleHash D⦄ where
  pub call : MerkleTree D → Op D → Result MerkleTreeError (MerkleTree D)
  call t (insert_leaf leaf) = insert t leaf >>= λ r. ok r.0
  call t (replace_leaf i leaf) = update_leaf t i leaf

  pub run : List (Op D) → MerkleTree D → Result MerkleTreeError (MerkleTree D)
  run [] t = ok t
  run (op ∷ ops) t = after t (call t op) >>= run ops

  run-tree_of :
      (n : ℕ) (ops : List (Op D)) (xs : List D)
      → run ops (tree_of n xs) ≡ ok (tree_of n (replay (2 ^ n) ops xs))
  unfolding run call after replay
  run-tree_of n [] xs = refl
  run-tree_of n (insert_leaf leaf ∷ ops) xs =
      rw (insert-tree_of n xs leaf) (elim (Bool-cases (leb (2 ^ n) (length xs))) [
        | inl full ↦ rw full (run-tree_of n ops xs)
        | inr room ↦ rw room (run-tree_of n ops (xs ++ leaf ∷ []))
      ])
  run-tree_of n (replace_leaf i leaf ∷ ops) xs =
      rw (update_leaf-tree_of n xs i leaf) (elim (Bool-cases (leb (length xs) i)) [
        | inl out ↦ rw (out, set_beyond xs i leaf (ground arith)) (run-tree_of n ops xs)
        | inr inside ↦ rw inside (run-tree_of n ops (set xs i leaf))
      ])

  -- From a new tree, every sequence of `insert` and `update_leaf` calls runs without a panic, and
  -- ends in the tree of the leaves that the same calls leave in a list with room for 2^n of them.
  pub run-new :
      (n : ℕ) (ops : List (Op D)) → run ops (new n) ≡ ok (tree_of n (replay (2 ^ n) ops []))
  run-new n ops = rw (new-tree_of n) (run-tree_of n ops [])
