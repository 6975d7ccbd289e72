-- ===== src/Merkle/Verification/Sound.antt =====
-- When `verify` accepts a tree.
use mathlib.Core.Logic.{if_pos}
use doxa.Prelude.{
  ℕ, zero, suc, ◌+◌, ◌^◌, ◌≤◌, ◌<◌, ◌≡◌, refl, sym, ap, ap₂, subst, ◌∙◌, true, false, List, [], ◌∷◌,
  arith, length, ok, err, panic, index-get_or, if◌then◌else◌, Bool-cases, inl, inr, ok_of_bind,
}
use doxa.Hasher.{MerkleHash}
use doxa.Merkle.{MerkleTree, layer_mismatch, depth}
use doxa.Merkle.Layers.{default_hash, parents, build, tree_of, length-build, length-parents}
use doxa.Merkle.Climb.{defaults_of, defaults_of-index}
use doxa.Merkle.Full.{node, root-node, layer_above, layer_above-node}
use doxa.Merkle.Verification.{
  expected_layer, same_layer, verify_layers, recompute_loop, recompute_root, verify_root, verify,
}

module _ {D : Type 0} ⦃h : MerkleHash D⦄ where
  expected_layer-parents :
      (n level : ℕ) (ys : List D)
      → level < n
      → expected_layer (defaults_of n) level ys ≡ ok (parents (default_hash level) ys)
  unfolding expected_layer
  expected_layer-parents n level [] l = refl
  expected_layer-parents n level (x ∷ []) l = rw (defaults_of-index n level l)
  expected_layer-parents n level (x ∷ y ∷ ys) l = rw (expected_layer-parents n level ys l)

  same_layer_refl : (ys : List D) → same_layer ys ys ≡ true
  unfolding same_layer
  same_layer_refl [] = refl
  same_layer_refl (y ∷ ys) = rw (if_pos (h.eq_digest y y) refl true false) (same_layer_refl ys)

  eq_of_same_layer : (xs ys : List D) → same_layer xs ys ≡ true → xs ≡ ys
  unfolding same_layer
  eq_of_same_layer [] [] e = refl
  eq_of_same_layer [] (y ∷ ys) e = cc
  eq_of_same_layer (x ∷ xs) [] e = cc
  eq_of_same_layer (x ∷ xs) (y ∷ ys) e = ground (arith, eq_of_same_layer xs ys)

  verify_layers-build :
      (n m level : ℕ) (ys : List D)
      → level + m ≤ n
      → verify_layers (defaults_of n) level ys (build m level ys) ≡ ok tt
  unfolding verify_layers build
  verify_layers-build n zero level ys l = refl
  verify_layers-build n (suc m) level ys l = rw (expected_layer-parents n level ys (omega arith)) (
      rw (same_layer_refl (parents (default_hash level) ys))
        (verify_layers-build n m (level + 1) (parents (default_hash level) ys) (omega arith)))

  build-verify_layers :
      (n level : ℕ) (ys : List D) (layers : List (List D))
      → level + length layers ≤ n
      → verify_layers (defaults_of n) level ys layers ≡ ok tt
      → layers ≡ build (length layers) level ys
  unfolding verify_layers build
  build-verify_layers n level ys [] l e = refl
  build-verify_layers n level ys (layer ∷ layers) l e = elim (Bool-cases (same_layer pairs layer)) [
    | inl same ↦
        ap₂ ◌∷◌ (sym (eq_of_same_layer pairs layer same))
          (build-verify_layers n (level + 1) pairs layers (omega arith) (rw same at checked))
    | inr other ↦ absurd (refuted other)
  ]
    where
      pairs : List D
      pairs = parents (default_hash level) ys

      checked :
          (if same_layer pairs layer
            then verify_layers (defaults_of n) (level + 1) pairs layers
            else err (layer_mismatch level))
          ≡ ok tt
      checked = rw (expected_layer-parents n level ys (omega arith)) at e

      refuted : same_layer pairs layer ≡ false → ⊥
      refuted other = let h = rw other at checked in cc

  recompute_loop-layer_above :
      (n m level : ℕ) (ys : List D)
      → level + m ≤ n
      → recompute_loop (defaults_of n) m level ys ≡ ok (layer_above level ys m)
  unfolding recompute_loop layer_above
  recompute_loop-layer_above n zero level ys l = refl
  recompute_loop-layer_above n (suc m) level ys l =
      rw (expected_layer-parents n level ys (omega arith))
        (recompute_loop-layer_above n m (level + 1) (parents (default_hash level) ys) (omega arith))

  layer_above_pos :
      (j level : ℕ) (ys : List D) → 0 < length ys → 0 < length (layer_above level ys j)
  unfolding layer_above
  layer_above_pos zero level ys p = p
  layer_above_pos (suc j) level ys p =
      layer_above_pos j (level + 1) (parents (default_hash level) ys)
        (omega (arith, length-parents (default_hash level) ys))

  layer_above_nil : (j level : ℕ) → layer_above {D = D} level [] j ≡ []
  unfolding layer_above
  layer_above_nil zero level = refl
  layer_above_nil (suc j) level = layer_above_nil j (level + 1)

  depth-tree_of : (n : ℕ) (xs : List D) → depth (tree_of n xs) ≡ n
  unfolding depth tree_of
  depth-tree_of n xs = length-build n 0 xs

  recompute_root-node :
      (n : ℕ) (xs : List D) → 0 < length xs → recompute_root (tree_of n xs) ≡ ok (node xs n 0)
  unfolding recompute_root tree_of node
  recompute_root-node n xs p = rw (depth-tree_of n xs) (
      rw (recompute_loop-layer_above n n 0 xs (omega arith)) (
        index-get_or (layer_above 0 xs n) 0 (default_hash n) (layer_above_pos n 0 xs p)
        ∙ ap ok (layer_above-node xs n 0 n xs (omega arith) (λ i. refl) 0)))

  verify_layers-tree_of :
      (n : ℕ) (xs : List D)
      → verify_layers (tree_of n xs).default_siblings 0 (tree_of n xs).leaves (tree_of n xs).layers
        ≡ ok tt
  unfolding tree_of
  verify_layers-tree_of n xs = verify_layers-build n n 0 xs (omega arith)

  -- The tree of any leaves, at least one and at most 2 ^ n, whose depth n is at least 1 is accepted.
  pub verify-tree_of :
      (n : ℕ) (xs : List D)
      → 0 < n
      → 0 < length xs
      → length xs ≤ 2 ^ n
      → verify (tree_of n xs) ≡ ok tt
  unfolding verify verify_root
  verify-tree_of n xs pos some_leaf p = rw (verify_layers-tree_of n xs) (
      rw (recompute_root-node n xs some_leaf)
        (rw (root-node n xs pos p) (if_pos (h.eq_digest (node xs n 0) (node xs n 0)) refl _ _)))

  -- On a tree with no leaf, `verify` panics, at every depth.
  pub verify_empty : (n : ℕ) (xs : List D) → length xs ≡ 0 → verify (tree_of n xs) ≡ panic
  unfolding verify verify_root recompute_root tree_of
  verify_empty n [] p = rw (verify_layers-tree_of n []) (
      rw (depth-tree_of n [])
        (rw (recompute_loop-layer_above n n 0 [] (omega arith)) (rw (layer_above_nil n 0))))
  verify_empty n (x ∷ xs) p = absurd (omega arith)

  -- A tree that is accepted, and whose default siblings are those of its depth (`verify` reads them
  -- but does not check them), is, layer by layer, the tree of its leaves.
  pub tree_of-verify :
      (t : MerkleTree D)
      → t.default_siblings ≡ defaults_of (depth t)
      → verify t ≡ ok tt
      → t ≡ tree_of (depth t) t.leaves
  unfolding verify tree_of depth
  tree_of-verify t d e = λ i. record { leaves = t.leaves; layers = built i; default_siblings = d i }
    where
      accepted : verify_layers t.default_siblings 0 t.leaves t.layers ≡ ok tt
      accepted =
          (ok_of_bind (λ _. verify_root t) (verify_layers t.default_siblings 0 t.leaves t.layers) tt
            e).2

      built : t.layers ≡ build (depth t) 0 t.leaves
      built =
          build-verify_layers (depth t) 0 t.leaves t.layers (omega arith)
            (subst (λ ds. verify_layers ds 0 t.leaves t.layers ≡ ok tt) d accepted)
