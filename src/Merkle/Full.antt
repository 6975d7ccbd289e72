-- ===== src/Merkle/Full.antt =====
-- The tree that `MerkleTree` stands for: full, of 2^depth leaves, the missing ones zero.
use native.Mathlib.Nat.{pow-suc}
use doxa.Prelude.{
  ℕ, zero, suc, ◌+◌, ◌-◌, ◌*◌, ◌^◌, ◌≤◌, ◌<◌, ◌≡◌, refl, sym, ap, subst, ◌∙◌, false, List, [], ◌∷◌,
  arith, length, get_or, ok, index, some,
}
use doxa.Hasher.{MerkleHash}
use doxa.Merkle.{MerkleTreeError, root, root_of_layer, next_defaults, last?}
use doxa.Merkle.Climb.{get_or_end}
use doxa.Merkle.Layers.{
  default_hash, parents, parent_at, parent_at_step, build, tree_of, length-parents,
}

suc_pred : (n : ℕ) → suc n - 1 ≡ n
suc_pred n = omega arith

module _ {D : Type 0} ⦃h : MerkleHash D⦄ where
  -- The node at a height and a position, straight from the leaves.
  unfoldable pub node : List D → ℕ → ℕ → D
  node xs zero i = get_or xs i h.zero_digest
  node xs (suc k) i = h.hash_2_to_1_swapped (node xs k (2 * i)) (node xs k (2 * i + 1)) false

  -- The layer `j` above `ys`, which is the layer of height `level`.
  unfoldable pub layer_above : ℕ → List D → ℕ → List D
  layer_above level ys zero = ys
  layer_above level ys (suc j) = layer_above (level + 1) (parents (default_hash level) ys) j

  pub build-index :
      (n level j : ℕ) (ys : List D)
      → j ≤ n
      → index {E = MerkleTreeError} (ys ∷ build n level ys) j ≡ ok (layer_above level ys j)
  unfolding layer_above build
  build-index n level zero ys p = refl
  build-index zero level (suc j) ys p = absurd (omega arith)
  build-index (suc n) level (suc j) ys p =
      build-index n (level + 1) j (parents (default_hash level) ys) (omega arith)

  pub last?-build :
      (n level : ℕ) (ys : List D)
      → last? (build (suc n) level ys) ≡ some (layer_above level ys (suc n))
  unfolding layer_above build
  last?-build zero level ys = refl
  last?-build (suc n) level ys = last?-build n (level + 1) (parents (default_hash level) ys)

  pub get_or-parents :
      (level : ℕ) (ys : List D) (i : ℕ)
      → get_or (parents (default_hash level) ys) i (default_hash (suc level))
        ≡ parent_at (default_hash level) ys i
  unfolding parent_at
  get_or-parents level [] i = refl
  get_or-parents level (x ∷ []) zero = refl
  get_or-parents level (x ∷ []) (suc i) =
      let d = default_hash level in
      let left = get_or_end (x ∷ []) (2 * suc i) d (omega arith) in
      let right = get_or_end (x ∷ []) (2 * suc i + 1) d (omega arith) in
      λ k. h.hash_2_to_1_swapped (sym left k) (sym right k) false
  get_or-parents level (x ∷ y ∷ ys) zero = refl
  get_or-parents level (x ∷ y ∷ ys) (suc i) =
      get_or-parents level ys i ∙ sym (parent_at_step (default_hash level) x y ys i)

  parents-node :
      (xs : List D) (level m : ℕ) (ys : List D)
      → suc level ≡ m
      → ((i : ℕ) → get_or ys i (default_hash level) ≡ node xs level i)
      → (i : ℕ) → get_or (parents (default_hash level) ys) i (default_hash m) ≡ node xs m i
  unfolding parent_at node
  parents-node xs level m ys e reads i =
      subst (λ m. get_or (parents (default_hash level) ys) i (default_hash m) ≡ node xs m i) e
        (get_or-parents level ys i
          ∙ (λ k. h.hash_2_to_1_swapped (reads (2 * i) k) (reads (2 * i + 1) k) false))

  -- Each layer reads as the full tree does.
  pub layer_above-node :
      (xs : List D) (j level k : ℕ) (ys : List D)
      → level + j ≡ k
      → ((i : ℕ) → get_or ys i (default_hash level) ≡ node xs level i)
      → (i : ℕ) → get_or (layer_above level ys j) i (default_hash k) ≡ node xs k i
  unfolding layer_above
  layer_above-node xs zero level k ys e reads i =
      (let e' : level ≡ k = omega arith in
        subst (λ k. get_or ys i (default_hash k) ≡ node xs k i) e' (reads i))
  layer_above-node xs (suc j) level k ys e reads i =
      layer_above-node xs j (level + 1) k (parents (default_hash level) ys) (omega arith)
        (parents-node xs level (level + 1) ys (omega arith) reads) i

  length-layer_above :
      (j level : ℕ) (ys : List D) → length ys ≤ 2 ^ j → length (layer_above level ys j) ≤ 1
  unfolding layer_above
  length-layer_above zero level ys p = p
  length-layer_above (suc j) level ys p =
      length-layer_above j (level + 1) (parents (default_hash level) ys)
        (omega (arith, length-parents (default_hash level) ys, pow-suc 2 j))

  last?-next_defaults :
      (n level k : ℕ)
      → level + n ≡ k
      → last? {D = D} (default_hash level ∷ next_defaults n (default_hash level))
        ≡ some (default_hash k)
  unfolding next_defaults
  last?-next_defaults zero level k e =
      (let e' : level ≡ k = omega arith in ap (λ k. some (default_hash k)) e')
  last?-next_defaults (suc n) level k e = last?-next_defaults n (suc level) k (omega arith)

  root_of_layer-get_or :
      (n : ℕ) (ys : List D)
      → length ys ≤ 1
      → root_of_layer (default_hash 0 ∷ next_defaults n (default_hash 0)) ys
        ≡ ok (get_or ys 0 (default_hash (suc n)))
  unfolding root_of_layer
  root_of_layer-get_or n [] p = rw (last?-next_defaults n 0 n (omega arith))
  root_of_layer-get_or n (x ∷ []) p = refl
  root_of_layer-get_or n (x ∷ y ∷ ys) p = absurd (omega arith)

  -- The root is the top of the full tree, also where no leaf was ever inserted.
  pub root-node :
      (n : ℕ) (xs : List D) → 0 < n → length xs ≤ 2 ^ n → root (tree_of n xs) ≡ ok (node xs n 0)
  unfolding root tree_of node
  root-node zero xs pos p = elim pos [ ]
  root-node (suc n) xs pos p = rw (last?-build n 0 xs) (
      rw (suc_pred n) (
        root_of_layer-get_or n _ (length-layer_above (suc n) 0 xs p)
        ∙ ap ok (layer_above-node xs (suc n) 0 (suc n) xs (omega arith) (λ i. refl) 0)))
