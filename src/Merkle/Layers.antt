-- ===== src/Merkle/Layers.antt =====
-- What the layers of a tree should hold: each pairs up the one below it.
use doxa.Prelude.{
  ℕ, zero, suc, ◌+◌, ◌-◌, ◌*◌, ◌/◌, ◌%◌, ◌≤◌, ◌<◌, ◌≡◌, refl, ap, ◌∙◌, false, List, [], ◌∷◌, ◌++◌,
  arith, length, get_or, set, replicate, ◌==◌, if◌then◌else◌, Bool-cases, inl, inr,
}
use doxa.Hasher.{MerkleHash}
use doxa.Merkle.{MerkleTree, write, next_defaults, new}

-- The position beside.
abbrev pub sibling_of : ℕ → ℕ
sibling_of pos = if pos % 2 == 1 then pos - 1 else pos + 1

half_step : (pos : ℕ) → suc (suc pos) / 2 ≡ suc (pos / 2)
half_step pos = omega arith

module _ {D : Type 0} where
  -- `write`, by recursion.
  abbrev pub put : List D → ℕ → D → List D
  put [] i v = v ∷ []
  put (x ∷ xs) zero v = v ∷ xs
  put (x ∷ xs) (suc i) v = x ∷ put xs i v

  pub write-put : (xs : List D) (i : ℕ) (v : D) → write xs i v ≡ put xs i v
  unfolding write
  write-put [] i v = ground arith
  write-put (x ∷ xs) zero v = ground arith
  write-put (x ∷ xs) (suc i) v = ground (arith, write-put xs i v)

  pub put_end : (xs : List D) (v : D) → put xs (length xs) v ≡ xs ++ v ∷ []
  put_end [] v = refl
  put_end (x ∷ xs) v = ap (◌∷◌ x) (put_end xs v)

  pub put-set : (xs : List D) (i : ℕ) (v : D) → i < length xs → put xs i v ≡ set xs i v
  put-set [] i v p = elim p [ ]
  put-set (x ∷ xs) zero v p = refl
  put-set (x ∷ xs) (suc i) v p = ap (◌∷◌ x) (put-set xs i v (omega arith))

module _ {D : Type 0} ⦃h : MerkleHash D⦄ where
  -- The root of an empty tree of a depth.
  abbrev pub default_hash : ℕ → D
  default_hash zero = h.zero_digest
  default_hash (suc k) = let d = default_hash k in h.hash_2_to_1_swapped d d false

  abbrev pub parents : D → List D → List D
  parents default [] = []
  parents default (x ∷ []) = h.hash_2_to_1_swapped x default false ∷ []
  parents default (x ∷ y ∷ xs) = h.hash_2_to_1_swapped x y false ∷ parents default xs

  unfoldable pub build : ℕ → ℕ → List D → List (List D)
  build zero level below = []
  build (suc n) level below =
      let layer = parents (default_hash level) below in layer ∷ build n (level + 1) layer

  -- The tree of a depth that holds given leaves.
  unfoldable pub tree_of : ℕ → List D → MerkleTree D
  unfolding build
  tree_of n leaves = record {
    leaves = leaves;
    layers = build n 0 leaves;
    default_siblings = h.zero_digest ∷ next_defaults (n - 1) h.zero_digest;
  }

  build_nil : (n level : ℕ) → build n level [] ≡ replicate n []
  unfolding build
  build_nil zero level = refl
  build_nil (suc n) level = ap (◌∷◌ []) (build_nil n (level + 1))

  pub length-build : (n level : ℕ) (xs : List D) → length (build n level xs) ≡ n
  unfolding build
  length-build zero level xs = refl
  length-build (suc n) level xs = ap suc (length-build n (level + 1) _)

  -- A new tree is the tree of no leaves.
  pub new-tree_of : (n : ℕ) → new n ≡ tree_of n []
  unfolding new tree_of
  new-tree_of n = rw (build_nil n 0)

  -- The parent at a position of the next layer, with the default for a missing child.
  unfoldable pub parent_at : D → List D → ℕ → D
  parent_at default xs k =
      h.hash_2_to_1_swapped (get_or xs (2 * k) default) (get_or xs (2 * k + 1) default) false

  -- A position hashed with its sibling, on its side, is the pair of an even position.
  pub pair_hash :
      (f : ℕ → D) (pos : ℕ)
      → h.hash_2_to_1_swapped (f pos) (f (sibling_of pos)) (pos % 2 == 1)
        ≡ h.hash_2_to_1_swapped (f (2 * (pos / 2))) (f (2 * (pos / 2) + 1)) false
  pair_hash f pos = elim (Bool-cases (pos % 2 == 1)) [
    | inl right ↦
        let odd : pos ≡ 2 * (pos / 2) + 1 = ground arith in
        let even : pos - 1 ≡ 2 * (pos / 2) = ground arith in
        rw right (
          h.swapped (f pos) (f (pos - 1))
          ∙ (λ i. h.hash_2_to_1_swapped (f (even i)) (f (odd i)) false))
    | inr left ↦
        let even : pos ≡ 2 * (pos / 2) = ground arith in
        let odd : pos + 1 ≡ 2 * (pos / 2) + 1 = ground arith in
        rw left (λ i. h.hash_2_to_1_swapped (f (even i)) (f (odd i)) false)
  ]

  pub parent_at_step :
      (default x y : D) (xs : List D) (k : ℕ)
      → parent_at default (x ∷ y ∷ xs) (suc k) ≡ parent_at default xs k
  unfolding parent_at
  parent_at_step default x y xs k =
      let even : 2 * suc k ≡ suc (suc (2 * k)) = omega arith in
      let odd : 2 * suc k + 1 ≡ suc (suc (2 * k + 1)) = omega arith in
      λ i.
        h.hash_2_to_1_swapped (get_or (x ∷ y ∷ xs) (even i) default)
          (get_or (x ∷ y ∷ xs) (odd i) default) false

  -- Writing one entry writes one parent.
  pub parents-put :
      (default : D) (xs : List D) (pos : ℕ) (v : D)
      → pos ≤ length xs
      → parents default (put xs pos v)
        ≡ put (parents default xs) (pos / 2) (parent_at default (put xs pos v) (pos / 2))
  unfolding parent_at
  parents-put default [] zero v p = refl
  parents-put default [] (suc pos) v p = absurd (omega arith)
  parents-put default (x ∷ []) zero v p = refl
  parents-put default (x ∷ []) (suc zero) v p = refl
  parents-put default (x ∷ []) (suc (suc pos)) v p = absurd (omega arith)
  parents-put default (x ∷ y ∷ xs) zero v p = refl
  parents-put default (x ∷ y ∷ xs) (suc zero) v p = refl
  parents-put default (x ∷ y ∷ xs) (suc (suc pos)) v p =
      rw (half_step pos, parent_at_step default x y (put xs pos v) (pos / 2))
        (ap (◌∷◌ (h.hash_2_to_1_swapped x y false)) (parents-put default xs pos v (omega arith)))

  pub length-parents :
      (default : D) (xs : List D) → length (parents default xs) ≡ (length xs + 1) / 2
  length-parents default [] = omega arith
  length-parents default (x ∷ []) = omega arith
  length-parents default (x ∷ y ∷ xs) = omega (arith, length-parents default xs)
