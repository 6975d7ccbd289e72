-- ===== src/Merkle/Membership/Walk.antt =====
-- The proofs that a tree gives are accepted.
use mathlib.Core.Logic.{if_pos}
use native.Mathlib.Nat.{pow-suc, pow-succ', div-eq_of_lt, div-div-eq-div-mul}
use doxa.Prelude.{
  ℕ, zero, suc, ◌+◌, ◌-◌, ◌*◌, ◌/◌, ◌%◌, ◌^◌, ◌≤◌, ◌<◌, ◌≡◌, refl, sym, ap, ap₂, subst₂, ◌∙◌, Bool,
  true, false, List, [], ◌∷◌, ltb, leb, ◌==◌, if◌then◌else◌, ok, index, arith, lt→ltb, length,
  get_or,
}
use doxa.Hasher.{MerkleHash}
use doxa.Merkle.{MerkleTreeError, depth, num_leaves, merkle_path, root, path_loop, path_sibling}
use doxa.Merkle.Layers.{sibling_of, pair_hash, tree_of, length-build}
use doxa.Merkle.Climb.{read_or_default}
use doxa.Merkle.Full.{node, layer_above, build-index, layer_above-node, root-node}
use doxa.Merkle.Membership.{MerkleProof, path_bits, merkle_proof, walk, verify}

-- The bits of a position, lowest first.
pub bits_of : ℕ → ℕ → List Bool
bits_of zero pos = []
bits_of (suc n) pos = (pos % 2 == 1) ∷ bits_of n (pos / 2)

shift_step : (i j : ℕ) → i / 2 ^ (j + 1) ≡ i / 2 ^ j / 2
shift_step i j =
    let e : 2 ^ (j + 1) ≡ 2 ^ j * 2 = ap (λ k. 2 ^ k) (omega arith) ∙ pow-suc 2 j in
    ap (λ m. i / m) e ∙ sym (div-div-eq-div-mul i (2 ^ j) 2)

path_bits-bits_of : (n j i : ℕ) → path_bits n j i ≡ bits_of n (i / 2 ^ j)
unfolding path_bits bits_of
path_bits-bits_of zero j i = refl
path_bits-bits_of (suc n) j i =
    ap (◌∷◌ (i / 2 ^ j % 2 == 1)) (path_bits-bits_of n (j + 1) i ∙ ap (bits_of n) (shift_step i j))

leb_self : (n : ℕ) → leb n n ≡ true
leb_self n = ground arith

module _ {D : Type 0} ⦃h : MerkleHash D⦄ where
  -- The siblings on the way up in the full tree.
  unfoldable pub siblings_of : List D → ℕ → ℕ → ℕ → List D
  siblings_of xs zero level pos = []
  siblings_of xs (suc rounds) level pos =
      node xs level (sibling_of pos) ∷ siblings_of xs rounds (level + 1) (pos / 2)

  path_sibling-node :
      (n level pos : ℕ) (xs : List D)
      → level < n
      → path_sibling (tree_of n xs) level pos ≡ ok (node xs level (sibling_of pos))
  unfolding path_sibling tree_of node
  path_sibling-node n level pos xs p = rw (build-index n 0 level xs (omega arith)) (
      read_or_default n level (layer_above 0 xs level) (sibling_of pos) p
      ∙ ap ok (layer_above-node xs level 0 level xs (omega arith) (λ i. refl) (sibling_of pos)))

  path_loop-siblings_of :
      (n rounds level pos : ℕ) (xs : List D)
      → level + rounds ≤ n
      → path_loop (tree_of n xs) rounds level pos ≡ ok (siblings_of xs rounds level pos)
  unfolding path_loop siblings_of
  path_loop-siblings_of n zero level pos xs p = refl
  path_loop-siblings_of n (suc rounds) level pos xs p =
      rw (path_sibling-node n level pos xs (omega arith))
        (rw (path_loop-siblings_of n rounds (level + 1) (pos / 2) xs (omega arith)))

  -- Hashing a node with its sibling gives its parent.
  node_step :
      (xs : List D) (level pos : ℕ)
      → h.hash_2_to_1_swapped (node xs level pos) (node xs level (sibling_of pos)) (pos % 2 == 1)
        ≡ node xs (level + 1) (pos / 2)
  unfolding node
  node_step xs level pos =
      let up : suc level ≡ level + 1 = omega arith in
      pair_hash (node xs level) pos ∙ ap (λ k. node xs k (pos / 2)) up

  walk-node :
      (xs : List D) (rounds level pos : ℕ)
      → walk (node xs level pos) (bits_of rounds pos) (siblings_of xs rounds level pos)
        ≡ node xs (level + rounds) (pos / 2 ^ rounds)
  unfolding walk bits_of siblings_of
  walk-node xs zero level pos = ap₂ (node xs) (omega arith) (omega arith)
  walk-node xs (suc rounds) level pos =
      rw (node_step xs level pos)
        (walk-node xs rounds (level + 1) (pos / 2) ∙ ap₂ (node xs) (omega arith) halved)
    where
      halved : pos / 2 / 2 ^ rounds ≡ pos / 2 ^ suc rounds
      halved = div-div-eq-div-mul pos 2 (2 ^ rounds) ∙ ap (λ m. pos / m) (sym (pow-succ' 2 rounds))

  -- The proof that a tree of given leaves makes for a position.
  abbrev pub proof_of : ℕ → List D → ℕ → MerkleProof D
  proof_of n xs i = record {
    leaf = get_or xs i h.zero_digest;
    siblings = siblings_of xs n 0 i;
    path = path_bits n 0 i;
    pos = i;
    num_leaves = length xs;
    root = node xs n 0;
  }

  depth-tree_of : (n : ℕ) (xs : List D) → depth (tree_of n xs) ≡ n
  unfolding depth tree_of
  depth-tree_of n xs = length-build n 0 xs

  num_leaves-tree_of : (n : ℕ) (xs : List D) → num_leaves (tree_of n xs) ≡ length xs
  unfolding num_leaves tree_of
  num_leaves-tree_of n xs = refl

  leaf_read :
      (n : ℕ) (xs : List D) (i : ℕ)
      → (if ltb i (length xs)
          then index {E = MerkleTreeError} (tree_of n xs).leaves i
          else ok h.zero_digest)
        ≡ ok (get_or xs i h.zero_digest)
  unfolding tree_of
  leaf_read n xs i = read_or_default 1 0 xs i (omega arith)

  merkle_path-siblings_of :
      (n : ℕ) (xs : List D) (i : ℕ)
      → 0 < n
      → merkle_path (tree_of n xs) i 0 n ≡ ok (siblings_of xs n 0 i)
  unfolding merkle_path
  merkle_path-siblings_of n xs i pos =
      rw (depth-tree_of n xs, leb_self, lt→ltb 0 n pos)
        (subst₂ (λ r q. path_loop (tree_of n xs) r 0 q ≡ ok (siblings_of xs n 0 i)) all start
          (path_loop-siblings_of n n 0 i xs (omega arith)))
    where
      all : n ≡ n - 0
      all = omega arith

      start : i ≡ i / 2 ^ 0
      start = omega arith

  merkle_proof-proof_of :
      (n : ℕ) (xs : List D) (i : ℕ)
      → 0 < n
      → length xs ≤ 2 ^ n
      → merkle_proof (tree_of n xs) i ≡ ok (proof_of n xs i)
  unfolding merkle_proof
  merkle_proof-proof_of n xs i pos p = rw (depth-tree_of n xs) (
      rw (merkle_path-siblings_of n xs i pos)
        (rw (num_leaves-tree_of n xs) (rw (leaf_read n xs i) (rw (root-node n xs pos p)))))

  verify-proof_of : (n : ℕ) (xs : List D) (i : ℕ) → i < 2 ^ n → verify (proof_of n xs i) ≡ true
  unfolding verify node
  verify-proof_of n xs i p = if_pos _ reached true false
    where
      bits : path_bits n 0 i ≡ bits_of n i
      bits = path_bits-bits_of n 0 i ∙ (let e : i / 2 ^ 0 ≡ i = omega arith in ap (bits_of n) e)

      reached : walk (node xs 0 i) (path_bits n 0 i) (siblings_of xs n 0 i) ≡ node xs n 0
      reached =
          ap (λ b. walk (node xs 0 i) b (siblings_of xs n 0 i)) bits
          ∙ walk-node xs n 0 i
          ∙ ap₂ (node xs) (omega arith) (div-eq_of_lt p)

  -- For every position of a tree, of a leaf that was inserted or not, `merkle_proof` gives a proof
  -- whose leaf is what the position holds (zero if nothing), whose root is the tree's, and that
  -- `verify` accepts.
  pub verify-merkle_proof :
      (n : ℕ) (xs : List D) (i : ℕ)
      → 0 < n
      → length xs ≤ 2 ^ n
      → i < 2 ^ n
      → (p : MerkleProof D) × (merkle_proof (tree_of n xs) i ≡ ok p)
        × (verify p ≡ true)
        × (p.leaf ≡ get_or xs i h.zero_digest)
        × (root (tree_of n xs) ≡ ok p.root)
  verify-merkle_proof n xs i pos p q = (
    proof_of n xs i,
    merkle_proof-proof_of n xs i pos p,
    verify-proof_of n xs i q,
    refl,
    root-node n xs pos p,
  )
