-- ===== src/Server/SubtreeRoot/InPlace.antt =====
-- The in-place loop computes the root of the tree of the same leaves.
use native.Mathlib.Nat.{pow-suc}
use doxa.Prelude.{
  get_or-set_self, get_or-set_ne, get_or-take, length-take_le, ℕ, zero, suc, ◌+◌, ◌*◌, ◌/◌, ◌^◌,
  ◌≤◌, ◌<◌, ◌≡◌, refl, sym, ap, subst, ◌∙◌, false, List, [], ◌∷◌, arith, length, get_or, set, take,
  ok, ◌>>=◌, index, index-get_or, is_power_of_two, is_power_of_two-pow, pow-pos, lt-pow, lt→ltb,
  ◌==◌, dec_lt, length-set,
}
use doxa.Hasher.{MerkleHash}
use doxa.Merkle.{MerkleTreeError, root}
use doxa.Merkle.Layers.{default_hash, parents, parent_at, length-parents, tree_of}
use doxa.Merkle.Full.{get_or-parents, layer_above, layer_above-node, node, root-node}
use doxa.Merkle.Batch.Fill.{eq_of_reads}
use doxa.Server.SubtreeRoot.{hash_pairs, shrink, compute_root_native}

nonzero : (n : ℕ) → 0 < n → (n == 0) ≡ false
nonzero n p = ground arith

module _ {D : Type 0} ⦃h : MerkleHash D⦄ where
  -- The first `i` entries are hashed, and the others are as they were.
  record Hashed (level : ℕ) (xs current : List D) (i : ℕ) : Type 0 where
    same_length : length current ≡ length xs
    hashed :
        (j : ℕ)
        → j < i
        → get_or current j (default_hash (suc level)) ≡ parent_at (default_hash level) xs j
    untouched :
        (j : ℕ) → i ≤ j → get_or current j (default_hash level) ≡ get_or xs j (default_hash level)

  Hashed-step :
      (level i : ℕ) (xs current : List D)
      → i < length xs
      → Hashed level xs current i
      → Hashed level xs (set current i (parent_at (default_hash level) xs i)) (i + 1)
  Hashed-step level i xs current p f = record {
    same_length = length-set current i _ ∙ f.same_length;
    hashed = λ j q. elim (dec_lt j i) [
      | yes before ↦ get_or-set_ne current i j _ _ (omega arith) ∙ f.hashed j before
      | no other ↦
          subst
            (λ k.
              get_or (set current i (parent_at (default_hash level) xs i)) k
                (default_hash (suc level))
              ≡ parent_at (default_hash level) xs k)
            (last j q other) (get_or-set_self current i _ _ (omega (arith, f.same_length)))
    ];
    untouched = λ j q. get_or-set_ne current i j _ _ (omega arith) ∙ f.untouched j (omega arith);
  }
    where
      last : (j : ℕ) → j < i + 1 → ¬ (j < i) → i ≡ j
      last j q other = omega arith

  hash_pairs-Hashed :
      (level rounds i : ℕ) (xs current : List D)
      → 2 * (i + rounds) ≤ length xs
      → Hashed level xs current i
      → (current' : List D) × (hash_pairs rounds i current ≡ ok current')
        × Hashed level xs current' (i + rounds)
  unfolding hash_pairs parent_at
  hash_pairs-Hashed level zero i xs current p f =
      (current, refl, subst (Hashed level xs current) (omega arith) f)
  hash_pairs-Hashed level (suc rounds) i xs current p f =
      let d = default_hash level in
      let left = f.untouched (2 * i) (omega arith) in
      let right = f.untouched (2 * i + 1) (omega arith) in
      let (current', runs, filled) =
        hash_pairs-Hashed level rounds (i + 1) xs (set current i (parent_at d xs i)) (omega arith)
          (Hashed-step level i xs current (omega arith) f) in
      (
        current',
        rw (index-get_or {E = MerkleTreeError} current (2 * i) d (omega (arith, f.same_length))) (
            rw
              (index-get_or {E = MerkleTreeError} current (2 * i + 1) d
                (omega (arith, f.same_length)))
              (ap (λ v. hash_pairs rounds (i + 1) (set current i v))
                  (λ k. h.hash_2_to_1_swapped (left k) (right k) false)
                ∙ runs)),
        subst (Hashed level xs current') (omega arith) filled,
      )

  -- A round leaves the next layer at the front.
  hash_pairs-parents :
      (level m : ℕ) (xs : List D)
      → length xs ≡ 2 * m
      → (current : List D) × (hash_pairs m 0 xs ≡ ok current)
        × (take m current ≡ parents (default_hash level) xs)
  hash_pairs-parents level m xs e =
      let (current, runs, f) =
        hash_pairs-Hashed level m 0 xs xs (omega (arith, e))
          (record { same_length = refl; hashed = λ j q. elim q [ ]; untouched = λ j q. refl }) in
      let size = length-take_le m current (omega (arith, f.same_length, e)) in
      (
        current,
        runs,
        eq_of_reads (default_hash (suc level)) (take m current) (parents (default_hash level) xs)
            (omega (arith, size, length-parents (default_hash level) xs, e))
            (λ i p.
              get_or-take m current i _ (omega (arith, size))
              ∙ f.hashed i (omega (arith, size))
              ∙ sym (get_or-parents level xs i)),
      )

  shrink_round :
      (fuel m : ℕ) (xs current next : List D)
      → 1 < length xs
      → length xs / 2 ≡ m
      → hash_pairs m 0 xs ≡ ok current
      → take m current ≡ next
      → shrink (suc fuel) xs ≡ shrink fuel next
  unfolding shrink
  shrink_round fuel m xs current next p half runs front =
      rw (shrink, lt→ltb 1 (length xs) p)
        ((λ i. hash_pairs (half i) 0 xs >>= λ hashed. shrink fuel (take (half i) hashed))
          ∙ ap (λ r. r >>= λ hashed. shrink fuel (take m hashed)) runs
          ∙ ap (shrink fuel) front)

  shrink-layer_above :
      (k level fuel : ℕ) (xs : List D)
      → k < fuel
      → length xs ≡ 2 ^ k
      → shrink fuel xs ≡ ok (layer_above level xs k)
  unfolding shrink layer_above
  shrink-layer_above k level zero xs p e = elim p [ ]
  shrink-layer_above zero level (suc fuel) [] p e = absurd (omega arith)
  shrink-layer_above zero level (suc fuel) (x ∷ []) p e = refl
  shrink-layer_above zero level (suc fuel) (x ∷ y ∷ xs) p e = absurd (omega arith)
  shrink-layer_above (suc k) level (suc fuel) xs p e =
      let (current, runs, front) =
        hash_pairs-parents level (2 ^ k) xs (omega (arith, e, pow-suc 2 k)) in
      shrink_round fuel (2 ^ k) xs current (parents (default_hash level) xs)
        (omega (arith, e, pow-suc 2 k, pow-pos k)) (omega (arith, e, pow-suc 2 k)) runs front
      ∙ shrink-layer_above k (level + 1) fuel (parents (default_hash level) xs) (omega arith)
          (omega (arith, length-parents (default_hash level) xs, e, pow-suc 2 k))

  leaf_reads : (xs : List D) (i : ℕ) → get_or xs i (default_hash 0) ≡ node xs 0 i
  unfolding node
  leaf_reads xs i = refl

  length-layer_above :
      (k level : ℕ) (ys : List D) → length ys ≡ 2 ^ k → length (layer_above level ys k) ≡ 1
  unfolding layer_above
  length-layer_above zero level ys e = e
  length-layer_above (suc k) level ys e =
      length-layer_above k (level + 1) (parents (default_hash level) ys)
        (omega (arith, length-parents (default_hash level) ys, e, pow-suc 2 k))

  -- Given 2^k leaves, the root of the full tree of height k above them.
  pub compute_root_native-node :
      (k : ℕ) (leaves : List D)
      → length leaves ≡ 2 ^ k
      → compute_root_native leaves ≡ ok (node leaves k 0)
  unfolding compute_root_native
  compute_root_native-node k leaves e =
      let d = default_hash k in
      let top = layer_above 0 leaves k in
      let reads : get_or top 0 d ≡ node leaves k 0 =
        layer_above-node leaves k 0 k leaves (omega arith) (leaf_reads leaves) 0 in
      let found : index {E = MerkleTreeError} top 0 ≡ ok (node leaves k 0) =
        index-get_or top 0 d (omega (arith, length-layer_above k 0 leaves e)) ∙ ap ok reads in
      let shrunk : shrink (length leaves) leaves ≡ ok top =
        shrink-layer_above k 0 (length leaves) leaves (omega (arith, e, lt-pow k)) e in
      rw (nonzero (length leaves) (omega (arith, e, pow-pos k)))
        (rw (ap is_power_of_two e ∙ is_power_of_two-pow k) (rw shrunk found))

  -- Given 2^k leaves with 0 < k, `compute_root_native` returns what `root` returns for the tree of
  -- depth k of those leaves.
  pub compute_root_native-root :
      (k : ℕ) (leaves : List D)
      → 0 < k
      → length leaves ≡ 2 ^ k
      → compute_root_native leaves ≡ root (tree_of k leaves)
  compute_root_native-root k leaves p e =
      compute_root_native-node k leaves e ∙ sym (root-node k leaves p (omega (arith, e)))
