-- ===== src/Merkle/Climb.antt =====
-- `update_merkle_path` rebuilds the layers above a leaf that was written.
use doxa.Prelude.{
  ℕ, zero, suc, ◌+◌, ◌-◌, ◌/◌, ◌%◌, ◌≤◌, ◌<◌, ◌≡◌, refl, ap, sym, List, [], ◌∷◌, arith, length,
  get_or, ltb, ◌==◌, if◌then◌else◌, ok, index, index-get_or, Bool-cases, inl, inr, ◌∙◌,
}
use doxa.Hasher.{MerkleHash}
use doxa.Merkle.{MerkleTreeError, next_defaults, fetch_sibling, climb}
use doxa.Merkle.Layers.{
  sibling_of, pair_hash, put, write-put, default_hash, parents, build, parent_at, parents-put,
  length-parents,
}

module _ {D : Type 0} where
  pub get_or-put : (xs : List D) (i : ℕ) (v d : D) → i ≤ length xs → get_or (put xs i v) i d ≡ v
  get_or-put [] zero v d p = refl
  get_or-put [] (suc i) v d p = absurd (omega arith)
  get_or-put (x ∷ xs) zero v d p = refl
  get_or-put (x ∷ xs) (suc i) v d p = get_or-put xs i v d (omega arith)

  pub get_or_end : (xs : List D) (i : ℕ) (d : D) → length xs ≤ i → get_or xs i d ≡ d
  get_or_end [] i d p = refl
  get_or_end (x ∷ xs) zero d p = absurd (omega arith)
  get_or_end (x ∷ xs) (suc i) d p = get_or_end xs i d (omega arith)

  pub length-put : (xs : List D) (i : ℕ) (v : D) → length xs ≤ length (put xs i v)
  length-put [] i v = omega arith
  length-put (x ∷ xs) zero v = omega arith
  length-put (x ∷ xs) (suc i) v = omega (arith, length-put xs i v)

  pub lt-length-put : (xs : List D) (i : ℕ) (v : D) → i ≤ length xs → i < length (put xs i v)
  lt-length-put [] zero v p = omega arith
  lt-length-put [] (suc i) v p = absurd (omega arith)
  lt-length-put (x ∷ xs) zero v p = omega arith
  lt-length-put (x ∷ xs) (suc i) v p = omega (arith, lt-length-put xs i v)

module _ {D : Type 0} ⦃h : MerkleHash D⦄ where
  -- The list of defaults that a tree of a depth keeps.
  abbrev pub defaults_of : ℕ → List D
  defaults_of n = h.zero_digest ∷ next_defaults (n - 1) h.zero_digest

  next_defaults-index :
      (n base i : ℕ)
      → i < n
      → index {E = MerkleTreeError} {A = D} (next_defaults n (default_hash base)) i
        ≡ ok (default_hash (suc (base + i)))
  unfolding next_defaults
  next_defaults-index zero base i p = elim p [ ]
  next_defaults-index (suc n) base zero p = ap (λ k. ok (default_hash (suc k))) (omega arith)
  next_defaults-index (suc n) base (suc i) p =
      next_defaults-index n (suc base) i (omega arith)
      ∙ ap (λ k. ok (default_hash (suc k))) (omega arith)

  pub defaults_of-index :
      (n i : ℕ) → i < n → index {E = MerkleTreeError} (defaults_of n) i ≡ ok (default_hash i)
  defaults_of-index n zero p = refl
  defaults_of-index n (suc i) p =
      next_defaults-index (n - 1) 0 i (omega arith)
      ∙ ap (λ k. ok (default_hash (suc k))) (omega arith)

  -- A read that falls back to the default of the level.
  pub read_or_default :
      (n level : ℕ) (ys : List D) (i : ℕ)
      → level < n
      → (if ltb i (length ys)
          then index ys i
          else index {E = MerkleTreeError} (defaults_of n) level)
        ≡ ok (get_or ys i (default_hash level))
  read_or_default n level ys i l = elim (Bool-cases (ltb i (length ys))) [
    | inl inside ↦ rw inside (index-get_or ys i (default_hash level) (ground arith))
    | inr outside ↦ rw outside (
        defaults_of-index n level l
        ∙ ap ok (sym (get_or_end ys i (default_hash level) (ground arith))))
  ]

  -- The hash that a round of the loop computes is the parent, and no read of it panics.
  sibling_round :
      (n level : ℕ) (xs : List D) (pos : ℕ) (v : D)
      → level < n
      → pos ≤ length xs
      → (s : D) × (fetch_sibling (defaults_of n) (put xs pos v) level pos ≡ ok s)
        × (h.hash_2_to_1_swapped v s (pos % 2 == 1)
            ≡ parent_at (default_hash level) (put xs pos v) (pos / 2))
  unfolding fetch_sibling parent_at
  sibling_round n level xs pos v l p = (
    get_or zs (sibling_of pos) d,
    elim (Bool-cases (pos % 2 == 1)) [
      | inl right ↦ rw right (index-get_or zs (pos - 1) d (omega (arith, lt-length-put xs pos v p)))
      | inr left ↦ rw left (read_or_default n level zs (pos + 1) l)
    ],
    ap (λ c. h.hash_2_to_1_swapped c (get_or zs (sibling_of pos) d) (pos % 2 == 1))
          (sym (get_or-put xs pos v d p))
        ∙ pair_hash (λ k. get_or zs k d) pos,
  )
    where
      zs : List D
      zs = put xs pos v

      d : D
      d = default_hash level

  half-le :
      (xs : List D) (default : D) (pos : ℕ)
      → pos ≤ length xs
      → pos / 2 ≤ length (parents default xs)
  half-le xs default pos p = omega (arith, length-parents default xs)

  pub climb-build :
      (n m level : ℕ) (xs : List D) (pos : ℕ) (v : D)
      → level + m ≤ n
      → pos ≤ length xs
      → climb (defaults_of n) (put xs pos v) level pos v (build m level xs)
        ≡ ok (build m level (put xs pos v))
  unfolding climb build
  climb-build n zero level xs pos v l p = refl
  climb-build n (suc m) level xs pos v l p =
      let (s, fetched, hashed) = sibling_round n level xs pos v (omega arith) p in
      rw fetched (
        rw hashed (
          rw (write-put _ _ _) (
            rw (← parents-put (default_hash level) xs pos v p) (
              rw (
                rw (← parents-put (default_hash level) xs pos v p) at (
                  climb-build n m (level + 1) (parents (default_hash level) xs) (pos / 2)
                    (parent_at (default_hash level) (put xs pos v) (pos / 2)) (omega arith)
                    (half-le xs (default_hash level) pos p)))))))
