-- ===== src/Merkle/Batch/Fill.antt =====
-- The loops of `update_consecutive_paths` turn the layers of the old leaves into those of the new.
use doxa.Prelude.{
  ℕ, zero, suc, ◌+◌, ◌-◌, ◌*◌, ◌/◌, ◌≤◌, ◌<◌, ◌≡◌, refl, sym, ap, ap₂, subst, ◌∙◌, false, List, [],
  ◌∷◌, arith, length, get_or, lt→ltb, dec_lt, ok, index-get_or,
}
use doxa.Hasher.{MerkleHash}
use doxa.Merkle.{MerkleTreeError, write}
use doxa.Merkle.Layers.{
  sibling_of, pair_hash, put, write-put, default_hash, parents, parent_at, build, length-parents,
}
use doxa.Merkle.Climb.{defaults_of, read_or_default, get_or-put, lt-length-put}
use doxa.Merkle.Full.{get_or-parents}
use doxa.Merkle.Batch.{round_hash, fill_layer, fill_layers}

suc_eq : (n : ℕ) → suc n ≡ n + 1
suc_eq n = omega arith

module _ {D : Type 0} where
  -- The layer holds the first `q` entries of the target, and is not longer.
  pub record Fills (d : D) (target layer : List D) (q : ℕ) : Type 0 where
    pub short : length layer ≤ length target
    pub long : q ≤ length layer
    pub reads : (i : ℕ) → i < q → get_or layer i d ≡ get_or target i d

  pub eq_of_reads :
      (d : D) (xs ys : List D)
      → length xs ≡ length ys
      → ((i : ℕ) → i < length xs → get_or xs i d ≡ get_or ys i d)
      → xs ≡ ys
  eq_of_reads d [] [] e r = refl
  eq_of_reads d [] (y ∷ ys) e r = absurd (omega arith)
  eq_of_reads d (x ∷ xs) [] e r = absurd (omega arith)
  eq_of_reads d (x ∷ xs) (y ∷ ys) e r =
      ap₂ ◌∷◌ (r 0 (omega arith))
        (eq_of_reads d xs ys (omega arith) (λ i p. r (suc i) (omega arith)))

  pub Fills-eq :
      (d : D) (target layer : List D) → Fills d target layer (length target) → layer ≡ target
  Fills-eq d target layer f =
      eq_of_reads d layer target (omega (arith, f.short, f.long))
        (λ i p. f.reads i (omega (arith, f.short)))

  get_or-put_lt :
      (xs : List D) (k i : ℕ) (v d : D)
      → i < k
      → k ≤ length xs
      → get_or (put xs k v) i d ≡ get_or xs i d
  get_or-put_lt [] zero i v d p q = elim p [ ]
  get_or-put_lt [] (suc k) i v d p q = absurd (omega arith)
  get_or-put_lt (x ∷ xs) zero i v d p q = elim p [ ]
  get_or-put_lt (x ∷ xs) (suc k) zero v d p q = refl
  get_or-put_lt (x ∷ xs) (suc k) (suc i) v d p q =
      get_or-put_lt xs k i v d (omega arith) (omega arith)

  length-put_le :
      (xs : List D) (k m : ℕ) (v : D)
      → length xs ≤ m
      → k < m
      → k ≤ length xs
      → length (put xs k v) ≤ m
  length-put_le [] k m v p q r = omega arith
  length-put_le (x ∷ xs) zero m v p q r = omega arith
  length-put_le (x ∷ xs) (suc k) zero v p q r = absurd (omega arith)
  length-put_le (x ∷ xs) (suc k) (suc m) v p q r =
      omega (arith, length-put_le xs k m v (omega arith) (omega arith) (omega arith))

  -- Writing the target's entry at the end of what is filled fills one more.
  Fills-write :
      (d : D) (target layer : List D) (k : ℕ)
      → k < length target
      → Fills d target layer k
      → Fills d target (write layer k (get_or target k d)) (k + 1)
  Fills-write d target layer k p f = rw (write-put layer k (get_or target k d)) (record {
    short = length-put_le layer k (length target) (get_or target k d) f.short p f.long;
    long = omega (arith, lt-length-put layer k (get_or target k d) f.long);
    reads = λ i q. elim (dec_lt i k) [
      | yes before ↦ get_or-put_lt layer k i (get_or target k d) d before f.long ∙ f.reads i before
      | no other ↦
          subst (λ j. get_or (put layer k (get_or target k d)) j d ≡ get_or target j d)
            (last i q other) (get_or-put layer k (get_or target k d) d f.long)
    ];
  })
    where
      last : (i : ℕ) → i < k + 1 → ¬ (i < k) → k ≡ i
      last i q other = omega arith

  Fills-weaken :
      (d : D) (target layer : List D) (k m : ℕ)
      → m ≤ k
      → Fills d target layer k
      → Fills d target layer m
  Fills-weaken d target layer k m p f = record {
    short = f.short;
    long = omega (arith, f.long);
    reads = λ i q. f.reads i (omega arith);
  }

module _ {D : Type 0} ⦃h : MerkleHash D⦄ where
  -- A round of the inner loop computes the parent in the next layer.
  round_hash-parent :
      (n level pos : ℕ) (prev : List D)
      → level < n
      → pos < length prev
      → round_hash (defaults_of n) prev level pos
        ≡ ok (parent_at (default_hash level) prev (pos / 2))
  unfolding round_hash parent_at
  round_hash-parent n level pos prev l p = rw (lt→ltb pos (length prev) p) (
      rw (index-get_or {E = MerkleTreeError} prev pos (default_hash level) p) (
        rw (read_or_default n level prev (sibling_of pos) l)
          (ap ok (pair_hash (λ k. get_or prev k (default_hash level)) pos))))

  abbrev next_layer : ℕ → List D → List D
  next_layer level xs = parents (default_hash level) xs

  fill_round :
      (n level pos : ℕ) (prev layer : List D)
      → level < n
      → pos < length prev
      → Fills (default_hash (suc level)) (next_layer level prev) layer (pos / 2)
      → Fills
          (default_hash (suc level))
          (next_layer level prev)
          (write layer (pos / 2) (parent_at (default_hash level) prev (pos / 2)))
          (pos / 2 + 1)
  fill_round n level pos prev layer l p f =
      subst
        (λ v.
          Fills (default_hash (suc level)) (next_layer level prev) (write layer (pos / 2) v)
            (pos / 2 + 1))
        (get_or-parents level prev (pos / 2))
        (Fills-write (default_hash (suc level)) (next_layer level prev) layer (pos / 2)
          (omega (arith, length-parents (default_hash level) prev)) f)

  fill_layer-Fills :
      (n level rounds pos : ℕ) (prev layer : List D)
      → level < n
      → pos + suc rounds ≤ length prev
      → Fills (default_hash (suc level)) (next_layer level prev) layer (pos / 2)
      → (layer' : List D) × (fill_layer (defaults_of n) prev level (suc rounds) pos layer
          ≡ ok layer')
        × Fills
            (default_hash (suc level))
            (next_layer level prev)
            layer'
            ((pos + suc rounds + 1) / 2)
  unfolding fill_layer
  fill_layer-Fills n level zero pos prev layer l p f = (
    write layer (pos / 2) (parent_at (default_hash level) prev (pos / 2)),
    rw (round_hash-parent n level pos prev l (omega arith)),
    subst (Fills _ _ _) (omega arith) (fill_round n level pos prev layer l (omega arith) f),
  )
  fill_layer-Fills n level (suc rounds) pos prev layer l p f =
      let written = write layer (pos / 2) (parent_at (default_hash level) prev (pos / 2)) in
      let step =
        Fills-weaken _ _ _ (pos / 2 + 1) ((pos + 1) / 2) (omega arith)
          (fill_round n level pos prev layer l (omega arith) f) in
      let (layer', runs, filled) =
        fill_layer-Fills n level rounds (pos + 1) prev written l (omega arith) step in
      (
        layer',
        rw (round_hash-parent n level pos prev l (omega arith)) runs,
        subst (Fills _ _ _) (omega arith) filled,
      )

  fill_layer-parents :
      (n level start : ℕ) (prev layer : List D)
      → level < n
      → start < length prev
      → Fills (default_hash (suc level)) (next_layer level prev) layer (start / 2)
      → fill_layer (defaults_of n) prev level (length prev - start) start layer
        ≡ ok (next_layer level prev)
  fill_layer-parents n level start prev layer l p f =
      let e : length prev - start ≡ suc (length prev - start - 1) = omega arith in
      let (layer', runs, filled) =
        fill_layer-Fills n level (length prev - start - 1) start prev layer l (omega arith) f in
      rw e (
        runs
        ∙ ap ok (
            Fills-eq (default_hash (suc level)) (next_layer level prev) layer' (
              subst (Fills _ _ _) (omega (arith, length-parents (default_hash level) prev))
                filled)))

  Fills-parents :
      (level start : ℕ) (old new : List D)
      → Fills (default_hash level) new old start
      → Fills (default_hash (suc level)) (next_layer level new) (next_layer level old) (start / 2)
  unfolding parent_at
  Fills-parents level start old new f = record {
    short = omega (
      arith,
      f.short,
      length-parents (default_hash level) old,
      length-parents (default_hash level) new,
    );
    long = omega (arith, f.long, length-parents (default_hash level) old);
    reads = λ i p.
        get_or-parents level old i
        ∙ (λ k.
            h.hash_2_to_1_swapped (f.reads (2 * i) (omega arith) k)
              (f.reads (2 * i + 1) (omega arith) k) false)
        ∙ sym (get_or-parents level new i);
  }

  pub fill_layers-build :
      (n m level start : ℕ) (old new : List D)
      → level + m ≤ n
      → start < length new
      → Fills (default_hash level) new old start
      → fill_layers (defaults_of n) new level start (length new) (build m level old)
        ≡ ok (build m level new)
  unfolding fill_layers build
  fill_layers-build n zero level start old new l p f = refl
  fill_layers-build n (suc m) level start old new l p f =
      let half : (length new + 1) / 2 ≡ length (next_layer level new) =
        sym (length-parents (default_hash level) new) in
      let step : Fills (default_hash (level + 1)) (next_layer level new) (next_layer level old)
          (start / 2) =
        subst
          (λ k. Fills (default_hash k) (next_layer level new) (next_layer level old) (start / 2))
          (suc_eq level) (Fills-parents level start old new f) in
      rw
        (fill_layer-parents n level start new (next_layer level old) (omega arith) p
          (Fills-parents level start old new f))
        (rw half (
          rw (
            fill_layers-build n m (level + 1) (start / 2) (next_layer level old)
              (next_layer level new) (omega arith) (omega (arith, half)) step)))
