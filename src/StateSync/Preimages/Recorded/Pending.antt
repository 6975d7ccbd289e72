-- ===== src/StateSync/Preimages/Recorded/Pending.antt =====
-- What the state holds of a batch after its first commitments, and one commitment more.
use doxa.Prelude.{
  ℕ, ◌+◌, ◌<◌, ◌≡◌, refl, sym, ap, subst, ◌∙◌, false, List, some, arith, length, length-set, set,
  get_or, get_or-set_self, get_or-set_ne, lt→ltb, if◌then◌else◌, get, get-insert_self,
  get-insert_ne, Bool-cases, inl, inr, dec_lt,
}
use doxa.Hasher.{HashOutput, zero_hash}
use doxa.Client.Keys.{hash_key, bytes_key}
use doxa.Client.PublicInputs.{same_hash, same_hash_eq, same_hash_refl}
use doxa.Merkle.{MerkleTree}
use doxa.StateSync.Contract.{Bytes}
use doxa.StateSync.State.{
  StateSyncState, leaves_or_default, add_pending_commitment, add_pending_nullifier,
}

abbrev pub pending_leaves : StateSyncState → Bytes → List HashOutput
pending_leaves s pi = leaves_or_default (get s.pending_batch_leaves pi)

-- The first k commitments are the batch's leaves, and each is located at a leaf that holds it.
pub record Recorded (tree : MerkleTree HashOutput) (pi : Bytes) (c : ℕ → HashOutput) (k : ℕ)
    (s : StateSyncState) : Type 0 where
  pub same_tree : s.state_tree ≡ tree
  pub present : 0 < k → get s.pending_batch_leaves pi ≡ some (pending_leaves s pi)
  pub width : length (pending_leaves s pi) ≡ 512
  pub leaves : (i : ℕ) → i < k → get_or (pending_leaves s pi) i zero_hash ≡ c i
  pub located :
      (i : ℕ)
      → i < k
      → (j : ℕ) × (j < k)
        × (get s.commitment_to_batch (c i)
            ≡ some (record { pi_commitment = pi; subtree_leaf_index = j; confirmed = false }))
        × (c j ≡ c i)

module _ (tree : MerkleTree HashOutput) (pi : Bytes) (c : ℕ → HashOutput) where
  add_pending_commitment-leaves :
      (k : ℕ) (s : StateSyncState)
      → k < 512
      → pending_leaves (add_pending_commitment (c k) pi k s) pi ≡ set (pending_leaves s pi) k (c k)
  unfolding add_pending_commitment
  add_pending_commitment-leaves k s l =
      ap leaves_or_default (get-insert_self s.pending_batch_leaves pi _)
      ∙ (λ i. if lt→ltb k 512 l i then set (pending_leaves s pi) k (c k) else pending_leaves s pi)

  Recorded-located :
      (k i : ℕ) (s : StateSyncState)
      → i < k + 1
      → Recorded tree pi c k s
      → (j : ℕ) × (j < k + 1)
        × (get (add_pending_commitment (c k) pi k s).commitment_to_batch (c i)
            ≡ some (record { pi_commitment = pi; subtree_leaf_index = j; confirmed = false }))
        × (c j ≡ c i)
  unfolding add_pending_commitment
  Recorded-located k i s l r = elim (Bool-cases (same_hash (c i) (c k))) [
    | inl same ↦ (k, omega arith, rw same, sym (same_hash_eq (c i) (c k) same))
    | inr other ↦
        let (j, inside, at_i, holds) = r.located i (before other) in
        (j, omega arith, get-insert_ne s.commitment_to_batch (c k) (c i) _ other ∙ at_i, holds)
  ]
    where
      before : same_hash (c i) (c k) ≡ false → i < k
      before other = elim (dec_lt i k) [
        | yes less ↦ less
        | no not_less ↦
            let e : i ≡ k = omega arith in
            let true_too = ap (λ j. same_hash (c j) (c k)) e ∙ same_hash_refl (c k) in absurd cc
      ]

  keeps_tree :
      (k : ℕ) (s : StateSyncState) → (add_pending_commitment (c k) pi k s).state_tree ≡ s.state_tree
  unfolding add_pending_commitment
  keeps_tree k s = refl

  now_present :
      (k : ℕ) (s : StateSyncState)
      → get (add_pending_commitment (c k) pi k s).pending_batch_leaves pi
        ≡ some (pending_leaves (add_pending_commitment (c k) pi k s) pi)
  unfolding add_pending_commitment
  now_present k s =
      let here = get-insert_self s.pending_batch_leaves pi _ in
      here ∙ ap (λ o. some (leaves_or_default o)) (sym here)

  pub Recorded-add :
      (k : ℕ) (s : StateSyncState)
      → k < 512
      → Recorded tree pi c k s
      → Recorded tree pi c (k + 1) (add_pending_commitment (c k) pi k s)
  Recorded-add k s l r =
      let changed = add_pending_commitment-leaves k s l in
      record {
        same_tree = keeps_tree k s ∙ r.same_tree;
        present = λ p. now_present k s;
        width = ap length changed ∙ length-set (pending_leaves s pi) k (c k) ∙ r.width;
        leaves = λ i p. ap (λ xs. get_or xs i zero_hash) changed ∙ elim (dec_lt i k) [
          | yes less ↦
              get_or-set_ne (pending_leaves s pi) k i (c k) zero_hash (omega arith)
              ∙ r.leaves i less
          | no other ↦
              let e : k ≡ i = omega arith in
              subst (λ i. get_or (set (pending_leaves s pi) k (c k)) i zero_hash ≡ c i) e
                (get_or-set_self (pending_leaves s pi) k (c k) zero_hash
                  (omega (arith, r.width, l)))
        ];
        located = λ i p. Recorded-located k i s p r;
      }

  pub Recorded-index :
      (k m : ℕ) (s : StateSyncState) → k ≡ m → Recorded tree pi c k s → Recorded tree pi c m s
  Recorded-index k m s e r = subst (λ k. Recorded tree pi c k s) e r

  -- A nullifier changes nothing of what is recorded.
  pub Recorded-nullifier :
      (k : ℕ) (n : HashOutput) (s : StateSyncState)
      → Recorded tree pi c k s
      → Recorded tree pi c k (add_pending_nullifier n pi s)
  unfolding add_pending_nullifier
  Recorded-nullifier k n s r = record {
    same_tree = r.same_tree;
    present = r.present;
    width = r.width;
    leaves = r.leaves;
    located = r.located;
  }
