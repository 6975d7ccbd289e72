-- ===== src/StateSync/Preimages/Recorded.antt =====
-- What `apply_tx_preimage` records: the 512 commitments of the batch, in slot order.
pub mod Pending
use doxa.Prelude.{
  ℕ, ◌+◌, ◌*◌, ◌≤◌, ◌<◌, ◌≡◌, refl, sym, ap, subst, ◌∙◌, Bool, true, false, List, some, arith,
  length, length-set, set, get_or, get_or-set_self, get_or-set_ne, leb, lt→ltb, if◌then◌else◌, ok,
  attempt, chain, for_range, for_range-invariant, get, insert, get-insert_self, get-insert_ne,
  Bool-cases, inl, inr, dec_lt, ensure,
}
use doxa.Hasher.{HashOutput, zero_hash}
use doxa.Client.Keys.{hash_key, bytes_key}
use doxa.Client.PublicInputs.{same_hash, same_hash_eq, same_hash_refl}
use doxa.Merkle.{MerkleTree}
use doxa.StateSync.Contract.{Bytes}
use doxa.StateSync.State.{
  StateSyncState, preimage_too_short, SyncResult, leaves_or_default, add_pending_commitment,
  add_pending_nullifier,
}
use doxa.StateSync.Preimages.{
  tx_preimage_len, tx_note_in_off, tx_note_out_off, accin_null_off, accout_comm_off, read_gl_bool,
  read_hash, add_commitment, add_nullifier, tx_slot_off, tx_slot_commitments, tx_slot_nullifiers,
  apply_tx_preimage,
}
use doxa.StateSync.Preimages.Recorded.Pending.{
  Recorded, Recorded-add, Recorded-index, Recorded-nullifier,
}

le→leb : (a b : ℕ) → a ≤ b → leb a b ≡ true
le→leb a b l = ground arith

-- The pre-image is long enough, and the hashes and flags in it can be read: the commitments are
-- those of `c`, in slot order.
pub record IsTxPreimage (preimage : Bytes) (c : ℕ → HashOutput) : Type 0 where
  pub long : tx_preimage_len ≤ length preimage
  pub account :
      (slot : ℕ)
      → slot < 64
      → read_hash preimage (tx_slot_off slot + accout_comm_off) ≡ ok (c (slot * 8))
  pub notes :
      (slot j : ℕ)
      → slot < 64
      → j < 7
      → read_hash preimage (tx_slot_off slot + tx_note_out_off + j * 32) ≡ ok (c (slot * 8 + j + 1))
  pub real : (slot : ℕ) → slot < 64 → (b : Bool) × (read_gl_bool preimage (tx_slot_off slot) ≡ ok b)
  pub account_nullifier :
      (slot : ℕ)
      → slot < 64
      → (n : HashOutput) × (read_hash preimage (tx_slot_off slot + accin_null_off) ≡ ok n)
  pub note_nullifiers :
      (slot j : ℕ)
      → slot < 64
      → j < 7
      → (n : HashOutput) × (read_hash preimage (tx_slot_off slot + tx_note_in_off + j * 32) ≡ ok n)

module _ (tree : MerkleTree HashOutput) (preimage pi : Bytes) (c : ℕ → HashOutput) where
  add_commitment-Recorded :
      (off k : ℕ) (s : StateSyncState)
      → k < 512
      → read_hash preimage off ≡ ok (c k)
      → Recorded tree pi c k s
      → (s' : StateSyncState) × (add_commitment preimage pi off k s ≡ (s', ok tt))
        × Recorded tree pi c (k + 1) s'
  unfolding add_commitment
  add_commitment-Recorded off k s l reads r = (
    add_pending_commitment (c k) pi k s,
    ap (λ read. attempt s read (λ d. (add_pending_commitment d pi k s, ok tt))) reads,
    Recorded-add tree pi c k s l r,
  )

  add_nullifier-Recorded :
      (off k : ℕ) (n : HashOutput) (s : StateSyncState)
      → read_hash preimage off ≡ ok n
      → Recorded tree pi c k s
      → (s' : StateSyncState) × (add_nullifier preimage pi off s ≡ (s', ok tt))
        × Recorded tree pi c k s'
  unfolding add_nullifier
  add_nullifier-Recorded off k n s reads r = (
    add_pending_nullifier n pi s,
    ap (λ read. attempt s read (λ d. (add_pending_nullifier d pi s, ok tt))) reads,
    Recorded-nullifier tree pi c k n s r,
  )

  module _ (p : IsTxPreimage preimage c) where
    tx_slot_commitments-Recorded :
        (slot : ℕ) (s : StateSyncState)
        → slot < 64
        → Recorded tree pi c (slot * 8) s
        → (s' : StateSyncState) × (tx_slot_commitments preimage pi slot s ≡ (s', ok tt))
          × Recorded tree pi c ((slot + 1) * 8) s'
    unfolding tx_slot_commitments
    tx_slot_commitments-Recorded slot s l r =
        let off = tx_slot_off slot in
        let body = λ (j : ℕ).
          add_commitment preimage pi (off + tx_note_out_off + j * 32) (slot * 8 + j + 1) in
        let (s1, runs, r1) =
          add_commitment-Recorded (off + accout_comm_off) (slot * 8) s (omega arith)
            (p.account slot l) r in
        let (s2, runs', r2) =
          for_range-invariant (λ j s. Recorded tree pi c (slot * 8 + j + 1) s) body 7 7 0 s1
            (omega arith)
            (λ j s m q.
              let (s', ran, q') =
                add_commitment-Recorded (off + tx_note_out_off + j * 32) (slot * 8 + j + 1) s
                  (omega arith) (p.notes slot j l m) q in
              (s', ran, Recorded-index tree pi c _ _ s' (omega arith) q'))
            (Recorded-index tree pi c _ _ s1 (omega arith) r1) in
        (
          s2,
          ap (λ done. chain done (for_range 7 0 body)) runs ∙ runs',
          Recorded-index tree pi c _ _ s2 (omega arith) r2,
        )

    tx_slot_nullifiers-Recorded :
        (slot : ℕ) (s : StateSyncState)
        → slot < 64
        → Recorded tree pi c 512 s
        → (s' : StateSyncState) × (tx_slot_nullifiers preimage pi slot s ≡ (s', ok tt))
          × Recorded tree pi c 512 s'
    unfolding tx_slot_nullifiers
    tx_slot_nullifiers-Recorded slot s l r =
        let off = tx_slot_off slot in
        let (b, flag) = p.real slot l in
        let (n, null) = p.account_nullifier slot l in
        let body = λ (j : ℕ). add_nullifier preimage pi (off + tx_note_in_off + j * 32) in
        let (s1, runs, r1) = add_nullifier-Recorded (off + accin_null_off) 512 n s null r in
        let (s2, runs', r2) =
          for_range-invariant (λ j s. Recorded tree pi c 512 s) body 7 7 0 s1 (omega arith)
            (λ j s m q.
              let (n, null) = p.note_nullifiers slot j l m in
              add_nullifier-Recorded (off + tx_note_in_off + j * 32) 512 n s null q)
            r1 in
        let real = ap (λ done. chain done (for_range 7 0 body)) runs ∙ runs' in
        let all = chain (add_nullifier preimage pi (off + accin_null_off) s) (for_range 7 0 body) in
        let read =
          ap (λ read. attempt s read (λ (real : Bool). if real then all else (s, ok tt))) flag in
        elim (Bool-cases b) [
          | inl e ↦ (s2, read ∙ ap (λ (b : Bool). if b then all else (s, ok tt)) e ∙ real, r2)
          | inr e ↦ (s, read ∙ ap (λ (b : Bool). if b then all else (s, ok tt)) e, r)
        ]

    Recorded-stored :
        (s : StateSyncState)
        → Recorded tree pi c 512 s
        → Recorded tree pi c 512
            (record s { pending_tx_batches = insert s.pending_tx_batches pi preimage })
    Recorded-stored s r = record {
      same_tree = r.same_tree;
      present = r.present;
      width = r.width;
      leaves = r.leaves;
      located = r.located;
    }

    -- `apply_tx_preimage` records the 512 commitments.
    pub apply_tx_preimage-Recorded :
        (s : StateSyncState)
        → Recorded tree pi c 0 s
        → (s' : StateSyncState) × (apply_tx_preimage preimage pi s ≡ (s', ok tt))
          × Recorded tree pi c 512 s'
    unfolding apply_tx_preimage
    apply_tx_preimage-Recorded s r =
        let store : StateSyncState → StateSyncState × SyncResult (Unit {0}) =
          λ s. (record s { pending_tx_batches = insert s.pending_tx_batches pi preimage }, ok tt) in
        let nullifiers : StateSyncState → StateSyncState × SyncResult (Unit {0}) =
          λ s. chain (for_range 64 0 (tx_slot_nullifiers preimage pi) s) store in
        let commitments = chain (for_range 64 0 (tx_slot_commitments preimage pi) s) nullifiers in
        let (s1, runs, r1) =
          for_range-invariant (λ slot s. Recorded tree pi c (slot * 8) s)
            (tx_slot_commitments preimage pi) 64 64 0 s (omega arith)
            (λ slot s l q. tx_slot_commitments-Recorded slot s l q)
            (Recorded-index tree pi c _ _ s (omega arith) r) in
        let (s2, runs', r2) =
          for_range-invariant (λ slot s. Recorded tree pi c 512 s) (tx_slot_nullifiers preimage pi)
            64 64 0 s1 (omega arith) (λ slot s l q. tx_slot_nullifiers-Recorded slot s l q)
            (Recorded-index tree pi c _ _ s1 (omega arith) r1) in
        (
          record s2 { pending_tx_batches = insert s2.pending_tx_batches pi preimage },
          ap (λ b. attempt s (ensure b (preimage_too_short (length preimage))) (λ _. commitments))
                (le→leb tx_preimage_len (length preimage) p.long)
              ∙ ap (λ done. chain done nullifiers) runs
              ∙ ap (λ done. chain done store) runs',
          Recorded-stored s2 r2,
        )
