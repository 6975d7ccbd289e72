-- ===== src/StateSync/State/Confirm/Settled.antt =====
-- `confirm_batch` on a state whose tree the operations have built.
use doxa.Prelude.{
  ℕ, ◌+◌, ◌^◌, ◌≤◌, ◌<◌, ◌≡◌, sym, ap, ◌∙◌, false, List, [], ◌∷◌, ◌++◌, some, arith, length,
  length-append, append_assoc, append-nil, leb, ok, get, remove, insert,
}
use doxa.Hasher.{MerkleHash, HashOutput}
use doxa.Client.Keys.{bytes_key}
use doxa.Merkle.{MerkleTree}
use doxa.Merkle
use doxa.Merkle.Layers.{tree_of, new-tree_of}
use doxa.Merkle.Full.{node, root-node}
use doxa.Merkle.Ops.{insert-tree_of}
use doxa.StateSync.Contract.{Bytes, hash_to_bytes32}
use doxa.StateSync.State.{StateSyncState, batch_subtree_depth}
use doxa.StateSync.State.Confirm.{
  settle, insert_state_tree_leaf, insert_all, build_subtree, confirm_batch,
}

room→leb : (a b : ℕ) → b < a → leb a b ≡ false
room→leb a b l = ground arith

module _ ⦃h : MerkleHash HashOutput⦄ where
  insert_fits :
      (n : ℕ) (xs : List HashOutput) (leaf : HashOutput)
      → length xs < 2 ^ n
      → Merkle.insert (tree_of n xs) leaf ≡ ok (tree_of n (xs ++ leaf ∷ []), length xs)
  insert_fits n xs leaf l = insert-tree_of n xs leaf ∙ rw (room→leb (2 ^ n) (length xs) l)

  insert_all-tree_of :
      (n : ℕ) (leaves xs : List HashOutput)
      → length xs + length leaves ≤ 2 ^ n
      → insert_all leaves (tree_of n xs) ≡ ok (tree_of n (xs ++ leaves))
  unfolding insert_all
  insert_all-tree_of n [] xs l = ap (λ ys. ok (tree_of n ys)) (sym (append-nil xs))
  insert_all-tree_of n (leaf ∷ leaves) xs l = rw (insert_fits n xs leaf (omega arith)) (
      insert_all-tree_of n leaves (xs ++ leaf ∷ []) (omega (arith, length-append xs (leaf ∷ [])))
      ∙ ap (λ ys. ok (tree_of n ys)) (append_assoc xs (leaf ∷ []) leaves))

  -- The state with the batch's root in the state tree.
  abbrev pub with_leaf : ℕ → List HashOutput → HashOutput → StateSyncState → StateSyncState
  with_leaf n xs batch_root s = record s {
    state_tree = tree_of n (xs ++ batch_root ∷ []);
    batch_root_to_leaf_index =
        insert s.batch_root_to_leaf_index (hash_to_bytes32 batch_root) (length xs);
  }

  -- The state with the subtree of the batch's leaves.
  abbrev pub with_subtree : Bytes → List HashOutput → StateSyncState → StateSyncState
  with_subtree pi leaves s = record s {
    pending_batch_leaves = remove s.pending_batch_leaves pi;
    confirmed_batch_subtrees = insert s.confirmed_batch_subtrees pi (tree_of 9 leaves);
  }

  insert_state_tree_leaf_lem :
      (n : ℕ) (xs : List HashOutput) (batch_root : HashOutput) (s : StateSyncState)
      → s.state_tree ≡ tree_of n xs
      → length xs < 2 ^ n
      → insert_state_tree_leaf batch_root s ≡ ok (with_leaf n xs batch_root s, length xs)
  unfolding insert_state_tree_leaf
  insert_state_tree_leaf_lem n xs batch_root s e l = rw e (rw (insert_fits n xs batch_root l))

  build_subtree_lem :
      (pi : Bytes) (leaves : List HashOutput) (s : StateSyncState)
      → length leaves ≡ 512
      → build_subtree pi (some leaves) s ≡ (with_subtree pi leaves s, ok tt)
  unfolding build_subtree
  build_subtree_lem pi leaves s l = rw (new-tree_of batch_subtree_depth) (
      rw (insert_all-tree_of batch_subtree_depth leaves [] (omega (arith, l)))
        (rw (root-node batch_subtree_depth leaves (omega arith) (omega (arith, l)))))

  -- The state after `confirm_batch`.
  abbrev pub confirmed_state :
      ℕ
      → List HashOutput
      → List HashOutput
      → Bytes
      → HashOutput
      → HashOutput
      → StateSyncState
      → StateSyncState
  confirmed_state n xs leaves pi batch_root new_tree_root s =
      settle pi batch_root new_tree_root (with_subtree pi leaves (with_leaf n xs batch_root s))

  confirm_batch_step :
      (pi : Bytes) (batch_root new_tree_root r : HashOutput) (s s1 built : StateSyncState) (i : ℕ)
      (leaves : List HashOutput)
      → insert_state_tree_leaf batch_root s ≡ ok (s1, i)
      → Merkle.root s1.state_tree ≡ ok r
      → get s1.pending_batch_leaves pi ≡ some leaves
      → build_subtree pi (some leaves) s1 ≡ (built, ok tt)
      → confirm_batch pi batch_root new_tree_root s
        ≡ (settle pi batch_root new_tree_root built, ok tt)
  unfolding confirm_batch
  confirm_batch_step pi batch_root new_tree_root r s s1 built i leaves inserts roots reads builds =
      rw inserts (rw roots (rw reads (rw builds)))

  -- A batch whose 512 leaves are pending is confirmed, in a state tree with room.
  pub confirm_batch-confirmed_state :
      (n : ℕ) (xs leaves : List HashOutput) (pi : Bytes) (batch_root new_tree_root : HashOutput)
      (s : StateSyncState)
      → 0 < n
      → s.state_tree ≡ tree_of n xs
      → length xs < 2 ^ n
      → get s.pending_batch_leaves pi ≡ some leaves
      → length leaves ≡ 512
      → confirm_batch pi batch_root new_tree_root s
        ≡ (confirmed_state n xs leaves pi batch_root new_tree_root s, ok tt)
  confirm_batch-confirmed_state n xs leaves pi batch_root new_tree_root s pos e l reads size =
      confirm_batch_step pi batch_root new_tree_root (node (xs ++ batch_root ∷ []) n 0) s
        (with_leaf n xs batch_root s) (with_subtree pi leaves (with_leaf n xs batch_root s))
        (length xs) leaves (insert_state_tree_leaf_lem n xs batch_root s e l)
        (root-node n (xs ++ batch_root ∷ []) pos
          (omega (arith, l, length-append xs (batch_root ∷ []))))
        reads (build_subtree_lem pi leaves (with_leaf n xs batch_root s) size)
