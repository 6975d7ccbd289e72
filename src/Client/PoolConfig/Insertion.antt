-- ===== src/Client/PoolConfig/Insertion.antt =====
-- What `insert_subpool_at_position` does to a tree that has its reserved leaf.
use doxa.Prelude.{
  ℕ, ◌^◌, ◌<◌, ◌≡◌, refl, false, ◌||◌, List, [], ◌∷◌, ◌++◌, arith, length, leb, ◌==◌, if◌then◌else◌,
  ok, err, Map, insert, Bool-cases, inl, inr,
}
use doxa.Hasher.{MerkleHash, HashOutput, zero_hash}
use doxa.Client.Keys.{hash_key}
use doxa.Client.PublicInputs.{same_hash}
use doxa.Merkle.{full_tree, num_leaves}
use doxa.Merkle.Layers.{tree_of}
use doxa.Merkle.Ops.{insert-tree_of}
use doxa.Client.PoolConfig.{
  MainPoolConfigTree, reserved_subpool_id, predecessor_missing, merkle_error,
  main_pool_config_depth, subpool_digest, seeded, insert_subpool_at_position,
}

not_empty : (n : ℕ) → 0 < n → (n == 0) ≡ false
not_empty n l = ground arith

module _ ⦃h : MerkleHash HashOutput⦄ where
  abbrev pub with_leaves : List HashOutput → Map HashOutput ℕ → MainPoolConfigTree
  with_leaves leaves indices = record {
    inner = tree_of main_pool_config_depth leaves;
    leaf_index_map = indices;
  }

  abbrev pub indices_with : HashOutput → ℕ → Map HashOutput ℕ → Map HashOutput ℕ
  indices_with digest id indices =
      if same_hash digest zero_hash then indices else insert indices digest id

  num_leaves-tree_of :
      (n : ℕ) (leaves : List HashOutput) → num_leaves (tree_of n leaves) ≡ length leaves
  unfolding num_leaves tree_of
  num_leaves-tree_of n leaves = refl

  seeded-with_leaves :
      (leaves : List HashOutput) (indices : Map HashOutput ℕ) (id : ℕ)
      → 0 < length leaves
      → seeded (with_leaves leaves indices) id ≡ (
          if (id == 1) || (length leaves == id)
          then ok (with_leaves leaves indices)
          else err (predecessor_missing (length leaves)))
  unfolding seeded
  seeded-with_leaves leaves indices id l = elim (Bool-cases (id == 1)) [
    | inl first ↦
        rw first
          (rw (num_leaves-tree_of main_pool_config_depth leaves) (rw (not_empty (length leaves) l)))
    | inr later ↦ rw later (
        rw (num_leaves-tree_of main_pool_config_depth leaves)
          (elim (Bool-cases (length leaves == id)) [ inl next ↦ rw next | inr gap ↦ rw gap ]))
  ]

  module _ (two_to_one : HashOutput → HashOutput → HashOutput) where
    -- On the tree of any leaves, at least one: the id 0 is refused; the id 1 and the id that equals
    -- the number of leaves append the subpool's leaf, unless the tree is full; any other id is
    -- refused; and a refusal leaves the tree as it was. The index that is kept for the leaf is the
    -- id, also where the leaf of the id 1 is appended to a tree of more than one leaf.
    pub insert_subpool_at_position-with_leaves :
        (leaves : List HashOutput) (indices : Map HashOutput ℕ) (id : ℕ) (subpool_root : HashOutput)
        → 0 < length leaves
        → insert_subpool_at_position two_to_one (with_leaves leaves indices) id subpool_root ≡ (
            if id == 0
            then (with_leaves leaves indices, err reserved_subpool_id)
            else (if (id == 1) || (length leaves == id)
                then (if leb (2 ^ 20) (length leaves)
                    then (with_leaves leaves indices, err (merkle_error full_tree))
                    else (
                      with_leaves
                          (leaves ++ subpool_digest two_to_one subpool_root id ∷ [])
                          (indices_with (subpool_digest two_to_one subpool_root id) id indices),
                      ok tt,
                    ))
                else (with_leaves leaves indices, err (predecessor_missing (length leaves)))))
    unfolding insert_subpool_at_position
    insert_subpool_at_position-with_leaves leaves indices id subpool_root l =
        elim (Bool-cases (id == 0)) [
          | inl reserved ↦ rw reserved
          | inr given ↦ rw given (
              rw (seeded-with_leaves leaves indices id l)
                (elim (Bool-cases ((id == 1) || (length leaves == id))) [
                  | inr gap ↦ rw gap
                  | inl accepted ↦ rw accepted (
                      rw
                        (insert-tree_of main_pool_config_depth leaves
                          (subpool_digest two_to_one subpool_root id))
                        (elim (Bool-cases (leb (2 ^ 20) (length leaves))) [
                          | inl full ↦ rw full
                          | inr some_room ↦ rw some_room
                        ]))
                ]))
        ]
