-- ===== src/Client/PoolConfig/Lookup.antt =====
-- The proof of a subpool that was just inserted.
use doxa.Prelude.{
  ℕ, ◌^◌, ◌<◌, ◌≡◌, refl, ap, ◌∙◌, Bool, true, false, ◌||◌, List, [], ◌∷◌, ◌++◌, arith, length,
  length-append, get_or, leb, ◌==◌, some, ok, Map, get, get-insert_self, Bool-cases, inl, inr,
}
use doxa.Hasher.{MerkleHash, HashOutput, zero_hash}
use doxa.Client.Keys.{hash_key, nat_refl}
use doxa.Client.PublicInputs.{same_hash}
use doxa.Merkle.Layers.{tree_of}
use doxa.Merkle.Membership.{MerkleProof, merkle_proof, verify}
use doxa.Merkle.Membership.Walk.{verify-merkle_proof}
use doxa.Client.PoolConfig.{
  MainPoolConfigTree, merkle, main_pool_config_depth, commit, subpool_digest, root,
  insert_subpool_at_position, subpool_proof,
}
use doxa.Client.PoolConfig.Insertion.{
  with_leaves, indices_with, insert_subpool_at_position-with_leaves,
}

get_or-append_last : {A : Type 0} (xs : List A) (x d : A) → get_or (xs ++ x ∷ []) (length xs) d ≡ x
get_or-append_last [] x d = refl
get_or-append_last (y ∷ xs) x d = get_or-append_last xs x d

not_zero : (n : ℕ) → 0 < n → (n == 0) ≡ false
not_zero n l = ground arith

has_room : (n : ℕ) → n < 2 ^ 20 → leb (2 ^ 20) n ≡ false
has_room n l = ground arith

or_right : (a b : Bool) → b ≡ true → (a || b) ≡ true
or_right true b e = refl
or_right false b e = e

module _ ⦃h : MerkleHash HashOutput⦄ where
  module _ (two_to_one : HashOutput → HashOutput → HashOutput) where
    -- The next id is accepted while there is room.
    insert_next :
        (leaves : List HashOutput) (indices : Map HashOutput ℕ) (subpool_root : HashOutput)
        → 0 < length leaves
        → length leaves < 2 ^ 20
        → insert_subpool_at_position two_to_one
            (with_leaves leaves indices)
            (length leaves)
            subpool_root
          ≡ (
            with_leaves (leaves ++ subpool_digest two_to_one subpool_root (length leaves) ∷ []) (
                indices_with
                  (subpool_digest two_to_one subpool_root (length leaves))
                  (length leaves)
                  indices),
            ok tt,
          )
    insert_next leaves indices subpool_root l room =
        insert_subpool_at_position-with_leaves two_to_one leaves indices (length leaves)
          subpool_root l
        ∙ rw (not_zero (length leaves) l) (
            rw
              (or_right (length leaves == 1) (length leaves == length leaves)
                (nat_refl (length leaves)))
              (rw (has_room (length leaves) room) refl))

    subpool_proof_zero :
        (t : MainPoolConfigTree) (id : ℕ) (subpool_root : HashOutput)
        → same_hash subpool_root zero_hash ≡ true
        → subpool_proof two_to_one t id subpool_root ≡ merkle (merkle_proof t.inner id)
    unfolding subpool_proof
    subpool_proof_zero t id subpool_root z = rw z refl

    subpool_proof_found :
        (t : MainPoolConfigTree) (id at : ℕ) (subpool_root : HashOutput)
        → same_hash subpool_root zero_hash ≡ false
        → get t.leaf_index_map (commit two_to_one subpool_root id) ≡ some at
        → subpool_proof two_to_one t id subpool_root ≡ merkle (merkle_proof t.inner at)
    unfolding subpool_proof
    subpool_proof_found t id at subpool_root nz e = rw nz (rw e refl)

    indices_with-commit :
        (indices : Map HashOutput ℕ) (id : ℕ) (digest : HashOutput)
        → same_hash digest zero_hash ≡ false
        → get (indices_with digest id indices) digest ≡ some id
    indices_with-commit indices id digest nz = rw nz (get-insert_self indices digest id)

    subpool_digest-commit :
        (id : ℕ) (subpool_root : HashOutput)
        → same_hash subpool_root zero_hash ≡ false
        → subpool_digest two_to_one subpool_root id ≡ commit two_to_one subpool_root id
    unfolding subpool_digest
    subpool_digest-commit id subpool_root nz = rw nz refl

    -- The position that `subpool_proof` finds, for an uninitialized subpool and for another.
    subpool_proof-last :
        (leaves : List HashOutput) (indices : Map HashOutput ℕ) (id : ℕ) (subpool_root : HashOutput)
        → (same_hash subpool_root zero_hash ≡ false
            → same_hash (commit two_to_one subpool_root id) zero_hash ≡ false)
        → subpool_proof two_to_one
            (with_leaves leaves
              (indices_with (subpool_digest two_to_one subpool_root id) id indices))
            id
            subpool_root
          ≡ merkle (merkle_proof (tree_of main_pool_config_depth leaves) id)
    subpool_proof-last leaves indices id subpool_root initialized =
        elim (Bool-cases (same_hash subpool_root zero_hash)) [
          | inl z ↦ subpool_proof_zero _ id subpool_root z
          | inr nz ↦
              let digest = commit two_to_one subpool_root id in
              subpool_proof_found _ id id subpool_root nz (
                ap (λ d. get (indices_with d id indices) digest)
                  (subpool_digest-commit id subpool_root nz)
                ∙ indices_with-commit indices id digest (initialized nz))
        ]

    -- Let the commitment of an initialized subpool not be the zero hash. On the tree of any
    -- leaves, at least one and below 2^20, the next subpool is accepted, and then `subpool_proof`
    -- gives a proof for it that `verify` accepts, whose leaf is the subpool's (zero for an
    -- uninitialized one) and whose root is the new tree's.
    pub subpool_proof-insert_subpool_at_position :
        (leaves : List HashOutput) (indices : Map HashOutput ℕ) (subpool_root : HashOutput)
        → 0 < length leaves
        → length leaves < 2 ^ 20
        → (same_hash subpool_root zero_hash ≡ false
            → same_hash (commit two_to_one subpool_root (length leaves)) zero_hash ≡ false)
        → (t : MainPoolConfigTree) × (p : MerkleProof HashOutput) × (insert_subpool_at_position
              two_to_one
              (with_leaves leaves indices)
              (length leaves)
              subpool_root
            ≡ (t, ok tt))
          × (subpool_proof two_to_one t (length leaves) subpool_root ≡ ok p)
          × (verify p ≡ true)
          × (p.leaf ≡ subpool_digest two_to_one subpool_root (length leaves))
          × (root t ≡ ok p.root)
    unfolding root
    subpool_proof-insert_subpool_at_position leaves indices subpool_root l room initialized =
        let id = length leaves in
        let digest = subpool_digest two_to_one subpool_root id in
        let added = leaves ++ digest ∷ [] in
        let size = length-append leaves (digest ∷ []) in
        let (p, proves, verifies, leaf, root_is) =
          verify-merkle_proof main_pool_config_depth added id (omega arith)
            (omega (arith, room, size)) room in
        (
          with_leaves added (indices_with digest id indices),
          p,
          insert_next leaves indices subpool_root l room,
          subpool_proof-last added indices id subpool_root initialized ∙ ap merkle proves,
          verifies,
          leaf ∙ get_or-append_last leaves digest h.zero_digest,
          ap merkle root_is,
        )
