-- ===== src/StateSync/State/Status/Confirmed.antt =====
-- The proofs that a confirmed commitment is given.
use doxa.Prelude.{
  ℕ, ◌^◌, ◌<◌, ◌≡◌, refl, sym, ap, ◌∙◌, Bool, true, false, List, [], ◌∷◌, ◌++◌, Option, none, some,
  arith, length, length-append, get_or, if◌then◌else◌, ok, Map, get, insert, keys_where, member,
  passes, Bool-cases, Option-cases, inl, inr, get-insert_self, get-insert_ne, member-keys_where,
}
use doxa.Hasher.{MerkleHash, HashOutput}
use doxa.Client.Keys.{hash_key, bytes_key, bytes_eq, bytes_refl}
use doxa.Client.PublicInputs.{same_hash, same_hash_eq}
use doxa.Merkle.{MerkleTree}
use doxa.Merkle
use doxa.Merkle.Layers.{tree_of}
use doxa.Merkle.Membership.{MerkleProof, merkle_proof, verify}
use doxa.Merkle.Membership.Walk.{verify-merkle_proof}
use doxa.StateSync.Contract.{Bytes, hash_to_bytes32}
use doxa.StateSync.State.{
  StateSyncState, CommitmentLocation, merkle, mark_confirmed, confirm_location, confirm_all,
  confirm_commitments,
}
use doxa.StateSync.State.Confirm.{settle, confirm_batch}
use doxa.StateSync.State.Confirm.Settled.{confirmed_state, confirm_batch-confirmed_state}
use doxa.StateSync.State.Status.{
  get_commitment_status, confirmed, get_batch_root_for_commitment, get_batch_subtree_proof,
  batch_root_at, status_at, confirmed_status, pending, at_leaf, with_path,
}

abbrev pub confirm_option : Option CommitmentLocation → Option CommitmentLocation
confirm_option none = none
confirm_option (some loc) = some (record loc { confirmed = true })

confirm_location-insert :
    (locations : Map HashOutput CommitmentLocation) (c k : HashOutput) (loc : CommitmentLocation)
    → get locations c ≡ some loc
    → get (insert locations c (record loc { confirmed = true })) k
      ≡ (if same_hash k c then confirm_option (get locations k) else get locations k)
confirm_location-insert locations c k loc e = elim (Bool-cases (same_hash k c)) [
  | inl same ↦
      let here : get locations k ≡ some loc = ap (get locations) (same_hash_eq k c same) ∙ e in
      rw same (ap confirm_option (sym here))
  | inr other ↦
      get-insert_ne locations c k (record loc { confirmed = true }) other
      ∙ (λ i. if sym other i then confirm_option (get locations k) else get locations k)
]

confirm_location-get :
    (locations : Map HashOutput CommitmentLocation) (c k : HashOutput)
    → get (confirm_location locations c) k
      ≡ (if same_hash k c then confirm_option (get locations k) else get locations k)
confirm_location-get locations c k = elim (Option-cases (get locations c)) [
  | inl missing ↦
      ap (λ o. get (mark_confirmed locations c o) k) missing ∙ elim (Bool-cases (same_hash k c)) [
        | inl same ↦
            let here : get locations k ≡ none =
              ap (get locations) (same_hash_eq k c same) ∙ missing in
            rw same (here ∙ ap confirm_option (sym here))
        | inr other ↦ rw other
      ]
  | inr (loc, e) ↦
      ap (λ o. get (mark_confirmed locations c o) k) e ∙ confirm_location-insert locations c k loc e
]

confirm_twice :
    (b : Bool) (o : Option CommitmentLocation)
    → (if b then confirm_option (confirm_option o) else confirm_option o) ≡ confirm_option o
confirm_twice true none = refl
confirm_twice true (some loc) = refl
confirm_twice false o = refl

confirm_all-get :
    (cs : List HashOutput) (locations : Map HashOutput CommitmentLocation) (k : HashOutput)
    → get (confirm_all cs locations) k
      ≡ (if member k cs then confirm_option (get locations k) else get locations k)
confirm_all-get [] locations k = refl
confirm_all-get (c ∷ cs) locations k =
    confirm_all-get cs (confirm_location locations c) k
    ∙ ap (λ o. if member k cs then confirm_option o else o) (confirm_location-get locations c k)
    ∙ elim (Bool-cases (same_hash k c)) [
      | inl same ↦ rw same (confirm_twice (member k cs) (get locations k))
      | inr other ↦ rw other
    ]

-- The commitments that are located in the batch are confirmed, and no others.
pub confirm_commitments-get :
    (pi : Bytes) (locations : Map HashOutput CommitmentLocation) (k : HashOutput)
    → get (confirm_commitments pi locations) k ≡ (
        if passes (λ loc. bytes_eq loc.pi_commitment pi) (get locations k)
        then confirm_option (get locations k)
        else get locations k)
unfolding confirm_commitments
confirm_commitments-get pi locations k =
    confirm_all-get (keys_where (λ loc. bytes_eq loc.pi_commitment pi) locations) locations k
    ∙ ap (λ b. if b then confirm_option (get locations k) else get locations k)
        (member-keys_where (λ loc. bytes_eq loc.pi_commitment pi) locations k)

module _ ⦃h : MerkleHash HashOutput⦄ where
  get_batch_subtree_proof_lem :
      (s : StateSyncState) (c : HashOutput) (loc : CommitmentLocation)
      (subtree : MerkleTree HashOutput) (bp : MerkleProof HashOutput)
      → get s.commitment_to_batch c ≡ some loc
      → get s.confirmed_batch_subtrees loc.pi_commitment ≡ some subtree
      → merkle_proof subtree loc.subtree_leaf_index ≡ ok bp
      → get_batch_subtree_proof s c ≡ ok bp
  unfolding get_batch_subtree_proof
  get_batch_subtree_proof_lem s c loc subtree bp l t p = rw l (rw t (rw p))

  get_batch_root_for_commitment_lem :
      (s : StateSyncState) (c : HashOutput) (loc : CommitmentLocation) (r : HashOutput)
      → get s.commitment_to_batch c ≡ some loc
      → get s.pi_to_batch_root loc.pi_commitment ≡ some r
      → get_batch_root_for_commitment s c ≡ some r
  unfolding get_batch_root_for_commitment
  get_batch_root_for_commitment_lem s c loc r l q = ap (batch_root_at s) l ∙ q

  -- A commitment with its location, its subtree and its batch's leaf.
  get_commitment_status_lem :
      (s : StateSyncState) (c batch_root : HashOutput) (loc : CommitmentLocation)
      (subtree : MerkleTree HashOutput) (i : ℕ) (bp sp : MerkleProof HashOutput)
      → get s.commitment_to_batch c ≡ some loc
      → loc.confirmed ≡ true
      → get s.pi_to_batch_root loc.pi_commitment ≡ some batch_root
      → get s.confirmed_batch_subtrees loc.pi_commitment ≡ some subtree
      → merkle_proof subtree loc.subtree_leaf_index ≡ ok bp
      → get s.batch_root_to_leaf_index (hash_to_bytes32 batch_root) ≡ some i
      → merkle_proof s.state_tree i ≡ ok sp
      → get_commitment_status s c ≡ ok (confirmed bp sp)
  unfolding get_commitment_status status_at
  get_commitment_status_lem s c batch_root loc subtree i bp sp l f r t p x q =
      ap (status_at s c) l
      ∙ ap
          (λ b.
            if b
            then confirmed_status s (get_batch_root_for_commitment s c)
                (get_batch_subtree_proof s c)
            else ok (pending loc.pi_commitment))
          f
      ∙ (λ j.
          confirmed_status s (get_batch_root_for_commitment_lem s c loc batch_root l r j)
            (get_batch_subtree_proof_lem s c loc subtree bp l t p j))
      ∙ ap (at_leaf s bp) x
      ∙ ap (λ path. with_path bp (merkle path)) q

  -- The state answers for a commitment with a proof of it under the root of the tree of a batch's
  -- leaves, and a proof of the batch's root under the root of the state tree.
  abbrev pub HasProofs : List HashOutput → HashOutput → HashOutput → StateSyncState → Type 0
  HasProofs leaves batch_root c s =
      (bp : MerkleProof HashOutput) × (sp : MerkleProof HashOutput) × (get_commitment_status s c
        ≡ ok (confirmed bp sp))
      × (verify bp ≡ true)
      × (bp.leaf ≡ c)
      × (Merkle.root (tree_of 9 leaves) ≡ ok bp.root)
      × (verify sp ≡ true)
      × (sp.leaf ≡ batch_root)
      × (Merkle.root s.state_tree ≡ ok sp.root)

  confirmed_location :
      (pi : Bytes) (locations : Map HashOutput CommitmentLocation) (c : HashOutput) (i : ℕ)
      (b : Bool)
      → get locations c
        ≡ some (record { pi_commitment = pi; subtree_leaf_index = i; confirmed = b })
      → get (confirm_commitments pi locations) c
        ≡ some (record { pi_commitment = pi; subtree_leaf_index = i; confirmed = true })
  confirmed_location pi locations c i b e =
      confirm_commitments-get pi locations c
      ∙ ap (λ o. if passes (λ loc. bytes_eq loc.pi_commitment pi) o then confirm_option o else o) e
      ∙ ap
          (λ t.
            if t
            then some (record { pi_commitment = pi; subtree_leaf_index = i; confirmed = true })
            else some (record { pi_commitment = pi; subtree_leaf_index = i; confirmed = b }))
          (bytes_refl pi)

  get_or-append_end :
      (xs : List HashOutput) (x d : HashOutput) → get_or (xs ++ x ∷ []) (length xs) d ≡ x
  get_or-append_end [] x d = refl
  get_or-append_end (y ∷ xs) x d = get_or-append_end xs x d

  -- The status of a commitment of the batch, in the state after the confirmation.
  pub confirmed_state-get_commitment_status :
      (n : ℕ) (xs leaves : List HashOutput) (pi : Bytes) (batch_root new_tree_root c : HashOutput)
      (i : ℕ) (b : Bool) (s : StateSyncState)
      → 0 < n
      → length xs < 2 ^ n
      → length leaves ≡ 512
      → i < 512
      → get s.commitment_to_batch c
        ≡ some (record { pi_commitment = pi; subtree_leaf_index = i; confirmed = b })
      → get_or leaves i h.zero_digest ≡ c
      → HasProofs leaves batch_root c (confirmed_state n xs leaves pi batch_root new_tree_root s)
  unfolding settle
  confirmed_state-get_commitment_status n xs leaves pi batch_root new_tree_root c i b s pos l size
        inside at_c holds =
      let s' = confirmed_state n xs leaves pi batch_root new_tree_root s in
      let ys = xs ++ batch_root ∷ [] in
      let long = length-append xs (batch_root ∷ []) in
      let (bp, bp_made, bp_verifies, bp_leaf, bp_root) =
        verify-merkle_proof 9 leaves i (omega arith) (omega (arith, size)) inside in
      let (sp, sp_made, sp_verifies, sp_leaf, sp_root) =
        verify-merkle_proof n ys (length xs) pos (omega (arith, l, long)) l in
      (
        bp,
        sp,
        get_commitment_status_lem s' c batch_root
            (record { pi_commitment = pi; subtree_leaf_index = i; confirmed = true })
            (tree_of 9 leaves) (length xs) bp sp
            (confirmed_location pi s.commitment_to_batch c i b at_c) refl
            (get-insert_self s.pi_to_batch_root pi batch_root)
            (get-insert_self s.confirmed_batch_subtrees pi (tree_of 9 leaves)) bp_made
            (get-insert_self s.batch_root_to_leaf_index (hash_to_bytes32 batch_root) (length xs))
            sp_made,
        bp_verifies,
        bp_leaf ∙ holds,
        bp_root,
        sp_verifies,
        sp_leaf ∙ get_or-append_end xs batch_root h.zero_digest,
        sp_root,
      )

  -- Let the state tree be the tree of depth n > 0 of fewer than 2^n leaves, let the 512 leaves of
  -- a batch be pending, and let a commitment be located at one of them. Then `confirm_batch`
  -- succeeds, and afterwards the commitment's status is confirmed, with two proofs that `verify`
  -- accepts: one of the commitment under the root of the tree of depth 9 of those leaves, and one
  -- of the batch's root under the root that the state tree then has.
  pub confirm_batch-get_commitment_status :
      (n : ℕ) (xs leaves : List HashOutput) (pi : Bytes) (batch_root new_tree_root c : HashOutput)
      (i : ℕ) (b : Bool) (s : StateSyncState)
      → 0 < n
      → s.state_tree ≡ tree_of n xs
      → length xs < 2 ^ n
      → get s.pending_batch_leaves pi ≡ some leaves
      → length leaves ≡ 512
      → i < 512
      → get s.commitment_to_batch c
        ≡ some (record { pi_commitment = pi; subtree_leaf_index = i; confirmed = b })
      → get_or leaves i h.zero_digest ≡ c
      → (s' : StateSyncState) × (confirm_batch pi batch_root new_tree_root s ≡ (s', ok tt))
        × HasProofs leaves batch_root c s'
  confirm_batch-get_commitment_status n xs leaves pi batch_root new_tree_root c i b s pos e l reads
        size inside at_c holds =
      (
        confirmed_state n xs leaves pi batch_root new_tree_root s,
        confirm_batch-confirmed_state n xs leaves pi batch_root new_tree_root s pos e l reads size,
        confirmed_state-get_commitment_status n xs leaves pi batch_root new_tree_root c i b s pos l
            size inside at_c holds,
      )
