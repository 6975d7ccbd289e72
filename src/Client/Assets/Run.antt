-- ===== src/Client/Assets/Run.antt =====
-- Any sequence of calls on a new `AccountStateTree`, and the proofs it then gives.
use doxa.Prelude.{
  ℕ, ◌≡◌, refl, ap, sym, ◌∙◌, Bool, true, false, List, [], ◌∷◌, Option, none, some, is_some, arith,
  length-map, if◌then◌else◌, Bool-cases, inl, inr, subst, get_or, ok, contains_key, unfailing,
  ◌>>=◌, ◌>>◌,
}
use doxa.Hasher.{MerkleHash, HashOutput}
use doxa.Client.Keys.{nat_key}
use doxa.Merkle
use doxa.Merkle.Layers.{new-tree_of}
use doxa.Merkle.Membership.{MerkleProof, merkle_proof, verify}
use doxa.Merkle.Membership.Walk.{verify-merkle_proof}
use doxa.Client.Assets.{
  AssetId, AccountStateTree, AssetResult, unwrapped, acc_ast_depth, leaf_commitment, append_asset,
  new, insert_asset, update_asset, insert_or_update_asset, amount_for, merkle_proof_at, root,
}
use doxa.Client.Assets.Entries.{Entries, find, entry, found_at}
use doxa.Client.Assets.Mirror.{leaves_of, Holds, holding, append_asset-holding}
use doxa.Client.Assets.Calls.{
  insert_entry, update_entry, insert_result, update_result, by_outcome, insert_asset-Holds,
  update_asset-Holds,
}

pub data AssetCall : Type 0 where
  insert_call update_call : AssetId → ℕ → AssetCall

-- The calls on the entries.
unfoldable pub replay : List AssetCall → Entries → Entries
replay [] es = es
replay (insert_call a v ∷ calls) es = replay calls (insert_entry a v es)
replay (update_call a v ∷ calls) es = replay calls (update_entry a v es)

abbrev pub first_entry : Entries
first_entry = entry 0 0 ∷ []

module _ (hash_no_pad : List ℕ → HashOutput) ⦃h : MerkleHash HashOutput⦄ where
  abbrev pub first_tree : AccountStateTree
  first_tree = holding hash_no_pad first_entry ((0, (0, 0)) ∷ [])

  pub new-first_tree : new hash_no_pad ≡ ok first_tree
  unfolding new
  new-first_tree =
      ap
        (λ t.
          let done = unwrapped (append_asset hash_no_pad 0 0 (record { tree = t; assets = [] })) in
          done.1 >> ok done.0)
        (new-tree_of acc_ast_depth)
      ∙ ap (λ r. let done = unwrapped r in done.1 >> ok done.0)
          (append_asset-holding hash_no_pad [] [] 0 0)

  pub first_tree-Holds : Holds hash_no_pad first_entry first_tree
  first_tree-Holds = record { tree = refl; assets = λ a. refl; default = refl; room = omega arith }

  -- The calls, whatever each returns.
  unfoldable pub run : List AssetCall → AccountStateTree → AccountStateTree
  run [] s = s
  run (insert_call a v ∷ calls) s = run calls (insert_asset hash_no_pad a v s).0
  run (update_call a v ∷ calls) s = run calls (update_asset hash_no_pad a v s).0

  run-Holds :
      (calls : List AssetCall) (es : Entries) (s : AccountStateTree)
      → Holds hash_no_pad es s
      → Holds hash_no_pad (replay calls es) (run calls s)
  unfolding run replay
  run-Holds [] es s o = o
  run-Holds (insert_call a v ∷ calls) es s o =
      run-Holds calls (insert_entry a v es) (insert_asset hash_no_pad a v s).0
        (insert_asset-Holds hash_no_pad es s a v o).0
  run-Holds (update_call a v ∷ calls) es s o =
      run-Holds calls (update_entry a v es) (update_asset hash_no_pad a v s).0
        (update_asset-Holds hash_no_pad es s a v o).0

  -- `new` succeeds, and after any calls of `insert_asset` and `update_asset`, whatever they return,
  -- the tree is the Merkle tree of depth 10 of the entries that the calls leave in a list, the map
  -- has for every asset the position and the amount of its entry and nothing for another asset,
  -- the default asset stands first with no amount, and there are at most 1024 entries.
  pub run-replay :
      (calls : List AssetCall)
      → (s : AccountStateTree) × (new hash_no_pad ≡ ok s)
        × Holds hash_no_pad (replay calls first_entry) (run calls s)
  run-replay calls =
      (first_tree, new-first_tree, run-Holds calls first_entry first_tree first_tree-Holds)

  -- For an asset that is held, `merkle_proof_at` its position gives a proof that `verify` accepts,
  -- of the leaf of the asset and its amount, under the root of the tree.
  pub merkle_proof_at-amount_for :
      (es : Entries) (s : AccountStateTree) (a i v : ℕ)
      → Holds hash_no_pad es s
      → amount_for s a ≡ some (i, v)
      → (p : MerkleProof HashOutput) × (merkle_proof_at s i ≡ ok p)
        × (verify p ≡ true)
        × (p.leaf ≡ leaf_commitment hash_no_pad (entry a v))
        × (root s ≡ ok p.root)
  unfolding amount_for root merkle_proof_at
  merkle_proof_at-amount_for es s a i v o e =
      let (j, at, within, writes, holds) =
        found_at (leaf_commitment hash_no_pad) a v 0 i v h.zero_digest es (sym (o.assets a) ∙ e) in
      let same_place : j ≡ i = omega (arith, at) in
      let size = length-map es (leaf_commitment hash_no_pad) in
      let (p, proves, verifies, leaf, root_is) =
        verify-merkle_proof acc_ast_depth (leaves_of hash_no_pad es) i (omega arith)
          (omega (arith, o.room, size)) (omega (arith, o.room, at, within)) in
      (
        p,
        ap (λ t. unfailing (merkle_proof t i)) o.tree ∙ ap unfailing proves,
        verifies,
        leaf ∙ ap (λ k. get_or (leaves_of hash_no_pad es) k h.zero_digest) (sym same_place) ∙ holds,
        ap (λ t. unfailing (Merkle.root t)) o.tree ∙ ap unfailing root_is,
      )

-- `insert_or_update_asset` on the entries.
abbrev pub upsert_entry : AssetId → ℕ → Entries → Entries
upsert_entry a v es = if is_some (find a 0 es) then update_entry a v es else insert_entry a v es

abbrev pub upsert_result : AssetId → Entries → AssetResult (Option ℕ)
upsert_result a es =
    if is_some (find a 0 es)
    then (unfailing (update_result a es) >>= λ prev. ok (some prev))
    else (unfailing (insert_result a es) >> ok none)

module _ (hash_no_pad : List ℕ → HashOutput) ⦃h : MerkleHash HashOutput⦄ where
  upsert_held :
      (s : AccountStateTree) (a v : ℕ)
      → contains_key s.assets a ≡ true
      → insert_or_update_asset hash_no_pad a v s ≡ (
        (update_asset hash_no_pad a v s).0,
        unfailing (update_asset hash_no_pad a v s).1 >>= λ prev. ok (some prev),
      )
  unfolding insert_or_update_asset
  upsert_held s a v held = rw held refl

  upsert_new :
      (s : AccountStateTree) (a v : ℕ)
      → contains_key s.assets a ≡ false
      → insert_or_update_asset hash_no_pad a v s ≡ (
        (insert_asset hash_no_pad a v s).0,
        unfailing (insert_asset hash_no_pad a v s).1 >> ok none,
      )
  unfolding insert_or_update_asset
  upsert_new s a v fresh = rw fresh refl

  -- On a tree that holds given entries, `insert_or_update_asset` writes the amount of an asset that
  -- is held and returns the amount before, and appends any other asset; where `update_asset` or
  -- `insert_asset` would fail it panics: for the default asset, and for a new asset on a full tree.
  pub insert_or_update_asset-Holds :
      (es : Entries) (s : AccountStateTree) (a v : ℕ)
      → Holds hash_no_pad es s
      → Holds hash_no_pad (upsert_entry a v es) (insert_or_update_asset hash_no_pad a v s).0
        × ((insert_or_update_asset hash_no_pad a v s).1 ≡ upsert_result a es)
  insert_or_update_asset-Holds es s a v o =
      let (updates, update_is) = update_asset-Holds hash_no_pad es s a v o in
      let (inserts, insert_is) = insert_asset-Holds hash_no_pad es s a v o in
      elim (Bool-cases (is_some (find a 0 es))) [
        | inl held ↦
            let (kept, returns) =
              by_outcome (Holds hash_no_pad (update_entry a v es)) _ _
                (upsert_held s a v (ap is_some (o.assets a) ∙ held)) updates in
            subst Goal (sym held)
              (kept, returns ∙ ap (λ r. unfailing r >>= λ prev. ok (some prev)) update_is)
        | inr fresh ↦
            let (kept, returns) =
              by_outcome (Holds hash_no_pad (insert_entry a v es)) _ _
                (upsert_new s a v (ap is_some (o.assets a) ∙ fresh)) inserts in
            subst Goal (sym fresh) (kept, returns ∙ ap (λ r. unfailing r >> ok none) insert_is)
      ]
    where
      Goal : Bool → Type 0
      Goal held =
          Holds hash_no_pad (if held then update_entry a v es else insert_entry a v es)
            (insert_or_update_asset hash_no_pad a v s).0
          × ((insert_or_update_asset hash_no_pad a v s).1 ≡ (
              if held
              then (unfailing (update_result a es) >>= λ prev. ok (some prev))
              else (unfailing (insert_result a es) >> ok none)))
