-- ===== src/Client/Assets/Calls.antt =====
-- What `insert_asset`, `update_asset` and `insert_or_update_asset` do to the entries.
use doxa.Prelude.{
  ℕ, ◌≡◌, refl, ap, sym, ◌∙◌, true, false, List, [], ◌∷◌, ◌++◌, Option, none, some, is_some, arith,
  length, leb, ◌==◌, if◌then◌else◌, Bool-cases, inl, inr, subst, Option-cases, ok, err, get,
}
use doxa.Hasher.{MerkleHash, HashOutput}
use doxa.Client.Keys.{nat_key}
use doxa.Merkle.{full_tree}
use doxa.Client.Assets.{
  AssetId, AccountStateTree, AssetResult, default_asset, already_exists, not_found, merkle_error,
  leaf_commitment, append_asset, insert_asset, update_asset,
}
use doxa.Client.Assets.Entries.{Entries, find, replace, entry, replace_missing, found_at}
use doxa.Client.Assets.Mirror.{
  Holds, holding, appended, replaced, Holds-holding, append_asset-holding, Holds-appended,
  Holds-replaced, update_asset-holding,
}

-- The calls on the entries alone.
abbrev pub insert_entry : AssetId → ℕ → Entries → Entries
insert_entry a v es =
    if a == 0
    then es
    else (if is_some (find a 0 es)
        then es
        else (if leb 1024 (length es) then es else es ++ entry a v ∷ []))

abbrev pub insert_result : AssetId → Entries → AssetResult (Unit {0})
insert_result a es =
    if a == 0
    then err default_asset
    else (if is_some (find a 0 es)
        then err (already_exists a)
        else (if leb 1024 (length es) then err (merkle_error full_tree) else ok tt))

abbrev pub update_entry : AssetId → ℕ → Entries → Entries
update_entry a v es = if a == 0 then es else replace a v es

abbrev pub amount_result : AssetId → Option (ℕ × ℕ) → AssetResult ℕ
amount_result a none = err (not_found a)
amount_result a (some (i, v)) = ok v

abbrev pub update_result : AssetId → Entries → AssetResult ℕ
update_result a es = if a == 0 then err default_asset else amount_result a (find a 0 es)

none_of : (o : Option (ℕ × ℕ)) → is_some o ≡ false → o ≡ none
none_of none e = refl
none_of (some r) e = cc

-- From what a call returns.
pub by_outcome : {S R : Type 0} (P : S → Type 0) (x y : S × R) → x ≡ y → P y.0 → P x.0 × (x.1 ≡ y.1)
by_outcome P x y e p = (subst (λ z. P z.0) (sym e) p, ap (λ z. z.1) e)

module _ (hash_no_pad : List ℕ → HashOutput) ⦃h : MerkleHash HashOutput⦄ where
  append_asset-Holds :
      (es : Entries) (s : AccountStateTree) (a v : ℕ)
      → Holds hash_no_pad es s
      → find a 0 es ≡ none
      → Holds hash_no_pad
          (if leb 1024 (length es) then es else es ++ entry a v ∷ [])
          (append_asset hash_no_pad a v s).0
        × ((append_asset hash_no_pad a v s).1
            ≡ (if leb 1024 (length es) then err (merkle_error full_tree) else ok tt))
  append_asset-Holds es s a v o fresh =
      let e =
        ap (append_asset hash_no_pad a v) (Holds-holding hash_no_pad es s o)
        ∙ append_asset-holding hash_no_pad es s.assets a v in
      elim (Bool-cases (leb 1024 (length es))) [
        | inl full ↦ rw full (
            by_outcome (Holds hash_no_pad es) _ _
              (e
                ∙ ap
                    (λ b.
                      if b
                      then (holding hash_no_pad es s.assets, err (merkle_error full_tree))
                      else (appended hash_no_pad es s.assets a v, ok tt))
                    full)
              (subst (Holds hash_no_pad es) (Holds-holding hash_no_pad es s o) o))
        | inr some_room ↦ rw some_room (
            by_outcome (Holds hash_no_pad (es ++ entry a v ∷ [])) _ _
              (e
                ∙ ap
                    (λ b.
                      if b
                      then (holding hash_no_pad es s.assets, err (merkle_error full_tree))
                      else (appended hash_no_pad es s.assets a v, ok tt))
                    some_room)
              (Holds-appended hash_no_pad es s a v o fresh (ground (arith, some_room))))
      ]

  -- On a tree that holds given entries, `insert_asset` refuses the default asset and an asset that
  -- is held, and fails on a full tree, each with its error and with the tree as it was; any other
  -- asset is appended as the last entry.
  pub insert_asset-Holds :
      (es : Entries) (s : AccountStateTree) (a v : ℕ)
      → Holds hash_no_pad es s
      → Holds hash_no_pad (insert_entry a v es) (insert_asset hash_no_pad a v s).0
        × ((insert_asset hash_no_pad a v s).1 ≡ insert_result a es)
  unfolding insert_asset
  insert_asset-Holds es s a v o = elim (Bool-cases (a == 0)) [
    | inl default ↦ rw default (o, refl)
    | inr proper ↦ rw proper (
        rw (o.assets a) (elim (Bool-cases (is_some (find a 0 es))) [
          | inl held ↦ rw held (o, refl)
          | inr fresh ↦ rw fresh (append_asset-Holds es s a v o (none_of (find a 0 es) fresh))
        ]))
  ]

  update_asset_default :
      (s : AccountStateTree) (a v : ℕ)
      → (a == 0) ≡ true
      → update_asset hash_no_pad a v s ≡ (s, err default_asset)
  unfolding update_asset
  update_asset_default s a v default = rw default refl

  update_asset_missing :
      (s : AccountStateTree) (a v : ℕ)
      → (a == 0) ≡ false
      → get s.assets a ≡ none
      → update_asset hash_no_pad a v s ≡ (s, err (not_found a))
  unfolding update_asset
  update_asset_missing s a v proper missing = rw proper (rw missing refl)

  update_asset_found :
      (es : Entries) (s : AccountStateTree) (a v j w : ℕ)
      → Holds hash_no_pad es s
      → (a == 0) ≡ false
      → find a 0 es ≡ some (j, w)
      → Holds hash_no_pad (replace a v es) (update_asset hash_no_pad a v s).0
        × ((update_asset hash_no_pad a v s).1 ≡ ok w)
  update_asset_found es s a v j w o proper f =
      let (j', at, within, writes, old) =
        found_at (leaf_commitment hash_no_pad) a v 0 j w h.zero_digest es f in
      by_outcome (Holds hash_no_pad (replace a v es)) _
        (replaced hash_no_pad es s.assets a v j, ok w)
        (ap (update_asset hash_no_pad a v) (Holds-holding hash_no_pad es s o)
          ∙ update_asset-holding hash_no_pad es s.assets a v j w proper (o.assets a ∙ f)
              (omega (arith, at, within)))
        (Holds-replaced hash_no_pad es s a v j w o proper f)

  -- `update_asset` refuses the default asset and an asset that is not held, with the tree as it
  -- was; of any other asset it writes the amount at the asset's position and returns the amount
  -- before.
  pub update_asset-Holds :
      (es : Entries) (s : AccountStateTree) (a v : ℕ)
      → Holds hash_no_pad es s
      → Holds hash_no_pad (update_entry a v es) (update_asset hash_no_pad a v s).0
        × ((update_asset hash_no_pad a v s).1 ≡ update_result a es)
  update_asset-Holds es s a v o = elim (Bool-cases (a == 0)) [
    | inl default ↦ rw default (
        by_outcome (Holds hash_no_pad es) _ (s, err default_asset)
          (update_asset_default s a v default) o)
    | inr proper ↦ elim (Option-cases (find a 0 es)) [
      | inl missing ↦ rw proper (
          rw missing (
            rw (replace_missing a v 0 es missing) (
              by_outcome (Holds hash_no_pad es) _ (s, err (not_found a))
                (update_asset_missing s a v proper (o.assets a ∙ missing)) o)))
      | inr ((j, w), f) ↦ rw proper (rw f (update_asset_found es s a v j w o proper f))
    ]
  ]
