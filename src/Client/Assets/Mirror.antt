-- ===== src/Client/Assets/Mirror.antt =====
-- `AccountStateTree` is the Merkle tree of a list of entries, with a map that agrees with it.
use doxa.Prelude.{
  ℕ, ◌<◌, ◌≤◌, ◌≡◌, refl, ap, sym, ◌∙◌, false, List, [], ◌∷◌, ◌++◌, map, none, some, arith, length,
  length-append, length-map, set, leb, ◌==◌, if◌then◌else◌, Bool-cases, inl, inr, ok, err, get,
  insert, get-insert_self, get-insert_ne, Map, subst,
}
use doxa.Hasher.{MerkleHash, HashOutput}
use doxa.Client.Keys.{nat_key, nat_sound}
use doxa.Merkle.{full_tree}
use doxa.Merkle.Layers.{tree_of}
use doxa.Merkle.Ops.{insert-tree_of, update_leaf-tree_of}
use doxa.Client.Assets.{
  AssetId, AccountStateTree, merkle_error, acc_ast_depth, leaf_commitment, append_asset,
  update_asset,
}
use doxa.Client.Assets.Entries.{
  Entries, find, replace, entry, find-append_self, find-append_ne, find-replace_ne,
  find-replace_self, length-replace, found_at,
}

map-snoc {ℓ} :
    {A : Type 0} {B : Type ℓ} (f : A → B) (xs : List A) (x : A)
    → map f (xs ++ x ∷ []) ≡ map f xs ++ f x ∷ []
map-snoc f [] x = refl
map-snoc f (y ∷ xs) x = ap (◌∷◌ (f y)) (map-snoc f xs x)

inside : (n j : ℕ) → j < n → leb n j ≡ false
inside n j l = ground arith

module _ (hash_no_pad : List ℕ → HashOutput) ⦃h : MerkleHash HashOutput⦄ where
  abbrev pub leaves_of : Entries → List HashOutput
  leaves_of es = map (leaf_commitment hash_no_pad) es

  -- The default asset is the first entry, with no amount.
  pub record Holds (es : Entries) (s : AccountStateTree) : Type 0 where
    pub tree : s.tree ≡ tree_of acc_ast_depth (leaves_of es)
    pub assets : (a : AssetId) → get s.assets a ≡ find a 0 es
    pub default : find 0 0 es ≡ some (0, 0)
    pub room : length es ≤ 1024

  abbrev pub holding : Entries → Map AssetId (ℕ × ℕ) → AccountStateTree
  holding es m = record { tree = tree_of acc_ast_depth (leaves_of es); assets = m }

  pub Holds-holding : (es : Entries) (s : AccountStateTree) → Holds es s → s ≡ holding es s.assets
  Holds-holding es s o = λ i. record { tree = o.tree i; assets = s.assets }

  abbrev pub appended : Entries → Map AssetId (ℕ × ℕ) → AssetId → ℕ → AccountStateTree
  appended es m a v = record {
    tree = tree_of acc_ast_depth (leaves_of es ++ leaf_commitment hash_no_pad (entry a v) ∷ []);
    assets = insert m a (length es, v);
  }

  pub append_asset-holding :
      (es : Entries) (m : Map AssetId (ℕ × ℕ)) (a v : ℕ)
      → append_asset hash_no_pad a v (holding es m) ≡ (
          if leb 1024 (length es)
          then (holding es m, err (merkle_error full_tree))
          else (appended es m a v, ok tt))
  unfolding append_asset tree_of
  append_asset-holding es m a v =
      rw (insert-tree_of acc_ast_depth (leaves_of es) (leaf_commitment hash_no_pad (entry a v))) (
        rw (length-map es (leaf_commitment hash_no_pad)) (elim (Bool-cases (leb 1024 (length es))) [
          | inl full ↦ rw full refl
          | inr some_room ↦ rw some_room refl
        ]))

  pub Holds-appended :
      (es : Entries) (s : AccountStateTree) (a v : ℕ)
      → Holds es s
      → find a 0 es ≡ none
      → length es < 1024
      → Holds (es ++ entry a v ∷ []) (appended es s.assets a v)
  Holds-appended es s a v o n l = record {
    tree = ap (tree_of acc_ast_depth) (sym (map-snoc (leaf_commitment hash_no_pad) es (entry a v)));
    assets = λ b. elim (Bool-cases (b == a)) [
      | inl same ↦
          subst (λ b. get (insert s.assets a (length es, v)) b ≡ find b 0 (es ++ entry a v ∷ []))
            (sym (nat_sound b a same))
            (get-insert_self s.assets a (length es, v)
              ∙ ap (λ k. some (k, v)) (omega arith)
              ∙ sym (find-append_self a v 0 es n))
      | inr other ↦
          get-insert_ne s.assets a b (length es, v) other
          ∙ o.assets b
          ∙ sym (find-append_ne a v b 0 es other)
    ];
    default = elim (Bool-cases (0 == a)) [
      | inl same ↦
          let gone = subst (λ b. find b 0 es ≡ none) (sym (nat_sound 0 a same)) n in
          let kept = o.default in cc
      | inr other ↦ find-append_ne a v 0 0 es other ∙ o.default
    ];
    room = omega (arith, length-append es (entry a v ∷ []));
  }

  abbrev pub replaced : Entries → Map AssetId (ℕ × ℕ) → AssetId → ℕ → ℕ → AccountStateTree
  replaced es m a v j = record {
    tree = tree_of acc_ast_depth (set (leaves_of es) j (leaf_commitment hash_no_pad (entry a v)));
    assets = insert m a (j, v);
  }

  pub Holds-replaced :
      (es : Entries) (s : AccountStateTree) (a v j w : ℕ)
      → Holds es s
      → (a == 0) ≡ false
      → find a 0 es ≡ some (j, w)
      → Holds (replace a v es) (replaced es s.assets a v j)
  Holds-replaced es s a v j w o proper f =
      let (j', at, within, writes, old) =
        found_at (leaf_commitment hash_no_pad) a v 0 j w h.zero_digest es f in
      let same_place : j' ≡ j = omega (arith, at) in
      record {
        tree =
            ap
              (λ k.
                tree_of acc_ast_depth
                  (set (leaves_of es) k (leaf_commitment hash_no_pad (entry a v))))
              (sym same_place)
            ∙ ap (tree_of acc_ast_depth) (sym writes);
        assets = λ b. elim (Bool-cases (b == a)) [
          | inl same ↦
              subst (λ b. get (insert s.assets a (j, v)) b ≡ find b 0 (replace a v es))
                (sym (nat_sound b a same))
                (get-insert_self s.assets a (j, v) ∙ sym (find-replace_self a v 0 j w es f))
          | inr other ↦
              get-insert_ne s.assets a b (j, v) other
              ∙ o.assets b
              ∙ sym (find-replace_ne a v b 0 es other)
        ];
        default = find-replace_ne a v 0 0 es (ground (arith, proper)) ∙ o.default;
        room = omega (arith, length-replace a v es, o.room);
      }

  pub update_asset-holding :
      (es : Entries) (m : Map AssetId (ℕ × ℕ)) (a v j w : ℕ)
      → (a == 0) ≡ false
      → get m a ≡ some (j, w)
      → j < length es
      → update_asset hash_no_pad a v (holding es m) ≡ (replaced es m a v j, ok w)
  unfolding update_asset
  update_asset-holding es m a v j w proper g l = rw proper (
      rw g (
        rw
          (update_leaf-tree_of acc_ast_depth (leaves_of es) j
            (leaf_commitment hash_no_pad (entry a v)))
          (rw (length-map es (leaf_commitment hash_no_pad)) (rw (inside (length es) j l) refl))))
