-- ===== src/Client/Assets/Restore.antt =====
-- `new_from_asset_map`, on any map and on the map of a tree.
use doxa.Prelude.{
  ℕ, ◌+◌, ◌≡◌, ◌≢◌, ◌⊎◌, refl, ap, sym, subst, ◌∙◌, true, false, List, [], ◌∷◌, ◌++◌, append_assoc,
  append-nil, length-append, none, some, is_some, arith, length, leb, ◌==◌, of_if_true, of_if_false,
  Bool-cases, inl, inr, Option-cases, ok, err, panic, Result, chain, ensure, get, ◌>>=◌, ◌>>◌,
  ok_of_bind,
}
use doxa.Hasher.{MerkleHash, HashOutput}
use doxa.Client.Keys.{nat_key, nat_sound}
use doxa.Client.Assets.{
  AssetId, AccountStateTree, AssetResult, insert_asset, insert_by_index, sort_by_index,
  check_contiguous, insert_all, new_from_asset_map, amount_for, not_contiguous,
}
use doxa.Client.Assets.Entries.{Entries, find, entry, find-append_self}
use doxa.Client.Assets.Mirror.{Holds}
use doxa.Client.Assets.Calls.{insert_entry, insert_result, insert_asset-Holds}
use doxa.Client.Assets.Run.{first_entry, first_tree, new-first_tree, first_tree-Holds}

abbrev pub Saved : Type 0
Saved = AssetId × (ℕ × ℕ)

abbrev pub Has : List Saved → Saved → Type 0
Has [] x = ⊥
Has (y ∷ ys) x = (x ≡ y) ⊎ Has ys x

Has-swap :
    (e x y : Saved) (ys inserted : List Saved)
    → (Has (e ∷ ys) x → Has inserted x)
    → Has (e ∷ y ∷ ys) x
    → Has (y ∷ inserted) x
Has-swap e x y ys inserted ih (inl same) = inr (ih (inl same))
Has-swap e x y ys inserted ih (inr (inl same)) = inl same
Has-swap e x y ys inserted ih (inr (inr deep)) = inr (ih (inr deep))

insert_by_index-Has :
    (e x : Saved) (ys : List Saved) → Has (e ∷ ys) x → Has (insert_by_index e ys) x
insert_by_index-Has e x [] m = m
insert_by_index-Has e x (y ∷ ys) m = elim (Bool-cases (leb e.1.0 y.1.0)) [
  | inl before ↦ rw before m
  | inr after ↦ rw after (Has-swap e x y ys (insert_by_index e ys) (insert_by_index-Has e x ys) m)
]

sort_by_index-Has : (x : Saved) (ys : List Saved) → Has ys x → Has (sort_by_index ys) x
sort_by_index-Has x [] m = elim m [ ]
sort_by_index-Has x (y ∷ ys) (inl same) = insert_by_index-Has y x (sort_by_index ys) (inl same)
sort_by_index-Has x (y ∷ ys) (inr deep) =
    insert_by_index-Has y x (sort_by_index ys) (inr (sort_by_index-Has x ys deep))

abbrev entries_of : List Saved → Entries
entries_of [] = []
entries_of ((a, (i, v)) ∷ saved) = entry a v ∷ entries_of saved

-- A chain succeeds only where its first part does.
of_chain :
    {S E A B : Type 0} (done : S × Result E A) (k : S → S × Result E B) (b : B)
    → (chain done k).1 ≡ ok b
    → (x : A) × (done.1 ≡ ok x) × (chain done k ≡ k done.0)
of_chain (s, ok a) k b e = (a, refl, refl)
of_chain (s, err reason) k b e = cc
of_chain (s, panic) k b e = cc

insert_result_ok :
    (a v : ℕ) (es : Entries)
    → insert_result a es ≡ ok tt
    → ((a == 0) ≡ false) × (find a 0 es ≡ none) × (insert_entry a v es ≡ es ++ entry a v ∷ [])
insert_result_ok a v es e = elim (Bool-cases (a == 0)) [
  | inl default ↦ let refused = of_if_true (a == 0) _ _ default e in cc
  | inr proper ↦
      let e1 = of_if_false (a == 0) _ _ proper e in
      elim (Option-cases (find a 0 es)) [
        | inr (r, held) ↦
            let refused = of_if_true (is_some (find a 0 es)) _ _ (ap is_some held) e1 in cc
        | inl fresh ↦
            let e2 = of_if_false (is_some (find a 0 es)) _ _ (ap is_some fresh) e1 in
            elim (Bool-cases (leb 1024 (length es))) [
              | inl full ↦ let refused = of_if_true (leb 1024 (length es)) _ _ full e2 in cc
              | inr some_room ↦ (proper, fresh, rw proper (rw fresh (rw some_room refl)))
            ]
      ]
]

find-append_old :
    (a i : ℕ) (xs ys : Entries) (r : ℕ × ℕ) → find a i xs ≡ some r → find a i (xs ++ ys) ≡ some r
find-append_old a i [] ys r e = cc
find-append_old a i (x ∷ xs) ys r e = elim (Bool-cases (a == x.asset_id)) [
  | inl same ↦ rw same (of_if_true (a == x.asset_id) _ _ same e)
  | inr other ↦
      rw other (find-append_old a (i + 1) xs ys r (of_if_false (a == x.asset_id) _ _ other e))
]

equal_of_ensure :
    {E : Type 0} (a b : ℕ) (reason : E) (u : Unit {0}) → ensure (a == b) reason ≡ ok u → a ≡ b
equal_of_ensure a b reason u e = elim (Bool-cases (a == b)) [
  | inl same ↦ nat_sound a b same
  | inr other ↦ let refused = ap (λ t. ensure t reason) (sym other) ∙ e in cc
]

-- Which asset the loop has put where, from the position after the entries that were there.
record Restored (entries : List Saved) (es : Entries) : Type 0 where
  proper : (x : Saved) → Has entries x → (x.0 == 0) ≡ false
  moved : (x : Saved) → Has entries x → find x.0 0 es ≡ some (x.1.0 + 1, x.1.1)

module _ (hash_no_pad : List ℕ → HashOutput) ⦃h : MerkleHash HashOutput⦄ where
  insert_all-Restored :
      (entries : List Saved) (k : ℕ) (es : Entries) (s : AccountStateTree)
      → Holds hash_no_pad es s
      → length es ≡ k + 1
      → check_contiguous k entries ≡ ok tt
      → (insert_all hash_no_pad entries s).1 ≡ ok tt
      → Holds hash_no_pad (es ++ entries_of entries) (insert_all hash_no_pad entries s).0
        × Restored entries (es ++ entries_of entries)
  unfolding insert_all check_contiguous
  insert_all-Restored [] k es s o l c e = (
    subst (λ es. Holds hash_no_pad es s) (sym (append-nil es)) o,
    record { proper = λ x m. elim m [ ]; moved = λ x m. elim m [ ] },
  )
  insert_all-Restored ((a, (i, v)) ∷ rest) k es s o l c e =
      let (u, first_ok, goes_on) =
        of_chain (insert_asset hash_no_pad a v s) (insert_all hash_no_pad rest) tt e in
      let (o', r) = insert_asset-Holds hash_no_pad es s a v o in
      let (proper, fresh, grown) = insert_result_ok a v es (sym r ∙ first_ok) in
      let (u', rest_contiguous, here) =
        ok_of_bind (λ _. check_contiguous (k + 1) rest) (ensure (i == k) (not_contiguous k i)) tt
          c in
      let es' = es ++ entry a v ∷ [] in
      let o'' = subst (λ es. Holds hash_no_pad es (insert_asset hash_no_pad a v s).0) grown o' in
      let (held, restored) =
        insert_all-Restored rest (k + 1) es' (insert_asset hash_no_pad a v s).0 o''
          (omega (arith, l, length-append es (entry a v ∷ []))) rest_contiguous
          (sym (ap (λ z. z.1) goes_on) ∙ e) in
      let whole = append_assoc es (entry a v ∷ []) (entries_of rest) in
      let at : i ≡ k = equal_of_ensure i k (not_contiguous k i) u' here in
      let placed : find a 0 (es' ++ entries_of rest) ≡ some (i + 1, v) =
        find-append_old a 0 es' (entries_of rest) (0 + length es, v)
          (find-append_self a v 0 es fresh)
        ∙ ap (λ n. some (n, v)) (omega (arith, l, at)) in
      (
        subst (λ es. Holds hash_no_pad es (insert_all hash_no_pad ((a, (i, v)) ∷ rest) s).0) whole
            (subst (Holds hash_no_pad (es' ++ entries_of rest)) (sym (ap (λ z. z.0) goes_on)) held),
        subst (Restored ((a, (i, v)) ∷ rest)) whole (record {
          proper = λ x m. elim m [
            | inl same ↦ subst (λ y. (y.0 == 0) ≡ false) (sym same) proper
            | inr deep ↦ restored.proper x deep
          ];
          moved = λ x m. elim m [
            | inl same ↦
                subst (λ y. find y.0 0 (es' ++ entries_of rest) ≡ some (y.1.0 + 1, y.1.1))
                  (sym same) placed
            | inr deep ↦ restored.moved x deep
          ];
        }),
      )

  finish : AccountStateTree × AssetResult (Unit {0}) → AssetResult AccountStateTree
  finish built = built.1 >> ok built.0

  new_from_asset_map_lem :
      (m : List Saved)
      → new_from_asset_map hash_no_pad m ≡ (
          check_contiguous 0 (sort_by_index m)
          >> finish (insert_all hash_no_pad (sort_by_index m) (first_tree hash_no_pad)))
  unfolding new_from_asset_map finish
  new_from_asset_map_lem m =
      ap
        (λ (fresh : AssetResult AccountStateTree).
          check_contiguous 0 (sort_by_index m)
          >> (fresh >>= λ ast. finish (insert_all hash_no_pad (sort_by_index m) ast)))
        (new-first_tree hash_no_pad)

  -- Where `new_from_asset_map` succeeds, no entry of the map is for the default asset, and every
  -- asset of the map stands in the tree with its amount at the position after the one saved.
  pub new_from_asset_map-amount_for :
      (m : List Saved) (t : AccountStateTree)
      → new_from_asset_map hash_no_pad m ≡ ok t
      → (x : Saved) → Has m x
      → ((x.0 == 0) ≡ false) × (amount_for t x.0 ≡ some (x.1.0 + 1, x.1.1))
  unfolding amount_for finish
  new_from_asset_map-amount_for m t e x has =
      let entries = sort_by_index m in
      let built = insert_all hash_no_pad entries (first_tree hash_no_pad) in
      let (u, finished, contiguous) =
        ok_of_bind (λ _. finish built) (check_contiguous 0 entries) t
          (sym (new_from_asset_map_lem m) ∙ e) in
      let (u', is_t, inserted) = ok_of_bind (λ _. ok built.0) built.1 t finished in
      let (holds, restored) =
        insert_all-Restored entries 0 first_entry (first_tree hash_no_pad)
          (first_tree-Holds hash_no_pad) (omega arith) contiguous inserted in
      let same : built.0 ≡ t = cc in
      (
        restored.proper x (sort_by_index-Has x m has),
        subst (λ t. get t.assets x.0 ≡ some (x.1.0 + 1, x.1.1)) same
            (holds.assets x.0 ∙ restored.moved x (sort_by_index-Has x m has)),
      )

  get-Has : (m : List Saved) (a i v : ℕ) → get m a ≡ some (i, v) → (x : Saved) × Has m x × (x.0 ≡ a)
  get-Has [] a i v e = cc
  get-Has ((b, w) ∷ m) a i v e = elim (Bool-cases (a == b)) [
    | inl same ↦ ((b, w), inl refl, sym (nat_sound a b same))
    | inr other ↦
        let (x, deep, is_a) = get-Has m a i v (of_if_false (a == b) _ _ other e) in
        (x, inr deep, is_a)
  ]

  -- The map of a tree that holds any entries is refused: it has an entry for the default asset.
  pub new_from_asset_map-Holds :
      (es : Entries) (s t : AccountStateTree)
      → Holds hash_no_pad es s
      → new_from_asset_map hash_no_pad s.assets ≢ ok t
  new_from_asset_map-Holds es s t o e =
      let (x, has, is_default) = get-Has s.assets 0 0 0 (o.assets 0 ∙ o.default) in
      let (proper, moved) = new_from_asset_map-amount_for s.assets t e x has in
      let default : (x.0 == 0) ≡ true = ground (arith, is_default) in cc
