-- ===== src/Client/Assets.antt =====
-- doxa-client/src/account.rs: `AccountStateTree`, the balances of an account.
pub mod Entries
pub mod Mirror
pub mod Calls
pub mod Run
pub mod Restore
pub mod Upsert
use doxa.Prelude.{
  ℕ, ◌+◌, Bool, List, [], ◌∷◌, Option, none, some, length, ltb, leb, ◌==◌, if◌then◌else◌, Result,
  ok, err, panic, ◌>>=◌, ◌>>◌, ensure, ok_or, attempt, chain, unfailing, Map, get, insert,
  contains_key,
}
use doxa.Hasher.{MerkleHash, HashOutput}
use doxa.Client.Keys.{nat_key}
use doxa.Client.Amounts.{amount_limbs}
use doxa.StateSync.Contract.{goldilocks_prime}
use doxa.Merkle
use doxa.Merkle.{MerkleTree, MerkleTreeError, MerkleTreeResult, num_leaves, update_leaf}
use doxa.Merkle.Membership.{MerkleProof, merkle_proof}

abbrev pub acc_ast_depth : ℕ
acc_ast_depth = 10

-- An element of the field, by its canonical value.
abbrev pub AssetId : Type 0
AssetId = ℕ

pub data AssetError : Type 0 where
  default_asset : AssetError
  out_of_field_range already_exists not_found : AssetId → AssetError
  merkle_error : MerkleTreeError → AssetError
  not_contiguous : ℕ → ℕ → AssetError

abbrev pub AssetResult : Type 0 → Type 0
AssetResult A = Result AssetError A

-- `map_err(|e| e.to_string())`
abbrev pub merkle : {A : Type 0} → MerkleTreeResult A → AssetResult A
merkle (ok a) = ok a
merkle (err e) = err (merkle_error e)
merkle panic = panic

unfoldable pub from_u64 : ℕ → AssetResult AssetId
from_u64 v = do ensure (ltb v goldilocks_prime) (out_of_field_range v); ok v

pub record AccountStateTreeLeaf : Type 0 where
  pub asset_id : AssetId
  pub amount : ℕ

pub record AccountStateTree : Type 0 where
  pub tree : MerkleTree HashOutput
  pub assets : Map AssetId (ℕ × ℕ)

-- `Result::unwrap` of a method's result.
abbrev pub unwrapped : {S A : Type 0} → S × AssetResult A → S × AssetResult A
unwrapped done = (done.0, unfailing done.1)

-- `sort_by_key` by the leaf index, on the entries of the map.
abbrev pub insert_by_index : AssetId × (ℕ × ℕ) → List (AssetId × (ℕ × ℕ)) → List (AssetId × (ℕ × ℕ))
insert_by_index entry [] = entry ∷ []
insert_by_index entry (first ∷ entries) =
    let rest = insert_by_index entry entries in
    if leb entry.1.0 first.1.0 then entry ∷ first ∷ entries else first ∷ rest

abbrev pub sort_by_index : List (AssetId × (ℕ × ℕ)) → List (AssetId × (ℕ × ℕ))
sort_by_index [] = []
sort_by_index (entry ∷ entries) = insert_by_index entry (sort_by_index entries)

-- The check that the leaf indices count up from a number.
unfoldable pub check_contiguous : ℕ → List (AssetId × (ℕ × ℕ)) → AssetResult (Unit {0})
check_contiguous expected [] = ok tt
check_contiguous expected ((asset_id, (leaf_index, amount)) ∷ entries) = do
  ensure (leaf_index == expected) (not_contiguous expected leaf_index)
  check_contiguous (expected + 1) entries

unfoldable pub amount_for : AccountStateTree → AssetId → Option (ℕ × ℕ)
amount_for s asset_id = get s.assets asset_id

unfoldable pub next_index : AccountStateTree → ℕ
unfolding num_leaves
next_index s = num_leaves s.tree

unfoldable pub size : AccountStateTree → ℕ
unfolding num_leaves
size s = num_leaves s.tree

module _ ⦃h : MerkleHash HashOutput⦄ where
  unfoldable pub root : AccountStateTree → AssetResult HashOutput
  root s = unfailing (Merkle.root s.tree)

  -- `expect` panics on an error.
  unfoldable pub merkle_proof_at : AccountStateTree → ℕ → AssetResult (MerkleProof HashOutput)
  merkle_proof_at s i = unfailing (merkle_proof s.tree i)

module _ (hash_no_pad : List ℕ → HashOutput) where
  -- `AccountStateTreeLeaf::commitment`: 1312 is the domain separator.
  unfoldable pub leaf_commitment : AccountStateTreeLeaf → HashOutput
  unfolding amount_limbs
  leaf_commitment leaf = hash_no_pad (1312 ∷ leaf.asset_id ∷ amount_limbs leaf.amount)

  module _ ⦃h : MerkleHash HashOutput⦄ where
    -- `_insert_asset`
    unfoldable pub append_asset :
        AssetId → ℕ → AccountStateTree → AccountStateTree × AssetResult (Unit {0})
    unfolding num_leaves leaf_commitment
    append_asset asset_id amount s =
        let index = num_leaves s.tree in
        let leaf : AccountStateTreeLeaf = record { asset_id = asset_id; amount = amount } in
        attempt s (merkle (Merkle.insert s.tree (leaf_commitment leaf))) (λ inserted.
          (record { tree = inserted.0; assets = insert s.assets asset_id (index, amount) }, ok tt))

    unfoldable pub new : AssetResult AccountStateTree
    unfolding append_asset Merkle.new
    new =
        let (s, done) =
          unwrapped (append_asset 0 0 (record { tree = Merkle.new acc_ast_depth; assets = [] })) in
        do done; ok s

    unfoldable pub insert_asset :
        AssetId → ℕ → AccountStateTree → AccountStateTree × AssetResult (Unit {0})
    unfolding append_asset
    insert_asset asset_id amount s =
        if asset_id == 0
        then (s, err default_asset)
        else (if contains_key s.assets asset_id
            then (s, err (already_exists asset_id))
            else append_asset asset_id amount s)

    -- The previous amount.
    unfoldable pub update_asset : AssetId → ℕ → AccountStateTree → AccountStateTree × AssetResult ℕ
    unfolding leaf_commitment
    update_asset asset_id amount s =
        if asset_id == 0
        then (s, err default_asset)
        else attempt s (ok_or (get s.assets asset_id) (not_found asset_id)) (λ entry.
          let leaf : AccountStateTreeLeaf = record { asset_id = asset_id; amount = amount } in
          attempt s (merkle (update_leaf s.tree entry.0 (leaf_commitment leaf))) (λ tree. (
            record { tree = tree; assets = insert s.assets asset_id (entry.0, amount) },
            ok entry.1,
          )))

    -- Both branches unwrap.
    unfoldable pub insert_or_update_asset :
        AssetId → ℕ → AccountStateTree → AccountStateTree × AssetResult (Option ℕ)
    unfolding insert_asset update_asset
    insert_or_update_asset asset_id amount s =
        if contains_key s.assets asset_id
        then (let (s', updated) = unwrapped (update_asset asset_id amount s) in
            (s', updated >>= λ prev. ok (some prev)))
        else (let (s', inserted) = unwrapped (insert_asset asset_id amount s) in
            (s', inserted >> ok none))

    -- The loop of `new_from_asset_map`.
    unfoldable pub insert_all :
        List (AssetId × (ℕ × ℕ)) → AccountStateTree → AccountStateTree × AssetResult (Unit {0})
    unfolding insert_asset
    insert_all [] s = (s, ok tt)
    insert_all ((asset_id, (leaf_index, amount)) ∷ entries) s =
        chain (insert_asset asset_id amount s) (insert_all entries)

    unfoldable pub new_from_asset_map : Map AssetId (ℕ × ℕ) → AssetResult AccountStateTree
    unfolding check_contiguous new insert_all
    new_from_asset_map m = do
      let entries = sort_by_index m
      check_contiguous 0 entries
      ast ← new
      let built = insert_all entries ast
      built.1
      ok built.0
