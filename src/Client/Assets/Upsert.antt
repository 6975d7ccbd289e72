-- ===== src/Client/Assets/Upsert.antt =====
-- The entries after `insert_or_update_asset` of an asset that is not the default one.
use doxa.Prelude.{
  ℕ, ◌+◌, ◌<◌, ◌≡◌, refl, ap, ◌∙◌, false, List, [], ◌∷◌, ◌++◌, Option, none, some, arith, length,
  leb, ◌==◌, inl, inr, Option-cases, ok, unfailing, length-map,
}
use doxa.Hasher.{MerkleHash, HashOutput}
use doxa.Merkle
use doxa.Merkle.Full.{node, root-node}
use doxa.Client.Assets.{AssetId, AccountStateTree, acc_ast_depth, leaf_commitment, root}
use doxa.Client.Assets.Entries.{
  Entries, find, replace, entry, find-append_self, find-append_ne, find-replace_ne,
  find-replace_self,
}
use doxa.Client.Assets.Mirror.{Holds, leaves_of}
use doxa.Client.Assets.Run.{upsert_entry, upsert_result}

-- The asset has its entry with the amount, and the others have what they had.
pub record Upserted (a v : ℕ) (es : Entries) : Type 0 where
  pub place : ℕ
  pub previous : Option ℕ
  pub succeeds : upsert_result a es ≡ ok previous
  pub written : find a 0 (upsert_entry a v es) ≡ some (place, v)
  pub others : (b : AssetId) → (b == a) ≡ false → find b 0 (upsert_entry a v es) ≡ find b 0 es

pub upsert_entry-Upserted :
    (a v : ℕ) (es : Entries)
    → (a == 0) ≡ false
    → (find a 0 es ≡ none → length es < 1024)
    → Upserted a v es
upsert_entry-Upserted a v es proper room = elim (Option-cases (find a 0 es)) [
  | inl fresh ↦
      let space : leb 1024 (length es) ≡ false = below (length es) (room fresh) in
      let appends : upsert_entry a v es ≡ es ++ entry a v ∷ [] =
        rw fresh (rw proper (rw space refl)) in
      record {
        place = 0 + length es;
        previous = none;
        succeeds = rw fresh (rw proper (rw space refl));
        written = ap (find a 0) appends ∙ find-append_self a v 0 es fresh;
        others = λ b ne. ap (find b 0) appends ∙ find-append_ne a v b 0 es ne;
      }
  | inr ((i, w), held) ↦
      let replaces : upsert_entry a v es ≡ replace a v es = rw held (rw proper refl) in
      record {
        place = i;
        previous = some w;
        succeeds = rw held (rw proper refl);
        written = ap (find a 0) replaces ∙ find-replace_self a v 0 i w es held;
        others = λ b ne. ap (find b 0) replaces ∙ find-replace_ne a v b 0 es ne;
      }
]
  where
    below : (n : ℕ) → n < 1024 → leb 1024 n ≡ false
    below n l = ground arith

module _ (hash_no_pad : List ℕ → HashOutput) ⦃h : MerkleHash HashOutput⦄ where
  -- A tree of entries has a root.
  pub root-Holds :
      (es : Entries) (s : AccountStateTree)
      → Holds hash_no_pad es s
      → root s ≡ ok (node (leaves_of hash_no_pad es) acc_ast_depth 0)
  unfolding root
  root-Holds es s o =
      ap (λ t. unfailing (Merkle.root t)) o.tree
      ∙ ap unfailing (
          root-node acc_ast_depth (leaves_of hash_no_pad es) (omega arith)
            (omega (arith, o.room, length-map es (leaf_commitment hash_no_pad))))
