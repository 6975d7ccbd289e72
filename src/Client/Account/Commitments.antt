-- ===== src/Client/Account/Commitments.antt =====
-- doxa-client/src/account.rs: the words of a commitment, and `is_fresh`.
use doxa.Prelude.{
  ℕ, ◌≡◌, refl, ap, sym, ◌∙◌, Bool, true, false, not, ◌&&◌, List, [], ◌∷◌, ◌++◌, Option, none, some,
  is_some, arith, length, length-map, ◌==◌, ok, ok_of_bind,
}
use doxa.Hasher.{MerkleHash, HashOutput}
use doxa.Merkle.Layers.{tree_of}
use doxa.Client.Assets
use doxa.Client.Assets.{AssetResult, leaf_commitment}
use doxa.Client.Assets.Entries.{Entries, find}
use doxa.Client.Assets.Mirror.{Holds}
use doxa.Client.Account.{
  CompressedPublicKey, StandardAccount, pk_or_default, key_words, consume_words, commitment_words,
  is_fresh,
}

keys_agree :
    (k l : CompressedPublicKey) (c d : List ℕ)
    → key_words k ++ c ≡ key_words l ++ d
    → (k ≡ l) × (c ≡ d)
keys_agree k l c d e =
    let e0 : k.w0 ≡ l.w0 = cc in
    let e1 : k.w1 ≡ l.w1 = cc in
    let e2 : k.w2 ≡ l.w2 = cc in
    let e3 : k.w3 ≡ l.w3 = cc in
    let e4 : k.w4 ≡ l.w4 = cc in
    (λ i. record { w0 = e0 i; w1 = e1 i; w2 = e2 i; w3 = e3 i; w4 = e4 i }, cc)

-- The words of two settings are the same.
consume_agree :
    (config : Bool) (pk : Option CompressedPublicKey) (config' : Bool)
    (pk' : Option CompressedPublicKey) (c : List ℕ)
    → consume_words (record { config = config; pk = pk }) ≡ ok c
    → consume_words (record { config = config'; pk = pk' }) ≡ ok c
    → (config ≡ config') × (config ≡ true → pk ≡ pk')
consume_agree false pk false pk' c e f = (refl, λ t. cc)
consume_agree false pk true none c e f = cc
consume_agree false pk true (some l) c e f = absurd (ground arith)
consume_agree true none config' pk' c e f = cc
consume_agree true (some k) false pk' c e f = absurd (ground arith)
consume_agree true (some k) true none c e f = cc
consume_agree true (some k) true (some l) c e f =
    let same : key_words k ++ [] ≡ key_words l ++ [] = cc in
    (refl, λ t. ap some (keys_agree k l [] [] same).0)

last_false : (a b c d e : Bool) → e ≡ false → (a && b && c && d && e) ≡ false
last_false true true true true e p = p
last_false false b c d e p = refl
last_false true false c d e p = refl
last_false true true false d e p = refl
last_false true true true false e p = refl

not_empty : (es : Entries) (n : ℕ) → find 0 0 es ≡ some (0, 0) → n ≡ length es → (n == 0) ≡ false
not_empty [] n f e = cc
not_empty (x ∷ es) n f e = ground (arith, e)

module _ (hash_no_pad : List ℕ → HashOutput) ⦃h : MerkleHash HashOutput⦄ where
  -- The parts that two accounts share; `consume` is the key where the account uses its own.
  pub record SameState (a b : StandardAccount) : Type 0 where
    pub private_identifier : a.private_identifier ≡ b.private_identifier
    pub subpool_id : a.subpool_id ≡ b.subpool_id
    pub ast_root : Assets.root a.ast ≡ Assets.root b.ast
    pub nonce : a.nonce ≡ b.nonce
    pub spend : pk_or_default a.spend_pk ≡ pk_or_default b.spend_pk
    pub config : a.consume_auth.config ≡ b.consume_auth.config
    pub consume : a.consume_auth.config ≡ true → a.consume_auth.pk ≡ b.consume_auth.pk

  -- The parts of the words of a commitment.
  record Parts (a : StandardAccount) (ws : List ℕ) : Type 0 where
    root : HashOutput
    consume : List ℕ
    root_is : Assets.root a.ast ≡ ok root
    consume_is : consume_words a.consume_auth ≡ ok consume
    words :
        a.private_identifier.p0
          ∷ a.private_identifier.p1
          ∷ a.subpool_id
          ∷ root.e0
          ∷ root.e1
          ∷ root.e2
          ∷ root.e3
          ∷ a.nonce
          ∷ (key_words (pk_or_default a.spend_pk) ++ consume)
        ≡ ws

  parts : (a : StandardAccount) (ws : List ℕ) → commitment_words hash_no_pad a ≡ ok ws → Parts a ws
  unfolding commitment_words
  parts a ws e =
      let (r, e1, root_is) = ok_of_bind _ (Assets.root a.ast) ws e in
      let (c, e2, consume_is) = ok_of_bind _ (consume_words a.consume_auth) ws e1 in
      record { root = r; consume = c; root_is = root_is; consume_is = consume_is; words = cc }

  -- Two accounts whose commitments hash the same words have the same identifier, subpool, balances'
  -- root and nonce, the same spend key or placeholder, the same consume mode, and the same consume
  -- key where it is the account's own.
  pub commitment_words-SameState :
      (a b : StandardAccount) (ws : List ℕ)
      → commitment_words hash_no_pad a ≡ ok ws
      → commitment_words hash_no_pad b ≡ ok ws
      → SameState a b
  commitment_words-SameState a b ws e f =
      let p = parts a ws e in
      let q = parts b ws f in
      let same = p.words ∙ sym q.words in
      let i0 : a.private_identifier.p0 ≡ b.private_identifier.p0 = cc in
      let i1 : a.private_identifier.p1 ≡ b.private_identifier.p1 = cc in
      let r0 : p.root.e0 ≡ q.root.e0 = cc in
      let r1 : p.root.e1 ≡ q.root.e1 = cc in
      let r2 : p.root.e2 ≡ q.root.e2 = cc in
      let r3 : p.root.e3 ≡ q.root.e3 = cc in
      let rest : key_words (pk_or_default a.spend_pk) ++ p.consume
          ≡ key_words (pk_or_default b.spend_pk) ++ q.consume =
        cc in
      let (spend, consume) =
        keys_agree (pk_or_default a.spend_pk) (pk_or_default b.spend_pk) p.consume q.consume rest in
      let (config, key) =
        consume_agree a.consume_auth.config a.consume_auth.pk b.consume_auth.config
          b.consume_auth.pk q.consume (p.consume_is ∙ ap ok consume) q.consume_is in
      record {
        private_identifier = λ i. record { p0 = i0 i; p1 = i1 i };
        subpool_id = cc;
        ast_root =
            p.root_is
            ∙ (λ i. ok (record { e0 = r0 i; e1 = r1 i; e2 = r2 i; e3 = r3 i }))
            ∙ sym q.root_is;
        nonce = cc;
        spend = spend;
        config = config;
        consume = key;
      }

  -- An account whose balances are a tree that the operations can build is never fresh: the tree has
  -- at least the default asset.
  pub is_fresh-Holds :
      (es : Entries) (acc : StandardAccount) → Holds hash_no_pad es acc.ast → is_fresh acc ≡ false
  unfolding is_fresh tree_of
  is_fresh-Holds es acc o =
      last_false (acc.nonce == 0) (not (is_some acc.spend_pk)) (not acc.consume_auth.config)
        (not (is_some acc.consume_auth.pk)) (length acc.ast.tree.leaves == 0)
        (not_empty es (length acc.ast.tree.leaves) o.default
          (ap (λ t. length t.leaves) o.tree ∙ length-map es (leaf_commitment hash_no_pad)))
