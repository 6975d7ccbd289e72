-- ===== src/Client/Account.antt =====
-- doxa-client/src/account.rs: accounts, their commitments and nullifiers, transaction hashes.
pub mod Commitments
mod Tests
use doxa.Prelude.{
  ℕ, ◌+◌, Bool, true, false, not, ◌&&◌, List, [], ◌∷◌, ◌++◌, map, Option, none, some, is_some, ◌==◌,
  if◌then◌else◌, ok, ◌>>=◌, unwrap,
}
use doxa.Hasher.{MerkleHash, HashOutput}
use doxa.Client.Amounts.{amount_limbs}
use doxa.Client.Assets
use doxa.Client.Assets.{AccountStateTree, AssetResult, AssetId}

pub record PrivateIdentifier : Type 0 where
  pub p0 : ℕ
  pub p1 : ℕ

-- A compressed point of the curve, by its five elements.
pub record CompressedPublicKey : Type 0 where
  pub w0 : ℕ
  pub w1 : ℕ
  pub w2 : ℕ
  pub w3 : ℕ
  pub w4 : ℕ

abbrev pub key_words : CompressedPublicKey → List ℕ
key_words k = k.w0 ∷ k.w1 ∷ k.w2 ∷ k.w3 ∷ k.w4 ∷ []

abbrev pub hash_words : HashOutput → List ℕ
hash_words h = h.e0 ∷ h.e1 ∷ h.e2 ∷ h.e3 ∷ []

abbrev pub all_words : List HashOutput → List ℕ
all_words [] = []
all_words (h ∷ hs) = hash_words h ++ all_words hs

-- `DEFAULT_SPEND_AUTH_PK` and `DEFAULT_ACC_COMM_CONSUME_PK_PLACEHOLDER` are the same numbers.
abbrev pub default_pk : CompressedPublicKey
default_pk = record {
  w0 = 7613690455422068269;
  w1 = 12930951591626745075;
  w2 = 16103143792840800039;
  w3 = 4657200339622395349;
  w4 = 3857357297380158342;
}

pub record ConsumeAuth : Type 0 where
  pub config : Bool
  pub pk : Option CompressedPublicKey

abbrev pub pk_or_default : Option CompressedPublicKey → CompressedPublicKey
pk_or_default none = default_pk
pk_or_default (some k) = k

pub record StandardAccount : Type 0 where
  pub private_identifier : PrivateIdentifier
  pub subpool_id : ℕ
  pub nonce : ℕ
  pub spend_pk : Option CompressedPublicKey
  pub consume_auth : ConsumeAuth
  pub ast : AccountStateTree

-- The nonce is an element of the field, below its prime.
unfoldable pub clone_with_incremented_nonce : StandardAccount → StandardAccount
clone_with_incremented_nonce acc = record acc { nonce = acc.nonce + 1 }

unfoldable pub is_fresh : StandardAccount → Bool
unfolding Assets.size
is_fresh acc =
    (acc.nonce == 0)
    && not (is_some acc.spend_pk)
    && not acc.consume_auth.config
    && not (is_some acc.consume_auth.pk)
    && (Assets.size acc.ast == 0)

-- `consume_auth.pk.unwrap()` panics.
abbrev pub consume_words : ConsumeAuth → AssetResult (List ℕ)
consume_words auth =
    if auth.config
    then (do pk ← unwrap auth.pk; ok (1 ∷ key_words pk))
    else ok (0 ∷ key_words default_pk)

module _ (hash_no_pad : List ℕ → HashOutput) where
  unfoldable pub public_id : StandardAccount → HashOutput
  public_id acc = hash_no_pad (13 ∷ acc.private_identifier.p0 ∷ acc.private_identifier.p1 ∷ [])

  unfoldable pub nk : StandardAccount → HashOutput
  nk acc = hash_no_pad (12 ∷ acc.private_identifier.p0 ∷ acc.private_identifier.p1 ∷ [])

  -- `derive_priv_tx_hash`
  unfoldable pub derive_priv_tx_hash :
      HashOutput → HashOutput → List HashOutput → List HashOutput → HashOutput
  derive_priv_tx_hash accin_null accout_comm inotes_null onotes_comm = hash_no_pad (
      hash_words accin_null
      ++ (hash_words accout_comm ++ (all_words inotes_null ++ all_words onotes_comm)))

  module _ ⦃h : MerkleHash HashOutput⦄ where
    -- What is hashed for a commitment.
    unfoldable pub commitment_words : StandardAccount → AssetResult (List ℕ)
    unfolding Assets.root
    commitment_words acc = do
      ast_root ← Assets.root acc.ast
      consume ← consume_words acc.consume_auth
      ok (
          acc.private_identifier.p0
          ∷ acc.private_identifier.p1
          ∷ acc.subpool_id
          ∷ ast_root.e0
          ∷ ast_root.e1
          ∷ ast_root.e2
          ∷ ast_root.e3
          ∷ acc.nonce
          ∷ (key_words (pk_or_default acc.spend_pk) ++ consume))

    unfoldable pub commitment : StandardAccount → AssetResult HashOutput
    unfolding commitment_words
    commitment acc = do words ← commitment_words acc; ok (hash_no_pad words)

    unfoldable pub nullifier : StandardAccount → AssetResult HashOutput
    unfolding commitment nk
    nullifier acc = do
      comm ← commitment acc
      ok (hash_no_pad (hash_words comm ++ hash_words (nk acc)))
