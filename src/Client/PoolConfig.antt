-- ===== src/Client/PoolConfig.antt =====
-- doxa-client/src/pool_config.rs: the main pool's configuration tree.
pub mod Insertion
pub mod Lookup
use doxa.Prelude.{
  ℕ, not, [], ◌==◌, if◌then◌else◌, Result, ok, err, panic, ◌>>=◌, ◌>>◌, ensure, ok_or, attempt, Map,
  get, insert,
}
use doxa.Hasher.{MerkleHash, HashOutput, zero_hash}
use doxa.Client.Keys.{hash_key}
use doxa.Client.PublicInputs.{same_hash}
use doxa.Client.Account.{CompressedPublicKey}
use doxa.Merkle.{MerkleTree, MerkleTreeError, MerkleTreeResult, num_leaves}
use doxa.Merkle
use doxa.Merkle.Membership.{MerkleProof, merkle_proof}

abbrev pub main_pool_config_depth : ℕ
main_pool_config_depth = 20

pub data PoolConfigError : Type 0 where
  reserved_subpool_id leaf_not_found : PoolConfigError
  predecessor_missing : ℕ → PoolConfigError
  merkle_error : MerkleTreeError → PoolConfigError

abbrev pub merkle : {A : Type 0} → MerkleTreeResult A → Result PoolConfigError A
merkle (ok a) = ok a
merkle (err e) = err (merkle_error e)
merkle panic = panic

pub record MainPoolConfigTree : Type 0 where
  pub inner : MerkleTree HashOutput
  pub leaf_index_map : Map HashOutput ℕ

-- The subpool's configuration is its approval key.
pub record SubpoolFullProof : Type 0 where
  pub main_pool_proof : MerkleProof HashOutput
  pub approval_key : CompressedPublicKey
  pub subpool_id : ℕ

-- `two_to_one` is plonky2's Poseidon compression. Its left input is the id, padded.
module _ (two_to_one : HashOutput → HashOutput → HashOutput) where
  -- `MainPoolConfigLeaf::commit`
  unfoldable pub commit : HashOutput → ℕ → HashOutput
  commit subpool_config_comm subpool_id =
      two_to_one (record { e0 = subpool_id; e1 = 0; e2 = 0; e3 = 0 }) subpool_config_comm

  -- The leaf of a subpool; an uninitialized one has the zero leaf.
  unfoldable pub subpool_digest : HashOutput → ℕ → HashOutput
  unfolding commit
  subpool_digest subpool_root subpool_id =
      if same_hash subpool_root zero_hash then zero_hash else commit subpool_root subpool_id

module _ ⦃h : MerkleHash HashOutput⦄ where
  unfoldable pub new : MainPoolConfigTree
  unfolding Merkle.new
  new = record { inner = Merkle.new main_pool_config_depth; leaf_index_map = [] }

  unfoldable pub root : MainPoolConfigTree → Result PoolConfigError HashOutput
  root t = merkle (Merkle.root t.inner)

  -- What precedes the insertion: position 0 is seeded for the first id, and any other id needs the
  -- one before it.
  unfoldable pub seeded : MainPoolConfigTree → ℕ → Result PoolConfigError MainPoolConfigTree
  unfolding num_leaves
  seeded t id =
      if id == 1
      then (if num_leaves t.inner == 0
          then (do
            (inner, at) ← merkle (Merkle.insert t.inner h.zero_digest)
            ok (record t { inner = inner }))
          else ok t)
      else (do ensure (num_leaves t.inner == id) (predecessor_missing (num_leaves t.inner)); ok t)

  module _ (two_to_one : HashOutput → HashOutput → HashOutput) where
    -- As in a release build, which does not compare the position with the id.
    unfoldable pub insert_subpool_at_position :
        MainPoolConfigTree → ℕ → HashOutput → MainPoolConfigTree × Result PoolConfigError (Unit {0})
    unfolding seeded subpool_digest
    insert_subpool_at_position t id subpool_root =
        attempt t (ensure (not (id == 0)) reserved_subpool_id >> seeded t id) (λ t'.
          let digest = subpool_digest two_to_one subpool_root id in
          attempt t' (merkle (Merkle.insert t'.inner digest)) (λ inserted.
            let indices =
              if same_hash digest zero_hash
              then t'.leaf_index_map
              else insert t'.leaf_index_map digest id in
            (record { inner = inserted.0; leaf_index_map = indices }, ok tt)))

    unfoldable pub subpool_proof :
        MainPoolConfigTree → ℕ → HashOutput → Result PoolConfigError (MerkleProof HashOutput)
    unfolding commit
    subpool_proof t id subpool_config_comm =
        if same_hash subpool_config_comm zero_hash then merkle (merkle_proof t.inner id) else (do
          index ←
              ok_or (get t.leaf_index_map (commit two_to_one subpool_config_comm id)) leaf_not_found
          merkle (merkle_proof t.inner index))
