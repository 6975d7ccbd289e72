-- ===== src/Lib.antt =====
-- Doxa: a privacy pool whose transactions are proved on the client, batched by a server and
-- mirrored from the chain. This library models the parts that keep state.
--
-- The parts, and how they interact:
--   - A client proves a transaction. What the other parts see of a proof is its list of public
--     inputs (doxa-client/src/lib.rs, Client/PublicInputs).
--   - The server collects proofs into a batch (doxa-server/src/batch_helper.rs and the
--     batch_helper.rs files below prover_service/; Server/Batch, Server/PrivTx, Server/BridgeTx),
--     fills the batch with padding proofs and commits to the Merkle root of all commitments
--     (prover_service/subtree_root.rs, Server/SubtreeRoot). The words it hashes are published.
--   - The mirror (doxa-state-sync/src/, StateSync) reads the published pre-images and events,
--     records the commitments and nullifiers as pending, and on the confirmation of a batch
--     appends its root to the state tree. It then answers with a batch proof and a tree proof.
--   - The trees of all of these are the append-only Merkle tree of doxa-trees/src/ (Merkle). The
--     tree of subpools is kept in it too (doxa-client/src/pool_config.rs, Client/PoolConfig).
--
-- Which file models what; operations keep the names of the source's functions:
--   - Hasher: MerkleHash and HashOutput of doxa-utils/src/hasher.rs. MerkleHash is an instance
--     argument, so the tree's lemmas hold for every hash. HashOutput is a record of four numbers.
--   - Merkle: MerkleTree of doxa-trees/src/tree.rs with new, insert, update_leaf, merkle_path and
--     root; Merkle/Batch: insert_batch; Merkle/Membership: merkle_proof.rs;
--     Merkle/Verification: verification.rs. A panic is a result of its own beside the errors.
--     Merkle/Layers has the reference, the tree of a list of leaves (tree_of), with which Climb,
--     Run and Batch/Insert compare the operations, and Merkle/Full has the full padded tree.
--   - Server/Batch: the provided methods of the trait BatchHelper. Server/PrivTx: PrivateTxBatch.
--     Server/BridgeTx: BridgeTxBatch. An operation returns the batch it leaves, also with an
--     error, since a method that fails may have changed `self`. The circuits inside the batches
--     are not state and are left out.
--   - Client/PoolConfig: MainPoolConfigTree. Client/Keys: equality of the keys of the maps.
--     Client/Assets: AccountStateTree of doxa-client/src/account.rs, the balances; its Mirror
--     says how the tree and the map stand for one list of entries, and Run and Restore use it.
--     Client/Account: StandardAccount with its hashes; Client/Address: AccountAddress;
--     Client/Spend: SpendTxBuilder of doxa-client/src/plonky2_gadgets/priv_tx/builder/
--     spend_builder.rs, with Spend/Calls (its methods in any order), Spend/Build (build) and
--     Spend/Sign (BuiltSpendTx: signatures, proofs, into_priv_tx). Client/FreshAcc: the builder
--     of freshacc_builder.rs beside it.
--     Client/Scalar: Scalar of doxa-client/src/schnorr.rs; an array of words is a list, and
--     Limbs says which number it stands for. Client/Schnorr: signing and verifying of the same
--     file. Client/Curve: the points of doxa-client/src/ecgfp5.rs that signatures use, over the
--     operations of plonky2's QuinticExtension; a division by zero panics.
--     Client/Notes: doxa-client/src/note.rs. Client/Amounts and Client/Words: the 32-bit limbs
--     of amounts (U256) and the bytes of words.
--   - StateSync/Contract: the conversions of contract.rs. StateSync/State: StateSyncState and its
--     queries, with State/Confirm (confirm_batch) and State/Status (the statuses).
--     StateSync/Preimages: the parsing of pre-images in sync.rs, with the offsets of constants.rs.
--     StateSync/ConfigTree: sync_config_tree, whose subpool roots are one list, read from the
--     contract at the initial sync and taken from the logs later. StateSync/Deposits: sync_deposits.
--   - Prelude: the shared notation, results with panics and loops that keep the state of a failed
--     round (Prelude/Results), association lists for HashMap and HashSet (Prelude/Maps), lists
--     and powers. Samples: small hash functions for the tests.
--
-- Numbers: u64 and usize are natural numbers. Hash elements are read from 8 bytes, so they are
-- below 2^64, and the checks against the Goldilocks prime are written out. A subtraction of usize
-- that would go below zero panics. Sums of positions and sizes do not reach 2^64 for trees of
-- the depths in use, and no wrap-around is modelled for them. U256 is a natural number, and
-- field elements are their canonical values. A nonce counts up from 0 and is taken to stay below
-- the prime. Debug assertions are left out, as in a release build.
--
-- Loops: the loops over layers, ranges and logs are structural recursions, so they need no fuel.
--   - drain (StateSync/ConfigTree) follows a chain of buffered ids and takes the number of
--     buffered events as fuel: every round removes one of them.
--   - reduce_loop (Client/Scalar/Decode) counts an index down by 39 and takes the index as fuel.
--   - shrink (Server/SubtreeRoot) halves a list on fuel; the length of the list is enough.
--
-- Parameters of the model: the Poseidon sponge of plonky2 (hash_no_pad), the proving of padding
-- transactions, two_to_one of the pool tree, the encoding of bytes in hex, the
-- Schnorr key pair and signature where transactions use them, the field QuinticExtension and the
-- sponge of plonky2 where signatures do, and what random generators draw. Nothing is assumed of them except, where a
-- theorem says so, that a padding proof exists and has the public inputs its builder was given,
-- that the commitment of an initialized subpool is not the zero hash, that the
-- sponge gives as many words as asked for, or that hex gives two
-- digits for a byte and decodes what it encoded. RPC answers, decoded
-- logs and calldata are arguments.
--
-- Not modelled: the circuits and their proving (plonky2, starky, the Groth16 wrapper), the
-- keccak hash of the pre-image words, SQL, HTTP and RPC, logging, the lock around the mirror
-- (its operations run one after another), the Solidity contracts, the
-- group laws of the curve and the decoding of its points (doxa-client/src/ecgfp5.rs), the other transaction builders, and update_sparse_paths and rebuild_tree, which nothing calls.
pub mod Client
pub mod Hasher
pub mod Merkle
pub mod Prelude
pub mod Samples
pub mod Server
pub mod StateSync
