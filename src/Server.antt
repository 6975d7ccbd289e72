-- ===== src/Server.antt =====
-- doxa-server: batches of proofs and their aggregation.
pub mod SubtreeRoot
pub mod Batch
pub mod PrivTx
pub mod BridgeTx
mod Tests
