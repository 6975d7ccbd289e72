-- ===== src/StateSync.antt =====
-- doxa-state-sync: the mirror of the contract's state.
pub mod Contract
pub mod State
pub mod Preimages
pub mod ConfigTree
pub mod Deposits
mod Tests
