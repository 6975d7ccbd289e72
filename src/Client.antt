-- ===== src/Client.antt =====
-- doxa-client: accounts, notes, and the client's trees.
pub mod PublicInputs
pub mod Keys
pub mod PoolConfig
pub mod Amounts
pub mod Words
pub mod Assets
pub mod Account
pub mod Address
pub mod Notes
pub mod Spend
pub mod FreshAcc
pub mod Scalar
pub mod Curve
pub mod Schnorr
mod Tests
