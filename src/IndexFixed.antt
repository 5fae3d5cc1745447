-- ===== src/IndexFixed.antt =====
-- The fixed index (contracts/nami-index-fixed/src): a basket of assets with an amount of each per share.
mod Errors
pub mod Vault
pub mod Contract
pub mod Deposits
pub mod Withdrawals
pub mod Effects
pub use Errors.*
