-- ===== src/NavIndex.antt =====
-- The index by net asset value (contracts/nami-index-nav/src): assets by target weight, with shares
-- priced by the value of what the contract holds.
mod Errors
pub mod Vault
pub mod Contract
pub mod Shares
pub use Errors.*
