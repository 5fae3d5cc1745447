-- ===== src/GhostVault.antt =====
-- The lending vault (testing/rujira-ghost-vault/src): its state, its borrowers and its entry points.
mod Errors
pub mod State
pub mod Borrowers
pub mod Contract
pub mod Pools
pub mod Accounting
pub mod Limits
pub use Errors.*
