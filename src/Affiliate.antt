-- ===== src/Affiliate.antt =====
-- The affiliate router (contracts/nami-affiliate/src): it forwards a call with its funds to a contract on
-- its whitelist, less a fee for the affiliate, and then sends its balance back to the caller.
mod Contract
pub mod Fees
pub mod Split
unfoldable pub use Contract.*
