-- ===== src/EntryAdapter.antt =====
-- The entry adapter (contracts/nami-index-entry-adapter/src): it swaps one coin into the basket of a fixed
-- index and deposits it, or withdraws from the index and swaps the basket back.
mod Errors
pub mod Holdings
pub mod Status
pub mod Contract
pub mod Baskets
pub mod Messages
pub mod Flows
pub use Errors.*
