-- ===== src/Examples.antt =====
-- The theorems at concrete inputs, and runs of the definitions.
mod Sample
mod Fees
mod Pools
mod Ghost
mod Fixed
mod Routes
mod Nav
mod Bow
mod Swaps
mod Bids
mod Names
mod Orders
