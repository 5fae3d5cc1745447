-- ===== src/Exchange.antt =====
-- Swaps over offers of liquidity (packages/rujira-rs/src/exchange): the interface of an offer, the
-- swapper that takes offers one after another, and the arbitrage between two sides.
pub mod Interface
pub mod Either
pub mod Swapper
pub mod Arber
