-- ===== src/Bow.antt =====
-- The liquidity pools of the exchange: the constant-product strategy
-- (packages/rujira-rs/src/interfaces/bow) and the contract that holds its funds
-- (testing/rujira-bow/src).
pub mod State
pub mod Xyk
pub mod Strategy
pub mod Contract
pub mod Swaps
pub mod Quotes
pub mod Runs
pub mod Coverage
pub mod Solvency
pub mod Reach
pub mod Storage
pub mod Denoms
