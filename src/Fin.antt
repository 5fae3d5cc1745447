-- ===== src/Fin.antt =====
-- Offers of the order book (testing/rujira-fin/src, packages/rujira-rs/src/interfaces/fin): the pools
-- of bids at a price, and the quotes of a market maker.
pub mod Prices
pub mod Pool
pub mod MarketMaker
pub mod Orders
pub mod Retractions
pub mod Arbitrage
