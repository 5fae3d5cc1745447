-- ===== src/Lib.antt =====
-- The index contracts of this repository and the packages that they stand on.
--
-- The program. Four CosmWasm contracts: contracts/nami-index-fixed holds a basket of assets with a
-- fixed amount of each per share, contracts/nami-index-nav holds assets by target weight,
-- contracts/nami-index-entry-adapter swaps one coin into such a basket and back, and
-- contracts/nami-affiliate routes a call to a whitelisted contract and pays an affiliate. They charge
-- fees by packages/nami-rs/src/fee_manager.rs and issue tokens by
-- packages/rujira-rs/src/token_factory.rs. testing/rujira-ghost-vault is a lending vault on the pools
-- of packages/rujira-rs/src/share_pool.rs, and testing/rujira-bow a liquidity pool that quotes to the
-- exchange of packages/rujira-rs/src/exchange.
--
-- The files.
-- - Base: results with errors and panics, lists over native numbers, and the maps of a storage.
-- - Numeric: the operations of `Uint128`, `Decimal` and `Timestamp` that the contracts call. They are a
--   parameter, `Numeric`, and theorems assume the laws that the library documents, `IsNumeric`.
--   A decimal is its number of atomics, 10 ^ 18 to the unit, and both kinds have 128 bits.
--   Numeric/Reference is an instance that shows that the laws can hold.
-- - Chain: coins, messages, events and responses, and the queries of the chain as a parameter,
--   `Host`; `IsHost` states what `must_pay` returns. Payloads stand for themselves, not for their JSON.
-- - FeeManager: packages/nami-rs/src/fee_manager.rs, with its rates in Rates, the fee on assets under
--   management in Accrual, and those on transactions and gains in Charges.
-- - SharePool: packages/rujira-rs/src/share_pool.rs, and its life as a step relation in Solvency.
-- - Interest: packages/rujira-rs/src/interfaces/ghost_vault/interest.rs.
-- - GhostVault: testing/rujira-ghost-vault/src; State is state.rs, Borrowers is borrowers.rs, Contract
--   is contract.rs and config.rs. Accounting is on the tokens that move, Limits on borrowers.
-- - IndexFixed: contracts/nami-index-fixed/src; Vault is vault.rs, Contract is contract.rs.
-- - AssetAllocation: packages/nami-rs/src/asset_allocation.rs.
-- - NavIndex: contracts/nami-index-nav/src; Vault is vault.rs, Contract is contract.rs.
-- - Affiliate: contracts/nami-affiliate/src.
-- - EntryAdapter: contracts/nami-index-entry-adapter/src; Holdings is index.rs, Status is state.rs.
--   Messages and Flows are on what a step sends, Baskets joins the adapter's deposit to that of the
--   fixed index.
-- - Bow: packages/rujira-rs/src/interfaces/bow and testing/rujira-bow/src, the pools of a pair of
--   denoms. State and Xyk are xyk.rs, Strategy is strategy.rs, Contract is contract.rs. Quotes and Runs
--   follow one quote after another, Coverage, Solvency and Reach the shares over the contract's life,
--   Storage what is saved and loaded.
-- - AccountPool: packages/rujira-rs/src/account_pool.rs, with its life as a step relation in Funding.
-- - Exchange: packages/rujira-rs/src/exchange. Interface has the record `Swappable` of an offer of
--   liquidity and what it owes to its caller, Either joins two offers, Swapper takes them in a row, and
--   Arber trades two sides against each other.
-- - DecimalScaled: packages/rujira-rs/src/decimal_scaled.rs. Endings, Equalising and Totality are on its
--   recursions, which stop when digits or places run out; Exact is on numbers times 1.0.
-- - BidPool: packages/rujira-rs/src/bid_pool, pool.rs and bid.rs, with Distribution and Sync.
-- - Fin: testing/rujira-fin/src and packages/rujira-rs/src/interfaces/fin. Prices is side.rs, price.rs and
--   premium.rs, Pool is pool.rs, Orders is order.rs with the order methods of pool.rs, and MarketMaker
--   is the offer of market_maker.rs. Arbitrage is the loop of Exchange/Arber over these offers.
-- - Assets: packages/rujira-rs/src/asset.rs, on texts as lists of bytes; Split is on texts that are cut
--   and joined, Names and Denoms on the two parsers.
-- - Examples: the theorems at concrete inputs.
--
-- How the code is read. A contract's storage is a record, a handler is a function from it and the
-- message to an `Outcome`: the response with the new record, an error, or a panic. A call that ends in
-- an error or a panic changes nothing. A method with `&mut self` returns the new value. A number is
-- natural, with the limit of its type where the source's operations check it. Errors of one library
-- type are one constructor, without their text. A loop over a list is structural recursion. The loop
-- of the arbitrage runs on a number of rounds; Exchange/Arber/Termination shows how many are enough. So
-- do the operations of DecimalScaled, on as many rounds as the digits and places of their arguments;
-- DecimalScaled/Totality shows that these are enough.
--
-- Not modelled: the order manager and the entry points of the order book, ticks, query entry points, encodings and schemas.
pub mod Base
pub mod Numeric
pub mod FeeManager
pub mod SharePool
pub mod Chain
pub mod Interest
pub mod GhostVault
pub mod IndexFixed
pub mod AssetAllocation
pub mod NavIndex
pub mod Affiliate
pub mod EntryAdapter
pub mod Bow
pub mod AccountPool
pub mod Exchange
pub mod DecimalScaled
pub mod BidPool
pub mod Assets
pub mod Fin
mod Examples
