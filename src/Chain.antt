-- ===== src/Chain.antt =====
-- What a contract shares with the chain: coins, messages, events, the environment of a call, and
-- the queries that it asks. The payloads of messages between contracts stand for themselves and not
-- for their JSON.
mod Types
mod Environment
mod TokenFactory
mod Transfers
pub use Types.*
pub use Environment.*
pub use TokenFactory.*
pub use Transfers.*
