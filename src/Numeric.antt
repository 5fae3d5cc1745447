-- ===== src/Numeric.antt =====
-- The numbers of `cosmwasm_std`, a package outside the repository, which the contracts compute
-- with: `Uint128` as a natural number, and `Decimal` as the number of its atomics, units of
-- 10 ^ -18. The operations are a parameter of the development, and `IsNumeric` states what the
-- package documents of them.
mod Defs
mod Facts
mod Root
mod Reference
pub use Defs.*
pub use Facts.*
pub use Reference.*
