-- ===== src/GhostVault/Errors.antt =====
-- `ContractError` of the vault (testing/rujira-ghost-vault/src/error.rs).
use nami_contracts.Base.{ℕ}
use nami_contracts.SharePool.{SharePoolError}
use nami_contracts.Interest.{InterestError}

-- The messages of `StdError` are told apart by where they come from.
pub data ContractError : Type 0 where
  std : ContractError
  std_interest : InterestError → ContractError
  payment : ContractError
  share_pool : SharePoolError → ContractError
  unauthorized unauthorized_borrower : ContractError
  borrow_limit_reached : (limit : ℕ) → ContractError
  insufficient_repay : (debt value repaid : ℕ) → ContractError
