-- ===== src/EntryAdapter/Errors.antt =====
-- `ContractError` and `IndexErrors` of the entry adapter (contracts/nami-index-entry-adapter/src/error.rs, index.rs).
use nami_contracts.Base.{ℕ, String}

pub data IndexErrors : Type 0 where
  invalid_deposit_amount : (denom : String) → IndexErrors
  invalid_deposit_proportions : IndexErrors

pub data ContractError : Type 0 where
  std payment overflow unauthorized invalid_denom_pair : ContractError
  index_error : IndexErrors → ContractError
  insufficient_return : (expected returned : ℕ) → ContractError
  invalid_swap_data : (sent expected : ℕ) → ContractError
  swap_contract_not_found : (denom : String) → ContractError
