-- ===== src/IndexFixed/Errors.antt =====
-- `ContractError` of the fixed index (contracts/nami-index-fixed/src/error.rs).
use nami_contracts.Base.{String}
use nami_contracts.FeeManager.{FeeManagerError}

pub data ContractError : Type 0 where
  std payment overflow : ContractError
  fee_manager_error : FeeManagerError → ContractError
  unauthorized : ContractError
  missing_denomination : String → ContractError
  deposit_proportions_not_identical weight_not_zero invalid_weight : ContractError
  invalid_denom_pair allocation_already_exists : ContractError
