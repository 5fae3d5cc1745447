-- ===== src/NavIndex/Errors.antt =====
-- `ContractError` of the NAV index (contracts/nami-index-nav/src/error.rs).
use nami_contracts.FeeManager.{FeeManagerError}
use nami_contracts.AssetAllocation.{AssetAllocationError}

pub data ContractError : Type 0 where
  std payment checked_from_ratio overflow oracle_error : ContractError
  fee_manager_error : FeeManagerError → ContractError
  asset_allocation_error : AssetAllocationError → ContractError
  slippage_exceeded weight_not_zero missing_quote_allocation weight_one : ContractError
  invalid_swap_contract slippage_one invalid_denom_pair : ContractError
