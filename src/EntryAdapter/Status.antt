-- ===== src/EntryAdapter/Status.antt =====
-- `Status` (contracts/nami-index-entry-adapter/src/state.rs): the swap contract of each denom.
use nami_contracts.Base.{
  String, Bool, ◌&&◌, ◌||◌, Option, none, str_eq, Outcome, ok, ◌>>=◌, ◌>>◌, ensure, or_err, Store,
  lookup, insert, erase,
}
use nami_contracts.Chain.{coins, Denoms, SwapEntry, CosmosMsg, wasm_execute, fin_swap, Host}
use nami_contracts.EntryAdapter.Errors.{
  ContractError, std, invalid_denom_pair, swap_contract_not_found,
}

abbrev pub SwapContracts : Type 0
SwapContracts = Store String

abbrev is_pair : Denoms → String → String → Bool
is_pair d quote denom =
    (str_eq d.quote quote && str_eq d.base denom) || (str_eq d.base quote && str_eq d.quote denom)

unfoldable pub add_contract :
    Host → String → String → String → SwapContracts → Outcome ContractError SwapContracts
add_contract host denom value quote_denom m = do
  denoms ← or_err (host.fin_config value) std
  ensure (is_pair denoms quote_denom denom) invalid_denom_pair
  ok (insert denom value m)

unfoldable pub remove_contract : String → SwapContracts → SwapContracts
remove_contract key m = erase key m

unfoldable pub swap_msg :
    SwapContracts → String → SwapEntry → Option String → Outcome ContractError CosmosMsg
swap_msg m key swap to = do
  contract_addr ← or_err (lookup key m) (swap_contract_not_found key)
  ok (
      wasm_execute contract_addr
        (fin_swap (record { min_return = swap.min_return; to = to; callback = none }))
        (coins swap.amount swap.denom))
