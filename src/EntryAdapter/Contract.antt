-- ===== src/EntryAdapter/Contract.antt =====
-- The entry points of the entry adapter (contracts/nami-index-entry-adapter/src/contract.rs, config.rs).
use nami_contracts.Base.{
  ℕ, String, not, Option, none, some, List, [], ◌∷◌, ◌++◌, ltb, ◌==◌, str_eq, Outcome, ok, ◌>>=◌,
  ◌>>◌, ensure, or_err, or_panic, traverse,
}
use nami_contracts.Numeric.{Numeric}
use nami_contracts.Chain.{
  Coin, coins, SwapEntry, ThenType, then_deposit, then_swap, then_send, adapter_then, CosmosMsg,
  bank_send, wasm_execute, Response, no_response, add_messages, Env, MessageInfo, Host,
}
use nami_contracts.EntryAdapter.Errors.{
  ContractError, std, payment, unauthorized, insufficient_return, invalid_swap_data,
}
use nami_contracts.EntryAdapter.Holdings
use nami_contracts.EntryAdapter.Status
use nami_contracts.EntryAdapter.Status.{SwapContracts}

pub record Config : Type 0 where
  pub quote_denom : String

-- What the storage of the contract holds.
pub record Adapter : Type 0 where
  pub config : Config
  pub swap_contracts : SwapContracts

pub record InstantiateMsg : Type 0 where
  pub quote_denom : String
  pub swap_contracts : List (String × String)

pub data ExecuteMsg : Type 0 where
  deposit : (index : String) (swaps : List SwapEntry) → ExecuteMsg
  withdraw : (index : String) (min_return : Option ℕ) → ExecuteMsg
  run_then : ThenType → ExecuteMsg

pub data SudoMsg : Type 0 where
  add_swap_contract : (denom contract : String) → SudoMsg
  remove_swap_contract : (denom : String) → SudoMsg

unfoldable pub add_contracts :
    Host → String → List (String × String) → SwapContracts → Outcome ContractError SwapContracts
add_contracts host quote_denom [] m = ok m
add_contracts host quote_denom ((denom, contract) ∷ rest) m =
    Status.add_contract host denom contract quote_denom m >>= add_contracts host quote_denom rest

unfoldable pub instantiate : Host → InstantiateMsg → Outcome ContractError (Response × Adapter)
instantiate host msg = do
  let config : Config = record { quote_denom = msg.quote_denom }
  swap_contracts ← add_contracts host config.quote_denom msg.swap_contracts []
  ok (no_response, record { config = config; swap_contracts = swap_contracts })

-- The message by which the contract goes on with a later step.
abbrev pub self_then : Env → ThenType → CosmosMsg
self_then env step = wasm_execute env.contract_address (adapter_then step) []

-- One coin of `ThenType::Swap`, and one of `ThenType::Send`.
unfoldable pub swap_back : SwapContracts → Coin → Outcome ContractError CosmosMsg
swap_back m balance =
    Status.swap_msg m balance.denom
      (record { denom = balance.denom; amount = balance.amount; min_return = none }) none

unfoldable pub send_back : String → Option ℕ → Coin → Outcome ContractError CosmosMsg
send_back sender none balance = ok (bank_send sender (coins balance.amount balance.denom))
send_back sender (some least) balance = do
  ensure (not (ltb balance.amount least)) (insufficient_return least balance.amount)
  ok (bank_send sender (coins balance.amount balance.denom))

-- The swap of what a deposit leaves over.
unfoldable pub swap_rest : SwapContracts → String → SwapEntry → Outcome ContractError CosmosMsg
swap_rest m sender swap = Status.swap_msg m swap.denom swap (some sender)

module _ ⦃cw : Numeric⦄ where
  open cw use {uint_add}

  -- The fold over the swaps of a deposit.
  unfoldable pub swap_all :
      SwapContracts → String → ℕ → List SwapEntry → Outcome ContractError (ℕ × List CosmosMsg)
  swap_all m quote_denom acc [] = ok (acc, [])
  swap_all m quote_denom acc (e ∷ es) = do
    msg ←
        Status.swap_msg m e.denom
          (record { denom = quote_denom; amount = e.amount; min_return = e.min_return }) none
    acc' ← or_panic (uint_add acc e.amount)
    (total, msgs) ← swap_all m quote_denom acc' es
    ok (total, msg ∷ msgs)

  unfoldable pub run_step : Host → Env → ThenType → Adapter → Outcome ContractError Response
  run_step host env (then_deposit sender index) a = do
    loaded ← Holdings.load host index
    (deposit_msg, remaining_coins) ← Holdings.deposit_msg host env loaded
    swaps ← traverse (swap_rest a.swap_contracts sender) remaining_coins
    ok (
        add_messages (deposit_msg ∷ swaps ++ self_then env (then_send sender none) ∷ [])
          no_response)
  run_step host env (then_swap sender min_return) a = do
    balances ← or_err (host.query_all_balances env.contract_address) std
    msgs ← traverse (swap_back a.swap_contracts) balances
    ok (add_messages (msgs ++ self_then env (then_send sender min_return) ∷ []) no_response)
  run_step host env (then_send sender min_return) a = do
    balances ← or_err (host.query_all_balances env.contract_address) std
    msgs ← traverse (send_back sender min_return) balances
    ok (add_messages msgs no_response)

  unfoldable pub execute :
      Host → Env → MessageInfo → ExecuteMsg → Adapter → Outcome ContractError Response
  execute host env info (deposit index swaps) a = do
    amount ← or_err (host.must_pay info.funds a.config.quote_denom) payment
    (swap_amount, msgs) ← swap_all a.swap_contracts a.config.quote_denom 0 swaps
    ensure (amount == swap_amount) (invalid_swap_data amount swap_amount)
    ok (add_messages (msgs ++ self_then env (then_deposit info.sender index) ∷ []) no_response)
  execute host env info (withdraw index min_return) a = do
    loaded ← Holdings.load host index
    amount ← or_err (host.must_pay info.funds loaded.denom) payment
    ok (
        add_messages
          (Holdings.withdraw_msg amount loaded
            ∷ self_then env (then_swap info.sender min_return)
            ∷ [])
          no_response)
  execute host env info (run_then step) a = do
    ensure (str_eq info.sender env.contract_address) unauthorized
    run_step host env step a

unfoldable pub sudo : Host → SudoMsg → Adapter → Outcome ContractError (Response × Adapter)
sudo host (add_swap_contract denom contract) a = do
  swap_contracts ← Status.add_contract host denom contract a.config.quote_denom a.swap_contracts
  ok (no_response, record a { swap_contracts = swap_contracts })
sudo host (remove_swap_contract denom) a =
    ok (no_response, record a { swap_contracts = Status.remove_contract denom a.swap_contracts })
