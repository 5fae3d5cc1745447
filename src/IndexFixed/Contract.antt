-- ===== src/IndexFixed/Contract.antt =====
-- The entry points of the fixed index (contracts/nami-index-fixed/src/contract.rs, config.rs, events.rs).
use nami_contracts.Base.{
  ℕ, String, Bool, true, false, not, Option, none, some, List, [], ◌∷◌, ltb, if◌then◌else◌, Outcome,
  ok, err, ◌>>=◌, ◌>>◌, ensure, or_err, or_panic, lift_err, is_empty,
}
use nami_contracts.Numeric.{Numeric}
use Prim.Native.String.{◌++◌ as str_append}
use nami_contracts.Chain.{
  Coin, coins, Callback, after_reallocate, opaque, fin_swap, index_run, CosmosMsg, bank_send,
  wasm_execute, text, number, funds, Event, Response, no_response, add_message, add_event, Env,
  MessageInfo, Host, token_denom, supply, create_msg, mint_msg, burn_msg,
}
use nami_contracts.FeeManager
use nami_contracts.FeeManager.{FeeRates, FeeManager}
use nami_contracts.IndexFixed.Errors.{ContractError, std, payment, unauthorized, fee_manager_error}
use nami_contracts.IndexFixed.Vault
use nami_contracts.IndexFixed.Vault.{Allocations}

pub record Config : Type 0 where
  pub quote_denom : String
  pub fee_collector : String

-- What the storage of the contract holds.
pub record Index : Type 0 where
  pub config : Config
  pub fee_manager : FeeManager
  pub allocations : Allocations

pub record InstantiateMsg : Type 0 where
  pub quote_denom : String
  pub fee_collector : String
  pub fees : FeeRates
  pub target_allocations : List (String × ℕ × String)

pub data ExecuteMsg : Type 0 where
  deposit withdraw run : ExecuteMsg
  callback : Callback → ExecuteMsg

pub data SudoMsg : Type 0 where
  reallocate : (from to : String) (weight : ℕ) (min_return : Option ℕ) → SudoMsg
  update_fees : Option String → FeeRates → SudoMsg
  remove_allocation : (denom : String) → SudoMsg
  add_allocation : (denom contract : String) → SudoMsg

-- The id of the receipt token.
abbrev pub rcpt_id : Env → String
rcpt_id env = str_append "nami-index-fixed-" (str_append env.contract_address "-rcpt")

abbrev pub rcpt_denom : Env → String
rcpt_denom env = token_denom (rcpt_id env)

-- `event_deposit`, `event_withdraw` and `event_reallocate`.
abbrev fund_event : String → String → List Coin → String → ℕ → Event
fund_event kind owner sent label amount = record {
  kind = str_append "nami-index-fixed/" kind;
  attributes = ("owner", text owner) ∷ ("funds", funds sent) ∷ (label, number amount) ∷ [];
}

abbrev event_reallocate : String → String → ℕ → Event
event_reallocate from to weight = record {
  kind = "nami-index-fixed/reallocate";
  attributes = ("from", text from) ∷ ("to", text to) ∷ ("weight", number weight) ∷ [];
}

-- The message by which the contract runs itself.
abbrev run_self : Env → CosmosMsg
run_self env = wasm_execute env.contract_address index_run []

abbrev add_if : Bool → CosmosMsg → Response → Response
add_if test m r = if test then add_message m r else r

unfoldable pub instantiate : Host → Env → InstantiateMsg → Outcome ContractError (Response × Index)
instantiate host env msg = do
  collector ← or_err (host.addr_validate msg.fee_collector) std
  let config : Config = record { quote_denom = msg.quote_denom; fee_collector = collector }
  manager ← lift_err fee_manager_error (FeeManager.new msg.fees env.block_time)
  allocations ← Vault.init host msg.quote_denom msg.target_allocations []
  ok (
    add_message (create_msg (rcpt_id env)) no_response,
    record { config = config; fee_manager = manager; allocations = allocations },
  )

-- `Config::update`
unfoldable pub update_config : Host → Option String → Config → Outcome ContractError Config
update_config host none c = ok c
update_config host (some collector) c = do
  addr ← or_err (host.addr_validate collector) std
  ok (record c { fee_collector = addr })

module _ ⦃cw : Numeric⦄ where
  open cw use {uint_add}

  -- The response so far, the allocations, and whether the contract is to run itself at the end.
  abbrev pub Arm : Type 0
  Arm = Outcome ContractError (Response × Allocations × Bool)

  -- The arms of `execute`, at the fee for assets under management that is due.
  unfoldable pub deposit_arm : Host → Env → MessageInfo → Index → ℕ → Arm
  deposit_arm host env info i aum_fee = do
    amount ← Vault.deposit i.allocations info.funds
    total ← or_err (supply host (rcpt_id env)) std
    with_fee ← or_panic (uint_add total aum_fee)
    shares ← or_panic (uint_add with_fee amount)
    allocations ← Vault.rebalance host env.contract_address shares i.allocations
    ok (
      add_message (mint_msg (rcpt_id env) amount info.sender)
          (add_event (fund_event "deposit" info.sender info.funds "minted" amount) no_response),
      allocations,
      false,
    )

  -- The messages of a withdrawal.
  unfoldable pub withdraw_response : Env → MessageInfo → Config → ℕ → ℕ → ℕ → List Coin → Response
  withdraw_response env info config amount net burn_fee withdraw_funds =
      add_if (ltb 0 burn_fee) (bank_send config.fee_collector (coins burn_fee (rcpt_denom env))) (
        add_if (not (is_empty withdraw_funds)) (bank_send info.sender withdraw_funds) (
          add_if (ltb 0 net) (burn_msg (rcpt_id env) net) (
            add_event (fund_event "withdraw" info.sender withdraw_funds "shares" amount)
              no_response)))

  unfoldable pub withdraw_arm : Host → Env → MessageInfo → Index → FeeManager → ℕ → Arm
  withdraw_arm host env info i manager aum_fee = do
    amount ← or_err (host.must_pay info.funds (rcpt_denom env)) payment
    (net, burn_fee) ← lift_err fee_manager_error (FeeManager.tx_fee manager amount)
    total ← or_err (supply host (rcpt_id env)) std
    shares ← or_panic (uint_add total aum_fee)
    allocations ← Vault.rebalance host env.contract_address shares i.allocations
    withdraw_funds ← Vault.withdraw allocations net
    ok (withdraw_response env info i.config amount net burn_fee withdraw_funds, allocations, true)

  -- What `deserialize_callback` makes of the data, and the second leg of a reallocation.
  unfoldable pub callback_arm : Env → Index → Callback → Arm
  callback_arm env i (after_reallocate swap_to amount min_return) = ok (
    add_message
        (wasm_execute swap_to
          (fin_swap (record { min_return = min_return; to = none; callback = none }))
          (coins amount i.config.quote_denom))
        no_response,
    i.allocations,
    true,
  )
  callback_arm env i (opaque data_) = err std

  unfoldable pub run_arm : Host → Env → Index → ℕ → Arm
  run_arm host env i aum_fee = do
    total ← or_err (supply host (rcpt_id env)) std
    shares ← or_panic (uint_add total aum_fee)
    allocations ← Vault.rebalance host env.contract_address shares i.allocations
    ok (no_response, allocations, false)

  unfoldable pub arm : Host → Env → MessageInfo → Index → FeeManager → ℕ → ExecuteMsg → Arm
  arm host env info i manager aum_fee deposit = deposit_arm host env info i aum_fee
  arm host env info i manager aum_fee withdraw = withdraw_arm host env info i manager aum_fee
  arm host env info i manager aum_fee (callback cb) = do
    ensure (Vault.is_auth i.allocations info.sender) unauthorized
    callback_arm env i cb
  arm host env info i manager aum_fee run = run_arm host env i aum_fee

  unfoldable pub execute :
      Host → Env → MessageInfo → ExecuteMsg → Index → Outcome ContractError (Response × Index)
  execute host env info msg i = do
    total ← or_err (supply host (rcpt_id env)) std
    (aum_fee, manager) ←
        lift_err fee_manager_error (FeeManager.aum_fee i.fee_manager env.block_time total)
    (response, allocations, run_again) ← arm host env info i manager aum_fee msg
    ok (
      add_if run_again (run_self env)
          (add_if (ltb 0 aum_fee) (mint_msg (rcpt_id env) aum_fee i.config.fee_collector) response),
      record i { fee_manager = manager; allocations = allocations },
    )

  unfoldable pub sudo : Host → Env → SudoMsg → Index → Outcome ContractError (Response × Index)
  sudo host env (reallocate from to weight min_return) i = do
    total ← or_err (supply host (rcpt_id env)) std
    msg ← Vault.reallocate host from to weight total min_return i.allocations
    ok (add_message msg (add_event (event_reallocate from to weight) no_response), i)
  sudo host env (update_fees fee_collector fees) i = do
    total ← or_err (supply host (rcpt_id env)) std
    config ← update_config host fee_collector i.config
    manager ← lift_err fee_manager_error (FeeManager.new fees env.block_time)
    ok (no_response, record i { config = config; fee_manager = manager })
  sudo host env (remove_allocation denom) i = do
    total ← or_err (supply host (rcpt_id env)) std
    allocations ← Vault.remove_allocation denom i.allocations
    ok (no_response, record i { allocations = allocations })
  sudo host env (add_allocation denom contract) i = do
    total ← or_err (supply host (rcpt_id env)) std
    added ← Vault.add_allocation host i.config.quote_denom denom 0 contract i.allocations
    allocations ← Vault.rebalance host env.contract_address total added
    ok (no_response, record i { allocations = allocations })
