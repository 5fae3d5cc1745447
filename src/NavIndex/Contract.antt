-- ===== src/NavIndex/Contract.antt =====
-- The entry points of the NAV index (contracts/nami-index-nav/src/contract.rs, config.rs, events.rs).
use nami_contracts.Base.{
  ℕ, String, Bool, not, Option, none, some, List, [], ◌∷◌, ltb, ◌==◌, if◌then◌else◌, Outcome, ok,
  ◌>>=◌, ◌>>◌, ensure, or_err, or_panic, lift_err,
}
use nami_contracts.Numeric.{Numeric}
use Prim.Native.String.{◌++◌ as str_append}
use nami_contracts.Chain.{
  coins, CosmosMsg, bank_send, text, number, Event, Response, no_response, add_message,
  add_messages, add_event, Env, MessageInfo, Host, token_denom, supply, create_msg, mint_msg,
  burn_msg,
}
use nami_contracts.FeeManager
use nami_contracts.FeeManager.{FeeRates, FeeManager}
use nami_contracts.AssetAllocation.{AssetAllocation}
use nami_contracts.NavIndex.Errors.{
  ContractError, std, payment, checked_from_ratio, overflow, fee_manager_error,
}
use nami_contracts.NavIndex.Vault
use nami_contracts.NavIndex.Vault.{Vault, Allocations}

pub record Config : Type 0 where
  pub quote_denom : String
  pub fee_collector : String

-- What the storage of the contract holds.
pub record NavIndex : Type 0 where
  pub config : Config
  pub fee_manager : FeeManager
  pub allocations : Allocations

pub record InstantiateMsg : Type 0 where
  pub quote_denom : String
  pub fee_collector : String
  pub fees : FeeRates
  pub target_allocation : List AssetAllocation

pub data ExecuteMsg : Type 0 where
  deposit run : ExecuteMsg
  withdraw : (slippage : Option ℕ) → ExecuteMsg

pub data SudoMsg : Type 0 where
  update_fees : Option String → FeeRates → SudoMsg
  update_allocation : List AssetAllocation → SudoMsg

-- The id of the receipt token.
abbrev pub rcpt_id : Env → String
rcpt_id env = str_append "nami-index-nav-" (str_append env.contract_address "-rcpt")

abbrev pub vault_of : Host → Env → Config → Vault
vault_of host env c = record {
  host = host;
  address = env.contract_address;
  quote_denom = c.quote_denom;
}

-- `event_deposit`, `event_withdraw` and `event_run`.
abbrev event_deposit : String → ℕ → ℕ → Event
event_deposit owner amount minted = record {
  kind = "nami-index-nav/deposit";
  attributes = ("owner", text owner) ∷ ("amount", number amount) ∷ ("minted", number minted) ∷ [];
}

abbrev event_withdraw : String → ℕ → ℕ → Event
event_withdraw owner amount shares = record {
  kind = "nami-index-nav/withdraw";
  attributes = ("owner", text owner) ∷ ("amount", number amount) ∷ ("shares", number shares) ∷ [];
}

abbrev event_run : String → Event
event_run owner = record { kind = "nami-index-nav/run"; attributes = ("owner", text owner) ∷ [] }

abbrev add_if : Bool → CosmosMsg → Response → Response
add_if test m r = if test then add_message m r else r

-- `Config::update`
unfoldable pub update_config : Host → Option String → Config → Outcome ContractError Config
update_config host none c = ok c
update_config host (some collector) c = do
  addr ← or_err (host.addr_validate collector) std
  ok (record c { fee_collector = addr })

module _ ⦃cw : Numeric⦄ where
  open cw use {from_ratio, dec_mul, dec_div, to_uint_floor}

  unfoldable pub instantiate :
      Host → Env → InstantiateMsg → Outcome ContractError (Response × NavIndex)
  instantiate host env msg = do
    collector ← or_err (host.addr_validate msg.fee_collector) std
    let config : Config = record { quote_denom = msg.quote_denom; fee_collector = collector }
    manager ← lift_err fee_manager_error (FeeManager.new msg.fees env.block_time)
    allocations ← Vault.init (vault_of host env config) msg.target_allocation []
    ok (
      add_message (create_msg (rcpt_id env)) no_response,
      record { config = config; fee_manager = manager; allocations = allocations },
    )

  -- The shares that a deposit mints.
  unfoldable pub shares_for : ℕ → ℕ → ℕ → Outcome ContractError ℕ
  shares_for amount q_price nav = do
    whole ← or_panic (from_ratio amount 1)
    value ← or_err (dec_mul whole q_price) overflow
    quotient ← or_err (dec_div value nav) checked_from_ratio
    ok (to_uint_floor quotient)

  -- The arms of `execute`.
  unfoldable pub deposit_arm : Host → Env → MessageInfo → NavIndex → Outcome ContractError Response
  deposit_arm host env info i = do
    amount ← or_err (host.must_pay info.funds i.config.quote_denom) payment
    q_price ← Vault.quote_price (vault_of host env i.config) i.allocations
    total ← or_err (supply host (rcpt_id env)) std
    nav ← Vault.nav (vault_of host env i.config) i.allocations (some amount) total
    minted ← shares_for amount q_price nav
    ensure (not (minted == 0)) std
    ok (
        add_message (mint_msg (rcpt_id env) minted info.sender)
          (add_event (event_deposit info.sender amount minted) no_response))

  -- The messages of a withdrawal, where its value is positive.
  unfoldable pub payout :
      Host → Env → MessageInfo → NavIndex → ℕ → Option ℕ → Outcome ContractError (List CosmosMsg)
  payout host env info i withdraw_value slippage =
      if ltb 0 withdraw_value
      then Vault.withdraw (vault_of host env i.config) i.allocations withdraw_value info.sender
          slippage
      else ok []

  unfoldable pub withdraw_arm :
      Host → Env → MessageInfo → NavIndex → FeeManager → Option ℕ → Outcome ContractError Response
  withdraw_arm host env info i manager slippage = do
    amount ← or_err (host.must_pay info.funds (token_denom (rcpt_id env))) payment
    (net, burn_fee) ← lift_err fee_manager_error (FeeManager.tx_fee manager amount)
    total ← or_err (supply host (rcpt_id env)) std
    nav ← Vault.nav (vault_of host env i.config) i.allocations none total
    withdraw_value ← Vault.times net nav
    msgs ← payout host env info i withdraw_value slippage
    ok (
        add_if (ltb 0 burn_fee)
          (bank_send i.config.fee_collector (coins burn_fee (token_denom (rcpt_id env))))
          (add_messages msgs (
            add_if (ltb 0 net) (burn_msg (rcpt_id env) net)
              (add_event (event_withdraw info.sender withdraw_value amount) no_response))))

  unfoldable pub run_arm : Host → Env → MessageInfo → NavIndex → Outcome ContractError Response
  run_arm host env info i = do
    ensure (host.nonpayable info.funds) payment
    msgs ← Vault.rebalance (vault_of host env i.config) i.allocations
    ok (add_messages msgs (add_event (event_run info.sender) no_response))

  unfoldable pub arm :
      Host → Env → MessageInfo → NavIndex → FeeManager → ExecuteMsg → Outcome ContractError Response
  arm host env info i manager deposit = deposit_arm host env info i
  arm host env info i manager (withdraw slippage) = withdraw_arm host env info i manager slippage
  arm host env info i manager run = run_arm host env info i

  unfoldable pub execute :
      Host → Env → MessageInfo → ExecuteMsg → NavIndex → Outcome ContractError (Response × NavIndex)
  execute host env info msg i = do
    total ← or_err (supply host (rcpt_id env)) std
    (aum_fee, manager) ←
        lift_err fee_manager_error (FeeManager.aum_fee i.fee_manager env.block_time total)
    response ← arm host env info i manager msg
    ok (
      add_if (ltb 0 aum_fee) (mint_msg (rcpt_id env) aum_fee i.config.fee_collector) response,
      record i { fee_manager = manager },
    )

  unfoldable pub sudo :
      Host → Env → SudoMsg → NavIndex → Outcome ContractError (Response × NavIndex)
  sudo host env (update_fees fee_collector fees) i = do
    config ← update_config host fee_collector i.config
    manager ← lift_err fee_manager_error (FeeManager.new fees env.block_time)
    ok (no_response, record i { config = config; fee_manager = manager })
  sudo host env (update_allocation targets) i = do
    allocations ← Vault.update_allocations (vault_of host env i.config) targets i.allocations
    ok (no_response, record i { allocations = allocations })
