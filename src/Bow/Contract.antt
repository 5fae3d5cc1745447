-- ===== src/Bow/Contract.antt =====
-- The contract of a pool (testing/rujira-bow/src/contract.rs): its stored configuration and
-- reserves, and its entry points.
use nami_contracts.Base.{
  ℕ, String, Bool, true, Option, none, some, List, [], ◌∷◌, leb, Outcome, ok, ◌>>=◌, ◌>>◌, ensure,
  or_err, lift_err,
}
use nami_contracts.Numeric.{Numeric}
use Prim.Native.String.{◌++◌ as str_append}
use nami_contracts.Chain.{
  Coin, coin, coins, Callback, receiver_callback, CosmosMsg, bank_send, wasm_execute, text, funds,
  Event, Response, no_response, add_message, add_event, Env, MessageInfo, Host, token_denom,
  create_msg, mint_msg, burn_msg,
}
use nami_contracts.Bow.State.{StrategyError}
use nami_contracts.Bow.Xyk.{QuoteRequest, QuoteResponse}
use nami_contracts.Bow.Strategy.{
  Strategies, StrategyState, validate, denom, load_state, commit_state, validate_swap, quote,
  deposit, withdraw,
}

pub data ContractError : Type 0 where
  std payment insufficient_funds : ContractError
  strategy : StrategyError → ContractError

pub record Config : Type 0 where
  pub strategy : Strategies

unfoldable pub check_config : Config → Outcome ContractError (Unit {0})
check_config config = lift_err ContractError.strategy (validate config.strategy)

-- The contract's storage: its configuration and, once saved, the reserves and shares.
pub record Contract : Type 0 where
  pub config : Config
  pub stored : Option (ℕ × ℕ × ℕ)

pub data ExecuteMsg : Type 0 where
  msg_swap : (min_return : Coin) (to : Option String) (callback : Option Callback) → ExecuteMsg
  msg_deposit : (min_return : Option ℕ) (callback : Option Callback) → ExecuteMsg
  msg_withdraw : Option Callback → ExecuteMsg

-- A result of an entry point, with the storage after the call.
abbrev pub ContractResult : Type 0
ContractResult = Outcome ContractError (Response × Contract)

event : String → String → String → Coin → Event
event kind owner key c = record {
  kind = str_append "rujira-bow/" kind;
  attributes = ("owner", text owner) ∷ (key, funds (c ∷ [])) ∷ [];
}

unfoldable pub event_deposit : String → Coin → Event
unfolding event
event_deposit owner minted = event "deposit" owner "minted" minted

unfoldable pub event_withdraw : String → Coin → Event
unfolding event
event_withdraw owner share = event "withdraw" owner "share" share

-- `CallbackData::to_message` with empty data.
abbrev to_message : Callback → String → List Coin → CosmosMsg
to_message cb addr sent = wasm_execute addr (receiver_callback cb) sent

-- A payment, by a plain transfer or with a callback.
abbrev pub pay : Option Callback → String → List Coin → CosmosMsg
pay none to sent = bank_send to sent
pay (some cb) to sent = to_message cb to sent

unfoldable pub instantiate : Strategies → ContractResult
instantiate s = do
  let config : Config = record { strategy = s }
  check_config config
  ok (add_message (create_msg (denom s)) no_response, record { config = config; stored = none })

-- The address that a swap pays.
abbrev pub recipient : Host → Option String → String → Outcome ContractError String
recipient host none sender = ok sender
recipient host (some to) sender = or_err (host.addr_validate to) std

unfoldable pub deposit_response : Env → String → Option Callback → Strategies → ℕ → Response
unfolding event_deposit
deposit_response env sender none s minted =
    add_event (event_deposit sender (coin minted (token_denom (denom s))))
      (add_message (mint_msg (denom s) minted sender) no_response)
deposit_response env sender (some cb) s minted =
    add_event (event_deposit sender (coin minted (token_denom (denom s)))) (
      add_message (to_message cb sender (coins minted (token_denom (denom s))))
        (add_message (mint_msg (denom s) minted env.contract_address) no_response))

abbrev pub reaches : ℕ → Option ℕ → Bool
reaches minted none = true
reaches minted (some least) = leb least minted

module _ ⦃cw : Numeric⦄ where
  unfoldable pub load : Contract → Outcome ContractError StrategyState
  load self = lift_err strategy (load_state self.config.strategy self.stored)

  abbrev pub save : Contract → StrategyState → Contract
  save self state = record self { stored = commit_state self.config.strategy state }

  unfoldable pub execute_swap :
      Host → Contract → MessageInfo → Coin → Option String → Option Callback → ContractResult
  unfolding load
  execute_swap host self info min_return to callback = do
    state ← load self
    offer ← or_err (host.one_coin info.funds) payment
    (_, next) ← lift_err strategy (validate_swap self.config.strategy state offer min_return)
    to_address ← recipient host to info.sender
    ok (add_message (pay callback to_address (min_return ∷ [])) no_response, save self next)

  unfoldable pub execute_deposit :
      Env → Contract → MessageInfo → Option ℕ → Option Callback → ContractResult
  unfolding load
  execute_deposit env self info min_return callback = do
    state ← load self
    (minted, next) ← lift_err strategy (deposit self.config.strategy state info.funds)
    ensure (reaches minted min_return) insufficient_funds
    ok (deposit_response env info.sender callback self.config.strategy minted, save self next)

  unfoldable pub execute_withdraw : Host → Contract → MessageInfo → Option Callback → ContractResult
  unfolding load event_withdraw
  execute_withdraw host self info callback = do
    state ← load self
    let share : String = token_denom (denom self.config.strategy)
    balance ← or_err (host.must_pay info.funds share) payment
    (withdrawn, next) ← lift_err strategy (withdraw host self.config.strategy state balance)
    let paid : Response = add_message (pay callback info.sender withdrawn) no_response
    let burnt : Response = add_message (burn_msg (denom self.config.strategy) balance) paid
    ok (add_event (event_withdraw info.sender (coin balance share)) burnt, save self next)

  unfoldable pub execute : Host → Env → Contract → MessageInfo → ExecuteMsg → ContractResult
  execute host env self info (msg_swap min_return to callback) =
      execute_swap host self info min_return to callback
  execute host env self info (msg_deposit min_return callback) =
      execute_deposit env self info min_return callback
  execute host env self info (msg_withdraw callback) = execute_withdraw host self info callback

  -- `sudo` with `SetStrategy`
  unfoldable pub sudo : Contract → Strategies → ContractResult
  sudo self s = do
    let config : Config = record { strategy = s }
    check_config config
    ok (no_response, record self { config = config })

  -- `query` with `Quote`
  unfoldable pub query_quote :
      Contract → QuoteRequest → Outcome ContractError (Option QuoteResponse)
  unfolding load
  query_quote self req = do
    state ← load self
    lift_err strategy (quote self.config.strategy state req)
