-- ===== src/GhostVault/Contract.antt =====
-- The entry points of the vault (testing/rujira-ghost-vault/src/contract.rs, config.rs). The state of
-- the contract is what its storage holds; a call that fails leaves it as it was.
use nami_contracts.Base.{
  ℕ, String, Option, none, some, List, [], ◌∷◌, if◌then◌else◌, str_eq, Outcome, ok, ◌>>=◌, ◌>>◌,
  ensure, or_err, lift_err,
}
use nami_contracts.Numeric.{Numeric}
use Prim.Native.String.{◌++◌ as str_append}
use nami_contracts.Chain.{
  Coin, coins, Callback, receiver_callback, CosmosMsg, bank_send, wasm_execute, text, number, Event,
  Response, no_response, add_message, add_event, Env, MessageInfo, Host, token_denom, create_msg,
  mint_msg, burn_msg,
}
use nami_contracts.Interest.{Interest}
use nami_contracts.Interest
use nami_contracts.GhostVault.Errors.{ContractError, std, std_interest, payment, unauthorized}
use nami_contracts.GhostVault.State
use nami_contracts.GhostVault.State.{State, VaultResult}
use nami_contracts.GhostVault.Borrowers
use nami_contracts.GhostVault.Borrowers.{Borrowers}

pub record Config : Type 0 where
  pub denom : String
  pub interest : Interest
  pub registry : String

pub record Vault : Type 0 where
  pub config : Config
  pub state : State
  pub borrowers : Borrowers

pub record InstantiateMsg : Type 0 where
  pub denom : String
  pub interest : Interest
  pub registry : String

pub data SudoMsg : Type 0 where
  add_borrower : (addr : String) (debt_limit : ℕ) → SudoMsg
  update_borrower : (addr : String) (debt_limit : ℕ) → SudoMsg
  update_interest : Interest → SudoMsg

pub data ExecuteMsg : Type 0 where
  deposit : Option Callback → ExecuteMsg
  withdraw : Option Callback → ExecuteMsg
  borrow : ℕ → Option Callback → ExecuteMsg
  repay : ExecuteMsg
  sudo_msg : SudoMsg → ExecuteMsg

abbrev pub rcpt_id : Config → String
rcpt_id c = str_append "ghost-vault-" (str_append c.denom "-rcpt")

abbrev pub debt_id : Config → String
debt_id c = str_append "ghost-vault-" (str_append c.denom "-debt")

-- `event_deposit`, `event_withdraw`, `event_borrow` and `event_repay` (events.rs).
abbrev vault_event : String → String → String → ℕ → String → ℕ → Event
vault_event kind role who amount label shares = record {
  kind = str_append "rujira-ghost-vault/" kind;
  attributes = (role, text who) ∷ ("amount", number amount) ∷ (label, number shares) ∷ [];
}

-- `Config::new` and `Config::validate`, then the state and the two tokens.
unfoldable pub instantiate : Host → Env → InstantiateMsg → Outcome ContractError (Response × Vault)
instantiate host env msg = do
  registry ← or_err (host.addr_validate msg.registry) std
  let config : Config = record { denom = msg.denom; interest = msg.interest; registry = registry }
  lift_err std_interest (Interest.validate config.interest)
  ok (
    add_message (create_msg (debt_id config))
        (add_message (create_msg (rcpt_id config)) no_response),
    record { config = config; state = State.init env.block_time; borrowers = [] },
  )

-- `CallbackData::to_message` with empty data.
abbrev to_message : Callback → String → List Coin → CosmosMsg
to_message cb addr sent = wasm_execute addr (receiver_callback cb) sent

-- The messages of a deposit, a withdrawal and a borrow, without and with a callback.
unfoldable pub deposit_response : Config → Env → String → ℕ → ℕ → Option Callback → Response
deposit_response c env sender amount minted none =
    add_event (vault_event "deposit" "owner" sender amount "minted" minted)
      (add_message (mint_msg (rcpt_id c) minted sender) no_response)
deposit_response c env sender amount minted (some cb) =
    add_event (vault_event "deposit" "owner" sender amount "minted" minted) (
      add_message (to_message cb sender (coins amount (token_denom (rcpt_id c))))
        (add_message (mint_msg (rcpt_id c) minted env.contract_address) no_response))

unfoldable pub withdraw_response : Config → String → ℕ → ℕ → Option Callback → Response
withdraw_response c sender amount withdrawn none =
    add_event (vault_event "withdraw" "owner" sender withdrawn "shares" amount) (
      add_message (bank_send sender (coins withdrawn c.denom))
        (add_message (burn_msg (rcpt_id c) amount) no_response))
withdraw_response c sender amount withdrawn (some cb) =
    add_event (vault_event "withdraw" "owner" sender withdrawn "shares" amount) (
      add_message (to_message cb sender (coins amount c.denom))
        (add_message (burn_msg (rcpt_id c) amount) no_response))

unfoldable pub borrow_response : Config → String → ℕ → ℕ → Option Callback → Response
borrow_response c sender amount minted none =
    add_event (vault_event "borrow" "borrower" sender amount "minted" minted) (
      add_message (bank_send sender (coins amount c.denom))
        (add_message (mint_msg (debt_id c) minted sender) no_response))
borrow_response c sender amount minted (some cb) =
    add_event (vault_event "borrow" "borrower" sender amount "minted" minted) (
      add_message (to_message cb sender (coins amount c.denom))
        (add_message (mint_msg (debt_id c) minted sender) no_response))

-- `iter().find(…)` for a coin of a denom.
unfoldable pub find_coin : String → List Coin → Option ℕ
find_coin denom [] = none
find_coin denom (c ∷ cs) = if str_eq c.denom denom then some c.amount else find_coin denom cs

unfoldable pub sudo : Host → SudoMsg → Vault → Outcome ContractError (Response × Vault)
sudo host (add_borrower addr debt_limit) v = do
  who ← or_err (host.addr_validate addr) std
  ok (no_response, record v { borrowers = Borrowers.set v.borrowers who debt_limit })
sudo host (update_borrower addr debt_limit) v = do
  who ← or_err (host.addr_validate addr) std
  known ← Borrowers.load v.borrowers who
  ok (no_response, record v { borrowers = Borrowers.set v.borrowers who debt_limit })
sudo host (update_interest interest) v =
    ok (no_response, record v { config = record (v.config) { interest = interest } })

module _ ⦃cw : Numeric⦄ where
  -- One arm of `execute`, at the state after the interest is distributed.
  unfoldable pub run_msg :
      Host
      → Env
      → MessageInfo
      → ExecuteMsg
      → Vault
      → State
      → Outcome ContractError (Response × Vault)
  run_msg host env info (deposit callback) v s = do
    amount ← or_err (host.must_pay info.funds v.config.denom) payment
    (minted, s') ← State.deposit s amount
    ok (deposit_response v.config env info.sender amount minted callback, record v { state = s' })
  run_msg host env info (withdraw callback) v s = do
    amount ← or_err (host.must_pay info.funds (token_denom (rcpt_id v.config))) payment
    (withdrawn, s') ← State.withdraw s amount
    ok (withdraw_response v.config info.sender amount withdrawn callback, record v { state = s' })
  run_msg host env info (borrow amount callback) v s = do
    borrower ← Borrowers.load v.borrowers info.sender
    borrower' ← Borrowers.borrow borrower amount
    (minted, s') ← State.borrow s amount
    ok (
      borrow_response v.config info.sender amount minted callback,
      record v { state = s'; borrowers = Borrowers.save borrower' v.borrowers },
    )
  run_msg host env info repay v s = do
    borrower ← Borrowers.load v.borrowers info.sender
    amount ← or_err (find_coin v.config.denom info.funds) payment
    debt_amount ← or_err (find_coin (token_denom (debt_id v.config)) info.funds) payment
    (over, borrower') ← Borrowers.repay borrower amount
    (_, s') ← State.repay s amount debt_amount
    ok (
      add_event (vault_event "repay" "borrower" info.sender amount "shares" debt_amount)
          (add_message (burn_msg (debt_id v.config) debt_amount) no_response),
      record v { state = s'; borrowers = Borrowers.save borrower' v.borrowers },
    )
  run_msg host env info (sudo_msg msg) v s = do
    ensure (str_eq info.sender v.config.registry) unauthorized
    sudo host msg v

  unfoldable pub execute :
      Host → Env → MessageInfo → ExecuteMsg → Vault → Outcome ContractError (Response × Vault)
  execute host env info msg v = do
    s ← State.distribute_interest v.state v.config.interest env.block_time
    run_msg host env info msg v s
