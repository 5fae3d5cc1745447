-- ===== src/Chain/Environment.antt =====
-- The call's environment, and what a contract asks of the chain and of other contracts.
use nami_contracts.Base.{ℕ, ◌<◌, String, ◌≡◌, Bool, Option, some, List}
use nami_contracts.Chain.Types.{Coin, coins, Denoms}

-- `Env`: the time of the block in nanoseconds, and the contract's own address.
pub record Env : Type 0 where
  pub block_time : ℕ
  pub contract_address : String

pub record MessageInfo : Type 0 where
  pub sender : String
  pub funds : List Coin

-- `none` is an error of the query. `must_pay`, `nonpayable`, `one_coin` and `normalize`
-- (of a `NativeBalance`) are those of `cw_utils`, and `price` is that of an oracle. A parameter of the
-- development.
pub record Host : Type 0 where
  pub addr_validate : String → Option String
  pub query_balance : String → String → Option ℕ
  pub query_all_balances : String → Option (List Coin)
  pub query_supply : String → Option ℕ
  pub fin_config : String → Option Denoms
  pub fin_simulate : String → Coin → Option ℕ
  pub index_allocation : String → Option (List (String × ℕ))
  pub price : String → Option ℕ
  pub must_pay : List Coin → String → Option ℕ
  pub nonpayable : List Coin → Bool
  pub one_coin : List Coin → Option Coin
  pub normalize : List Coin → List Coin

-- `must_pay` returns the amount of the one coin that was sent, of that denom and not zero.
pub record IsHost (host : Host) : Type 0 where
  pub must_pay_lem :
      (sent : List Coin) (denom : String) (amount : ℕ)
      → host.must_pay sent denom ≡ some amount
      → (sent ≡ coins amount denom) × (0 < amount)
