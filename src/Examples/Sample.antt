-- ===== src/Examples/Sample.antt =====
-- A chain to try the theorems on: every address is valid, and the queries have fixed answers.
use nami_contracts.Base.{
  ℕ, ◌<◌, String, ◌≡◌, Option, none, some, List, [], ◌∷◌, arith, ◌==◌, if◌then◌else◌, str_eq,
  str_eq_iff, is_empty,
}
use nami_contracts.Chain.{Coin, coin, coins, Env, MessageInfo, Host, IsHost}

abbrev sample_must_pay : List Coin → String → Option ℕ
sample_must_pay [] denom = none
sample_must_pay (c ∷ []) denom =
    if str_eq c.denom denom then (if c.amount == 0 then none else some c.amount) else none
sample_must_pay (c ∷ d ∷ cs) denom = none

abbrev sample_balance : String → Option ℕ
sample_balance denom =
    if str_eq denom "btc" then some 125 else if str_eq denom "eth" then some 66 else some 0

abbrev sample_one_coin : List Coin → Option Coin
sample_one_coin [] = none
sample_one_coin (c ∷ []) = if c.amount == 0 then none else some c
sample_one_coin (c ∷ d ∷ cs) = none

abbrev pub sample : Host
sample = record {
  addr_validate = λ addr. some addr;
  query_balance = λ addr denom. sample_balance denom;
  query_all_balances = λ addr. some (coin 125 "btc" ∷ coin 66 "eth" ∷ []);
  query_supply = λ denom. some 10;
  fin_config = λ addr. some (record { base = "btc"; quote = "usdc" });
  fin_simulate = λ addr c. some c.amount;
  index_allocation = λ addr. some (("btc", 10) ∷ ("eth", 6) ∷ []);
  price = λ denom. some 1_000_000_000_000_000_000;
  must_pay = sample_must_pay;
  nonpayable = is_empty;
  one_coin = sample_one_coin;
  normalize = λ cs. cs;
}

sample_pays :
    (sent : List Coin) (denom : String) (amount : ℕ)
    → sample_must_pay sent denom ≡ some amount
    → (sent ≡ coins amount denom) × (0 < amount)
sample_pays [] denom amount h = cc
sample_pays (c ∷ []) denom amount h = ground (arith, str_eq_iff c.denom denom)
sample_pays (c ∷ d ∷ cs) denom amount h = cc

pub sample-IsHost : IsHost sample
sample-IsHost = record { must_pay_lem = sample_pays }

abbrev pub sample_env : Env
sample_env = record { block_time = 0; contract_address = "self" }

abbrev pub paid_by : String → ℕ → String → MessageInfo
paid_by sender amount denom = record { sender = sender; funds = coins amount denom }
