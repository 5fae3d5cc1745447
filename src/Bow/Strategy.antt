-- ===== src/Bow/Strategy.antt =====
-- `Strategies` and `StrategyState` (packages/rujira-rs/src/interfaces/bow/strategy.rs): the choice
-- of a strategy, of which there is one.
use nami_contracts.Base.{ℕ, String, Option, List, Outcome, ok, ◌>>=◌}
use nami_contracts.Numeric.{Numeric}
use nami_contracts.Chain.{Coin, Host}
use nami_contracts.Bow.State.{StrategyError, XykState}
use nami_contracts.Bow.Xyk.{
  Xyk, QuoteRequest, QuoteResponse, validate as xyk_validate, denom as xyk_denom,
  load_state as xyk_load_state, commit_state as xyk_commit_state,
  validate_swap as xyk_validate_swap, quote as xyk_quote, deposit as xyk_deposit,
  withdraw as xyk_withdraw,
}

pub data Strategies : Type 0 where
  strategy_xyk : Xyk → Strategies

pub data StrategyState : Type 0 where
  state_xyk : XykState → StrategyState

abbrev pub StrategyResult : Type 0 → Type 0
StrategyResult A = Outcome StrategyError (A × StrategyState)

-- The result of the strategy, with its state as one of `StrategyState`.
abbrev chosen : {A : Type 0} → Outcome StrategyError (A × XykState) → StrategyResult A
chosen r = r >>= λ (a, s). ok (a, state_xyk s)

unfoldable pub validate : Strategies → Outcome StrategyError (Unit {0})
validate (strategy_xyk c) = xyk_validate c

abbrev pub denom : Strategies → String
denom (strategy_xyk c) = xyk_denom c

module _ ⦃cw : Numeric⦄ where
  unfoldable pub load_state : Strategies → Option (ℕ × ℕ × ℕ) → Outcome StrategyError StrategyState
  load_state (strategy_xyk c) stored = xyk_load_state stored >>= λ s. ok (state_xyk s)

  abbrev pub commit_state : Strategies → StrategyState → Option (ℕ × ℕ × ℕ)
  commit_state (strategy_xyk c) (state_xyk s) = xyk_commit_state s

  unfoldable pub validate_swap :
      Strategies → StrategyState → Coin → Coin → StrategyResult (Unit {0})
  validate_swap (strategy_xyk c) (state_xyk s) offer ask = chosen (xyk_validate_swap c s offer ask)

  unfoldable pub quote :
      Strategies → StrategyState → QuoteRequest → Outcome StrategyError (Option QuoteResponse)
  quote (strategy_xyk c) (state_xyk s) req = xyk_quote c s req

  unfoldable pub deposit : Strategies → StrategyState → List Coin → StrategyResult ℕ
  deposit (strategy_xyk c) (state_xyk s) funds = chosen (xyk_deposit c s funds)

  unfoldable pub withdraw : Host → Strategies → StrategyState → ℕ → StrategyResult (List Coin)
  withdraw host (strategy_xyk c) (state_xyk s) amount = chosen (xyk_withdraw host c s amount)
