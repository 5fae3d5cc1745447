-- ===== src/Bow/State.antt =====
-- `XykState` (packages/rujira-rs/src/interfaces/bow/xyk.rs): the reserves of a pair, their product
-- and the shares of the depositors.
use nami_contracts.Base.{
  ℕ, String, leb, ◌==◌, if◌then◌else◌, Outcome, ok, ◌>>=◌, ◌>>◌, ensure, or_err, or_panic,
}
use nami_contracts.Numeric.{Numeric}
use nami_contracts.Chain.{Coin}

-- `StrategyError`
pub data StrategyError : Type 0 where
  std overflow conversion_overflow invalid_deposit underflow : StrategyError
  insufficient_return : (expected returned : Coin) → StrategyError
  invalid_config : String → StrategyError

pub record XykState : Type 0 where
  pub x : ℕ
  pub y : ℕ
  pub k : ℕ
  pub shares : ℕ

-- `XykState::new`
abbrev pub new_state : XykState
new_state = record { x = 0; y = 0; k = 0; shares = 0 }

abbrev pub value : XykState → ℕ
value s = s.k

unfoldable pub invert : XykState → XykState
invert s = record s { x = s.y; y = s.x }

-- A result of the strategy, with the state after the call.
abbrev pub XykResult : Type 0 → Type 0
XykResult A = Outcome StrategyError (A × XykState)

module _ ⦃cw : Numeric⦄ where
  open cw use {uint_add, uint_sub, from_ratio, from_ratio256, to_uint_ceil, u256_mul, to_uint128}

  -- The state of the stored reserves and shares.
  unfoldable pub from_stored : ℕ × ℕ × ℕ → Outcome StrategyError XykState
  from_stored (x, y, shares) = do
    k ← or_panic (u256_mul x y)
    ok (record { x = x; y = y; k = k; shares = shares })

  -- The reserve of Y that keeps the product, with a reserve of X.
  unfoldable pub next_reserve : ℕ → ℕ → Outcome StrategyError ℕ
  next_reserve k x = do
    ratio ← or_panic (from_ratio256 k x)
    or_err (to_uint128 (to_uint_ceil ratio)) conversion_overflow

  -- The swap of a reserve X that is not empty.
  unfoldable pub swap_reserve : XykState → ℕ → XykResult ℕ
  swap_reserve s amount = do
    x ← or_panic (uint_add s.x amount)
    y_new ← next_reserve s.k x
    returned ← or_panic (uint_sub s.y y_new)
    y ← or_panic (uint_sub s.y returned)
    k ← or_panic (u256_mul x y)
    ensure (leb s.k k) underflow
    ok (returned, record s { x = x; y = y; k = k })

  -- `XykState::swap`
  unfoldable pub swap : XykState → ℕ → XykResult ℕ
  swap s amount = if s.x == 0 then ok (0, s) else swap_reserve s amount

  unfoldable pub price : XykState → Outcome StrategyError ℕ
  price s = if s.x == 0 then ok 0 else or_panic (from_ratio s.y s.x)

  -- `XykState::set`
  unfoldable pub set : XykState → ℕ → ℕ → Outcome StrategyError XykState
  set s x y = do k ← or_panic (u256_mul x y); ok (record s { x = x; y = y; k = k })
