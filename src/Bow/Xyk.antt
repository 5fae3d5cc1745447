-- ===== src/Bow/Xyk.antt =====
-- `Xyk` (packages/rujira-rs/src/interfaces/bow/xyk.rs): the constant-product strategy. A method
-- that changes the state returns its result with the new state.
use nami_contracts.Base.{
  ℕ, ◌*◌, min, String, ◌&&◌, ◌||◌, Option, none, some, List, [], ◌∷◌, ltb, leb, ◌==◌, if◌then◌else◌,
  str_eq, Outcome, ok, err, ◌>>=◌, ◌>>◌, ensure, or_err, or_panic,
}
use nami_contracts.Numeric.{Numeric, unit}
use Prim.Native.String.{◌++◌ as str_append}
use nami_contracts.Chain.{Coin, coin, Host}
use nami_contracts.Bow.State.{
  StrategyError, std, overflow, conversion_overflow, invalid_deposit, insufficient_return,
  invalid_config, XykState, invert, XykResult, from_stored, swap, price, set,
}

pub record Xyk : Type 0 where
  pub x : String
  pub y : String
  pub step : ℕ
  pub min_quote : ℕ
  pub fee : ℕ

-- `Decimal::bps`, in atomics
abbrev pub bps : ℕ → ℕ
bps n = n * 100_000_000_000_000

abbrev pub min_min_quote : ℕ
min_min_quote = 1000

unfoldable pub validate : Xyk → Outcome StrategyError (Unit {0})
validate c = do
  ensure (leb c.step (bps 1000) && leb (bps 1) c.step) (invalid_config "step")
  ensure (leb c.fee (bps 1000) && leb (bps 0) c.fee) (invalid_config "fee")
  ensure (leb min_min_quote c.min_quote) (invalid_config "min_quote")

abbrev pub denom : Xyk → String
denom c = str_append (str_append (str_append "bow-xyk-" c.x) "-") c.y

-- The state, turned so that `denom` is its X.
unfoldable pub orient : Xyk → String → XykState → XykState
orient c offered s = if str_eq offered c.y then invert s else s

-- `QuoteRequest`, whose `data` is the state of an earlier quote or another blob.
pub data QuoteData : Type 0 where
  quoted : XykState → QuoteData
  malformed : QuoteData

pub record QuoteRequest : Type 0 where
  pub min_price : Option ℕ
  pub offer_denom : String
  pub ask_denom : String
  pub data_blob : Option QuoteData

pub record QuoteResponse : Type 0 where
  pub price : ℕ
  pub size : ℕ
  pub data_blob : Option QuoteData

-- The state that a quote works with.
unfoldable pub working_state : Xyk → XykState → QuoteRequest → Outcome StrategyError XykState
working_state c s req = elim req.data_blob [
  | none ↦ ok (orient c req.offer_denom s)
  | some blob ↦ elim blob [ quoted w ↦ ok w | malformed ↦ err std ]
]

-- `balance_of`: the first coin of a denom.
abbrev pub balance_of : List Coin → String → ℕ
balance_of [] d = 0
balance_of (c ∷ cs) d = if str_eq c.denom d then c.amount else balance_of cs d

module _ ⦃cw : Numeric⦄ where
  open cw use {
    uint_add, uint_sub, multiply_ratio, from_ratio, u256_add, u256_sub, u256_mul, u256_div,
    u256_multiply_ratio, to_uint128, isqrt,
  }

  -- `load_state`: the stored reserves and shares, or zeros.
  unfoldable pub load_state : Option (ℕ × ℕ × ℕ) → Outcome StrategyError XykState
  load_state none = from_stored (0, 0, 0)
  load_state (some stored) = from_stored stored

  abbrev pub commit_state : XykState → Option (ℕ × ℕ × ℕ)
  commit_state s = some (s.x, s.y, s.shares)

  unfoldable pub validate_swap : Xyk → XykState → Coin → Coin → XykResult (Unit {0})
  validate_swap c s offer ask = do
    (total, w) ← swap (orient c offer.denom s) offer.amount
    fee_amount ← or_panic (multiply_ratio total c.fee unit)
    returned ← or_panic (uint_sub total fee_amount)
    ensure (leb ask.amount returned) (insufficient_return ask (coin returned ask.denom))
    ok (tt, orient c offer.denom w)

  -- The response to a quote of a size, from which the fee goes.
  unfoldable pub response_of :
      Xyk → ℕ → ℕ → ℕ → XykState → Outcome StrategyError (Option QuoteResponse)
  response_of c amount current total next = do
    truncated ← or_panic (multiply_ratio total c.fee unit)
    fee_amount ← or_panic (uint_add truncated 1)
    size ← or_panic (uint_sub total fee_amount)
    rate ← or_panic (from_ratio size amount)
    let response : QuoteResponse = record {
      price = rate;
      size = size;
      data_blob = some (quoted next);
    }
    ok (if leb current rate || rate == 0 then none else some response)

  -- Too small a quote has no response.
  unfoldable pub sized_response :
      Xyk → ℕ → ℕ → ℕ → XykState → Outcome StrategyError (Option QuoteResponse)
  sized_response c amount current total next =
      if ltb amount c.min_quote || ltb total c.min_quote
      then ok none
      else response_of c amount current total next

  -- The quote of a working state.
  unfoldable pub quote_of : Xyk → XykState → Outcome StrategyError (Option QuoteResponse)
  quote_of c w = do
    amount ← or_panic (multiply_ratio w.x c.step unit)
    current ← price w
    (total, next) ← swap w amount
    sized_response c amount current total next

  unfoldable pub quote :
      Xyk → XykState → QuoteRequest → Outcome StrategyError (Option QuoteResponse)
  quote c s req = do w ← working_state c s req; quote_of c w

  -- Half of the swap fee on the shares above a balanced deposit.
  unfoldable pub deposit_fee : Xyk → ℕ → ℕ → Outcome StrategyError ℕ
  deposit_fee c shares balanced = if leb shares balanced then ok 0 else do
    excess ← or_panic (u256_sub shares balanced)
    charged ← or_panic (u256_multiply_ratio excess c.fee unit)
    or_panic (u256_div charged 2)

  -- The shares of a deposit into a pool that has shares.
  unfoldable pub later_shares : Xyk → XykState → ℕ → ℕ → Outcome StrategyError ℕ
  later_shares c s x y = do
    by_x ← or_panic (u256_multiply_ratio x s.shares s.x)
    by_y ← or_panic (u256_multiply_ratio y s.shares s.y)
    let balanced : ℕ = min by_x by_y
    let sqrt_k : ℕ = isqrt s.k
    x_sum ← or_err (u256_add x s.x) overflow
    y_sum ← or_err (u256_add y s.y) overflow
    product ← or_err (u256_mul x_sum y_sum) overflow
    delta ← or_err (u256_sub (isqrt product) sqrt_k) overflow
    shares ← or_panic (u256_multiply_ratio delta s.shares sqrt_k)
    fee ← deposit_fee c shares balanced
    or_panic (u256_sub shares fee)

  -- The shares of a first deposit.
  unfoldable pub first_shares : ℕ → ℕ → Outcome StrategyError ℕ
  first_shares x y =
      if x == 0 && y == 0
      then err invalid_deposit
      else do product ← or_panic (u256_mul x y); ok (isqrt product)

  unfoldable pub shares_minted : Xyk → XykState → ℕ → ℕ → Outcome StrategyError ℕ
  shares_minted c s x y = if s.shares == 0 then first_shares x y else later_shares c s x y

  unfoldable pub deposit : Xyk → XykState → List Coin → XykResult ℕ
  deposit c s funds = do
    let x : ℕ = balance_of funds c.x
    let y : ℕ = balance_of funds c.y
    shares ← shares_minted c s x y
    minted ← or_err (to_uint128 shares) conversion_overflow
    x_sum ← or_panic (uint_add s.x x)
    y_sum ← or_panic (uint_add s.y y)
    t ← set s x_sum y_sum
    total ← or_panic (uint_add t.shares minted)
    ok (minted, record t { shares = total })

  -- The reserves that belong to a part of the shares, taken out.
  unfoldable pub withdraw_part : Xyk → XykState → ℕ → XykResult (List Coin)
  withdraw_part c s amount = do
    x ← or_panic (multiply_ratio s.x amount s.shares)
    y ← or_panic (multiply_ratio s.y amount s.shares)
    x_left ← or_panic (uint_sub s.x x)
    y_left ← or_panic (uint_sub s.y y)
    t ← set s x_left y_left
    rest ← or_panic (uint_sub t.shares amount)
    ok (coin x c.x ∷ coin y c.y ∷ [], record t { shares = rest })

  -- `normalize` of `NativeBalance` sorts the coins by denom, adds up those of one denom and drops
  -- the zeros.
  unfoldable pub withdraw : Host → Xyk → XykState → ℕ → XykResult (List Coin)
  withdraw host c s amount =
      if s.shares == 0 || amount == 0
      then ok ([], s)
      else if s.shares == amount
      then ok (host.normalize (coin s.x c.x ∷ coin s.y c.y ∷ []), s)
      else (do (coins, t) ← withdraw_part c s amount; ok (host.normalize coins, t))
