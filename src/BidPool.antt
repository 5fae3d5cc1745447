-- ===== src/BidPool.antt =====
-- The bid pools (packages/rujira-rs/src/bid_pool): bids at one rate, filled together.
pub mod Distribution
pub mod Sync
use nami_contracts.Base.{
  ℕ, zero, suc, ◌+◌, ◌-◌, ◌*◌, ◌/◌, ◌%◌, ◌^◌, ◌≤◌, ◌<◌, min, String, ◌≡◌, refl, sym, ap, subst, ◌∙◌,
  ◌≢◌, ◌↔◌, ◌⊎◌, inl, inr, Bool, true, false, not, ◌&&◌, ◌||◌, Option, none, some, List, [], ◌∷◌,
  ◌++◌, map, arith, ltb, leb, ◌==◌, if◌then◌else◌, str_eq, str_lt, str_eq_iff, ltb→lt, lt→ltb,
  Bool-cases, Option-cases, unwrap_or_default, Outcome, ok, err, panic, ◌>>=◌, ◌>>◌, ensure, or_err,
  or_panic, lift_err, >>=-eq-ok, ok-injective, lift_err-eq-ok, ensure-eq-ok, or_err-eq-ok,
  or_panic-eq-ok, traverse, length, All, All-map, traverse-All, sum_by, is_empty, keep_if, Store,
  lookup, contains, insert, erase, lookup-insert, lookup-erase, Distinct, Distinct-insert,
  Distinct-found, All-lookup,
}
use nami_contracts.Numeric.{
  Numeric, IsNumeric, unit, uint_limit, wide_limit, fit, fit256, fit-eq-some, uint_add-eq-some,
  uint_sub-eq-some, uint_mul-eq-some, from_ratio-eq-some, from_ratio_one, to_uint_ceil_bounds,
  to_uint_floor_bounds, from_ratio_whole, dec_mul_whole, whole-mul, floor_ratio,
}
use nami_contracts.DecimalScaled.{
  DecimalScaled, one, zero_scaled, is_zero, same_scaled, Rounds, out_of_rounds, Scaled, add, sub,
  mul, mul_uint, div, from_ratio, to_uint_floor,
}

pub record Pool : Type 0 where
  pub total : ℕ
  pub sum : DecimalScaled
  pub product : DecimalScaled
  pub epoch : ℕ

pub record Bid : Type 0 where
  pub amount : ℕ
  pub filled : ℕ
  pub product_snapshot : DecimalScaled
  pub sum_snapshot : DecimalScaled
  pub epoch_snapshot : ℕ

pub data BidPoolError : Type 0 where
  withdraw_error : (available : ℕ) → BidPoolError
  distribution_error overflow : BidPoolError

pub data StdError : Type 0 where
  std_overflow : StdError

pub record SumSnapshot : Type 0 where
  pub epoch : ℕ
  pub sum : DecimalScaled

pub record DistributionResult : Type 0 where
  pub consumed_offer : ℕ
  pub consumed_bids : ℕ
  pub snapshots : List SumSnapshot

-- `Pool::default` and `DistributionResult::default`
abbrev pub default_pool : Pool
default_pool = record { total = 0; sum = zero_scaled; product = one; epoch = 0 }

abbrev pub nothing_distributed : DistributionResult
nothing_distributed = record { consumed_offer = 0; consumed_bids = 0; snapshots = [] }

-- An operation on decimals. That the rounds do not do never happens.
abbrev pub computed : {E A : Type 0} → Outcome Rounds A → Outcome E A
computed (ok x) = ok x
computed (err e) = panic
computed panic = panic

abbrev pub snapshot_of : Pool → SumSnapshot
snapshot_of p = record { epoch = p.epoch; sum = p.sum }

abbrev pub is_zero_pool : Pool → Bool
is_zero_pool p = p.total == 0

-- `Uint32` arithmetic of the epoch
abbrev pub next_epoch : ℕ → Option ℕ
next_epoch n = if ltb (n + 1) (2 ^ 32) then some (n + 1) else none

unfoldable pub increment_epoch : Pool → Outcome BidPoolError Pool
increment_epoch p = do
  epoch ← or_panic (next_epoch p.epoch)
  ok (record { total = 0; sum = zero_scaled; product = one; epoch = epoch })

-- `Bid::claim_filled`
unfoldable pub claim_filled : Bid → ℕ × Bid
claim_filled b = (b.filled, record b { filled = 0 })

abbrev pub is_empty_bid : Bid → Bool
is_empty_bid b = b.amount == 0 && b.filled == 0

unfoldable pub assert_withdraw_amount : Option ℕ → ℕ → Outcome BidPoolError ℕ
assert_withdraw_amount none available = ok available
assert_withdraw_amount (some amount) available =
    if ltb available amount then err (withdraw_error available) else ok amount

module _ ⦃cw : Numeric⦄ where
  open cw use {from_ratio256, to_uint_ceil, u256_add, u256_sub, u256_mul, u256_mul_floor}

  unfoldable pub new_bid : Pool → ℕ → Outcome BidPoolError (Bid × Pool)
  new_bid p amount = do
    total ← or_panic (u256_add p.total amount)
    ok (
      record {
        amount = amount;
        filled = 0;
        product_snapshot = p.product;
        sum_snapshot = p.sum;
        epoch_snapshot = p.epoch;
      },
      record p { total = total },
    )

  -- What the offer pays for the whole pool.
  unfoldable pub price_of : ℕ → ℕ → Outcome BidPoolError ℕ
  price_of total rate = do
    scaled ← or_panic (u256_mul total unit)
    ratio ← or_panic (from_ratio256 scaled rate)
    ok (to_uint_ceil ratio)

  -- The sum after an offer per bid.
  unfoldable pub raised_sum : Pool → ℕ → Outcome BidPoolError DecimalScaled
  raised_sum p offer = do
    offer_per_bid ← computed (from_ratio offer p.total)
    share ← computed (mul p.product offer_per_bid)
    computed (add p.sum share)

  unfoldable pub distribute_full : Pool → ℕ → Outcome BidPoolError (DistributionResult × Pool)
  distribute_full p rate = do
    consumed_offer ← price_of p.total rate
    sum ← raised_sum p consumed_offer
    let filled : Pool = record p { sum = sum }
    next ← increment_epoch filled
    ok (
      record {
        consumed_offer = consumed_offer;
        consumed_bids = p.total;
        snapshots = snapshot_of filled ∷ snapshot_of next ∷ [];
      },
      next,
    )

  unfoldable pub lowered_product : Pool → ℕ → Outcome BidPoolError DecimalScaled
  lowered_product p bids_value = do
    share ← computed (from_ratio bids_value p.total)
    ratio ← computed (sub one share)
    computed (mul p.product ratio)

  unfoldable pub distribute_partial :
      Pool → ℕ → ℕ → Outcome BidPoolError (DistributionResult × Pool)
  distribute_partial p bids_value offer = do
    sum ← raised_sum p offer
    ensure (not (same_scaled sum p.sum)) distribution_error
    product ← lowered_product p bids_value
    ensure (not (same_scaled product zero_scaled)) distribution_error
    total ← or_panic (u256_sub p.total bids_value)
    let next : Pool = record { total = total; sum = sum; product = product; epoch = p.epoch }
    ok (
      record {
        consumed_offer = offer;
        consumed_bids = bids_value;
        snapshots = snapshot_of next ∷ [];
      },
      next,
    )

  unfoldable pub distribute_some : Pool → ℕ → ℕ → Outcome BidPoolError (DistributionResult × Pool)
  distribute_some p offer rate = or_panic (u256_mul_floor offer rate) >>= λ bids_value.
      if leb p.total bids_value
      then distribute_full p rate
      else distribute_partial p bids_value offer

  unfoldable pub distribute : Pool → ℕ → ℕ → Outcome BidPoolError (DistributionResult × Pool)
  distribute p offer rate =
      if offer == 0 || p.total == 0
      then ok (nothing_distributed, p)
      else distribute_some p offer rate

  unfoldable pub filled_share : Bid → DecimalScaled → Outcome StdError ℕ
  filled_share b reference_sum = do
    rise ← computed (sub reference_sum b.sum_snapshot)
    product ← computed (mul_uint rise b.amount)
    share ← computed (div product b.product_snapshot)
    computed (to_uint_floor share)

  -- The sum that a bid is filled up to.
  abbrev pub reference_of : Bid → Option DecimalScaled → DecimalScaled
  reference_of b none = b.sum_snapshot
  reference_of b (some sum) = sum

  unfoldable pub bid_filled_amount : Bid → Option DecimalScaled → Outcome StdError ℕ
  bid_filled_amount b sum_snapshot =
      if is_zero b.product_snapshot || b.amount == 0
      then ok 0
      else filled_share b (reference_of b sum_snapshot)

  unfoldable pub remaining_share : Pool → Bid → Outcome StdError ℕ
  remaining_share p b = do
    ratio ← computed (div p.product b.product_snapshot)
    amount ← computed (mul_uint ratio b.amount)
    computed (to_uint_floor amount)

  unfoldable pub remaining_of_epoch : Pool → Bid → Outcome StdError ℕ
  remaining_of_epoch p b = or_err (u256_sub p.epoch b.epoch_snapshot) std_overflow >>= λ epoch_diff.
      if epoch_diff == 0 then remaining_share p b else ok 0

  unfoldable pub bid_remaining_amount : Pool → Bid → Outcome StdError ℕ
  bid_remaining_amount p b =
      if is_zero b.product_snapshot
      then ok b.amount
      else if b.amount == 0
      then ok 0
      else remaining_of_epoch p b

  unfoldable pub sync_bid : Pool → Bid → Option DecimalScaled → Outcome StdError Bid
  sync_bid p b sum_snapshot = do
    share ← bid_filled_amount b sum_snapshot
    filled ← or_panic (u256_add b.filled share)
    amount ← bid_remaining_amount p b
    ok (record {
      amount = amount;
      filled = filled;
      product_snapshot = p.product;
      sum_snapshot = p.sum;
      epoch_snapshot = p.epoch;
    })

  -- `Bid::retract`
  unfoldable pub retract : Bid → Pool → Option ℕ → Outcome BidPoolError (ℕ × Bid × Pool)
  retract b p amount = do
    withdrawn ← assert_withdraw_amount amount b.amount
    left ← or_panic (u256_sub b.amount withdrawn)
    total ← or_err (u256_sub p.total withdrawn) overflow
    ok (withdrawn, record b { amount = left }, record p { total = total })

  -- `Bid::increase`
  unfoldable pub increase : Bid → Pool → ℕ → Outcome BidPoolError (ℕ × Bid × Pool)
  increase b p amount = do
    raised ← or_panic (u256_add b.amount amount)
    total ← or_err (u256_add p.total amount) overflow
    ok (amount, record b { amount = raised }, record p { total = total })
