-- ===== src/Fin/Prices.antt =====
-- Sides, prices and premiums (packages/rujira-rs/src/interfaces/fin/side.rs and price.rs,
-- packages/rujira-rs/src/premium.rs). A decimal is its number of atomics; an `i16` is held as its
-- value plus 2 ^ 15.
use nami_contracts.Base.{
  ℕ, ◌+◌, ◌-◌, ◌^◌, String, Bool, true, false, ◌&&◌, Option, none, some, ltb, ◌==◌, if◌then◌else◌,
  Outcome, ok, panic, ◌>>=◌, or_panic,
}
use nami_contracts.Numeric.{Numeric}

pub data Side : Type 0 where
  base quote : Side

pub data Price : Type 0 where
  fixed : ℕ → Price
  oracle : (deviation : ℕ) → Price

abbrev pub no_deviation : ℕ
no_deviation = 2 ^ 15

abbrev pub side_name : Side → String
side_name base = "base"
side_name quote = "quote"

-- `PoolKey`
abbrev pub PoolKey : Type 0
PoolKey = Side × Price

abbrev pub same_side : Side → Side → Bool
same_side base base = true
same_side base quote = false
same_side quote base = false
same_side quote quote = true

abbrev pub same_price : Price → Price → Bool
same_price (fixed a) (fixed b) = a == b
same_price (fixed a) (oracle b) = false
same_price (oracle a) (fixed b) = false
same_price (oracle a) (oracle b) = a == b

abbrev pub same_key : PoolKey → PoolKey → Bool
same_key (s, p) (t, q) = same_side s t && same_price p q

module _ {E : Type 0} ⦃cw : Numeric⦄ where
  open cw use {uint_sub, from_ratio, dec_mul}

  -- `Premiumable::adjust` of an oracle price, in basis points
  unfoldable pub adjust : ℕ → ℕ → Outcome E ℕ
  adjust rate bps =
      if bps == no_deviation
      then ok rate
      else if ltb no_deviation bps
      then (do
        ratio ← or_panic (from_ratio (bps - no_deviation + 10_000) 10_000)
        or_panic (dec_mul rate ratio))
      else (do
        left ← or_panic (uint_sub 10_000 (no_deviation - bps))
        ratio ← or_panic (from_ratio left 10_000)
        or_panic (dec_mul rate ratio))

  -- `adjust` of an `Option`, which panics without a price
  unfoldable pub adjust_optional : Option ℕ → ℕ → Outcome E ℕ
  adjust_optional none bps = panic
  adjust_optional (some rate) bps = adjust rate bps

  -- `Price::to_rate`
  unfoldable pub to_rate : Price → Option ℕ → Outcome E ℕ
  to_rate (fixed rate) price = ok rate
  to_rate (oracle bps) price = adjust_optional price bps
