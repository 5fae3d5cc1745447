-- ===== src/Interest.antt =====
-- `Interest` (packages/rujira-rs/src/interfaces/ghost_vault/interest.rs): the two-step interest curve.
pub mod Curve
use nami_contracts.Base.{
  ℕ, zero, suc, ◌+◌, ◌-◌, ◌*◌, ◌/◌, ◌%◌, ◌^◌, ◌≤◌, ◌<◌, min, String, ◌≡◌, refl, sym, ap, ◌∙◌, ◌≢◌,
  ◌↔◌, ◌⊎◌, inl, inr, Bool, true, false, not, ◌&&◌, ◌||◌, Option, none, some, List, [], ◌∷◌, ◌++◌,
  map, arith, ltb, leb, ◌==◌, if◌then◌else◌, str_eq, str_lt, str_eq_iff, ltb→lt, lt→ltb, Bool-cases,
  Option-cases, unwrap_or_default, Outcome, ok, err, panic, ◌>>=◌, ◌>>◌, ensure, or_err, or_panic,
  lift_err, >>=-eq-ok, traverse, length, All, sum_by, is_empty, keep_if, Store, lookup, contains,
  insert, erase, lookup-insert, lookup-erase,
}
use nami_contracts.Numeric.{
  Numeric, IsNumeric, unit, uint_limit, fit, fit-eq-some, uint_add-eq-some, uint_sub-eq-some,
  uint_mul-eq-some, from_ratio-eq-some, from_ratio_one, to_uint_ceil_bounds, to_uint_floor_bounds,
  from_ratio_whole, dec_mul_whole, whole-mul,
}

pub record Interest : Type 0 where
  pub target_utilization : ℕ
  pub base_rate : ℕ
  pub step1 : ℕ
  pub step2 : ℕ

-- `StdError::generic_err`, by its message.
pub data InterestError : Type 0 where
  step_order target_zero target_high utilization_high : InterestError

unfoldable pub validate : Interest → Outcome InterestError (Unit {0})
validate i = do
  ensure (ltb i.step1 i.step2) step_order
  ensure (not (i.target_utilization == 0)) target_zero
  ensure (ltb i.target_utilization unit) target_high

module _ ⦃cw : Numeric⦄ where
  open cw use {dec_add, dec_sub, dec_mul, dec_div}

  -- `checked_div(…).unwrap_or_default()`
  abbrev div_or_zero : ℕ → ℕ → ℕ
  div_or_zero a b = unwrap_or_default (dec_div a b)

  unfoldable pub rate : Interest → ℕ → Outcome InterestError ℕ
  rate i utilization = do
    ensure (leb utilization unit) utilization_high
    let below = if leb utilization i.target_utilization then utilization else i.target_utilization
    share1 ← or_panic (dec_div below i.target_utilization)
    part1 ← or_panic (dec_mul share1 i.step1)
    above ← or_panic (dec_sub utilization below)
    room ← or_panic (dec_sub unit i.target_utilization)
    part2 ← or_panic (dec_mul (div_or_zero above room) i.step2)
    first ← or_panic (dec_add i.base_rate part1)
    or_panic (dec_add first part2)
