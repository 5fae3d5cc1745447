-- ===== src/FeeManager.antt =====
-- `FeeManager` (packages/nami-rs/src/fee_manager.rs): the rates of an index and the fees that it
-- takes. A method with `&mut self` returns its result with the new manager.
pub mod Accrual
pub mod Charges
pub mod Rates
use nami_contracts.Base.{
  ℕ, zero, suc, ◌+◌, ◌-◌, ◌*◌, ◌/◌, ◌%◌, ◌^◌, ◌≤◌, ◌<◌, min, String, ◌≡◌, refl, sym, ap, ◌∙◌, ◌≢◌,
  ◌↔◌, ◌⊎◌, inl, inr, Bool, true, false, not, ◌&&◌, ◌||◌, Option, none, some, List, [], ◌∷◌, ◌++◌,
  map, arith, ltb, leb, ◌==◌, if◌then◌else◌, str_eq, str_lt, str_eq_iff, ltb→lt, lt→ltb, Bool-cases,
  Option-cases, unwrap_or_default, Outcome, ok, err, panic, ◌>>=◌, ◌>>◌, ensure, or_err, or_panic,
  lift_err, >>=-eq-ok, traverse, length, All, sum_by, is_empty, keep_if, Store, lookup, contains,
  insert, erase, lookup-insert, lookup-erase,
}
use nami_contracts.Numeric.{
  Numeric, IsNumeric, unit, uint_limit, fit, fit-eq-some, uint_sub-eq-some, uint_mul-eq-some,
  from_ratio-eq-some, from_ratio_one,
}

pub record FeeRates : Type 0 where
  pub management : Option ℕ
  pub performance : Option ℕ
  pub transaction : Option ℕ

pub data FeeManagerError : Type 0 where
  overflow : FeeManagerError
  rate_greater_than_one : String → FeeManagerError

-- One of the three tests of `validate`.
check_rate : Option ℕ → String → Outcome FeeManagerError (Unit {0})
check_rate none value = ok tt
check_rate (some rate) value = if ltb unit rate then err (rate_greater_than_one value) else ok tt

unfoldable pub validate : FeeRates → Outcome FeeManagerError (Unit {0})
unfolding check_rate
validate rates = do
  check_rate rates.management "management"
  check_rate rates.performance "performance"
  check_rate rates.transaction "transaction"

pub record FeeManager : Type 0 where
  pub last_accrual_time : ℕ
  pub high_water_mark : ℕ
  pub rates : FeeRates

unfoldable pub new : FeeRates → ℕ → Outcome FeeManagerError FeeManager
unfolding validate
new rates now = do
  validate rates
  ok (record { last_accrual_time = now; high_water_mark = 0; rates = rates })

abbrev pub secs_per_year : ℕ
secs_per_year = 31_557_600

module _ ⦃cw : Numeric⦄ where
  open cw use {uint_sub, from_ratio, dec_mul, to_uint_ceil, seconds}

  -- The elapsed seconds, `saturating_sub`.
  abbrev pub elapsed_since : FeeManager → ℕ → ℕ
  elapsed_since m now = seconds now - seconds m.last_accrual_time

  unfoldable pub aum_fee : FeeManager → ℕ → ℕ → Outcome FeeManagerError (ℕ × FeeManager)
  aum_fee m now total_supply =
      let rate = unwrap_or_default m.rates.management in
      let elapsed = elapsed_since m now in
      if elapsed == 0 then ok (0, m) else do
        year_fraction ← or_panic (from_ratio elapsed secs_per_year)
        effective ← or_err (dec_mul rate year_fraction) overflow
        supply ← or_panic (from_ratio total_supply 1)
        fee_amount ← or_err (dec_mul supply effective) overflow
        ok (to_uint_ceil fee_amount, record m { last_accrual_time = now })

  unfoldable pub tx_fee : FeeManager → ℕ → Outcome FeeManagerError (ℕ × ℕ)
  tx_fee m amount = do
    let rate = unwrap_or_default m.rates.transaction
    whole ← or_panic (from_ratio amount 1)
    part ← or_err (dec_mul whole rate) overflow
    let fee = to_uint_ceil part
    net ← or_err (uint_sub amount fee) overflow
    ok (net, fee)

  unfoldable pub perf_fee : FeeManager → ℕ → Outcome FeeManagerError (ℕ × FeeManager)
  perf_fee m current_value =
      let rate = unwrap_or_default m.rates.performance in
      if ltb m.high_water_mark current_value
      then (do
        gain ← or_err (uint_sub current_value m.high_water_mark) overflow
        whole ← or_panic (from_ratio gain 1)
        part ← or_err (dec_mul whole rate) overflow
        ok (to_uint_ceil part, record m { high_water_mark = current_value }))
      else ok (0, m)
