-- ===== src/Examples/Fees.antt =====
-- The fee manager at concrete rates: 10% a year, 20% of gains, 5% of transactions, as in the unit
-- tests of the source.
use nami_contracts.Base.{ℕ, ◌+◌, ◌*◌, ◌≤◌, ◌<◌, ◌≡◌, refl, ◌↔◌, some, [], ◌∷◌, arith, ok}
use nami_contracts.Numeric.{unit}
use nami_contracts.Numeric.{reference, reference-IsNumeric}
use nami_contracts.FeeManager.{
  FeeRates, FeeManager, secs_per_year, elapsed_since, new, aum_fee, tx_fee,
}
use nami_contracts.FeeManager.Rates.{IsBounded, new_iff}
use nami_contracts.FeeManager.Accrual.{aum_fee_bounds}
use nami_contracts.FeeManager.Charges.{tx_fee_splits, perf_fees, perf_fees_once, peak}

abbrev percent : ℕ → ℕ
percent n = n * 10_000_000_000_000_000

abbrev rates : FeeRates
rates = record {
  management = some (percent 10);
  performance = some (percent 20);
  transaction = some (percent 5);
}

abbrev year : ℕ
year = 31_557_600_000_000_000

abbrev manager : FeeManager
manager = record { last_accrual_time = 0; high_water_mark = 0; rates = rates }

aum_fee_one_year :
    aum_fee manager year 1_000_000 ≡ ok (100_000, record manager { last_accrual_time = year })
unfolding aum_fee
aum_fee_one_year = refl

new_iff_example :
    (new rates 5 ≡ ok (record { last_accrual_time = 5; high_water_mark = 0; rates = rates }))
    ↔ IsBounded rates
new_iff_example = new_iff rates 5

aum_fee_bounds_example :
    (100_000 * (unit * secs_per_year)
      < 1_000_000 * (percent 10 * elapsed_since manager year) + unit * secs_per_year)
    × (elapsed_since (record manager { last_accrual_time = year }) year ≡ 0)
    × (manager.high_water_mark ≡ 0)
    × (manager.rates ≡ rates)
aum_fee_bounds_example = aum_fee_bounds reference-IsNumeric manager year 1_000_000 aum_fee_one_year

tx_fee_splits_example :
    (net : ℕ) × (fee : ℕ) × (tx_fee manager 1_010 ≡ ok (net, fee))
    × (net + fee ≡ 1_010)
    × (1_010 * percent 5 ≤ fee * unit)
    × (fee * unit < 1_010 * percent 5 + unit)
tx_fee_splits_example = tx_fee_splits reference-IsNumeric manager 1_010 (omega arith) (omega arith)

perf_fees_once_example :
    (fees : ℕ) × (perf_fees manager (500 ∷ 400 ∷ 901 ∷ [])
      ≡ ok (fees, record manager { high_water_mark = 901 }))
    × (901 * percent 20 ≤ fees * unit)
    × (fees * unit ≤ 901 * percent 20 + 3 * unit)
unfolding peak
perf_fees_once_example =
    perf_fees_once reference-IsNumeric manager (500 ∷ 400 ∷ 901 ∷ []) (omega arith) (omega arith)
