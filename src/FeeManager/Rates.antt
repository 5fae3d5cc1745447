-- ===== src/FeeManager/Rates.antt =====
-- `FeeRates::validate` and `FeeManager::new`: the rates that a manager can hold.
use nami_contracts.Base.{ℕ, ◌≤◌, ◌≡◌, ◌↔◌, arith, unwrap_or_default, ok}
use nami_contracts.Numeric.{unit}
use nami_contracts.FeeManager.{FeeRates, new}

-- No rate is above 1.0.
pub record IsBounded (r : FeeRates) : Type 0 where
  pub management_le : unwrap_or_default r.management ≤ unit
  pub performance_le : unwrap_or_default r.performance ≤ unit
  pub transaction_le : unwrap_or_default r.transaction ≤ unit

-- A manager is made exactly from rates that are at most 1.0, a rate of 1.0 included; it starts at
-- `now` with a mark of zero and those rates.
pub new_iff :
    (r : FeeRates) (now : ℕ)
    → (new r now ≡ ok (record { last_accrual_time = now; high_water_mark = 0; rates = r }))
      ↔ IsBounded r
unfolding new
new_iff r now = (λ h. ground arith, λ b. ground arith)
