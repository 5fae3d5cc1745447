-- ===== src/FeeManager/Accrual.antt =====
-- The management fee.
use nami_contracts.Base.{
  ℕ, ◌+◌, ◌*◌, ◌/◌, ◌≤◌, ◌<◌, ◌≡◌, refl, ap, ◌≢◌, inl, inr, true, arith, ◌==◌, Bool-cases,
  unwrap_or_default, ok,
}
use nami_contracts.Numeric.{Numeric, IsNumeric, unit, to_uint_ceil_bounds, whole-mul}
use nami_contracts.FeeManager.{FeeManager, aum_fee, elapsed_since, secs_per_year}
use native.Mathlib.Nat.{mul-le-mul, le_refl}

-- Rounding a rate's share of a year down never raises it.
prorate :
    (rate elapsed part eff : ℕ)
    → eff * unit ≤ rate * part
    → part * secs_per_year ≤ elapsed * unit
    → eff * secs_per_year ≤ rate * elapsed
prorate rate elapsed part eff h k = omega (arith, mul-le-mul (le_refl rate) k)

module _ ⦃cw : Numeric⦄ (laws : IsNumeric cw) where
  open laws use {from_ratio_lem, dec_mul_lem}

  -- After an accrual, a further one at the same time charges nothing and changes nothing.
  pub aum_fee_once :
      (m : FeeManager) (now supply supply' : ℕ) {fee : ℕ} {m' : FeeManager}
      → aum_fee m now supply ≡ ok (fee, m')
      → aum_fee m' now supply' ≡ ok (0, m')
  unfolding aum_fee
  aum_fee_once m now supply supply' h = ground arith

  aum_fee-same :
      (m : FeeManager) (now supply : ℕ) {fee : ℕ} {m' : FeeManager}
      → aum_fee m now supply ≡ ok (fee, m')
      → (elapsed_since m now == 0) ≡ true
      → (fee ≡ 0) × (m' ≡ m)
  unfolding aum_fee
  aum_fee-same m now supply h e = ground arith

  -- What an accrual computes when it goes through.
  aum_fee-parts :
      (m : FeeManager) (now supply : ℕ) {fee : ℕ} {m' : FeeManager}
      → aum_fee m now supply ≡ ok (fee, m')
      → elapsed_since m now ≢ 0
      → (part : ℕ) × (eff : ℕ) × (part ≡ elapsed_since m now * unit / secs_per_year)
        × (eff ≡ unwrap_or_default m.rates.management * part / unit)
        × (fee ≡ cw.to_uint_ceil (supply * eff))
        × (m' ≡ record m { last_accrual_time = now })
  unfolding aum_fee
  aum_fee-parts m now supply h e =
      let rate = unwrap_or_default m.rates.management in
      let part = elapsed_since m now * unit / secs_per_year in
      let eff = rate * part / unit in
      (
        part,
        eff,
        refl,
        refl,
        ground (
          arith,
          from_ratio_lem (elapsed_since m now) secs_per_year,
          dec_mul_lem rate part,
          from_ratio_lem supply 1,
          dec_mul_lem (supply * unit) eff,
          whole-mul supply eff,
        ),
        ground arith,
      )

  -- A management fee is less than one unit above the elapsed share of the year of the supply, and it
  -- brings the manager up to the second of `now`.
  pub aum_fee_bounds :
      (m : FeeManager) (now supply : ℕ) {fee : ℕ} {m' : FeeManager}
      → aum_fee m now supply ≡ ok (fee, m')
      → let rate = unwrap_or_default m.rates.management in
        (fee * (unit * secs_per_year)
          < supply * (rate * elapsed_since m now) + unit * secs_per_year)
        × (elapsed_since m' now ≡ 0)
        × (m'.high_water_mark ≡ m.high_water_mark)
        × (m'.rates ≡ m.rates)
  aum_fee_bounds m now supply {fee} {m'} h = elim (Bool-cases (elapsed_since m now == 0)) [
    | inl same ↦
        let (none_due, unchanged) = aum_fee-same m now supply h same in
        rw (none_due, unchanged) (omega arith, ground arith, refl, refl)
    | inr later ↦
        let (part, eff, part_eq, eff_eq, fee_eq, m_eq) =
          aum_fee-parts m now supply h (ground arith) in
        let rate = unwrap_or_default m.rates.management in
        let share = prorate rate (elapsed_since m now) part eff (omega arith) (omega arith) in
        (
          omega (
            arith,
            fee_eq,
            to_uint_ceil_bounds laws (supply * eff),
            mul-le-mul (le_refl supply) share,
          ),
          rw m_eq (omega arith),
          ap (λ x. x.high_water_mark) m_eq,
          ap (λ x. x.rates) m_eq,
        )
  ]

  -- Within a year and at a rate of at most 1.0 the fee does not exceed the supply.
  pub aum_fee-le-supply :
      (m : FeeManager) (now supply : ℕ) {fee : ℕ} {m' : FeeManager}
      → aum_fee m now supply ≡ ok (fee, m')
      → unwrap_or_default m.rates.management ≤ unit
      → elapsed_since m now ≤ secs_per_year
      → fee ≤ supply
  aum_fee-le-supply m now supply h r y =
      let rate = unwrap_or_default m.rates.management in
      omega (arith, (aum_fee_bounds m now supply h).0, mul-le-mul (le_refl supply) (mul-le-mul r y))
