-- ===== src/FeeManager/Charges.antt =====
-- The transaction fee and the performance fee.
use nami_contracts.Base.{
  ℕ, ◌+◌, ◌-◌, ◌*◌, ◌≤◌, ◌<◌, ◌≡◌, refl, ap, List, [], ◌∷◌, arith, ltb, if◌then◌else◌,
  unwrap_or_default, Outcome, ok, ◌>>=◌, length, All,
}
use nami_contracts.Numeric.{
  Numeric, IsNumeric, unit, uint_limit, to_uint_ceil_bounds, from_ratio_whole, dec_mul_whole,
}
use nami_contracts.FeeManager.{FeeManager, FeeManagerError, tx_fee, perf_fee}

-- The mark after a value is seen.
abbrev pub raise_mark : ℕ → ℕ → ℕ
raise_mark mark v = if ltb mark v then v else mark

-- The highest of a run of values and a mark.
unfoldable pub peak : ℕ → List ℕ → ℕ
peak mark [] = mark
peak mark (v ∷ vs) = peak (raise_mark mark v) vs

le-peak : (mark : ℕ) (vs : List ℕ) → mark ≤ peak mark vs
unfolding peak
le-peak mark [] = omega arith
le-peak mark (v ∷ vs) = ground (arith, le-peak (raise_mark mark v) vs)

rise_split :
    (mark v top : ℕ) → raise_mark mark v ≤ top → top - mark ≡ (v - mark) + (top - raise_mark mark v)
rise_split mark v top h = ground arith

module _ ⦃cw : Numeric⦄ where
  -- The fees of a run of valuations, added up, with the manager at its end.
  pub perf_fees : FeeManager → List ℕ → Outcome FeeManagerError (ℕ × FeeManager)
  perf_fees m [] = ok (0, m)
  perf_fees m (v ∷ vs) =
      perf_fee m v >>= λ (fee, m'). perf_fees m' vs >>= λ (fees, end). ok (fee + fees, end)

module _ ⦃cw : Numeric⦄ (laws : IsNumeric cw) where
  open laws use {uint_sub_lem, from_ratio_lem, dec_mul_lem, to_uint_ceil_lem}

  -- At a transaction rate of at most 1.0, every amount that fits as a decimal splits into a fee and the
  -- rest: the fee is the rate of the amount, rounded up.
  pub tx_fee_splits :
      (m : FeeManager) (amount : ℕ)
      → unwrap_or_default m.rates.transaction ≤ unit
      → amount * unit < uint_limit
      → (net : ℕ) × (fee : ℕ) × (tx_fee m amount ≡ ok (net, fee))
        × (net + fee ≡ amount)
        × (amount * unwrap_or_default m.rates.transaction ≤ fee * unit)
        × (fee * unit < amount * unwrap_or_default m.rates.transaction + unit)
  unfolding tx_fee
  tx_fee_splits m amount r b =
      let rate = unwrap_or_default m.rates.transaction in
      let fee = cw.to_uint_ceil (amount * rate) in
      let (low, high) = to_uint_ceil_bounds laws (amount * rate) in
      let le : fee ≤ amount = grind arith in
      (
        amount - fee,
        fee,
        ground (
          arith,
          from_ratio_whole laws amount b,
          dec_mul_whole laws amount rate b r,
          uint_sub_lem amount fee,
        ),
        omega arith,
        low,
        high,
      )

  -- What a transaction fee leaves is the amount without it.
  pub tx_fee_sum :
      (m : FeeManager) (amount : ℕ) {net fee : ℕ}
      → tx_fee m amount ≡ ok (net, fee)
      → net + fee ≡ amount
  unfolding tx_fee
  tx_fee_sum m amount {net} {fee} h = ground (arith, uint_sub_lem amount fee)

  -- A performance fee is taken on the gain above the mark alone, which then stands at the highest
  -- value seen.
  pub perf_fee_lem :
      (m : FeeManager) (v : ℕ)
      → unwrap_or_default m.rates.performance ≤ unit
      → v * unit < uint_limit
      → perf_fee m v
        ≡ ok (
          cw.to_uint_ceil ((v - m.high_water_mark) * unwrap_or_default m.rates.performance),
          record m { high_water_mark = raise_mark m.high_water_mark v },
        )
  unfolding perf_fee
  perf_fee_lem m v r b =
      let rate = unwrap_or_default m.rates.performance in
      let gain = v - m.high_water_mark in
      ground (
        arith,
        uint_sub_lem v m.high_water_mark,
        from_ratio_whole laws gain (omega arith),
        dec_mul_whole laws gain rate (omega arith) r,
        to_uint_ceil_lem (gain * rate),
      )

  -- Over any run of valuations that fit, at a performance rate of at most 1.0, every gain is charged
  -- once: the fees cover the rate on the rise from the mark to the highest value, and exceed it by at
  -- most a unit for each valuation.
  pub perf_fees_once :
      (m : FeeManager) (vs : List ℕ)
      → unwrap_or_default m.rates.performance ≤ unit
      → All (λ v. v * unit < uint_limit) vs
      → let rate = unwrap_or_default m.rates.performance in
        let rise = peak m.high_water_mark vs - m.high_water_mark in
        (fees : ℕ) × (perf_fees m vs
          ≡ ok (fees, record m { high_water_mark = peak m.high_water_mark vs }))
        × (rise * rate ≤ fees * unit)
        × (fees * unit ≤ rise * rate + length vs * unit)
  unfolding perf_fees peak
  perf_fees_once m [] r b = (0, refl, grind arith, grind arith)
  perf_fees_once m (v ∷ vs) r (b, bs) =
      let rate = unwrap_or_default m.rates.performance in
      let mark = raise_mark m.high_water_mark v in
      let (fees, run, low, high) = perf_fees_once (record m { high_water_mark = mark }) vs r bs in
      let fee = cw.to_uint_ceil ((v - m.high_water_mark) * rate) in
      let ceil = to_uint_ceil_bounds laws ((v - m.high_water_mark) * rate) in
      let scaled =
        ap (λ (t : ℕ). t * rate)
          (rise_split m.high_water_mark v (peak mark vs) (le-peak mark vs)) in
      (
        fee + fees,
        rw (perf_fee_lem m v r b, run),
        omega (arith, low, scaled, ceil.0),
        omega (arith, high, scaled, ceil.1),
      )
