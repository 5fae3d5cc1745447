-- ===== src/Interest/Curve.antt =====
-- The shape of the curve: it starts at the base rate, rises by `step1` up to the target, and by
-- `step2` from there to full utilization.
use nami_contracts.Base.{
  ℕ, ◌+◌, ◌-◌, ◌*◌, ◌/◌, ◌≤◌, ◌<◌, ◌≡◌, ap, ◌∙◌, arith, leb, if◌then◌else◌, ok,
}
use nami_contracts.Numeric.{Numeric, IsNumeric, unit, uint_limit}
use native.Mathlib.Nat.{mul-le-mul, le_refl, mul-div_cancel_left}
use nami_contracts.Interest.{Interest, validate, rate}

-- The part of a step that `a` out of `room` earns.
abbrev part : ℕ → ℕ → ℕ → ℕ
part a room step = a * unit / room * step / unit

abbrev below : Interest → ℕ → ℕ
below i u = if leb u i.target_utilization then u else i.target_utilization

abbrev curve : Interest → ℕ → ℕ
curve i u =
    i.base_rate
    + part (below i u) i.target_utilization i.step1
    + part (u - below i u) (unit - i.target_utilization) i.step2

div_mono : (a b d : ℕ) → 0 < d → a ≤ b → a / d ≤ b / d
div_mono a b d p h = grind arith

part_mono : (a b room step : ℕ) → 0 < room → a ≤ b → part a room step ≤ part b room step
part_mono a b room step p h =
    let q = div_mono (a * unit) (b * unit) room p (omega arith) in
    div_mono (a * unit / room * step) (b * unit / room * step) unit (omega arith)
      (mul-le-mul q (le_refl step))

part_full : (room step : ℕ) → 0 < room → part room room step ≡ step
part_full room step p = rw (mul-div_cancel_left unit p) (omega arith)

part_zero : (room step : ℕ) → part 0 room step ≡ 0
part_zero room step = grind arith

part_eq : (a b room step : ℕ) → a ≡ b → part a room step ≡ part b room step
part_eq a b room step e = ap (λ (x : ℕ). part x room step) e

-- What an interest must be for its curve to be computed: validated, and its top rate a decimal.
pub record IsUsable (i : Interest) : Type 0 where
  pub valid : validate i ≡ ok tt
  pub fits : i.base_rate + i.step1 + i.step2 < uint_limit

valid-parts :
    (i : Interest) → validate i ≡ ok tt → (0 < i.target_utilization) × (i.target_utilization < unit)
unfolding validate
valid-parts i h = ground arith

below-le : (i : Interest) (u : ℕ) → (below i u ≤ i.target_utilization) × (below i u ≤ u)
below-le i u = ground arith

below_mono :
    (i : Interest) (u v : ℕ) → u ≤ v → (below i u ≤ below i v) × (u - below i u ≤ v - below i v)
below_mono i u v h = ground arith

above-le : (i : Interest) (u : ℕ) → u ≤ unit → u - below i u ≤ unit - i.target_utilization
above-le i u h = ground arith

-- The curve lies between its ends.
curve_bounds :
    (i : Interest) (u : ℕ)
    → 0 < i.target_utilization
    → i.target_utilization < unit
    → u ≤ unit
    → (i.base_rate ≤ curve i u) × (curve i u ≤ i.base_rate + i.step1 + i.step2)
curve_bounds i u p q h =
    let t = i.target_utilization in
    let room : 0 < unit - t = omega arith in
    omega (
      arith,
      part_mono (below i u) t t i.step1 p (below-le i u).0,
      part_full t i.step1 p,
      part_mono (u - below i u) (unit - t) (unit - t) i.step2 room (above-le i u h),
      part_full (unit - t) i.step2 room,
    )

-- A share of at most 1.0 stays a decimal, and so does its part of a step.
share_fits : (a room : ℕ) → 0 < room → a ≤ room → a * unit / room ≤ unit
share_fits a room p h =
    omega
      (arith, div_mono (a * unit) (room * unit) room p (omega arith), mul-div_cancel_left unit p)

module _ ⦃cw : Numeric⦄ (laws : IsNumeric cw) where
  open laws use {dec_add_lem, dec_sub_lem, dec_mul_lem, dec_div_lem}

  rate-eq-curve : (i : Interest) (u : ℕ) → IsUsable i → u ≤ unit → rate i u ≡ ok (curve i u)
  unfolding rate
  rate-eq-curve i u w h =
      let (p, q) = valid-parts i w.valid in
      let t = i.target_utilization in
      let lo = below i u in
      let hi = u - lo in
      let share1 = lo * unit / t in
      let share2 = hi * unit / (unit - t) in
      let part1 = part lo t i.step1 in
      let part2 = part hi (unit - t) i.step2 in
      ground (
        arith,
        dec_div_lem lo t,
        share_fits lo t p (below-le i u).0,
        dec_mul_lem share1 i.step1,
        dec_sub_lem u lo,
        dec_sub_lem unit t,
        dec_div_lem hi (unit - t),
        share_fits hi (unit - t) (omega arith) (above-le i u h),
        dec_mul_lem share2 i.step2,
        dec_add_lem i.base_rate part1,
        dec_add_lem (i.base_rate + part1) part2,
        curve_bounds i u p q h,
        w.fits,
      )

  -- With a validated interest whose top rate is a decimal, every utilization up to 1.0 has a rate,
  -- rates do not fall as utilization rises, and they lie between the base rate and the sum of the
  -- base rate and both steps.
  pub rate_rises :
      (i : Interest) (u v : ℕ)
      → IsUsable i
      → u ≤ v
      → v ≤ unit
      → (r : ℕ) × (s : ℕ) × (rate i u ≡ ok r)
        × (rate i v ≡ ok s)
        × (i.base_rate ≤ r)
        × (r ≤ s)
        × (s ≤ i.base_rate + i.step1 + i.step2)
  rate_rises i u v w h k =
      let (p, q) = valid-parts i w.valid in
      let t = i.target_utilization in
      let (lo, hi) = below_mono i u v h in
      (
        curve i u,
        curve i v,
        rate-eq-curve i u w (omega arith),
        rate-eq-curve i v w k,
        (curve_bounds i u p q (omega arith)).0,
        omega (
          arith,
          part_mono (below i u) (below i v) t i.step1 p lo,
          part_mono (u - below i u) (v - below i v) (unit - t) i.step2 (omega arith) hi,
        ),
        (curve_bounds i v p q k).1,
      )

  -- With such an interest the rate is the base rate at no utilization, the base rate and the first
  -- step at the target, and the base rate and both steps at full utilization.
  pub rate_knots :
      (i : Interest)
      → IsUsable i
      → (rate i 0 ≡ ok i.base_rate)
        × (rate i i.target_utilization ≡ ok (i.base_rate + i.step1))
        × (rate i unit ≡ ok (i.base_rate + i.step1 + i.step2))
  rate_knots i w =
      let (p, q) = valid-parts i w.valid in
      let t = i.target_utilization in
      let r1 = part_full t i.step1 p in
      let r2 = part_full (unit - t) i.step2 (omega arith) in
      let z1 = part_zero t i.step1 in
      let z2 = part_zero (unit - t) i.step2 in
      let at_zero = part_eq (below i 0) 0 t i.step1 (ground arith) in
      let above_zero = part_eq (0 - below i 0) 0 (unit - t) i.step2 (ground arith) in
      let at_target = part_eq (below i t) t t i.step1 (ground arith) in
      let above_target = part_eq (t - below i t) 0 (unit - t) i.step2 (ground arith) in
      let at_full = part_eq (below i unit) t t i.step1 (ground arith) in
      let above_full = part_eq (unit - below i unit) (unit - t) (unit - t) i.step2 (ground arith) in
      (
        rate-eq-curve i 0 w (omega arith) ∙ ap ok (omega arith),
        rate-eq-curve i t w (omega arith) ∙ ap ok (omega arith),
        rate-eq-curve i unit w (omega arith) ∙ ap ok (omega arith),
      )
