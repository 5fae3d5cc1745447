-- ===== src/Numeric/Facts.antt =====
-- What a successful operation returns, and when an operation succeeds.
use nami_contracts.Base.{ℕ, ◌+◌, ◌*◌, ◌/◌, ◌≤◌, ◌<◌, ◌≡◌, ◌∙◌, some, arith}
use native.Mathlib.Nat.{div-div-eq-div-mul, mul-div-mul_right}
use nami_contracts.Numeric.Defs.{Numeric, IsNumeric, unit, uint_limit, fit}

pub fit-eq-some : (n : ℕ) {r : ℕ} → fit n ≡ some r → (r ≡ n) × (n < uint_limit)
fit-eq-some n h = ground arith

-- A ratio in atomics, rounded down to whole numbers, is the quotient rounded down.
pub floor_ratio : (n d : ℕ) → 0 < d → n * unit / d / unit ≡ n / d
floor_ratio n d h = div-div-eq-div-mul (n * unit) d unit ∙ mul-div-mul_right n d (omega arith)

-- A decimal that is a whole number scales exactly.
pub whole-mul : (a b : ℕ) → a * unit * b / unit ≡ a * b
whole-mul a b = omega arith

module _ ⦃cw : Numeric⦄ (laws : IsNumeric cw) where
  open laws use {
    uint_add_lem, uint_sub_lem, uint_mul_lem, multiply_ratio_lem, from_ratio_lem, dec_mul_lem,
    dec_div_lem, to_uint_floor_lem, to_uint_ceil_lem,
  }

  pub uint_sub-eq-some : (a b : ℕ) {r : ℕ} → cw.uint_sub a b ≡ some r → r + b ≡ a
  uint_sub-eq-some a b h = ground (arith, uint_sub_lem a b)

  pub uint_add-eq-some :
      (a b : ℕ) {r : ℕ} → cw.uint_add a b ≡ some r → (r ≡ a + b) × (a + b < uint_limit)
  uint_add-eq-some a b h = ground (arith, uint_add_lem a b)

  pub uint_mul-eq-some : (a b : ℕ) {r : ℕ} → cw.uint_mul a b ≡ some r → r ≡ a * b
  uint_mul-eq-some a b h = ground (arith, uint_mul_lem a b)

  pub from_ratio-eq-some :
      (n d : ℕ) {r : ℕ} → cw.from_ratio n d ≡ some r → (0 < d) × (r ≡ n * unit / d)
  from_ratio-eq-some n d h = ground (arith, from_ratio_lem n d)

  -- A whole number as a decimal.
  pub from_ratio_one : (n : ℕ) {r : ℕ} → cw.from_ratio n 1 ≡ some r → r ≡ n * unit
  from_ratio_one n h = ground (arith, from_ratio_lem n 1)

  -- A whole number times a decimal of at most 1.0, where the number fits a decimal.
  pub from_ratio_whole : (a : ℕ) → a * unit < uint_limit → cw.from_ratio a 1 ≡ some (a * unit)
  from_ratio_whole a h = ground (arith, from_ratio_lem a 1)

  pub dec_mul_whole :
      (a b : ℕ) → a * unit < uint_limit → b ≤ unit → cw.dec_mul (a * unit) b ≡ some (a * b)
  dec_mul_whole a b h k = rw (dec_mul_lem, whole-mul) (fits (a * b) (grind arith))
    where
      fits : (n : ℕ) → n < uint_limit → fit n ≡ some n
      fits n l = ground arith

  -- Rounding up is to the next whole number.
  pub to_uint_ceil_bounds :
      (x : ℕ) → (x ≤ cw.to_uint_ceil x * unit) × (cw.to_uint_ceil x * unit < x + unit)
  to_uint_ceil_bounds x = rw (to_uint_ceil_lem x) (omega arith)

  pub to_uint_floor_bounds :
      (x : ℕ) → (cw.to_uint_floor x * unit ≤ x) × (x < cw.to_uint_floor x * unit + unit)
  to_uint_floor_bounds x = rw (to_uint_floor_lem x) (omega arith)
