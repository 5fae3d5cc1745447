-- ===== src/Numeric/Defs.antt =====
-- The operations of `Uint128` and `Decimal` that the contracts call, and their documented laws.
use nami_contracts.Base.{
  ℕ, ◌+◌, ◌-◌, ◌*◌, ◌/◌, ◌^◌, ◌≤◌, ◌<◌, ◌≡◌, Option, none, some, ltb, leb, ◌==◌, if◌then◌else◌,
}

-- 1.0 in atomics
abbrev pub unit : ℕ
unit = 1_000_000_000_000_000_000

-- `Uint128::MAX` + 1
abbrev pub uint_limit : ℕ
uint_limit = 2 ^ 128

-- A result that has to fit into 128 bits.
abbrev pub fit : ℕ → Option ℕ
fit n = if ltb n uint_limit then some n else none

-- `Uint256::MAX` + 1
abbrev pub wide_limit : ℕ
wide_limit = 2 ^ 256

-- A result that has to fit into 256 bits.
abbrev pub fit256 : ℕ → Option ℕ
fit256 n = if ltb n wide_limit then some n else none

-- `from_ratio256` is the one of `Decimal256`, whose atomics have 256 bits, `u256_add` and its like
-- are those of `Uint256`, `isqrt` is its root rounded down, `u256_mul_floor` its product with a `Decimal256`, and `to_uint128` its `try_into`.
-- `seconds` is the one of `Timestamp`, a number of nanoseconds.
-- `none` is the error of a checked operation, and the panic of an operator or of `from_ratio`.
pub record Numeric : Type 0 where
  pub uint_add : ℕ → ℕ → Option ℕ
  pub uint_sub : ℕ → ℕ → Option ℕ
  pub uint_mul : ℕ → ℕ → Option ℕ
  pub uint_div : ℕ → ℕ → Option ℕ
  pub multiply_ratio : ℕ → ℕ → ℕ → Option ℕ
  pub from_ratio : ℕ → ℕ → Option ℕ
  pub from_ratio256 : ℕ → ℕ → Option ℕ
  pub dec_add : ℕ → ℕ → Option ℕ
  pub dec_sub : ℕ → ℕ → Option ℕ
  pub dec_mul : ℕ → ℕ → Option ℕ
  pub dec_div : ℕ → ℕ → Option ℕ
  pub dec_inv : ℕ → Option ℕ
  pub to_uint_floor : ℕ → ℕ
  pub to_uint_ceil : ℕ → ℕ
  pub u256_add : ℕ → ℕ → Option ℕ
  pub u256_sub : ℕ → ℕ → Option ℕ
  pub u256_mul : ℕ → ℕ → Option ℕ
  pub u256_div : ℕ → ℕ → Option ℕ
  pub u256_multiply_ratio : ℕ → ℕ → ℕ → Option ℕ
  pub u256_pow : ℕ → ℕ → Option ℕ
  pub u256_mul_floor : ℕ → ℕ → Option ℕ
  pub to_uint128 : ℕ → Option ℕ
  pub isqrt : ℕ → ℕ
  pub seconds : ℕ → ℕ

-- Addition, subtraction and multiplication are exact or fail; products and quotients of decimals
-- round down; a division by zero fails.
pub record IsNumeric (cw : Numeric) : Type 0 where
  pub uint_add_lem : (a b : ℕ) → cw.uint_add a b ≡ fit (a + b)
  pub uint_sub_lem : (a b : ℕ) → cw.uint_sub a b ≡ (if leb b a then some (a - b) else none)
  pub uint_mul_lem : (a b : ℕ) → cw.uint_mul a b ≡ fit (a * b)
  pub uint_div_lem : (a b : ℕ) → cw.uint_div a b ≡ (if b == 0 then none else some (a / b))
  pub multiply_ratio_lem :
      (a n d : ℕ) → cw.multiply_ratio a n d ≡ (if d == 0 then none else fit (a * n / d))
  pub from_ratio_lem : (n d : ℕ) → cw.from_ratio n d ≡ (if d == 0 then none else fit (n * unit / d))
  pub from_ratio256_lem :
      (n d : ℕ) → cw.from_ratio256 n d ≡ (if d == 0 then none else fit256 (n * unit / d))
  pub dec_add_lem : (a b : ℕ) → cw.dec_add a b ≡ fit (a + b)
  pub dec_sub_lem : (a b : ℕ) → cw.dec_sub a b ≡ (if leb b a then some (a - b) else none)
  pub dec_mul_lem : (a b : ℕ) → cw.dec_mul a b ≡ fit (a * b / unit)
  pub dec_div_lem : (a b : ℕ) → cw.dec_div a b ≡ (if b == 0 then none else fit (a * unit / b))
  pub dec_inv_lem : (a : ℕ) → cw.dec_inv a ≡ (if a == 0 then none else some (unit * unit / a))
  pub to_uint_floor_lem : (a : ℕ) → cw.to_uint_floor a ≡ a / unit
  pub to_uint_ceil_lem : (a : ℕ) → cw.to_uint_ceil a ≡ (a + (unit - 1)) / unit
  pub u256_add_lem : (a b : ℕ) → cw.u256_add a b ≡ fit256 (a + b)
  pub u256_sub_lem : (a b : ℕ) → cw.u256_sub a b ≡ (if leb b a then some (a - b) else none)
  pub u256_mul_lem : (a b : ℕ) → cw.u256_mul a b ≡ fit256 (a * b)
  pub u256_div_lem : (a b : ℕ) → cw.u256_div a b ≡ (if b == 0 then none else some (a / b))
  pub u256_multiply_ratio_lem :
      (a n d : ℕ) → cw.u256_multiply_ratio a n d ≡ (if d == 0 then none else fit256 (a * n / d))
  pub u256_pow_lem : (a n : ℕ) → cw.u256_pow a n ≡ fit256 (a ^ n)
  pub u256_mul_floor_lem : (a b : ℕ) → cw.u256_mul_floor a b ≡ fit256 (a * b / unit)
  pub to_uint128_lem : (a : ℕ) → cw.to_uint128 a ≡ fit a
  pub isqrt_lem :
      (a : ℕ) → (cw.isqrt a * cw.isqrt a ≤ a) × (a < (cw.isqrt a + 1) * (cw.isqrt a + 1))
  pub seconds_lem : (t : ℕ) → cw.seconds t ≡ t / 1_000_000_000
