-- ===== src/Numeric/Reference.antt =====
-- A concrete instance of the operations.
use nami_contracts.Base.{◌+◌, ◌-◌, ◌*◌, ◌/◌, ◌^◌, refl, none, some, leb, ◌==◌, if◌then◌else◌}
use nami_contracts.Numeric.Defs.{Numeric, IsNumeric, unit, fit, fit256}
use nami_contracts.Numeric.Root.{isqrt, isqrt_lem}

instance abbrev pub reference : Numeric
reference = record {
  uint_add = λ a b. fit (a + b);
  uint_sub = λ a b. if leb b a then some (a - b) else none;
  uint_mul = λ a b. fit (a * b);
  uint_div = λ a b. if b == 0 then none else some (a / b);
  multiply_ratio = λ a n d. if d == 0 then none else fit (a * n / d);
  from_ratio = λ n d. if d == 0 then none else fit (n * unit / d);
  from_ratio256 = λ n d. if d == 0 then none else fit256 (n * unit / d);
  dec_add = λ a b. fit (a + b);
  dec_sub = λ a b. if leb b a then some (a - b) else none;
  dec_mul = λ a b. fit (a * b / unit);
  dec_div = λ a b. if b == 0 then none else fit (a * unit / b);
  dec_inv = λ a. if a == 0 then none else some (unit * unit / a);
  to_uint_floor = λ a. a / unit;
  to_uint_ceil = λ a. (a + (unit - 1)) / unit;
  u256_add = λ a b. fit256 (a + b);
  u256_sub = λ a b. if leb b a then some (a - b) else none;
  u256_mul = λ a b. fit256 (a * b);
  u256_div = λ a b. if b == 0 then none else some (a / b);
  u256_multiply_ratio = λ a n d. if d == 0 then none else fit256 (a * n / d);
  u256_pow = λ a n. fit256 (a ^ n);
  u256_mul_floor = λ a b. fit256 (a * b / unit);
  to_uint128 = fit;
  isqrt = isqrt;
  seconds = λ t. t / 1_000_000_000;
}

pub reference-IsNumeric : IsNumeric reference
reference-IsNumeric = record {
  uint_add_lem = λ a b. refl;
  uint_sub_lem = λ a b. refl;
  uint_mul_lem = λ a b. refl;
  uint_div_lem = λ a b. refl;
  multiply_ratio_lem = λ a n d. refl;
  from_ratio_lem = λ n d. refl;
  from_ratio256_lem = λ n d. refl;
  dec_add_lem = λ a b. refl;
  dec_sub_lem = λ a b. refl;
  dec_mul_lem = λ a b. refl;
  dec_div_lem = λ a b. refl;
  dec_inv_lem = λ a. refl;
  to_uint_floor_lem = λ a. refl;
  to_uint_ceil_lem = λ a. refl;
  u256_add_lem = λ a b. refl;
  u256_sub_lem = λ a b. refl;
  u256_mul_lem = λ a b. refl;
  u256_div_lem = λ a b. refl;
  u256_multiply_ratio_lem = λ a n d. refl;
  u256_pow_lem = λ a n. refl;
  u256_mul_floor_lem = λ a b. refl;
  to_uint128_lem = λ a. refl;
  isqrt_lem = isqrt_lem;
  seconds_lem = λ t. refl;
}
