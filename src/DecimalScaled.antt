-- ===== src/DecimalScaled.antt =====
-- `DecimalScaled` (packages/rujira-rs/src/decimal_scaled.rs): a `Uint256` with a scale, the number
-- of its decimal places. The scale is an `i64`, held as its value plus 2 ^ 63.
pub mod Endings
pub mod Equalising
pub mod Totality
pub mod Exact
use nami_contracts.Base.{
  ℕ, zero, suc, ◌+◌, ◌-◌, ◌*◌, ◌/◌, ◌%◌, ◌^◌, ◌≤◌, ◌<◌, min, String, ◌≡◌, refl, sym, ap, subst, ◌∙◌,
  ◌≢◌, ◌↔◌, ◌⊎◌, inl, inr, Bool, true, false, not, ◌&&◌, ◌||◌, Option, none, some, List, [], ◌∷◌,
  ◌++◌, map, arith, ltb, leb, ◌==◌, if◌then◌else◌, str_eq, str_lt, str_eq_iff, ltb→lt, lt→ltb,
  Bool-cases, Option-cases, unwrap_or_default, Outcome, ok, err, panic, ◌>>=◌, ◌>>◌, ensure, or_err,
  or_panic, lift_err, >>=-eq-ok, ok-injective, lift_err-eq-ok, ensure-eq-ok, or_err-eq-ok,
  or_panic-eq-ok, traverse, length, All, All-map, traverse-All, sum_by, is_empty, keep_if, Store,
  lookup, contains, insert, erase, lookup-insert, lookup-erase, Distinct, Distinct-insert,
  Distinct-found, All-lookup,
}
use nami_contracts.Numeric.{
  Numeric, IsNumeric, unit, uint_limit, wide_limit, fit, fit256, fit-eq-some, uint_add-eq-some,
  uint_sub-eq-some, uint_mul-eq-some, from_ratio-eq-some, from_ratio_one, to_uint_ceil_bounds,
  to_uint_floor_bounds, from_ratio_whole, dec_mul_whole, whole-mul, floor_ratio,
}

-- The scale 0.
abbrev pub origin : ℕ
origin = 2 ^ 63

pub record DecimalScaled : Type 0 where
  pub value : ℕ
  pub scale : ℕ

abbrev pub decimal_fractional : ℕ
decimal_fractional = 1_000_000_000_000_000_000_000_000

-- `DECIMAL_PLACES`
abbrev pub decimal_places : ℕ
decimal_places = origin + 24

abbrev pub one : DecimalScaled
one = record { value = 1; scale = origin }

abbrev pub zero_scaled : DecimalScaled
zero_scaled = record { value = 0; scale = origin }

abbrev pub is_zero : DecimalScaled → Bool
is_zero d = d.value == 0

-- The derived equality.
abbrev pub same_scaled : DecimalScaled → DecimalScaled → Bool
same_scaled a b = a.value == b.value && a.scale == b.scale

-- Where the rounds given to a recursion of the source do not do. A panic of the source is `panic`.
pub data Rounds : Type 0 where
  out_of_rounds : Rounds

abbrev pub Scaled : Type 0
Scaled = Outcome Rounds DecimalScaled

-- Arithmetic of scales, which panics on an overflow.
abbrev pub scale_add : ℕ → ℕ → Option ℕ
scale_add s t =
    if leb origin (s + t) && ltb (s + t - origin) (2 ^ 64) then some (s + t - origin) else none

abbrev pub scale_sub : ℕ → ℕ → Option ℕ
scale_sub s n = if leb n s then some (s - n) else none

-- The difference of two scales, of which the second is not below the first.
abbrev pub scale_gap : ℕ → ℕ → Option ℕ
scale_gap s t = if ltb (t - s) origin then some (t - s) else none

-- `unsigned_abs() as u32`
abbrev pub scale_abs : ℕ → ℕ
scale_abs s = (if ltb s origin then origin - s else s - origin) % 2 ^ 32

-- The loop of `normalize`: trailing zeros go.
unfoldable pub strip : ℕ → ℕ → ℕ → Scaled
strip zero v s = err out_of_rounds
strip (suc rounds) v s = elim (v % 10 == 0) [
  | true ↦ or_panic (scale_sub s 1) >>= λ t. strip rounds (v / 10) t
  | false ↦ ok (record { value = v; scale = s })
]

unfoldable pub normalize : DecimalScaled → Scaled
normalize d = if d.value == 0 then ok zero_scaled else strip (suc d.value) d.value d.scale

-- Two numbers of one scale, or numbers of which one is a digit shorter, to be tried again.
pub data Equalised : Type 0 where
  same : (a b scale : ℕ) → Equalised
  again : DecimalScaled → DecimalScaled → Equalised

module _ ⦃cw : Numeric⦄ where
  open cw use {from_ratio256, u256_add, u256_sub, u256_mul, u256_div, u256_pow, u256_multiply_ratio}

  unfoldable pub truncate : DecimalScaled → ℕ → Scaled
  truncate d n = do
    power ← or_panic (u256_pow 10 n)
    v ← or_panic (u256_div d.value power)
    s ← or_panic (scale_sub d.scale n)
    ok (record { value = v; scale = s })

  -- `pow`
  unfoldable pub scale_up : DecimalScaled → ℕ → Scaled
  scale_up d n = do s ← or_panic (scale_add d.scale (origin + n)); ok (record d { scale = s })

  unfoldable pub floor_by : DecimalScaled → ℕ → Outcome Rounds ℕ
  floor_by d power =
      or_panic (if ltb d.scale origin then u256_mul d.value power else u256_div d.value power)

  unfoldable pub floor_for : ℕ → DecimalScaled → Outcome Rounds ℕ
  floor_for zero d = err out_of_rounds
  floor_for (suc rounds) d = elim (u256_pow 10 (scale_abs d.scale)) [
    | some power ↦ floor_by d power
    | none ↦ truncate d 1 >>= λ t. floor_for rounds t
  ]

  -- The scale falls in every round.
  unfoldable pub to_uint_floor : DecimalScaled → Outcome Rounds ℕ
  to_uint_floor d = floor_for (suc d.scale) d

  unfoldable pub from_ratio : ℕ → ℕ → Scaled
  from_ratio n d = do
    v ← or_panic (u256_multiply_ratio n decimal_fractional d)
    normalize (record { value = v; scale = decimal_places })

  -- The value `v` of the smaller scale, brought to the other scale, which is `gap` more.
  unfoldable pub raised : ℕ → ℕ → Option ℕ
  raised v gap = elim (u256_pow 10 (gap % 2 ^ 32)) [ some power ↦ u256_mul v power | none ↦ none ]

  unfoldable pub raise_first : DecimalScaled → DecimalScaled → Outcome Rounds Equalised
  raise_first x y = or_panic (scale_gap x.scale y.scale) >>= λ gap. elim (raised x.value gap) [
    | some v ↦ ok (same v y.value y.scale)
    | none ↦ truncate y 1 >>= λ t. ok (again x t)
  ]

  unfoldable pub raise_second : DecimalScaled → DecimalScaled → Outcome Rounds Equalised
  raise_second x y = or_panic (scale_gap y.scale x.scale) >>= λ gap. elim (raised y.value gap) [
    | some v ↦ ok (same x.value v x.scale)
    | none ↦ truncate x 1 >>= λ t. ok (again t y)
  ]

  -- The match of `map_equalised`
  unfoldable pub equalise : DecimalScaled → DecimalScaled → Outcome Rounds Equalised
  equalise x y =
      if ltb x.scale y.scale
      then raise_first x y
      else if x.scale == y.scale
      then ok (same x.value y.value x.scale)
      else raise_second x y

  -- What remains to compute with, from the difference of the scales and the values.
  abbrev pub rounds_for : DecimalScaled → DecimalScaled → ℕ
  rounds_for x y = suc ((x.scale - y.scale) + (y.scale - x.scale) + x.value + y.value)

  unfoldable pub mul_for : ℕ → DecimalScaled → DecimalScaled → Scaled
  mul_for zero x y = err out_of_rounds
  mul_for (suc rounds) x y = elim (is_zero x || is_zero y) [
    | true ↦ ok zero_scaled
    | false ↦
        (elim (u256_mul x.value y.value) [
          | some v ↦
              or_panic (scale_add x.scale y.scale) >>= λ s. ok (record { value = v; scale = s })
          | none ↦ truncate x 1 >>= λ x'. truncate y 1 >>= λ y'. mul_for rounds x' y'
        ])
        >>= normalize
  ]

  -- `*` of two decimals
  unfoldable pub mul : DecimalScaled → DecimalScaled → Scaled
  mul x y = mul_for (rounds_for x y) x y

  unfoldable pub mul_uint_for : ℕ → DecimalScaled → ℕ → Scaled
  mul_uint_for zero x n = err out_of_rounds
  mul_uint_for (suc rounds) x n = elim (is_zero x || n == 0) [
    | true ↦ ok zero_scaled
    | false ↦
        (elim (u256_mul x.value n) [
          | some v ↦ ok (record { value = v; scale = x.scale })
          | none ↦ truncate x 1 >>= λ x'. mul_uint_for rounds x' n
        ])
        >>= normalize
  ]

  -- `*` of a decimal and a number
  unfoldable pub mul_uint : DecimalScaled → ℕ → Scaled
  mul_uint x n = mul_uint_for (suc x.value) x n

  -- The closures that `map_equalised` is given, with the call that tries again.
  unfoldable pub sub_equalised : (DecimalScaled → DecimalScaled → Scaled) → Equalised → Scaled
  sub_equalised retry (same a b s) = do
    v ← or_panic (u256_sub a b)
    ok (record { value = v; scale = s })
  sub_equalised retry (again x y) = retry x y

  -- A sum that does not fit is tried again with a digit less of both.
  unfoldable pub add_equalised :
      (DecimalScaled → DecimalScaled → Scaled) → DecimalScaled → DecimalScaled → Equalised → Scaled
  add_equalised retry x y (same a b s) = elim (u256_add a b) [
    | some v ↦ ok (record { value = v; scale = s })
    | none ↦ truncate x 1 >>= λ x'. truncate y 1 >>= λ y'. retry x' y'
  ]
  add_equalised retry x y (again x' y') = retry x' y'

  unfoldable pub div_equalised : (DecimalScaled → DecimalScaled → Scaled) → Equalised → Scaled
  div_equalised retry (same a b s) = do
    v ← or_panic (u256_multiply_ratio decimal_fractional a b)
    ok (record { value = v; scale = decimal_places })
  div_equalised retry (again x y) = retry x y

  unfoldable pub sub_for : ℕ → DecimalScaled → DecimalScaled → Scaled
  sub_for zero x y = err out_of_rounds
  sub_for (suc rounds) x y = do e ← equalise x y; d ← sub_equalised (sub_for rounds) e; normalize d

  unfoldable pub sub : DecimalScaled → DecimalScaled → Scaled
  sub x y = sub_for (rounds_for x y) x y

  unfoldable pub add_for : ℕ → DecimalScaled → DecimalScaled → Scaled
  add_for zero x y = err out_of_rounds
  add_for (suc rounds) x y = do
    e ← equalise x y
    d ← add_equalised (add_for rounds) x y e
    normalize d

  unfoldable pub add : DecimalScaled → DecimalScaled → Scaled
  add x y = add_for (rounds_for x y) x y

  unfoldable pub div_for : ℕ → DecimalScaled → DecimalScaled → Scaled
  div_for zero x y = err out_of_rounds
  div_for (suc rounds) x y = elim (is_zero x) [
    | true ↦ ok zero_scaled
    | false ↦ elim (same_scaled x y) [
      | true ↦ ok one
      | false ↦ equalise x y >>= λ e. div_equalised (div_for rounds) e >>= normalize
    ]
  ]

  -- `/`
  unfoldable pub div : DecimalScaled → DecimalScaled → Scaled
  div x y = div_for (rounds_for x y) x y
