-- ===== src/DecimalScaled/Exact.antt =====
-- The number 1.0 of `DecimalScaled` as a factor.
use nami_contracts.Base.{
  ℕ, zero, suc, ◌-◌, ◌*◌, ◌/◌, ◌%◌, ◌^◌, ◌≤◌, ◌<◌, ◌≡◌, refl, ap, ◌∙◌, inl, inr, true, false, some,
  arith, ltb, ◌==◌, ltb→lt, Bool-cases, ok, or_panic,
}
use nami_contracts.Numeric.{Numeric, IsNumeric, wide_limit}
use native.Mathlib.Nat.{pow-le-pow_left, pow-le-pow_right, pow-suc, mul-le-mul, le_refl}
use nami_contracts.DecimalScaled.{
  origin, DecimalScaled, one, zero_scaled, Rounds, scale_sub, scale_abs, strip, normalize, floor_by,
  floor_for, to_uint_floor, mul_uint_for, mul_uint,
}
use nami_contracts.DecimalScaled.Endings.{never}

-- A decimal whose `zeros` trailing zeros are in its scale, and which is the number `n`.
pub record IsWhole (n : ℕ) (d : DecimalScaled) : Type 0 where
  pub zeros : ℕ
  pub few : zeros < 256
  pub scale_is : d.scale ≡ origin - zeros
  pub value_is : d.value * 10 ^ zeros ≡ n

few_zeros : (v j n : ℕ) → 0 < v → v * 10 ^ j ≡ n → n < wide_limit → j < 256
few_zeros v j n pos e l = elim (Bool-cases (ltb j 256)) [
  | inl few ↦ ltb→lt j 256 few
  | inr many ↦
      let more : 256 ≤ j = ground arith in
      let two : 1 ≤ 2 = omega arith in
      let large : 2 ^ 256 ≤ 2 ^ j = pow-le-pow_right two more in
      let ten : 2 ≤ 10 = omega arith in
      let larger : 2 ^ j ≤ 10 ^ j = pow-le-pow_left ten j in
      let all : 1 * 10 ^ j ≤ v * 10 ^ j = mul-le-mul pos (le_refl (10 ^ j)) in omega arith
]

shifted : (v j n : ℕ) → v % 10 ≡ 0 → v * 10 ^ j ≡ n → v / 10 * 10 ^ suc j ≡ n
shifted v j n z e =
    let tens : v / 10 * 10 ≡ v = omega arith in
    rw (pow-suc 10 j) (product (v / 10) v (10 ^ j) n tens e)
  where
    product : (t v p n : ℕ) → t * 10 ≡ v → v * p ≡ n → t * (p * 10) ≡ n
    product t v p n e f = omega (arith, ap (λ (x : ℕ). x * p) e, f)

strip-IsWhole :
    (rounds v j n : ℕ)
    → 0 < v
    → v < rounds
    → v * 10 ^ j ≡ n
    → n < wide_limit
    → (d : DecimalScaled) × (strip rounds v (origin - j) ≡ ok d) × IsWhole n d
unfolding strip
strip-IsWhole zero v j n pos l e f = elim (never v l) [ ]
strip-IsWhole (suc rounds) v j n pos l e f =
    let few = few_zeros v j n pos e f in
    elim (Bool-cases (v % 10 == 0)) [
      | inl z ↦
          let ten : v % 10 ≡ 0 = ground arith in
          let (d, run, w) =
            strip-IsWhole rounds (v / 10) (suc j) n (omega arith) (omega arith)
              (shifted v j n ten e) f in
          let step : scale_sub (origin - j) 1 ≡ some (origin - suc j) = step_down j few in
          (d, rw (z, strip, step) run, w)
      | inr nz ↦ (
        record { value = v; scale = origin - j },
        rw (nz, strip) refl,
        record { zeros = j; few = few; scale_is = refl; value_is = e },
      )
    ]
  where
    step_down : (j : ℕ) → j < 256 → scale_sub (origin - j) 1 ≡ some (origin - suc j)
    step_down j h = ground arith

abs_of : (s z : ℕ) → z < 256 → s ≡ origin - z → scale_abs s ≡ z
abs_of s z h e = ground arith

module _ ⦃cw : Numeric⦄ (laws : IsNumeric cw) where
  open cw use {u256_mul, u256_div, u256_pow}
  open laws use {u256_mul_lem, u256_div_lem, u256_pow_lem}

  floor_by_whole :
      (d : DecimalScaled) (n power : ℕ) (w : IsWhole n d)
      → power ≡ 10 ^ w.zeros
      → n < wide_limit
      → floor_by d power ≡ ok n
  unfolding floor_by
  floor_by_whole d n power w e l =
      let whole : d.value * power ≡ n = rw e w.value_is in
      elim (Bool-cases (w.zeros == 0)) [
        | inl z ↦
            let none : w.zeros ≡ 0 = ground arith in
            let one : power ≡ 1 = rw none at e in
            let at_origin : ltb d.scale origin ≡ false =
              no_places d.scale w.zeros none w.scale_is in
            rw (at_origin, one) (quotient (d.value) n (rw one at whole))
        | inr nz ↦
            let below : ltb d.scale origin ≡ true =
              some_places d.scale w.zeros (ground arith) w.few w.scale_is in
            rw below (product (d.value) power n whole l)
      ]
    where
      no_places : (s z : ℕ) → z ≡ 0 → s ≡ origin - z → ltb s origin ≡ false
      no_places s z e f = ground arith

      some_places : (s z : ℕ) → 0 < z → z < 256 → s ≡ origin - z → ltb s origin ≡ true
      some_places s z h l e = ground arith

      quotient : (v m : ℕ) → v * 1 ≡ m → or_panic {E = Rounds} (u256_div v 1) ≡ ok m
      quotient v m e = ground (arith, u256_div_lem v 1)

      product :
          (v p m : ℕ) → v * p ≡ m → m < wide_limit → or_panic {E = Rounds} (u256_mul v p) ≡ ok m
      product v p m e l = ground (arith, u256_mul_lem v p)

  floor_step :
      (rounds : ℕ) (d : DecimalScaled) (power : ℕ)
      → u256_pow 10 (scale_abs d.scale) ≡ some power
      → floor_for (suc rounds) d ≡ floor_by d power
  unfolding floor_for
  floor_step rounds d power e = rw (e, floor_for) refl

  floor_whole :
      (d : DecimalScaled) (n : ℕ) → 0 < n → n < wide_limit → IsWhole n d → to_uint_floor d ≡ ok n
  unfolding to_uint_floor
  floor_whole d n pos l w =
      let some_value : 0 < d.value = value_pos d.value (10 ^ w.zeros) n w.value_is pos in
      let power_le : 1 * 10 ^ w.zeros ≤ d.value * 10 ^ w.zeros =
        mul-le-mul some_value (le_refl (10 ^ w.zeros)) in
      let fits : 10 ^ w.zeros < wide_limit = omega (arith, power_le, w.value_is, l) in
      let power : u256_pow 10 w.zeros ≡ some (10 ^ w.zeros) =
        power_fits w.zeros (10 ^ w.zeros) refl fits in
      let places = ap (u256_pow 10) (abs_of d.scale w.zeros w.few w.scale_is) ∙ power in
      floor_step d.scale d (10 ^ w.zeros) places ∙ floor_by_whole d n (10 ^ w.zeros) w refl l
    where
      value_pos : (v p n : ℕ) → v * p ≡ n → 0 < n → 0 < v
      value_pos v p n e h = grind arith

      power_fits : (z p : ℕ) → p ≡ 10 ^ z → p < wide_limit → u256_pow 10 z ≡ some p
      power_fits z p e l = ground (arith, u256_pow_lem 10 z)

  floor_by_zero : floor_by zero_scaled 1 ≡ ok 0
  unfolding floor_by
  floor_by_zero = ground (arith, u256_div_lem 0 1)

  pub floor_zero : to_uint_floor zero_scaled ≡ ok 0
  unfolding to_uint_floor
  floor_zero = floor_step origin zero_scaled 1 (ground (arith, u256_pow_lem 10 0)) ∙ floor_by_zero

  normalize_used :
      (n : ℕ)
      → (n == 0) ≡ false
      → normalize (record { value = n; scale = origin }) ≡ strip (suc n) n origin
  unfolding normalize
  normalize_used n e = rw e refl

  mul_uint_step :
      (n : ℕ)
      → (n == 0) ≡ false
      → u256_mul 1 n ≡ some n
      → mul_uint one n ≡ normalize (record { value = n; scale = origin })
  unfolding mul_uint mul_uint_for
  mul_uint_step n e f = rw (e, f, mul_uint_for) refl

  -- A number that is multiplied by 1.0 and rounded is that number.
  pub one_times :
      (n : ℕ)
      → 0 < n
      → n < wide_limit
      → (d : DecimalScaled) × (mul_uint one n ≡ ok d) × (to_uint_floor d ≡ ok n)
  one_times n pos l =
      let product : u256_mul 1 n ≡ some n = ground (arith, u256_mul_lem 1 n) in
      let used : (n == 0) ≡ false = ground arith in
      let (d, run, w) = strip-IsWhole (suc n) n 0 n pos (omega arith) (omega arith) l in
      (d, mul_uint_step n used product ∙ normalize_used n used ∙ run, floor_whole d n pos l w)
