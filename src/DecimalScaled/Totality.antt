-- ===== src/DecimalScaled/Totality.antt =====
-- The operations of `DecimalScaled` and the rounds that they are given.
use nami_contracts.Base.{
  ℕ, zero, suc, ◌+◌, ◌<◌, ◌≡◌, inl, inr, arith, Bool-cases, Option-cases, ok, or_panic,
}
use nami_contracts.Numeric.{Numeric, IsNumeric}
use nami_contracts.DecimalScaled.{
  DecimalScaled, is_zero, same_scaled, Scaled, decimal_fractional, normalize, Equalised, same,
  again, sub_equalised, add_equalised, div_equalised, truncate, to_uint_floor, from_ratio, equalise,
  mul, mul_uint, sub_for, sub, add_for, add, div_for, div,
}
use nami_contracts.DecimalScaled.Endings.{
  IsEnding, ok-IsEnding, or_panic-IsEnding, >>=-IsEnding, never, normalize-IsEnding,
  truncate-IsEnding, truncate-eq-ok, floor_for-IsEnding, mul_for-IsEnding, mul_uint_for-IsEnding,
}
use nami_contracts.DecimalScaled.Equalising.{
  measure, IsCloser, digits, equalise-IsCloser, equalise-IsEnding, equalise_zero,
}

module _ ⦃cw : Numeric⦄ (laws : IsNumeric cw) where
  open cw use {u256_add, u256_sub, u256_mul, u256_pow, u256_multiply_ratio}
  open laws use {u256_add_lem, u256_mul_lem}

  -- A call of an operation again, in the rounds that remain.
  IsRetry : ℕ → (DecimalScaled → DecimalScaled → Scaled) → Type 0
  IsRetry rounds retry = (x y : DecimalScaled) → measure x y < rounds → IsEnding (retry x y)

  sub_equalised-IsEnding :
      (rounds : ℕ) (retry : DecimalScaled → DecimalScaled → Scaled) (x y : DecimalScaled)
      (e : Equalised)
      → IsRetry rounds retry
      → measure x y < suc rounds
      → IsCloser x y e
      → IsEnding (sub_equalised retry e)
  unfolding sub_equalised IsCloser IsRetry
  sub_equalised-IsEnding rounds retry x y (same a b s) h l c =
      >>=-IsEnding (or_panic (u256_sub a b)) _ (or_panic-IsEnding _) λ v f. ok-IsEnding _
  sub_equalised-IsEnding rounds retry x y (again x' y') h l c = h x' y' (omega arith)

  div_equalised-IsEnding :
      (rounds : ℕ) (retry : DecimalScaled → DecimalScaled → Scaled) (x y : DecimalScaled)
      (e : Equalised)
      → IsRetry rounds retry
      → measure x y < suc rounds
      → IsCloser x y e
      → IsEnding (div_equalised retry e)
  unfolding div_equalised IsCloser IsRetry
  div_equalised-IsEnding rounds retry x y (same a b s) h l c =
      >>=-IsEnding (or_panic (u256_multiply_ratio decimal_fractional a b)) _ (or_panic-IsEnding _)
        λ v f. ok-IsEnding _
  div_equalised-IsEnding rounds retry x y (again x' y') h l c = h x' y' (omega arith)

  add_equalised-IsEnding :
      (rounds : ℕ) (retry : DecimalScaled → DecimalScaled → Scaled) (x y : DecimalScaled)
      (e : Equalised)
      → IsRetry rounds retry
      → measure x y < suc rounds
      → equalise x y ≡ ok e
      → IsEnding (add_equalised retry x y e)
  unfolding add_equalised IsCloser IsRetry digits
  add_equalised-IsEnding rounds retry x y (same a b s) h l run =
      elim (Option-cases (u256_add a b)) [
        | inl n ↦
            rw (n, add_equalised)
              (>>=-IsEnding (truncate x 1) _ (truncate-IsEnding laws x 1) (λ x' f.
                >>=-IsEnding (truncate y 1) _ (truncate-IsEnding laws y 1) (λ y' g.
                  let (xv, xs) = truncate-eq-ok laws x x' f in
                  let (yv, ys) = truncate-eq-ok laws y y' g in
                  let large : 0 < a + b = ground (arith, u256_add_lem a b) in
                  let some_digits : 0 < x.value + y.value =
                    positive a b (x.value + y.value) large
                      (equalise_zero laws x y (same a b s) run) in
                  h x' y' (omega arith))))
        | inr (v, n) ↦ rw (n, add_equalised) (ok-IsEnding _)
      ]
    where
      positive : (a b n : ℕ) → 0 < a + b → (n ≡ 0 → a + b ≡ 0) → 0 < n
      positive a b n h k = grind arith
  add_equalised-IsEnding rounds retry x y (again x' y') h l run =
      let c = equalise-IsCloser laws x y (again x' y') run in h x' y' (omega (arith, c))

  sub_for-IsRetry : (rounds : ℕ) → IsRetry rounds (sub_for rounds)
  unfolding sub_for IsRetry
  sub_for-IsRetry zero x y l = elim (never _ l) [ ]
  sub_for-IsRetry (suc rounds) x y l =
      >>=-IsEnding (equalise x y) _ (equalise-IsEnding laws x y) λ e run.
        >>=-IsEnding (sub_equalised (sub_for rounds) e) normalize
          (sub_equalised-IsEnding rounds (sub_for rounds) x y e (sub_for-IsRetry rounds) l
            (equalise-IsCloser laws x y e run))
          (λ d f. normalize-IsEnding d)

  add_for-IsRetry : (rounds : ℕ) → IsRetry rounds (add_for rounds)
  unfolding add_for IsRetry
  add_for-IsRetry zero x y l = elim (never _ l) [ ]
  add_for-IsRetry (suc rounds) x y l =
      >>=-IsEnding (equalise x y) _ (equalise-IsEnding laws x y) λ e run.
        >>=-IsEnding (add_equalised (add_for rounds) x y e) normalize
          (add_equalised-IsEnding rounds (add_for rounds) x y e (add_for-IsRetry rounds) l run)
          (λ d f. normalize-IsEnding d)

  div_for-IsRetry : (rounds : ℕ) → IsRetry rounds (div_for rounds)
  unfolding div_for IsRetry
  div_for-IsRetry zero x y l = elim (never _ l) [ ]
  div_for-IsRetry (suc rounds) x y l = elim (Bool-cases (is_zero x)) [
    | inl z ↦ rw (z, div_for) (ok-IsEnding _)
    | inr nz ↦ elim (Bool-cases (same_scaled x y)) [
      | inl q ↦ rw (nz, q, div_for) (ok-IsEnding _)
      | inr d ↦
          rw (nz, d, div_for)
            (>>=-IsEnding (equalise x y) _ (equalise-IsEnding laws x y) λ e run.
              >>=-IsEnding (div_equalised (div_for rounds) e) normalize
                (div_equalised-IsEnding rounds (div_for rounds) x y e (div_for-IsRetry rounds) l
                  (equalise-IsCloser laws x y e run))
                (λ d f. normalize-IsEnding d))
    ]
  ]

  -- Every operation on decimals ends, in a value or a panic, within the rounds that it is given: the
  -- digits, and the difference of the scales, run out before.
  pub operations_end :
      (x y : DecimalScaled) (m n : ℕ)
      → IsEnding (add x y)
        × IsEnding (sub x y)
        × IsEnding (mul x y)
        × IsEnding (div x y)
        × IsEnding (mul_uint x n)
        × IsEnding (from_ratio m n)
        × IsEnding (to_uint_floor x)
  unfolding add sub mul div mul_uint from_ratio to_uint_floor IsRetry
  operations_end x y m n = (
    add_for-IsRetry (suc (measure x y)) x y (omega arith),
    sub_for-IsRetry (suc (measure x y)) x y (omega arith),
    mul_for-IsEnding laws (suc (measure x y)) x y (omega arith),
    div_for-IsRetry (suc (measure x y)) x y (omega arith),
    mul_uint_for-IsEnding laws (suc x.value) x n (omega arith),
    >>=-IsEnding (or_panic (u256_multiply_ratio m decimal_fractional n)) _ (or_panic-IsEnding _)
        (λ v e. normalize-IsEnding _),
    floor_for-IsEnding laws (suc x.scale) x (omega arith),
  )
