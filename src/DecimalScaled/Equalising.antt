-- ===== src/DecimalScaled/Equalising.antt =====
-- Bringing two numbers of `DecimalScaled` to one scale: the retries, and the measure of a retry.
use nami_contracts.Base.{
  ℕ, ◌+◌, ◌-◌, ◌*◌, ◌%◌, ◌^◌, ◌<◌, ◌≡◌, refl, subst, inl, inr, Option, none, some, arith, ltb, ◌==◌,
  ltb→lt, Bool-cases, Option-cases, ok, or_panic, >>=-eq-ok, ok-injective,
}
use nami_contracts.Numeric.{Numeric, IsNumeric}
use nami_contracts.DecimalScaled.{
  DecimalScaled, scale_gap, Equalised, same, again, truncate, raised, raise_first, raise_second,
  equalise,
}
use nami_contracts.DecimalScaled.Endings.{
  IsEnding, ok-IsEnding, or_panic-IsEnding, >>=-IsEnding, truncate-IsEnding, truncate-eq-ok,
}

-- The difference of the scales and the values together.
abbrev pub measure : DecimalScaled → DecimalScaled → ℕ
measure x y = (x.scale - y.scale) + (y.scale - x.scale) + x.value + y.value

-- A pair to be tried again has come closer.
unfoldable pub IsCloser : DecimalScaled → DecimalScaled → Equalised → Type 0
IsCloser x y (same a b s) = Unit
IsCloser x y (again x' y') = measure x' y' < measure x y

unfoldable pub digits : Equalised → ℕ
digits (same a b s) = a + b
digits (again x y) = 0

module _ ⦃cw : Numeric⦄ (laws : IsNumeric cw) where
  open cw use {u256_add, u256_sub, u256_mul, u256_pow, u256_multiply_ratio}
  open laws use {u256_add_lem, u256_mul_lem}

  raise_first-IsCloser :
      (x y : DecimalScaled) (e : Equalised)
      → x.scale < y.scale
      → raise_first x y ≡ ok e
      → IsCloser x y e
  unfolding raise_first IsCloser
  raise_first-IsCloser x y e l run =
      let (gap, e1, r1) = >>=-eq-ok (or_panic (scale_gap x.scale y.scale)) _ run in
      elim (Option-cases (raised x.value gap)) [
        | inl n ↦
            let (t, e2, r2) = >>=-eq-ok (truncate y 1) _ (rw n at r1) in
            let (v_is, s_is) = truncate-eq-ok laws y t e2 in
            subst (IsCloser x y) (ok-injective r2) (omega (arith, v_is, s_is))
        | inr (v, n) ↦ subst (IsCloser x y) (ok-injective (rw n at r1)) tt
      ]

  raise_second-IsCloser :
      (x y : DecimalScaled) (e : Equalised)
      → y.scale < x.scale
      → raise_second x y ≡ ok e
      → IsCloser x y e
  unfolding raise_second IsCloser
  raise_second-IsCloser x y e l run =
      let (gap, e1, r1) = >>=-eq-ok (or_panic (scale_gap y.scale x.scale)) _ run in
      elim (Option-cases (raised y.value gap)) [
        | inl n ↦
            let (t, e2, r2) = >>=-eq-ok (truncate x 1) _ (rw n at r1) in
            let (v_is, s_is) = truncate-eq-ok laws x t e2 in
            subst (IsCloser x y) (ok-injective r2) (omega (arith, v_is, s_is))
        | inr (v, n) ↦ subst (IsCloser x y) (ok-injective (rw n at r1)) tt
      ]

  pub equalise-IsCloser :
      (x y : DecimalScaled) (e : Equalised) → equalise x y ≡ ok e → IsCloser x y e
  unfolding equalise IsCloser
  equalise-IsCloser x y e run = elim (Bool-cases (ltb x.scale y.scale)) [
    | inl l ↦ raise_first-IsCloser x y e (ltb→lt _ _ l) (rw l at run)
    | inr g ↦ elim (Bool-cases (x.scale == y.scale)) [
      | inl q ↦ subst (IsCloser x y) (ok-injective (rw (g, q) at run)) tt
      | inr m ↦ raise_second-IsCloser x y e (ground arith) (rw (g, m) at run)
    ]
  ]

  raise_first-IsEnding : (x y : DecimalScaled) → IsEnding (raise_first x y)
  unfolding raise_first
  raise_first-IsEnding x y =
      >>=-IsEnding (or_panic (scale_gap x.scale y.scale)) _ (or_panic-IsEnding _) λ gap e.
        elim (Option-cases (raised x.value gap)) [
          | inl n ↦
              rw n
                (>>=-IsEnding (truncate y 1) _ (truncate-IsEnding laws y 1) (λ t f. ok-IsEnding _))
          | inr (v, n) ↦ rw n (ok-IsEnding _)
        ]

  raise_second-IsEnding : (x y : DecimalScaled) → IsEnding (raise_second x y)
  unfolding raise_second
  raise_second-IsEnding x y =
      >>=-IsEnding (or_panic (scale_gap y.scale x.scale)) _ (or_panic-IsEnding _) λ gap e.
        elim (Option-cases (raised y.value gap)) [
          | inl n ↦
              rw n
                (>>=-IsEnding (truncate x 1) _ (truncate-IsEnding laws x 1) (λ t f. ok-IsEnding _))
          | inr (v, n) ↦ rw n (ok-IsEnding _)
        ]

  pub equalise-IsEnding : (x y : DecimalScaled) → IsEnding (equalise x y)
  unfolding equalise
  equalise-IsEnding x y = elim (Bool-cases (ltb x.scale y.scale)) [
    | inl l ↦ rw l (raise_first-IsEnding x y)
    | inr g ↦ elim (Bool-cases (x.scale == y.scale)) [
      | inl q ↦ rw (g, q) (ok-IsEnding _)
      | inr m ↦ rw (g, m) (raise_second-IsEnding x y)
    ]
  ]

  raised_zero : (v gap : ℕ) {w : ℕ} → v ≡ 0 → raised v gap ≡ some w → w ≡ 0
  unfolding raised
  raised_zero v gap {w} z e = elim (Option-cases (u256_pow 10 (gap % 2 ^ 32))) [
    | inl n ↦ missing (rw (n, raised) at e)
    | inr (power, n) ↦ product power (rw (n, raised) at e)
  ]
    where
      missing : ◌≡◌ {A = Option ℕ} none (some w) → w ≡ 0
      missing h = cc

      product : (power : ℕ) → u256_mul v power ≡ some w → w ≡ 0
      product power h = nothing v power w z (ground (arith, u256_mul_lem v power))
        where
          nothing : (v power w : ℕ) → v ≡ 0 → w ≡ v * power → w ≡ 0
          nothing v power w e f = grind arith

  raise_first_zero :
      (x y : DecimalScaled) (e : Equalised)
      → raise_first x y ≡ ok e
      → x.value + y.value ≡ 0
      → digits e ≡ 0
  unfolding raise_first digits
  raise_first_zero x y e run z =
      let (gap, e1, r1) = >>=-eq-ok (or_panic (scale_gap x.scale y.scale)) _ run in
      elim (Option-cases (raised x.value gap)) [
        | inl n ↦
            let (t, e2, r2) = >>=-eq-ok (truncate y 1) _ (rw n at r1) in
            subst (λ (q : Equalised). digits q ≡ 0) (ok-injective r2) refl
        | inr (v, n) ↦
            let v_is = raised_zero x.value gap (omega arith) n in
            subst (λ (q : Equalised). digits q ≡ 0) (ok-injective (rw n at r1))
              (omega (arith, v_is))
      ]

  raise_second_zero :
      (x y : DecimalScaled) (e : Equalised)
      → raise_second x y ≡ ok e
      → x.value + y.value ≡ 0
      → digits e ≡ 0
  unfolding raise_second digits
  raise_second_zero x y e run z =
      let (gap, e1, r1) = >>=-eq-ok (or_panic (scale_gap y.scale x.scale)) _ run in
      elim (Option-cases (raised y.value gap)) [
        | inl n ↦
            let (t, e2, r2) = >>=-eq-ok (truncate x 1) _ (rw n at r1) in
            subst (λ (q : Equalised). digits q ≡ 0) (ok-injective r2) refl
        | inr (v, n) ↦
            let v_is = raised_zero y.value gap (omega arith) n in
            subst (λ (q : Equalised). digits q ≡ 0) (ok-injective (rw n at r1))
              (omega (arith, v_is))
      ]

  -- What is brought to one scale has no digits where neither number has.
  pub equalise_zero :
      (x y : DecimalScaled) (e : Equalised)
      → equalise x y ≡ ok e
      → x.value + y.value ≡ 0
      → digits e ≡ 0
  unfolding equalise digits
  equalise_zero x y e run z = elim (Bool-cases (ltb x.scale y.scale)) [
    | inl l ↦ raise_first_zero x y e (rw l at run) z
    | inr g ↦ elim (Bool-cases (x.scale == y.scale)) [
      | inl q ↦ subst (λ (q : Equalised). digits q ≡ 0) (ok-injective (rw (g, q) at run)) z
      | inr m ↦ raise_second_zero x y e (rw (g, m) at run) z
    ]
  ]
