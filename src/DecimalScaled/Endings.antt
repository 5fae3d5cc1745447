-- ===== src/DecimalScaled/Endings.antt =====
-- The recursions of `DecimalScaled` on one number, and the rounds that they are given.
use nami_contracts.Base.{
  ℕ, zero, suc, ◌+◌, ◌/◌, ◌%◌, ◌<◌, ◌≡◌, refl, subst, ◌≢◌, inl, inr, ◌||◌, Option, none, some,
  arith, ◌==◌, Bool-cases, Option-cases, Outcome, ok, err, panic, ◌>>=◌, or_panic, >>=-eq-ok,
  ok-injective, or_panic-eq-ok,
}
use nami_contracts.Numeric.{Numeric, IsNumeric}
use nami_contracts.DecimalScaled.{
  DecimalScaled, is_zero, Rounds, out_of_rounds, scale_add, scale_sub, scale_abs, strip, normalize,
  truncate, floor_by, floor_for, mul_for, mul_uint_for,
}

-- It ends in a value or a panic.
abbrev pub IsEnding : {A : Type 0} → Outcome Rounds A → Type 0
IsEnding m = m ≢ err out_of_rounds

pub ok-IsEnding : {A : Type 0} (x : A) → IsEnding (ok x)
ok-IsEnding x h = cc

pub or_panic-IsEnding : {A : Type 0} (o : Option A) → IsEnding (or_panic o)
or_panic-IsEnding (some x) h = cc
or_panic-IsEnding none h = cc

pub >>=-IsEnding :
    {A B : Type 0} (m : Outcome Rounds A) (f : A → Outcome Rounds B)
    → IsEnding m
    → ((x : A) → m ≡ ok x → IsEnding (f x))
    → IsEnding (m >>= f)
>>=-IsEnding (ok x) f h k = k x refl
>>=-IsEnding (err out_of_rounds) f h k = elim (h refl) [ ]
>>=-IsEnding panic f h k = λ e. cc

pub never : (a : ℕ) → ¬ (a < 0)
never a h = omega arith

strip-IsEnding : (rounds v s : ℕ) → 0 < v → v < rounds → IsEnding (strip rounds v s)
unfolding strip
strip-IsEnding zero v s h l = elim (never v l) [ ]
strip-IsEnding (suc rounds) v s h l = elim (Bool-cases (v % 10 == 0)) [
  | inl z ↦
      let ten : v % 10 ≡ 0 = ground arith in
      rw (z, strip)
        (>>=-IsEnding (or_panic (scale_sub s 1)) _ (or_panic-IsEnding (scale_sub s 1))
          (λ t e. strip-IsEnding rounds (v / 10) t (omega arith) (omega arith)))
  | inr nz ↦ rw (nz, strip) (ok-IsEnding _)
]

pub normalize-IsEnding : (d : DecimalScaled) → IsEnding (normalize d)
unfolding normalize
normalize-IsEnding d = elim (Bool-cases (d.value == 0)) [
  | inl z ↦ rw z (ok-IsEnding _)
  | inr nz ↦ rw nz (strip-IsEnding (suc d.value) d.value d.scale (ground arith) (omega arith))
]

module _ ⦃cw : Numeric⦄ (laws : IsNumeric cw) where
  open cw use {u256_add, u256_sub, u256_mul, u256_div, u256_pow, u256_multiply_ratio}
  open laws use {u256_add_lem, u256_mul_lem, u256_div_lem, u256_pow_lem}

  pub truncate-IsEnding : (d : DecimalScaled) (n : ℕ) → IsEnding (truncate d n)
  unfolding truncate
  truncate-IsEnding d n = >>=-IsEnding (or_panic (u256_pow 10 n)) _ (or_panic-IsEnding _) λ power e.
      >>=-IsEnding (or_panic (u256_div d.value power)) _ (or_panic-IsEnding _) λ v f.
        >>=-IsEnding (or_panic (scale_sub d.scale n)) _ (or_panic-IsEnding _) λ s g. ok-IsEnding _

  -- One digit less.
  pub truncate-eq-ok :
      (d t : DecimalScaled)
      → truncate d 1 ≡ ok t
      → (t.value ≡ d.value / 10) × (t.scale + 1 ≡ d.scale)
  unfolding truncate
  truncate-eq-ok d t e =
      let (power, e1, r1) = >>=-eq-ok (or_panic (u256_pow 10 1)) _ e in
      let (v, e2, r2) = >>=-eq-ok (or_panic (u256_div d.value power)) _ r1 in
      let (s, e3, r3) = >>=-eq-ok (or_panic (scale_sub d.scale 1)) _ r2 in
      let ten : power ≡ 10 = ground (arith, or_panic-eq-ok _ e1, u256_pow_lem 10 1) in
      let v_is : v ≡ d.value / 10 =
        ground (arith, or_panic-eq-ok _ e2, u256_div_lem d.value power) in
      let s_is : s + 1 ≡ d.scale = ground (arith, or_panic-eq-ok _ e3) in
      subst (λ (r : DecimalScaled). (r.value ≡ d.value / 10) × (r.scale + 1 ≡ d.scale))
        (ok-injective r3) (v_is, s_is)

  pub floor_for-IsEnding :
      (rounds : ℕ) (d : DecimalScaled) → d.scale < rounds → IsEnding (floor_for rounds d)
  unfolding floor_for floor_by
  floor_for-IsEnding zero d l = elim (never d.scale l) [ ]
  floor_for-IsEnding (suc rounds) d l = elim (Option-cases (u256_pow 10 (scale_abs d.scale))) [
    | inl e ↦
        rw (e, floor_for)
          (>>=-IsEnding (truncate d 1) _ (truncate-IsEnding d 1) (λ t f.
            let (v_is, s_is) = truncate-eq-ok d t f in
            floor_for-IsEnding rounds t (omega (arith, s_is))))
    | inr (power, e) ↦ rw (e, floor_for) (or_panic-IsEnding _)
  ]

  pub mul_for-IsEnding :
      (rounds : ℕ) (x y : DecimalScaled) → x.value < rounds → IsEnding (mul_for rounds x y)
  unfolding mul_for
  mul_for-IsEnding zero x y l = elim (never x.value l) [ ]
  mul_for-IsEnding (suc rounds) x y l = elim (Bool-cases (is_zero x || is_zero y)) [
    | inl z ↦ rw (z, mul_for) (ok-IsEnding _)
    | inr nz ↦
        rw (nz, mul_for)
          (>>=-IsEnding _ normalize
            (elim (Option-cases (u256_mul x.value y.value)) [
              | inl e ↦ rw e (
                  >>=-IsEnding (truncate x 1) _ (truncate-IsEnding x 1) (λ x' f.
                    >>=-IsEnding (truncate y 1) _ (truncate-IsEnding y 1) (λ y' g.
                      let (v_is, s_is) = truncate-eq-ok x x' f in
                      let pos : 0 < x.value = ground arith in
                      mul_for-IsEnding rounds x' y' (omega (arith, v_is)))))
              | inr (v, e) ↦ rw e (
                  >>=-IsEnding (or_panic (scale_add x.scale y.scale)) _ (or_panic-IsEnding _)
                    (λ s f. ok-IsEnding _))
            ])
            (λ d e. normalize-IsEnding d))
  ]

  pub mul_uint_for-IsEnding :
      (rounds : ℕ) (x : DecimalScaled) (n : ℕ)
      → x.value < rounds
      → IsEnding (mul_uint_for rounds x n)
  unfolding mul_uint_for
  mul_uint_for-IsEnding zero x n l = elim (never x.value l) [ ]
  mul_uint_for-IsEnding (suc rounds) x n l = elim (Bool-cases (is_zero x || n == 0)) [
    | inl z ↦ rw (z, mul_uint_for) (ok-IsEnding _)
    | inr nz ↦
        rw (nz, mul_uint_for)
          (>>=-IsEnding _ normalize
            (elim (Option-cases (u256_mul x.value n)) [
              | inl e ↦ rw e (
                  >>=-IsEnding (truncate x 1) _ (truncate-IsEnding x 1) (λ x' f.
                    let (v_is, s_is) = truncate-eq-ok x x' f in
                    let pos : 0 < x.value = ground arith in
                    mul_uint_for-IsEnding rounds x' n (omega (arith, v_is))))
              | inr (v, e) ↦ rw e (ok-IsEnding _)
            ])
            (λ d e. normalize-IsEnding d))
  ]
