-- ===== src/SharePool/Leave.antt =====
-- Leaving a pool: what is paid out.
use nami_contracts.Base.{
  ℕ, ◌+◌, ◌-◌, ◌*◌, ◌/◌, ◌≤◌, ◌<◌, ◌≡◌, refl, sym, ◌∙◌, ◌↔◌, ◌⊎◌, inl, inr, arith, ◌==◌, ltb,
  ltb→lt, Bool-cases, ok, err, err-injective, ok-not-err,
}
use nami_contracts.Numeric.{Numeric, IsNumeric, unit, uint_limit}
use native.Mathlib.Nat.{mul-le-mul, le_refl}
use nami_contracts.SharePool.{
  SharePool, SharePoolError, share_overflow, zero_amount, leave, empty_pool, whole_shares,
}

-- A claim that is in proportion does not exceed the pool.
claim-le : (size amount whole : ℕ) → amount ≤ whole → 0 < whole → size * amount / whole ≤ size
claim-le size amount whole h k = let le = mul-le-mul (le_refl size) h in grind arith

module _ ⦃cw : Numeric⦄ where
  -- What a `leave` of `amount` whole shares leaves behind.
  pub record IsLeft (p : SharePool) (amount claim : ℕ) (p' : SharePool) : Type 0 where
    pub positive : 0 < amount
    pub paid : p'.size + claim ≡ p.size
    pub burnt : whole_shares p' + amount ≡ whole_shares p
    pub fair : claim * whole_shares p ≤ p.size * amount
    pub shares_le : p'.shares ≤ p.shares

  -- The amount and the error of a call that is refused.
  abbrev pub IsRefusal : SharePool → ℕ → SharePoolError → Type 0
  IsRefusal p amount e =
      ((amount ≡ 0) × (e ≡ zero_amount)) ⊎ ((whole_shares p < amount) × (e ≡ share_overflow))

module _ ⦃cw : Numeric⦄ (laws : IsNumeric cw) where
  open laws use {uint_sub_lem, multiply_ratio_lem, from_ratio_lem, dec_sub_lem, to_uint_floor_lem}

  leave_all :
      (p : SharePool)
      → 0 < whole_shares p
      → (leave p (whole_shares p) ≡ ok (p.size, record { size = 0; shares = 0 }))
  unfolding leave
  leave_all p h = ground arith

  leave_part :
      (p : SharePool) (amount : ℕ)
      → p.size < uint_limit
      → p.shares < uint_limit
      → 0 < amount
      → amount < whole_shares p
      → let claim = p.size * amount / whole_shares p in
        leave p amount
        ≡ ok (claim, record { size = p.size - claim; shares = p.shares - amount * unit })
  unfolding leave
  leave_part p amount z s h k =
      let whole = whole_shares p in
      let claim = p.size * amount / whole in
      ground (
        arith,
        multiply_ratio_lem p.size amount whole,
        claim-le p.size amount whole (omega arith) (omega arith),
        uint_sub_lem p.size claim,
        from_ratio_lem amount 1,
        dec_sub_lem p.shares (amount * unit),
        to_uint_floor_lem p.shares,
      )

  IsLeft-all :
      (p : SharePool) (amount : ℕ)
      → 0 < amount
      → amount ≡ whole_shares p
      → IsLeft p amount p.size empty_pool
  unfolding whole_shares
  IsLeft-all p amount h e = rw e (omega (arith, to_uint_floor_lem 0))

  IsLeft-part :
      (p : SharePool) (amount : ℕ)
      → 0 < amount
      → amount < whole_shares p
      → let claim = p.size * amount / whole_shares p in
        IsLeft p amount claim (record { size = p.size - claim; shares = p.shares - amount * unit })
  unfolding whole_shares
  IsLeft-part p amount h k =
      let whole = whole_shares p in
      let le = claim-le p.size amount whole (omega arith) (omega arith) in
      record {
        positive = h;
        paid = omega arith;
        burnt =
            omega (arith, to_uint_floor_lem p.shares, to_uint_floor_lem (p.shares - amount * unit));
        fair = grind arith;
        shares_le = omega arith;
      }

  -- A member can always leave with any positive number of whole shares that the pool has. The claim
  -- is at most in proportion to the shares, it comes out of the pool, and exactly those shares go.
  pub leave_total :
      (p : SharePool) (amount : ℕ)
      → p.size < uint_limit
      → p.shares < uint_limit
      → 0 < amount
      → amount ≤ whole_shares p
      → (claim : ℕ) × (p' : SharePool) × (leave p amount ≡ ok (claim, p'))
        × IsLeft p amount claim p'
  leave_total p amount z s h k = elim (Bool-cases (amount == whole_shares p)) [
    | inl e ↦
        let same : amount ≡ whole_shares p = ground arith in
        (p.size, empty_pool, rw same (leave_all p (omega arith)), IsLeft-all p amount h same)
    | inr e ↦
        let below : amount < whole_shares p = ground arith in
        let claim = p.size * amount / whole_shares p in
        (
          claim,
          record { size = p.size - claim; shares = p.shares - amount * unit },
          leave_part p amount z s h below,
          IsLeft-part p amount h below,
        )
  ]

  leave_zero : (p : SharePool) → leave p 0 ≡ err zero_amount
  unfolding leave
  leave_zero p = refl

  leave_above :
      (p : SharePool) (amount : ℕ) → whole_shares p < amount → leave p amount ≡ err share_overflow
  unfolding leave
  leave_above p amount h = ground arith

  -- A call returns an error exactly where the amount is zero, and then `zero_amount`, or where it is
  -- more than the whole shares, and then `share_overflow`. With the size and the shares in range, no
  -- other error is returned.
  pub leave_refuses :
      (p : SharePool) (amount : ℕ) (e : SharePoolError)
      → p.size < uint_limit
      → p.shares < uint_limit
      → (leave p amount ≡ err e) ↔ IsRefusal p amount e
  leave_refuses p amount e z s = (refused, refuses)
    where
      refuses : IsRefusal p amount e → leave p amount ≡ err e
      refuses (inl (zero_is, e_is)) = rw (zero_is, e_is) (leave_zero p)
      refuses (inr (above, e_is)) = rw e_is (leave_above p amount above)

      same_error : {f : SharePoolError} → leave p amount ≡ err f → leave p amount ≡ err e → e ≡ f
      same_error h k = err-injective (sym k ∙ h)

      refused : leave p amount ≡ err e → IsRefusal p amount e
      refused h = elim (Bool-cases (amount == 0)) [
        | inl none_asked ↦
            let zero_is : amount ≡ 0 = ground arith in
            inl (zero_is, same_error (rw zero_is (leave_zero p)) h)
        | inr some_asked ↦ elim (Bool-cases (ltb (whole_shares p) amount)) [
          | inl above ↦
              let more = ltb→lt _ _ above in inr (more, same_error (leave_above p amount more) h)
          | inr within ↦
              let (claim, p', run, left) = leave_total p amount z s (ground arith) (ground arith) in
              elim (ok-not-err (sym run ∙ h)) [ ]
        ]
      ]
