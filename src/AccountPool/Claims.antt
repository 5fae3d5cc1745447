-- ===== src/AccountPool/Claims.antt =====
-- `AccountPool::claim`: when the pending revenue is paid.
use nami_contracts.Base.{ℕ, ◌-◌, ◌*◌, ◌/◌, ◌≤◌, ◌<◌, ◌≡◌, refl, some, List, ◌∷◌, ◌++◌, arith, ok}
use nami_contracts.Numeric.{Numeric, IsNumeric, unit, uint_limit, fit, from_ratio_whole}
use nami_contracts.AccountPool.{AccountPool, AccountPoolAccount, pending_revenue, claim}
use nami_contracts.AccountPool.Accounts.{owed_to, sum_by_split, taken_out}
use nami_contracts.AccountPool.Funding.{Reach, Reach-IsFunded}

module _ ⦃cw : Numeric⦄ (laws : IsNumeric cw) where
  open laws use {
    uint_add_lem, uint_sub_lem, from_ratio_lem, dec_add_lem, dec_sub_lem, dec_mul_lem,
    to_uint_floor_lem,
  }

  claim_runs :
      (p : AccountPool) (a : AccountPoolAccount) (rise paid : ℕ)
      → cw.dec_sub p.sum a.sum_snapshot ≡ some rise
      → cw.from_ratio a.amount 1 ≡ some (a.amount * unit)
      → cw.dec_mul rise (a.amount * unit) ≡ some (a.amount * rise)
      → cw.to_uint_floor (a.amount * rise) ≡ paid
      → cw.uint_sub p.pending paid ≡ some (p.pending - paid)
      → claim p a
        ≡ ok (paid, record a { sum_snapshot = p.sum }, record p { pending = p.pending - paid })
  unfolding claim pending_revenue
  claim_runs p a rise paid e1 e2 e3 e4 e5 = rw (e1, e2, e3, e4, e5) refl

  claim_covered :
      (p : AccountPool) (a : AccountPoolAccount) (rise : ℕ)
      → p.sum - a.sum_snapshot ≡ rise
      → a.sum_snapshot ≤ p.sum
      → a.amount * rise ≤ p.pending * unit
      → a.amount * unit < uint_limit
      → p.pending * unit < uint_limit
      → (paid : ℕ) × (claim p a
          ≡ ok (paid, record a { sum_snapshot = p.sum }, record p { pending = p.pending - paid }))
        × (paid ≤ p.pending)
        × (paid ≡ a.amount * rise / unit)
  claim_covered p a rise e was due h l =
      let paid = a.amount * rise / unit in
      let product : rise * (a.amount * unit) / unit ≡ a.amount * rise = omega arith in
      let fits : a.amount * rise < uint_limit = omega arith in
      let within : paid ≤ p.pending = omega arith in
      (
        paid,
        claim_runs p a rise paid (ground (arith, dec_sub_lem p.sum a.sum_snapshot))
            (from_ratio_whole laws a.amount h)
            (rw (dec_mul_lem, product) (fit_below (a.amount * rise) fits))
            (to_uint_floor_lem (a.amount * rise)) (ground (arith, uint_sub_lem p.pending paid)),
        within,
        refl,
      )
    where
      fit_below : (n : ℕ) → n < uint_limit → fit n ≡ some n
      fit_below n h = ground arith

  -- Whatever came before, an account of the pool can claim its share of the distributions, rounded
  -- down, if its amount and the pending revenue fit decimals.
  pub claimable :
      (p : AccountPool) (a : AccountPoolAccount) (before after : List AccountPoolAccount)
      → Reach p (before ++ a ∷ after)
      → a.amount * unit < uint_limit
      → p.pending * unit < uint_limit
      → (paid : ℕ) × (claim p a
          ≡ ok (paid, record a { sum_snapshot = p.sum }, record p { pending = p.pending - paid }))
        × (paid ≤ p.pending)
        × (paid ≡ a.amount * (p.sum - a.sum_snapshot) / unit)
  claimable p a before after r h l =
      let f = Reach-IsFunded laws r in
      let (was, others) = taken_out _ before after a f.snapshots in
      let rise = p.sum - a.sum_snapshot in
      let due : a.amount * rise ≤ p.pending * unit =
        omega (arith, f.covered, sum_by_split (owed_to p.sum) before after a) in
      claim_covered p a rise refl was due h l
