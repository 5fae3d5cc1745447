-- ===== src/SharePool/Deposit.antt =====
-- Deposits that issue no shares, and what each method does to the size of the pool.
use nami_contracts.Base.{ℕ, ◌+◌, ◌≤◌, ◌≡◌, arith, ok, or_panic, >>=-eq-ok}
use nami_contracts.Numeric.{Numeric, IsNumeric}
use nami_contracts.SharePool.{SharePool, join, leave, ownership, deposit}

module _ ⦃cw : Numeric⦄ (laws : IsNumeric cw) where
  open laws use {uint_add_lem, uint_sub_lem, from_ratio256_lem}

  -- A payout comes out of the pool.
  pub leave_paid :
      (p : SharePool) (amount : ℕ) {claim : ℕ} {p' : SharePool}
      → leave p amount ≡ ok (claim, p')
      → p'.size + claim ≡ p.size
  unfolding leave
  leave_paid p amount {claim} h = ground (arith, uint_sub_lem p.size claim)

  -- A deposit adds to the size and leaves the shares.
  pub deposit_adds :
      (p : SharePool) (amount : ℕ) {p' : SharePool}
      → deposit p amount ≡ ok (tt, p')
      → (p'.size ≡ p.size + amount) × (p'.shares ≡ p.shares)
  unfolding deposit
  deposit_adds p amount h = ground (arith, uint_add_lem p.size amount)

  -- After a deposit that is accepted, a newcomer can join with 1000, and owns at least 990 of it.
  pub deposit_inflation :
      (p : SharePool) (amount : ℕ) {p' : SharePool}
      → deposit p amount ≡ ok (tt, p')
      → (minted : ℕ) × (q : SharePool) × (value : ℕ) × (join p' 1000 ≡ ok (minted, q))
        × (ownership q minted ≡ ok value)
        × (990 ≤ value)
  unfolding deposit
  deposit_inflation p amount {p'} h =
      let (size, e1, h1) = >>=-eq-ok (or_panic (cw.uint_add p.size amount)) _ h in
      let (joined, e2, h2) = >>=-eq-ok (join (record p { size = size }) 1000) _ h1 in
      let (value, e3, h3) = >>=-eq-ok (ownership joined.1 joined.0) _ h2 in
      let same : p' ≡ record p { size = size } = ground arith in
      (
        joined.0,
        joined.1,
        value,
        rw same e2,
        e3,
        ground (arith, from_ratio256_lem value 1000, from_ratio256_lem 99 100),
      )
