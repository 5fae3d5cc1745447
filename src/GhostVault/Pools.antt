-- ===== src/GhostVault/Pools.antt =====
-- What each method of the vault's state does to the sizes of its two pools.
use nami_contracts.Base.{ℕ, ◌+◌, ◌≤◌, ◌≡◌, arith, ok, lift_err, >>=-eq-ok, lift_err-eq-ok}
use nami_contracts.Numeric.{Numeric, IsNumeric}
use nami_contracts.Interest.{Interest}
use nami_contracts.SharePool.{join, leave}
use nami_contracts.SharePool.Join.{join-IsJoined}
use nami_contracts.SharePool.Deposit.{leave_paid, deposit_adds}
use nami_contracts.GhostVault.State
use nami_contracts.GhostVault.State.{State, distribute_interest}

module _ ⦃cw : Numeric⦄ (laws : IsNumeric cw) where
  open laws use {uint_sub_lem}

  -- Interest is added to the deposits and to the debt alike, and no shares are issued.
  pub distribute_conserves :
      (s : State) (i : Interest) (now : ℕ) {s' : State}
      → distribute_interest s i now ≡ ok s'
      → (s'.deposit_pool.size + s.debt_pool.size ≡ s.deposit_pool.size + s'.debt_pool.size)
        × (s.debt_pool.size ≤ s'.debt_pool.size)
        × (s'.deposit_pool.shares ≡ s.deposit_pool.shares)
        × (s'.debt_pool.shares ≡ s.debt_pool.shares)
        × (s'.last_updated ≡ now)
  unfolding distribute_interest
  distribute_conserves s i now {s'} h = grind (arith, deposit_adds laws)

  pub deposit_pool_adds :
      (s : State) (amount : ℕ) {minted : ℕ} {s' : State}
      → State.deposit s amount ≡ ok (minted, s')
      → (s'.deposit_pool.size ≡ s.deposit_pool.size + amount)
        × (s'.debt_pool.size ≡ s.debt_pool.size)
  unfolding State.deposit
  deposit_pool_adds s amount h =
      let (x, e, f) = >>=-eq-ok (lift_err _ (join s.deposit_pool amount)) _ h in
      let j = join-IsJoined laws s.deposit_pool amount (lift_err-eq-ok _ _ e) in
      ground (arith, j.paid)

  pub withdraw_pool_pays :
      (s : State) (amount : ℕ) {claim : ℕ} {s' : State}
      → State.withdraw s amount ≡ ok (claim, s')
      → (s'.deposit_pool.size + claim ≡ s.deposit_pool.size)
        × (s'.debt_pool.size ≡ s.debt_pool.size)
  unfolding State.withdraw
  withdraw_pool_pays s amount h =
      let (x, e, f) = >>=-eq-ok (lift_err _ (leave s.deposit_pool amount)) _ h in
      let j = leave_paid laws s.deposit_pool amount (lift_err-eq-ok _ _ e) in ground (arith, j)

  pub borrow_pool_adds :
      (s : State) (amount : ℕ) {minted : ℕ} {s' : State}
      → State.borrow s amount ≡ ok (minted, s')
      → (s'.debt_pool.size ≡ s.debt_pool.size + amount)
        × (s'.deposit_pool.size ≡ s.deposit_pool.size)
  unfolding State.borrow
  borrow_pool_adds s amount h =
      let (x, e, f) = >>=-eq-ok (lift_err _ (join s.debt_pool amount)) _ h in
      let j = join-IsJoined laws s.debt_pool amount (lift_err-eq-ok _ _ e) in ground (arith, j.paid)

  pub repay_pool_covers :
      (s : State) (amount tokens : ℕ) {s' : State}
      → State.repay s amount tokens ≡ ok (tt, s')
      → (s.debt_pool.size ≤ s'.debt_pool.size + amount)
        × (s'.deposit_pool.size ≡ s.deposit_pool.size)
  unfolding State.repay
  repay_pool_covers s amount tokens h =
      let (x, e, f) = >>=-eq-ok (lift_err _ (leave s.debt_pool tokens)) _ h in
      let j = leave_paid laws s.debt_pool tokens (lift_err-eq-ok _ _ e) in ground (arith, j)
