-- ===== src/GhostVault/State.antt =====
-- `State` (testing/rujira-ghost-vault/src/state.rs): the pools of the debt and of the deposits.
use nami_contracts.Base.{
  ℕ, ◌-◌, none, some, leb, ◌==◌, if◌then◌else◌, Outcome, ok, ◌>>=◌, ◌>>◌, ensure, or_panic,
  lift_err,
}
use nami_contracts.Numeric.{Numeric, unit}
use nami_contracts.SharePool.{SharePool, SharePoolError, empty_pool, join, leave}
use nami_contracts.SharePool
use nami_contracts.Interest.{Interest, rate}
use nami_contracts.GhostVault.Errors.{ContractError, share_pool, std_interest, insufficient_repay}

pub record State : Type 0 where
  pub last_updated : ℕ
  pub debt_pool : SharePool
  pub deposit_pool : SharePool

-- `State::init`
unfoldable pub init : ℕ → State
init now = record { last_updated = now; debt_pool = empty_pool; deposit_pool = empty_pool }

abbrev pub VaultResult : Type 0 → Type 0
VaultResult A = Outcome ContractError (A × State)

abbrev pub secs_per_year : ℕ
secs_per_year = 31_536_000

module _ ⦃cw : Numeric⦄ where
  open cw use {uint_sub, from_ratio, dec_sub, dec_mul, to_uint_floor, seconds}

  unfoldable pub deposit : State → ℕ → VaultResult ℕ
  deposit s amount = do
    (minted, pool) ← lift_err share_pool (join s.deposit_pool amount)
    ok (minted, record s { deposit_pool = pool })

  unfoldable pub withdraw : State → ℕ → VaultResult ℕ
  withdraw s amount = do
    (withdrawn, pool) ← lift_err share_pool (leave s.deposit_pool amount)
    ok (withdrawn, record s { deposit_pool = pool })

  unfoldable pub borrow : State → ℕ → VaultResult ℕ
  borrow s amount = do
    (minted, pool) ← lift_err share_pool (join s.debt_pool amount)
    ok (minted, record s { debt_pool = pool })

  unfoldable pub repay : State → ℕ → ℕ → VaultResult (Unit {0})
  repay s amount debt_tokens = do
    (withdrawn, pool) ← lift_err share_pool (leave s.debt_pool debt_tokens)
    ensure (leb withdrawn amount) (insufficient_repay debt_tokens withdrawn amount)
    ok (tt, record s { debt_pool = pool })

  unfoldable pub utilization : State → Outcome ContractError ℕ
  utilization s = if s.deposit_pool.size == 0 then ok 0 else do
    free ← or_panic (uint_sub s.deposit_pool.size s.debt_pool.size)
    idle ← or_panic (from_ratio free s.deposit_pool.size)
    or_panic (dec_sub unit idle)

  unfoldable pub debt_rate : State → Interest → Outcome ContractError ℕ
  debt_rate s interest = do u ← utilization s; lift_err std_interest (rate interest u)

  unfoldable pub lend_rate : State → Interest → Outcome ContractError ℕ
  lend_rate s interest = do
    u ← utilization s
    r ← lift_err std_interest (rate interest u)
    or_panic (dec_mul r u)

  -- The `u64` difference of the two times panics below zero.
  unfoldable pub calculate_interest : State → Interest → ℕ → Outcome ContractError ℕ
  calculate_interest s interest to = do
    r ← debt_rate s interest
    let from = seconds s.last_updated
    elapsed ← or_panic (if leb from (seconds to) then some (seconds to - from) else none)
    part ← or_panic (from_ratio elapsed secs_per_year)
    debt ← or_panic (from_ratio s.debt_pool.size 1)
    yearly ← or_panic (dec_mul debt r)
    accrued ← or_panic (dec_mul yearly part)
    ok (to_uint_floor accrued)

  unfoldable pub distribute_interest : State → Interest → ℕ → Outcome ContractError State
  distribute_interest s interest now = do
    accrued ← calculate_interest s interest now
    (_, deposits) ← lift_err share_pool (SharePool.deposit s.deposit_pool accrued)
    (_, debts) ← lift_err share_pool (SharePool.deposit s.debt_pool accrued)
    ok (record { last_updated = now; debt_pool = debts; deposit_pool = deposits })
