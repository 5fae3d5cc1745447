-- ===== src/Examples/Pools.antt =====
-- The theorems on pools and on the interest curve at concrete values.
use nami_contracts.Base.{ℕ, ◌+◌, ◌*◌, ◌≤◌, ◌<◌, ◌≡◌, refl, ◌↔◌, arith, ok, err}
use nami_contracts.Numeric.{unit}
use nami_contracts.Numeric.{reference, reference-IsNumeric}
use nami_contracts.SharePool.{
  SharePool, share_overflow, empty_pool, join, leave, deposit, ownership, whole_shares,
}
use nami_contracts.SharePool.Join.{IsJoined, join-IsJoined}
use nami_contracts.SharePool.Deposit.{deposit_inflation}
use nami_contracts.SharePool.Leave.{IsLeft, IsRefusal, leave_total, leave_refuses}
use nami_contracts.SharePool.Solvency.{Reach, start, joined, deposited, redeemable}
use nami_contracts.Interest
use nami_contracts.Interest.{Interest}
use nami_contracts.Interest.Curve.{IsUsable, rate_rises}

abbrev pool : SharePool
pool = record { size = 1_100; shares = 1_000 * unit }

abbrev fresh : SharePool
fresh = record { size = 1_000; shares = 1_000 * unit }

join-empty_pool : join empty_pool 1_000 ≡ ok (1_000, fresh)
unfolding join
join-empty_pool = refl

deposit-fresh : deposit fresh 100 ≡ ok (tt, pool)
unfolding deposit join ownership whole_shares
deposit-fresh = refl

join-pool : join pool 550 ≡ ok (500, record { size = 1_650; shares = 1_500 * unit })
unfolding join
join-pool = refl

whole_1000 : 7 ≤ whole_shares pool
unfolding whole_shares
whole_1000 = omega arith

below_1001 : whole_shares pool < 1_001
unfolding whole_shares
below_1001 = omega arith

join-IsJoined_example : IsJoined pool 550 500 (record { size = 1_650; shares = 1_500 * unit })
join-IsJoined_example = join-IsJoined reference-IsNumeric pool 550 join-pool

deposit_inflation_example :
    (minted : ℕ) × (q : SharePool) × (value : ℕ) × (join pool 1000 ≡ ok (minted, q))
    × (ownership q minted ≡ ok value)
    × (990 ≤ value)
deposit_inflation_example = deposit_inflation reference-IsNumeric fresh 100 deposit-fresh

leave_total_example :
    (claim : ℕ) × (p' : SharePool) × (leave pool 7 ≡ ok (claim, p')) × IsLeft pool 7 claim p'
leave_total_example =
    leave_total reference-IsNumeric pool 7 (omega arith) (omega arith) (omega arith) whole_1000

leave_refuses_example :
    (leave pool 1_001 ≡ err share_overflow) ↔ IsRefusal pool 1_001 share_overflow
leave_refuses_example =
    leave_refuses reference-IsNumeric pool 1_001 share_overflow (omega arith) (omega arith)

pool-Reach : Reach pool 1_000
pool-Reach = deposited 100 (joined 1_000 start join-empty_pool) deposit-fresh

redeemable_example :
    (claim : ℕ) × (p' : SharePool) × (leave pool 300 ≡ ok (claim, p')) × IsLeft pool 300 claim p'
redeemable_example =
    redeemable reference-IsNumeric pool 1_000 300 pool-Reach (omega arith) (omega arith)

abbrev tenth : ℕ
tenth = 100_000_000_000_000_000

abbrev interest : Interest
interest = record {
  target_utilization = 8 * tenth;
  base_rate = tenth;
  step1 = 2 * tenth;
  step2 = 20 * tenth;
}

interest-IsUsable : IsUsable interest
unfolding Interest.validate
interest-IsUsable = record { valid = refl; fits = omega arith }

rate_rises_example :
    (r : ℕ) × (s : ℕ) × (Interest.rate interest (4 * tenth) ≡ ok r)
    × (Interest.rate interest (9 * tenth) ≡ ok s)
    × (tenth ≤ r)
    × (r ≤ s)
    × (s ≤ tenth + 2 * tenth + 20 * tenth)
rate_rises_example =
    rate_rises reference-IsNumeric interest (4 * tenth) (9 * tenth) interest-IsUsable (omega arith)
      (omega arith)
