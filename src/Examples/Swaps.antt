-- ===== src/Examples/Swaps.antt =====
-- Swaps over offers at the rate 1.0, and claims from a pool of accounts.
use nami_contracts.Base.{
  ℕ, ◌+◌, ◌-◌, ◌*◌, ◌/◌, ◌≤◌, ◌<◌, min, ◌≡◌, refl, ap, ◌⊎◌, some, List, [], ◌∷◌, ◌++◌, arith, ok,
  ok-injective, length,
}
use nami_contracts.Numeric.{unit}
use nami_contracts.Numeric.{reference, reference-IsNumeric}
use nami_contracts.AccountPool.{AccountPool, default_pool, join, distribute, distribute_some, claim}
use nami_contracts.AccountPool.Funding.{start, joined, distributed}
use nami_contracts.AccountPool.Claims.{claimable}
use nami_contracts.Exchange.Interface.{no_commit, Swappable, IsSwappable}
use nami_contracts.Exchange.Either.{either, either-IsSwappable}
use nami_contracts.Exchange.Swapper.{
  Swapper, SwapResult, new, event, swap_one, swap_all, charge, swap,
}
use nami_contracts.Exchange.Swapper.Totals.{Totals}
use nami_contracts.Exchange.Swapper.Balance.{swap_balances}

abbrev flat : Swappable ℕ (Unit {0})
flat = record {
  rate = λ n. unit;
  prefix = λ n. "flat";
  attributes = λ n. ok [];
  total = λ n. ok n;
  swap = λ n offer. ok ((min n offer, min n offer), n - min n offer);
  commit = λ n s. ok (no_commit, s);
}

flat-IsSwappable : IsSwappable flat
flat-IsSwappable = record {
  within = λ t t' offer consumed bids e.
      let c : min t offer ≡ consumed = ap (λ p. p.0.0) (ok-injective e) in omega (arith, c);
  taken = λ t t' offer consumed bids held e h.
      let c : min t offer ≡ bids = ap (λ p. p.0.1) (ok-injective e) in
      let d : t - min t offer ≡ t' = ap (λ p. p.1) (ok-injective e) in
      (t', refl, omega (arith, c, d, ok-injective h));
}

items : Totals flat (100 ∷ 200 ∷ 300 ∷ []) 600
items = (100, 500, refl, (200, 300, refl, (300, 0, refl, refl, refl), refl), refl)

swapped :
    (r : SwapResult) × (after : Swapper ℕ) × (swap flat
        (new 150 (some 140) 20_000_000_000_000_000)
        (100 ∷ 200 ∷ 300 ∷ [])
      ≡ ok (r, after))
unfolding swap swap_all swap_one charge event
swapped = (_, _, refl)

swap_balances_example :
    (used unused : List ℕ) × (rest left : ℕ) × (100 ∷ 200 ∷ 300 ∷ [] ≡ used ++ unused)
    × (length swapped.1.pending ≡ length used)
    × Totals flat swapped.1.pending rest
    × Totals flat unused left
    × (rest + left + (swapped.0.return_amount + swapped.0.fee_amount) ≡ 600)
    × ((swapped.0.return_amount + swapped.0.fee_amount) * 20_000_000_000_000_000
        ≤ swapped.0.fee_amount * unit)
    × (swapped.0.fee_amount * unit
        < (swapped.0.return_amount + swapped.0.fee_amount) * 20_000_000_000_000_000 + unit)
    × (140 ≤ swapped.0.return_amount)
    × (swapped.0.remaining_offer ≤ 150)
    × ((swapped.0.remaining_offer ≡ 0) ⊎ (unused ≡ []))
swap_balances_example =
    swap_balances reference-IsNumeric flat-IsSwappable 150 20_000_000_000_000_000 (some 140)
      (100 ∷ 200 ∷ 300 ∷ []) 600 swapped.0 swapped.1 items swapped.2

either-IsSwappable_example : IsSwappable (either {S = Unit {0}} flat flat)
either-IsSwappable_example =
    either-IsSwappable reference-IsNumeric flat-IsSwappable flat-IsSwappable

alone :
    (q : AccountPool) × (join default_pool 1000
      ≡ ok (record { amount = 1000; sum_snapshot = 0 }, q))
unfolding join
alone = (_, refl)

paid_in : (q : AccountPool) × (distribute alone.0 500 ≡ ok q) × (q.pending ≡ 500)
unfolding distribute distribute_some alone join
paid_in = (_, refl, refl)

claimable_example :
    (paid : ℕ) × (claim paid_in.0 (record { amount = 1000; sum_snapshot = 0 })
      ≡ ok (
        paid,
        record { amount = 1000; sum_snapshot = paid_in.0.sum },
        record paid_in.0 { pending = paid_in.0.pending - paid },
      ))
    × (paid ≤ paid_in.0.pending)
    × (paid ≡ 1000 * (paid_in.0.sum - 0) / unit)
claimable_example =
    claimable reference-IsNumeric paid_in.0 (record { amount = 1000; sum_snapshot = 0 }) [] []
      (distributed 500 (joined 1000 start alone.1) paid_in.1) (omega arith)
      (omega (arith, paid_in.2))
