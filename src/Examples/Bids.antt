-- ===== src/Examples/Bids.antt =====
-- A bid pool with two distributions, and a bid brought up to date.
use nami_contracts.Base.{◌+◌, ◌≡◌, refl, inr, some, arith, ok}
use nami_contracts.Numeric.{reference, reference-IsNumeric}
use nami_contracts.DecimalScaled.{
  origin, one, zero_scaled, strip, normalize, truncate, floor_by, floor_for, to_uint_floor,
  from_ratio, raised, raise_first, raise_second, equalise, mul_for, mul, mul_uint_for, mul_uint,
  sub_equalised, sub_for, sub, add_equalised, add_for, add, div_equalised, div_for, div,
}
use nami_contracts.DecimalScaled.Endings.{IsEnding}
use nami_contracts.DecimalScaled.Totality.{operations_end}
use nami_contracts.BidPool.{
  Pool, Bid, DistributionResult, raised_sum, lowered_product, distribute_partial, distribute_some,
  distribute, filled_share, bid_filled_amount, remaining_share, remaining_of_epoch,
  bid_remaining_amount, sync_bid,
}
use nami_contracts.BidPool.Distribution.{IsDistributed, distribute-IsDistributed}
use nami_contracts.BidPool.Sync.{sync_twice}

abbrev bids : Pool
bids = record { total = 1000; sum = zero_scaled; product = one; epoch = 0 }

abbrev bid : Bid
bid = record {
  amount = 400;
  filled = 0;
  product_snapshot = one;
  sum_snapshot = zero_scaled;
  epoch_snapshot = 0;
}

partial :
    (r : DistributionResult) × (q : Pool) × (distribute bids 300 500_000_000_000_000_000
      ≡ ok (r, q))
    × (q.total ≡ 850)
unfolding distribute distribute_some distribute_partial raised_sum lowered_product from_ratio
    normalize strip mul mul_for add add_for equalise add_equalised sub sub_for sub_equalised
    raise_first raise_second raised truncate
partial = (_, _, refl, refl)

distribute-IsDistributed_example :
    IsDistributed bids 300 500_000_000_000_000_000 partial.0 partial.1
distribute-IsDistributed_example =
    distribute-IsDistributed reference-IsNumeric bids partial.1 300 500_000_000_000_000_000
      partial.0 partial.2

abbrev lowered : Pool
lowered = record {
  total = 850;
  sum = record { value = 3; scale = origin + 1 };
  product = record { value = 85; scale = origin + 2 };
  epoch = 0;
}

synced :
    (b : Bid) × (sync_bid lowered bid (some lowered.sum) ≡ ok b)
    × (b.amount ≡ 340)
    × (b.filled ≡ 120)
unfolding sync_bid bid_filled_amount filled_share bid_remaining_amount remaining_of_epoch
    remaining_share normalize strip sub sub_for sub_equalised equalise raise_first raise_second
    raised mul_uint mul_uint_for div div_for div_equalised to_uint_floor floor_for floor_by truncate
synced = (_, refl, refl, refl)

sync_twice_example : sync_bid lowered synced.0 (some lowered.sum) ≡ ok synced.0
sync_twice_example =
    sync_twice reference-IsNumeric lowered bid synced.0 (some lowered.sum) (some lowered.sum)
      synced.1 (omega (arith, synced.2)) (inr refl)

operations_end_example :
    IsEnding (add lowered.sum lowered.product)
    × IsEnding (sub lowered.sum lowered.product)
    × IsEnding (mul lowered.sum lowered.product)
    × IsEnding (div lowered.sum lowered.product)
    × IsEnding (mul_uint lowered.sum 7)
    × IsEnding (from_ratio 3 7)
    × IsEnding (to_uint_floor lowered.sum)
operations_end_example = operations_end reference-IsNumeric lowered.sum lowered.product 3 7
