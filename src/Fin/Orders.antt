-- ===== src/Fin/Orders.antt =====
-- Orders (testing/rujira-fin/src/order.rs, and the order methods of testing/rujira-fin/src/pool.rs):
-- a bid with its owner in a pool.
use nami_contracts.Base.{
  ℕ, String, ◌&&◌, Option, none, some, if◌then◌else◌, str_eq, Outcome, ok, err, ◌>>=◌, or_err,
  or_panic, lift_err,
}
use nami_contracts.Numeric.{Numeric}
use nami_contracts.BidPool.{
  Bid, BidPoolError, StdError, new_bid, claim_filled, retract, increase, sync_bid, is_empty_bid,
}
use nami_contracts.Exchange.Interface.{SwapError}
use nami_contracts.Fin.Prices.{PoolKey, same_key}
use nami_contracts.Fin.Pool.{Storage, FinPool, pool_key, pool_commit}

pub data ContractError : Type 0 where
  not_found conversion_overflow : ContractError
  swap_error : SwapError → ContractError
  bid_pool : BidPoolError → ContractError
  std : StdError → ContractError

pub record Order : Type 0 where
  pub owner : String
  pub updated_at : ℕ
  pub offer : ℕ
  pub bid : Bid

-- The storage of the pools, and the map of the orders.
pub record Book : Type 0 where
  pub store : Storage
  pub orders : String → PoolKey → Option (ℕ × ℕ × Bid)

abbrev pub put_order : String → PoolKey → Option (ℕ × ℕ × Bid) → Book → Book
put_order owner k entry b = record b {
  orders = λ o j. if str_eq owner o && same_key k j then entry else b.orders o j;
}

-- `Order::load`
unfoldable pub stored_order : String → PoolKey → Book → Outcome ContractError Order
stored_order owner k b = elim (b.orders owner k) [
  | none ↦ err not_found
  | some (updated_at, offer, bid) ↦
      ok (record { owner = owner; updated_at = updated_at; offer = offer; bid = bid })
]

-- `Order::save`: an order without anything left is removed.
abbrev pub save_order : Order → FinPool → Book → Book
save_order o p b =
    put_order o.owner (pool_key p)
      (if is_empty_bid o.bid then none else some (o.updated_at, o.offer, o.bid)) b

unfoldable pub commit_pool : FinPool → Book → Outcome ContractError Book
commit_pool p b = do
  (committed, store) ← lift_err swap_error (pool_commit p b.store)
  ok (record b { store = store })

module _ ⦃cw : Numeric⦄ where
  open cw use {to_uint128}

  unfoldable pub create_order :
      FinPool → Book → ℕ → String → ℕ → Outcome ContractError (Order × FinPool × Book)
  create_order p b now owner offer = do
    (bid, pool) ← lift_err bid_pool (new_bid p.pool offer)
    let order : Order = record { owner = owner; updated_at = now; offer = offer; bid = bid }
    let next : FinPool = record p { pool = pool }
    committed ← commit_pool next b
    ok (order, next, save_order order next committed)

  -- The order with its bid, whose amount fits a `Uint128`.
  unfoldable pub with_bid : Order → ℕ → Bid → Outcome ContractError Order
  with_bid o now bid = do
    amount ← or_panic (to_uint128 bid.amount)
    ok (record o { updated_at = now; offer = amount; bid = bid })

  unfoldable pub increase_order :
      FinPool → Book → Order → ℕ → ℕ → Outcome ContractError (ℕ × Order × FinPool × Book)
  increase_order p b o now amount = do
    (added, bid, pool) ← lift_err bid_pool (increase o.bid p.pool amount)
    order ← with_bid o now bid
    let next : FinPool = record p { pool = pool }
    committed ← commit_pool next (save_order order next b)
    ok (amount, order, next, committed)

  unfoldable pub retract_order :
      FinPool → Book → Order → ℕ → Option ℕ → Outcome ContractError (ℕ × Order × FinPool × Book)
  retract_order p b o now amount = do
    (refund, bid, pool) ← lift_err bid_pool (retract o.bid p.pool amount)
    order ← with_bid o now bid
    let next : FinPool = record p { pool = pool }
    committed ← commit_pool next (save_order order next b)
    refunded ← or_err (to_uint128 refund) conversion_overflow
    ok (refunded, order, next, committed)

  unfoldable pub claim_order : FinPool → Book → Order → Outcome ContractError (ℕ × Order × Book)
  claim_order p b o = do
    let (filled, bid) = claim_filled o.bid
    let order : Order = record o { bid = bid }
    claimed ← or_err (to_uint128 filled) conversion_overflow
    ok (claimed, order, save_order order p b)

  -- The sum at the end of the bid's epoch, if there is one.
  unfoldable pub sync_order : FinPool → Book → Order → Outcome ContractError Order
  sync_order p b o = do
    bid ← lift_err std (sync_bid p.pool o.bid (b.store.snapshots (pool_key p) o.bid.epoch_snapshot))
    ok (record o { bid = bid })

  unfoldable pub load_order : FinPool → Book → String → Outcome ContractError Order
  load_order p b owner = do o ← stored_order owner (pool_key p) b; sync_order p b o
