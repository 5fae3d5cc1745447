-- ===== src/Fin/Retractions.antt =====
-- Placing an order and taking it back.
use nami_contracts.Base.{
  ℕ, ◌+◌, ◌<◌, String, ◌≡◌, refl, ap, subst, ◌∙◌, true, Option, none, some, arith, str_eq_iff, ok,
  or_panic, lift_err, >>=-eq-ok, ok-injective, lift_err-eq-ok, or_panic-eq-ok,
}
use nami_contracts.Numeric.{Numeric, IsNumeric, uint_limit}
use nami_contracts.BidPool.{Bid, new_bid, retract, is_empty_bid, assert_withdraw_amount}
use nami_contracts.BidPool.{Pool as BidsPool}
use nami_contracts.Fin.Prices.{base, quote, Price, fixed, oracle, PoolKey, same_price, same_key}
use nami_contracts.Fin.Pool.{FinPool, pool_key, pool_commit}
use nami_contracts.Fin.Orders.{
  bid_pool, Order, Book, put_order, save_order, commit_pool, create_order, with_bid, retract_order,
}

same_price_self : (p : Price) → same_price p p ≡ true
same_price_self (fixed a) = ground arith
same_price_self (oracle a) = ground arith

same_key_self : (k : PoolKey) → same_key k k ≡ true
same_key_self (base, p) = same_price_self p
same_key_self (quote, p) = same_price_self p

put_order_found :
    (owner : String) (k : PoolKey) (entry : Option (ℕ × ℕ × Bid)) (b : Book)
    → (put_order owner k entry b).orders owner k ≡ entry
put_order_found owner k entry b = rw ((str_eq_iff owner owner).1 refl, same_key_self k) refl

commit_pool_runs :
    (p : FinPool) (b : Book) → (c : Book) × (commit_pool p b ≡ ok c) × (c.orders ≡ b.orders)
unfolding commit_pool pool_commit
commit_pool_runs p b = (_, refl, refl)

module _ ⦃cw : Numeric⦄ (laws : IsNumeric cw) where
  open cw use {u256_add, u256_sub, to_uint128}
  open laws use {u256_add_lem, u256_sub_lem, to_uint128_lem}

  new_bid-eq-ok :
      (q q' : BidsPool) (amount : ℕ) (bid : Bid)
      → new_bid q amount ≡ ok (bid, q')
      → (bid.amount ≡ amount) × (bid.filled ≡ 0) × (q' ≡ record q { total = q.total + amount })
  unfolding new_bid
  new_bid-eq-ok q q' amount bid e =
      let (total, e1, r1) = >>=-eq-ok (or_panic (u256_add q.total amount)) _ e in
      let total_is : total ≡ q.total + amount =
        ground (arith, or_panic-eq-ok _ e1, u256_add_lem q.total amount) in
      subst
        (λ (p : Bid × BidsPool).
          (p.0.amount ≡ amount) × (p.0.filled ≡ 0) × (p.1 ≡ record q { total = q.total + amount }))
        (ok-injective r1) (refl, refl, ap (λ (n : ℕ). record q { total = n }) total_is)

  retract_all :
      (bid : Bid) (q : BidsPool) (amount : ℕ)
      → bid.amount ≡ amount
      → retract bid (record q { total = q.total + amount }) none
        ≡ ok (amount, record bid { amount = 0 }, q)
  unfolding retract assert_withdraw_amount
  retract_all bid q amount e =
      let emptied : u256_sub amount amount ≡ some 0 = ground (arith, u256_sub_lem amount amount) in
      let back : u256_sub (q.total + amount) amount ≡ some q.total =
        ground (arith, u256_sub_lem (q.total + amount) amount) in
      rw (e, emptied, back) refl

  retract_order_runs :
      (p : FinPool) (pool : BidsPool) (b c : Book) (o : Order) (now refund amount : ℕ) (bid : Bid)
      → retract o.bid p.pool none ≡ ok (refund, bid, pool)
      → to_uint128 bid.amount ≡ some amount
      → commit_pool
          (record p { pool = pool })
          (save_order
            (record o { updated_at = now; offer = amount; bid = bid })
            (record p { pool = pool })
            b)
        ≡ ok c
      → to_uint128 refund ≡ some refund
      → retract_order p b o now none
        ≡ ok (
          refund,
          record o { updated_at = now; offer = amount; bid = bid },
          record p { pool = pool },
          c,
        )
  unfolding retract_order with_bid
  retract_order_runs p pool b c o now refund amount bid e1 e2 e3 e4 = rw (e1, e2, e3, e4) refl

  -- The bid of a new order.
  create_order-eq-ok :
      (p p' : FinPool) (b b' : Book) (now : ℕ) (owner : String) (offer : ℕ) (o : Order)
      → create_order p b now owner offer ≡ ok (o, p', b')
      → (o.bid.amount ≡ offer)
        × (o.bid.filled ≡ 0)
        × (o.owner ≡ owner)
        × (p' ≡ record p { pool = record p.pool { total = p.pool.total + offer } })
  unfolding create_order
  create_order-eq-ok p p' b b' now owner offer o e =
      let ((bid, pool), e1, r1) = >>=-eq-ok (lift_err bid_pool (new_bid p.pool offer)) _ e in
      let (amount_is, filled_is, pool_is) =
        new_bid-eq-ok p.pool pool offer bid (lift_err-eq-ok _ _ e1) in
      let (c, e2, r2) = >>=-eq-ok (commit_pool (record p { pool = pool }) b) _ r1 in
      subst
        (λ (t : Order × FinPool × Book).
          (t.0.bid.amount ≡ offer)
          × (t.0.bid.filled ≡ 0)
          × (t.0.owner ≡ owner)
          × (t.1 ≡ record p { pool = record p.pool { total = p.pool.total + offer } }))
        (ok-injective r2)
        (amount_is, filled_is, refl, ap (λ (q : BidsPool). record p { pool = q }) pool_is)

  taken_back :
      (p : FinPool) (b : Book) (o : Order) (now offer : ℕ)
      → o.bid.amount ≡ offer
      → o.bid.filled ≡ 0
      → offer < uint_limit
      → (order : Order) × (left : Book) × (retract_order
            (record p { pool = record p.pool { total = p.pool.total + offer } })
            b
            o
            now
            none
          ≡ ok (offer, order, p, left))
        × (left.orders o.owner (pool_key p) ≡ none)
  taken_back p b o now offer amount_is filled_is h =
      let bid : Bid = record o.bid { amount = 0 } in
      let order : Order = record o { updated_at = now; offer = 0; bid = bid } in
      let (c, run, orders_is) = commit_pool_runs p (save_order order p b) in
      let empty : is_empty_bid bid ≡ true = rw filled_is refl in
      let removed : (save_order order p b).orders o.owner (pool_key p) ≡ none =
        put_order_found o.owner (pool_key p) _ b ∙ rw empty refl in
      (
        order,
        c,
        retract_order_runs (record p { pool = record p.pool { total = p.pool.total + offer } })
            p.pool b c o now offer 0 bid (retract_all o.bid p.pool offer amount_is)
            (ground (arith, to_uint128_lem 0)) run (ground (arith, to_uint128_lem offer)),
        ap (λ f. f o.owner (pool_key p)) orders_is ∙ removed,
      )

  -- A new order, of an amount that fits its type, can be taken back before anything is distributed:
  -- the retraction of all of it returns what was offered, leaves the pool as it was before the order
  -- and removes the order.
  pub create_retracted :
      (p p' : FinPool) (b b' : Book) (now later : ℕ) (owner : String) (offer : ℕ) (o : Order)
      → create_order p b now owner offer ≡ ok (o, p', b')
      → offer < uint_limit
      → (order : Order) × (left : Book) × (retract_order p' b' o later none
          ≡ ok (offer, order, p, left))
        × (left.orders o.owner (pool_key p) ≡ none)
  create_retracted p p' b b' now later owner offer o e h =
      let (amount_is, filled_is, owner_is, pool_is) =
        create_order-eq-ok p p' b b' now owner offer o e in
      rw pool_is (taken_back p b' o later offer amount_is filled_is h)
