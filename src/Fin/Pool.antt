-- ===== src/Fin/Pool.antt =====
-- `Pool` (testing/rujira-fin/src/pool.rs): a bid pool of one side at one price, as an offer of
-- liquidity. The three maps of the storage are functions of their keys.
use nami_contracts.Base.{
  ℕ, ◌+◌, ◌≤◌, ◌<◌, String, ◌≡◌, subst, Bool, not, ◌&&◌, Option, none, some, List, [], ◌∷◌, arith,
  ◌==◌, if◌then◌else◌, Outcome, ok, ◌>>=◌, or_err, or_panic, lift_err, >>=-eq-ok, ok-injective,
  lift_err-eq-ok, or_err-eq-ok, or_panic-eq-ok,
}
use nami_contracts.Numeric.{Numeric, IsNumeric, uint_limit}
use nami_contracts.Chain.{Attribute, text, number}
use nami_contracts.DecimalScaled.{DecimalScaled}
use nami_contracts.BidPool.{SumSnapshot, default_pool, distribute}
use nami_contracts.BidPool.{Pool as BidsPool}
use nami_contracts.BidPool.Distribution.{distribute-IsDistributed}
use nami_contracts.Exchange.Interface.{
  SwapError, bid_pool, conversion_overflow, SwapCommit, no_commit, Swappable, IsSwappable,
  IsProgressing,
}
use nami_contracts.Fin.Prices.{
  Side, base, quote, Price, fixed, oracle, side_name, PoolKey, same_key, to_rate,
}

pub record Storage : Type 0 where
  pub snapshots : PoolKey → ℕ → Option DecimalScaled
  pub pools : PoolKey → Bool
  pub bid_pools : PoolKey → Option BidsPool

pub record FinPool : Type 0 where
  pub price : Price
  pub side : Side
  pub pool : BidsPool
  pub rate : ℕ
  pub pending_sum_snapshots : List SumSnapshot

abbrev pub pool_key : FinPool → PoolKey
pool_key p = (p.side, p.price)

abbrev pub price_attribute : Price → Attribute
price_attribute (fixed rate) = number rate
price_attribute (oracle bps) = number bps

abbrev pub pool_attributes : FinPool → List (String × Attribute)
pool_attributes p = ("price", price_attribute p.price) ∷ ("side", text (side_name p.side)) ∷ []

-- The entry of a map at a key, replaced.
abbrev pub put : {A : Type 0} → PoolKey → A → (PoolKey → A) → PoolKey → A
put k v m j = if same_key k j then v else m j

abbrev pub put_snapshot :
    PoolKey
    → SumSnapshot
    → (PoolKey → ℕ → Option DecimalScaled)
    → PoolKey
    → ℕ
    → Option DecimalScaled
put_snapshot k s m j n = if same_key k j && s.epoch == n then some s.sum else m j n

unfoldable pub save_snapshots : PoolKey → List SumSnapshot → Storage → Storage
save_snapshots k [] store = store
save_snapshots k (s ∷ ss) store =
    save_snapshots k ss (record store { snapshots = put_snapshot k s store.snapshots })

-- `Pool::commit`: an empty pool is not iterated over any more, and its bid pool stays.
unfoldable pub pool_commit : FinPool → Storage → Outcome SwapError (SwapCommit × Storage)
pool_commit p store =
    let saved : Storage = save_snapshots (pool_key p) p.pending_sum_snapshots store in
    ok (
      no_commit,
      record saved {
        bid_pools = put (pool_key p) (some p.pool) saved.bid_pools;
        pools = put (pool_key p) (not (p.pool.total == 0)) saved.pools;
      },
    )

module _ ⦃cw : Numeric⦄ where
  open cw use {dec_inv, to_uint128}

  -- `Pool::load`
  unfoldable pub load_pool : Storage → Price → Side → Option ℕ → Outcome SwapError FinPool
  load_pool store price side oracle_price = do
    rate ← to_rate price oracle_price
    let stored : BidsPool = elim (store.bid_pools (side, price)) [
      | none ↦ default_pool
      | some p ↦ p
    ]
    ok (record {
      price = price;
      side = side;
      pool = stored;
      rate = rate;
      pending_sum_snapshots = [];
    })

  -- The rate of a swap, in bids per offer.
  unfoldable pub side_rate : Side → ℕ → Outcome SwapError ℕ
  side_rate base rate = or_panic (dec_inv rate)
  side_rate quote rate = ok rate

  unfoldable pub pool_swap : FinPool → ℕ → Outcome SwapError ((ℕ × ℕ) × FinPool)
  pool_swap p offer = do
    rate ← side_rate p.side p.rate
    (res, q) ← lift_err bid_pool (distribute p.pool offer rate)
    consumed ← or_err (to_uint128 res.consumed_offer) conversion_overflow
    bids ← or_err (to_uint128 res.consumed_bids) conversion_overflow
    ok ((consumed, bids), record p { pool = q; pending_sum_snapshots = res.snapshots })

  unfoldable pub pool_total : FinPool → Outcome SwapError ℕ
  pool_total p = or_panic (to_uint128 p.pool.total)

  unfoldable pub pool_offer : Swappable FinPool Storage
  pool_offer = record {
    rate = λ p. p.rate;
    prefix = λ p. "rujira-fin";
    attributes = λ p. ok (pool_attributes p);
    total = pool_total;
    swap = pool_swap;
    commit = pool_commit;
  }

module _ ⦃cw : Numeric⦄ (laws : IsNumeric cw) where
  open cw use {to_uint128}
  open laws use {to_uint128_lem}

  uint128-eq-some : (n : ℕ) {m : ℕ} → to_uint128 n ≡ some m → (m ≡ n) × (n < uint_limit)
  uint128-eq-some n h = ground (arith, to_uint128_lem n)

  pool_swap-eq-ok :
      (t t' : FinPool) (offer consumed bids : ℕ)
      → pool_swap t offer ≡ ok ((consumed, bids), t')
      → (consumed ≤ offer)
        × (t'.pool.total + bids ≡ t.pool.total)
        × (0 < offer → 0 < t.pool.total → 0 < consumed + bids)
  unfolding pool_swap
  pool_swap-eq-ok t t' offer consumed bids e =
      let (rate, e1, r1) = >>=-eq-ok (side_rate t.side t.rate) _ e in
      let ((res, q), e2, r2) = >>=-eq-ok (lift_err bid_pool (distribute t.pool offer rate)) _ r1 in
      let (c, e3, r3) =
        >>=-eq-ok (or_err (to_uint128 res.consumed_offer) conversion_overflow) _ r2 in
      let (b, e4, r4) =
        >>=-eq-ok (or_err (to_uint128 res.consumed_bids) conversion_overflow) _ r3 in
      let d = distribute-IsDistributed laws t.pool q offer rate res (lift_err-eq-ok _ _ e2) in
      let (c_is, c_fits) = uint128-eq-some res.consumed_offer (or_err-eq-ok _ _ e3) in
      let (b_is, b_fits) = uint128-eq-some res.consumed_bids (or_err-eq-ok _ _ e4) in
      subst
        (λ (p : (ℕ × ℕ) × FinPool).
          (p.0.0 ≤ offer)
          × (p.1.pool.total + p.0.1 ≡ t.pool.total)
          × (0 < offer → 0 < t.pool.total → 0 < p.0.0 + p.0.1))
        (ok-injective r4)
        (rw c_is d.within, rw b_is d.conserved, λ h k. rw (c_is, b_is) (d.moves h k))

  pool_total-eq-ok :
      (t : FinPool) {n : ℕ} → pool_total t ≡ ok n → (n ≡ t.pool.total) × (n < uint_limit)
  unfolding pool_total
  pool_total-eq-ok t e =
      let (n_is, fits) = uint128-eq-some t.pool.total (or_panic-eq-ok _ e) in (n_is, omega arith)

  pool_total_fits : (t : FinPool) → t.pool.total < uint_limit → pool_total t ≡ ok t.pool.total
  unfolding pool_total
  pool_total_fits t h = ground (arith, to_uint128_lem t.pool.total)

  -- A pool of the order book keeps to the interface of the exchange.
  pub pool_offer-IsSwappable : IsSwappable pool_offer
  unfolding pool_offer
  pool_offer-IsSwappable = record {
    within = λ t t' offer consumed bids e. (pool_swap-eq-ok t t' offer consumed bids e).0;
    taken = λ t t' offer consumed bids held e h.
        let left = (pool_swap-eq-ok t t' offer consumed bids e).1 in
        let (held_is, fits) = pool_total-eq-ok t h in
        (t'.pool.total, pool_total_fits t' (omega arith), omega arith);
  }

  pub pool_offer-IsProgressing : IsProgressing pool_offer
  unfolding IsProgressing pool_offer
  pool_offer-IsProgressing t t' offer consumed bids held e h pos some_held =
      let (held_is, fits) = pool_total-eq-ok t h in
      (pool_swap-eq-ok t t' offer consumed bids e).2 pos (omega (arith, held_is))
