-- ===== src/AssetAllocation.antt =====
-- `AssetAllocation` (packages/nami-rs/src/asset_allocation.rs): one asset of an index by weight. A
-- decimal is its atomics; the oracle is the key that the host's `price` takes.
use nami_contracts.Base.{
  ℕ, zero, suc, ◌+◌, ◌-◌, ◌*◌, ◌/◌, ◌%◌, ◌^◌, ◌≤◌, ◌<◌, min, String, ◌≡◌, refl, sym, ap, subst, ◌∙◌,
  ◌≢◌, ◌↔◌, ◌⊎◌, inl, inr, Bool, true, false, not, ◌&&◌, ◌||◌, Option, none, some, List, [], ◌∷◌,
  ◌++◌, map, arith, ltb, leb, ◌==◌, if◌then◌else◌, str_eq, str_lt, str_eq_iff, ltb→lt, lt→ltb,
  Bool-cases, Option-cases, unwrap_or_default, Outcome, ok, err, panic, ◌>>=◌, ◌>>◌, ensure, or_err,
  or_panic, lift_err, >>=-eq-ok, ok-injective, lift_err-eq-ok, ensure-eq-ok, or_err-eq-ok,
  or_panic-eq-ok, traverse, length, All, All-map, traverse-All, sum_by, is_empty, keep_if, Store,
  lookup, contains, insert, erase, lookup-insert, lookup-erase, Distinct, Distinct-insert,
  Distinct-found, All-lookup,
}
use nami_contracts.Numeric.{Numeric, unit}
use nami_contracts.Chain.{coin, coins, SwapRequest, fin_swap, CosmosMsg, wasm_execute, Host}
pub mod Trades

pub record AssetAllocation : Type 0 where
  pub denom : String
  pub weight : ℕ
  pub swap_contract : Option String
  pub oracle : String
  pub threshold : ℕ
  pub slippage : ℕ

pub data AssetAllocationError : Type 0 where
  std overflow insufficient_funds oracle_error zero_price : AssetAllocationError
  checked_from_ratio no_swap_contract : AssetAllocationError

-- What `snapshot` returns: the balance, the price and the value.
pub record Snapshot : Type 0 where
  pub balance : ℕ
  pub price : ℕ
  pub value : ℕ

-- The side of a trade: its value, the price of what is sold, the price of what is bought, what is sold
-- and how much of it is there.
pub record Side : Type 0 where
  pub delta : ℕ
  pub unit_price : ℕ
  pub slip_price : ℕ
  pub sold : String
  pub available : ℕ

-- The swap message of a trade.
abbrev swap_to : String → Option String → Option ℕ → ℕ → String → CosmosMsg
swap_to contract to min_return amount denom =
    wasm_execute contract (fin_swap (record { min_return = min_return; to = to; callback = none }))
      (coins amount denom)

module _ ⦃cw : Numeric⦄ where
  open cw use {from_ratio, dec_sub, dec_mul, dec_div, to_uint_floor}

  unfoldable pub snapshot : Host → String → AssetAllocation → Outcome AssetAllocationError Snapshot
  snapshot host address a = do
    balance ← or_err (host.query_balance address a.denom) std
    price ← or_err (host.price a.oracle) oracle_error
    ensure (not (price == 0)) zero_price
    whole ← or_panic (from_ratio balance 1)
    value ← or_err (dec_mul whole price) overflow
    ok (record { balance = balance; price = price; value = value })

  unfoldable pub target_value : ℕ → AssetAllocation → Outcome AssetAllocationError ℕ
  target_value total_value a = or_err (dec_mul total_value a.weight) overflow

  -- The side of the trade, from the snapshots and the target.
  unfoldable pub side_of :
      AssetAllocation
      → AssetAllocation
      → Snapshot
      → Snapshot
      → ℕ
      → Outcome AssetAllocationError Side
  side_of a quote_entry quote_snapshot s tgt_val =
      if ltb tgt_val s.value
      then (do
        delta ← or_panic (dec_sub s.value tgt_val)
        ok (record {
          delta = delta;
          unit_price = s.price;
          slip_price = quote_snapshot.price;
          sold = a.denom;
          available = s.balance;
        }))
      else (do
        delta ← or_panic (dec_sub tgt_val s.value)
        ok (record {
          delta = delta;
          unit_price = quote_snapshot.price;
          slip_price = s.price;
          sold = quote_entry.denom;
          available = quote_snapshot.balance;
        }))

  -- The message of `rebalance_msg`, where the allocation has a swap contract.
  unfoldable pub sell : AssetAllocation → Side → ℕ → Outcome AssetAllocationError (Option CosmosMsg)
  sell a side units = elim a.swap_contract [
    | none ↦ ok none
    | some contract_addr ↦ do
      kept ← or_err (dec_sub unit a.slippage) overflow
      least ← or_err (dec_mul side.delta kept) overflow
      returned ← or_err (dec_div least side.slip_price) checked_from_ratio
      ok (some (swap_to contract_addr none (some (to_uint_floor returned)) units side.sold))
  ]

  -- The rest of `rebalance_msg` for a side.
  unfoldable pub trade : AssetAllocation → Side → Outcome AssetAllocationError (Option CosmosMsg)
  trade a side = do
    quotient ← or_err (dec_div side.delta side.unit_price) checked_from_ratio
    let units = to_uint_floor quotient
    if (units == 0) || ltb side.available units then ok none else sell a side units

  unfoldable pub rebalance_msg :
      Host
      → String
      → ℕ
      → AssetAllocation
      → Snapshot
      → AssetAllocation
      → Outcome AssetAllocationError (Option CosmosMsg)
  rebalance_msg host address total_value quote_entry quote_snapshot a = do
    s ← snapshot host address a
    tgt_val ← target_value total_value a
    side ← side_of a quote_entry quote_snapshot s tgt_val
    tolerance ← or_err (dec_mul tgt_val a.threshold) overflow
    if leb side.delta tolerance then ok none else trade a side

  unfoldable pub swap_msg :
      Host
      → String
      → ℕ
      → String
      → Option ℕ
      → AssetAllocation
      → Outcome AssetAllocationError CosmosMsg
  swap_msg host address amount sender min_return a = do
    s ← snapshot host address a
    whole ← or_panic (from_ratio amount 1)
    quotient ← or_err (dec_div whole s.price) checked_from_ratio
    let sell_amt = to_uint_floor quotient
    ensure (ltb 0 sell_amt && leb sell_amt s.balance) insufficient_funds
    contract ← or_err a.swap_contract no_swap_contract
    ok (swap_to contract (some sender) min_return sell_amt a.denom)
