-- ===== src/AssetAllocation/Trades.antt =====
-- What the trades of an allocation sell.
use nami_contracts.Base.{
  ℕ, ◌*◌, ◌/◌, ◌≤◌, ◌<◌, String, ◌≡◌, sym, ap, subst, ◌∙◌, ◌⊎◌, inl, inr, true, false, not, ◌&&◌,
  ◌||◌, Option, none, some, arith, ltb, leb, ◌==◌, Bool-cases, Option-cases, Outcome, ok, ensure,
  or_err, or_panic, >>=-eq-ok, ok-injective, ensure-eq-ok, or_err-eq-ok, or_panic-eq-ok,
}
use nami_contracts.Numeric.{Numeric, IsNumeric, unit, fit-eq-some, from_ratio_one, whole-mul}
use mathlib.Core.Option.{some-injective}
use nami_contracts.AssetAllocation
use nami_contracts.Chain.{coins, fin_swap, CosmosMsg, wasm_execute, Host}
use nami_contracts.AssetAllocation.{
  AssetAllocation, AssetAllocationError, Snapshot, Side, snapshot, side_of, sell, trade,
  rebalance_msg, swap_msg, swap_to,
}

-- A swap that sends `amount` of `denom`, not zero and no more than `available`, to the swap contract.
pub record IsTrade (a : AssetAllocation) (denom : String) (available : ℕ) (msg : CosmosMsg)
    : Type 0 where
  pub contract : String
  pub min_return : Option ℕ
  pub recipient : Option String
  pub amount : ℕ
  pub configured : a.swap_contract ≡ some contract
  pub message :
      msg
      ≡ wasm_execute contract
          (fin_swap (record { min_return = min_return; to = recipient; callback = none }))
          (coins amount denom)
  pub positive : 0 < amount
  pub held : amount ≤ available

no_message :
    {msg : CosmosMsg}
    → ◌≡◌ {A = Outcome AssetAllocationError (Option CosmosMsg)} (ok none) (ok (some msg))
    → ⊥
no_message h = cc

nonzero : (n : ℕ) → not (n == 0) ≡ true → 0 < n
nonzero n h = ground arith

in_range : (n m : ℕ) → ((n == 0) || ltb m n) ≡ false → (0 < n) × (n ≤ m)
in_range n m h = ground arith

enough_held : (n m : ℕ) → (ltb 0 n && leb n m) ≡ true → (0 < n) × (n ≤ m)
enough_held n m h = ground arith

module _ ⦃cw : Numeric⦄ (laws : IsNumeric cw) where
  open laws use {dec_mul_lem, dec_sub_lem}

  pub value_is :
      (balance price whole value : ℕ)
      → cw.from_ratio balance 1 ≡ some whole
      → cw.dec_mul whole price ≡ some value
      → value ≡ balance * price
  value_is balance price whole value h k =
      (fit-eq-some (whole * price / unit) (sym (dec_mul_lem whole price) ∙ k)).0
      ∙ ap (λ (x : ℕ). x * price / unit) (from_ratio_one laws balance h)
      ∙ whole-mul balance price

  -- A snapshot is of the balance and the price that are asked for, and its value is their product.
  pub snapshot-eq-ok :
      (host : Host) (address : String) (a : AssetAllocation) {s : Snapshot}
      → snapshot host address a ≡ ok s
      → (host.query_balance address a.denom ≡ some s.balance)
        × (host.price a.oracle ≡ some s.price)
        × (s.value ≡ s.balance * s.price)
        × (0 < s.price)
  unfolding snapshot
  snapshot-eq-ok host address a h =
      let (balance, e1, h1) = >>=-eq-ok (or_err (host.query_balance address a.denom) _) _ h in
      let (price, e2, h2) = >>=-eq-ok (or_err (host.price a.oracle) _) _ h1 in
      let (t, e3, h3) = >>=-eq-ok (ensure (not (price == 0)) _) _ h2 in
      let (whole, e4, h4) = >>=-eq-ok (or_panic (cw.from_ratio balance 1)) _ h3 in
      let (value, e5, h5) = >>=-eq-ok (or_err (cw.dec_mul whole price) _) _ h4 in
      subst
        (λ (s : Snapshot).
          (host.query_balance address a.denom ≡ some s.balance)
          × (host.price a.oracle ≡ some s.price)
          × (s.value ≡ s.balance * s.price)
          × (0 < s.price))
        (ok-injective h5)
        (
          or_err-eq-ok _ _ e1,
          or_err-eq-ok _ _ e2,
          value_is balance price whole value (or_panic-eq-ok _ e4) (or_err-eq-ok _ _ e5),
          nonzero price (ensure-eq-ok _ _ e3),
        )

  sell-IsTrade :
      (a : AssetAllocation) (side : Side) (units : ℕ) (msg : CosmosMsg)
      → sell a side units ≡ ok (some msg)
      → 0 < units
      → units ≤ side.available
      → IsTrade a side.sold side.available msg
  unfolding sell
  sell-IsTrade a side units msg h p le = elim (Option-cases a.swap_contract) [
    | inl e ↦ absurd (no_message (rw e at h))
    | inr (contract, e) ↦
        let h0 = rw e at h in
        let (kept, e1, h1) = >>=-eq-ok (or_err (cw.dec_sub unit a.slippage) _) _ h0 in
        let (least, e2, h2) = >>=-eq-ok (or_err (cw.dec_mul side.delta kept) _) _ h1 in
        let (returned, e3, h3) = >>=-eq-ok (or_err (cw.dec_div least side.slip_price) _) _ h2 in
        record {
          contract = contract;
          min_return = some (cw.to_uint_floor returned);
          recipient = none;
          amount = units;
          configured = e;
          message = sym (some-injective _ _ (ok-injective h3));
          positive = p;
          held = le;
        }
  ]

  trade-IsTrade :
      (a : AssetAllocation) (side : Side) (msg : CosmosMsg)
      → trade a side ≡ ok (some msg)
      → IsTrade a side.sold side.available msg
  unfolding trade
  trade-IsTrade a side msg h =
      let (quotient, e1, h1) = >>=-eq-ok (or_err (cw.dec_div side.delta side.unit_price) _) _ h in
      elim (Bool-cases
        ((cw.to_uint_floor quotient == 0) || ltb side.available (cw.to_uint_floor quotient))) [
          | inl none_sold ↦ absurd (no_message (rw none_sold at h1))
          | inr sold ↦
              let (p, le) = in_range (cw.to_uint_floor quotient) side.available sold in
              sell-IsTrade a side (cw.to_uint_floor quotient) msg (rw sold at h1) p le
        ]

  -- What is sold, and how much of it there is: the asset, or the quote coin by its snapshot.
  abbrev IsSold : Host → String → AssetAllocation → Snapshot → AssetAllocation → String → ℕ → Type 0
  IsSold host address quote_entry quote_snapshot a denom available =
      ((denom ≡ a.denom) × (host.query_balance address a.denom ≡ some available))
      ⊎ ((denom ≡ quote_entry.denom) × (available ≡ quote_snapshot.balance))

  side-IsSold :
      (host : Host) (address : String) (quote_entry : AssetAllocation) (quote_snapshot : Snapshot)
      (a : AssetAllocation) (s : Snapshot) (tgt_val : ℕ) {side : Side}
      → host.query_balance address a.denom ≡ some s.balance
      → side_of a quote_entry quote_snapshot s tgt_val ≡ ok side
      → IsSold host address quote_entry quote_snapshot a side.sold side.available
  unfolding side_of
  side-IsSold host address quote_entry quote_snapshot a s tgt_val b h =
      ground (arith, dec_sub_lem s.value tgt_val, dec_sub_lem tgt_val s.value)

  -- A rebalance of an allocation that trades sends its swap contract a positive amount of the asset
  -- or of the quote coin, never more than the contract's balance of it.
  pub rebalance_sells :
      (host : Host) (address : String) (total_value : ℕ) (quote_entry : AssetAllocation)
      (quote_snapshot : Snapshot) (a : AssetAllocation) (msg : CosmosMsg)
      → rebalance_msg host address total_value quote_entry quote_snapshot a ≡ ok (some msg)
      → (denom : String) × (available : ℕ) × (((denom ≡ a.denom)
            × (host.query_balance address a.denom ≡ some available))
          ⊎ ((denom ≡ quote_entry.denom) × (available ≡ quote_snapshot.balance)))
        × IsTrade a denom available msg
  unfolding rebalance_msg
  rebalance_sells host address total_value quote_entry quote_snapshot a msg h =
      let (s, e1, h1) = >>=-eq-ok (snapshot host address a) _ h in
      let (tgt_val, e2, h2) = >>=-eq-ok (AssetAllocation.target_value total_value a) _ h1 in
      let (side, e3, h3) = >>=-eq-ok (side_of a quote_entry quote_snapshot s tgt_val) _ h2 in
      let (tolerance, e4, h4) = >>=-eq-ok (or_err (cw.dec_mul tgt_val a.threshold) _) _ h3 in
      let sold =
        side-IsSold host address quote_entry quote_snapshot a s tgt_val
          ((snapshot-eq-ok host address a e1).0) e3 in
      elim (Bool-cases (leb side.delta tolerance)) [
        | inl near ↦ absurd (no_message (rw near at h4))
        | inr far ↦ (side.sold, side.available, sold, trade-IsTrade a side msg (rw far at h4))
      ]

  -- A swap for a withdrawal sends the swap contract a positive amount of the asset, never more than
  -- the contract's balance of it.
  pub swap_sells :
      (host : Host) (address : String) (amount : ℕ) (sender : String) (min_return : Option ℕ)
      (a : AssetAllocation) (msg : CosmosMsg)
      → swap_msg host address amount sender min_return a ≡ ok msg
      → (balance : ℕ) × (host.query_balance address a.denom ≡ some balance)
        × IsTrade a a.denom balance msg
  unfolding swap_msg
  swap_sells host address amount sender min_return a msg h =
      let (s, e1, h1) = >>=-eq-ok (snapshot host address a) _ h in
      let (whole, e2, h2) = >>=-eq-ok (or_panic (cw.from_ratio amount 1)) _ h1 in
      let (quotient, e3, h3) = >>=-eq-ok (or_err (cw.dec_div whole s.price) _) _ h2 in
      let (t, e4, h4) =
        >>=-eq-ok
          (ensure (ltb 0 (cw.to_uint_floor quotient) && leb (cw.to_uint_floor quotient) s.balance)
            _)
          _ h3 in
      let (contract, e5, h5) = >>=-eq-ok (or_err a.swap_contract _) _ h4 in
      let (p, le) = enough_held (cw.to_uint_floor quotient) s.balance (ensure-eq-ok _ _ e4) in
      (
        s.balance,
        (snapshot-eq-ok host address a e1).0,
        record {
          contract = contract;
          min_return = min_return;
          recipient = some sender;
          amount = cw.to_uint_floor quotient;
          configured = or_err-eq-ok _ _ e5;
          message = sym (ok-injective h5);
          positive = p;
          held = le;
        },
      )
