-- ===== src/BidPool/Distribution.antt =====
-- What a distribution takes from the bids and from the offer.
use nami_contracts.Base.{
  ℕ, ◌+◌, ◌-◌, ◌*◌, ◌/◌, ◌≤◌, ◌<◌, ◌≡◌, refl, sym, ap, subst, ◌∙◌, ◌⊎◌, inl, inr, true, not, ◌||◌,
  arith, leb, ◌==◌, Bool-cases, ok, ensure, or_panic, >>=-eq-ok, ok-injective, or_panic-eq-ok,
}
use nami_contracts.Numeric.{Numeric, IsNumeric, unit}
use native.Mathlib.Nat.{mul-le-mul, le_refl, div-le_of_le-mul, lt-div-mul-add, div-mul-le_self}
use nami_contracts.DecimalScaled.{zero_scaled, same_scaled}
use nami_contracts.BidPool.{
  Pool, distribution_error, DistributionResult, increment_epoch, next_epoch, price_of, raised_sum,
  distribute_full, lowered_product, distribute_partial, distribute_some, distribute,
}

-- The bids that are consumed leave the pool, and at most the offer is consumed. At the rate the bids
-- are worth at most what is consumed, up to the last of the 18 decimal places of the price; and what
-- is consumed is worth less than one bid more than the bids, or, where all bids are consumed, it is
-- less than one of the offer more than their price. Something is taken where there is something.
pub record IsDistributed (p : Pool) (offer rate : ℕ) (r : DistributionResult) (q : Pool)
    : Type 0 where
  pub conserved : q.total + r.consumed_bids ≡ p.total
  pub within : r.consumed_offer ≤ offer
  pub worth : r.consumed_bids * unit * unit ≤ r.consumed_offer * rate * unit + rate
  pub moves : 0 < offer → 0 < p.total → 0 < r.consumed_offer + r.consumed_bids
  pub paid_for :
      (r.consumed_offer * rate < r.consumed_bids * unit + unit)
      ⊎ ((r.consumed_bids ≡ p.total) × (r.consumed_offer * rate < r.consumed_bids * unit + rate))

-- The price in whole numbers of `total` at the rate.
abbrev price : ℕ → ℕ → ℕ
price total rate = (total * unit * unit / rate + (unit - 1)) / unit

price-le : (total offer rate : ℕ) → total ≤ offer * rate / unit → price total rate ≤ offer
price-le total offer rate h =
    let value : total * unit ≤ offer * rate = omega arith in
    let scaled : total * unit * unit ≤ rate * (offer * unit) =
      omega (arith, mul-le-mul value (le_refl unit)) in
    let quotient : total * unit * unit / rate ≤ offer * unit = div-le_of_le-mul rate scaled in
    omega arith

price-worth :
    (total rate : ℕ) → 0 < rate → total * unit * unit ≤ price total rate * rate * unit + rate
price-worth total rate pos =
    let q = total * unit * unit / rate in
    let below : q ≤ price total rate * unit = omega arith in
    let near = lt-div-mul-add {a = total * unit * unit} pos in
    omega (arith, mul-le-mul below (le_refl rate), near)

price-exact : (total rate : ℕ) → 0 < rate → price total rate * rate < total * unit + rate
price-exact total rate pos =
    let q = total * unit * unit / rate in
    let above : price total rate * unit ≤ q + (unit - 1) = omega arith in
    let product : q * rate ≤ total * unit * unit =
      omega (arith, div-mul-le_self (total * unit * unit) rate) in
    below (price total rate) q rate (total * unit) pos above product
  where
    below :
        (n q rate worth : ℕ)
        → 0 < rate
        → n * unit ≤ q + (unit - 1)
        → q * rate ≤ worth * unit
        → n * rate < worth + rate
    below n q rate worth pos above product =
        let scaled = mul-le-mul above (le_refl rate) in
        let out : n * rate * unit ≤ q * rate + (unit - 1) * rate = omega (arith, scaled) in
        omega (arith, out, product, pos)

module _ ⦃cw : Numeric⦄ (laws : IsNumeric cw) where
  open cw use {u256_mul, u256_sub, from_ratio256, u256_mul_floor}
  open laws use {
    u256_mul_lem, u256_sub_lem, from_ratio256_lem, to_uint_ceil_lem, u256_mul_floor_lem,
  }

  price_of-eq-ok :
      (total rate : ℕ) {n : ℕ} → price_of total rate ≡ ok n → (0 < rate) × (n ≡ price total rate)
  unfolding price_of
  price_of-eq-ok total rate {n} e =
      let (scaled, e1, r1) = >>=-eq-ok (or_panic (u256_mul total unit)) _ e in
      let (ratio, e2, r2) = >>=-eq-ok (or_panic (from_ratio256 scaled rate)) _ r1 in
      let scaled_is : scaled ≡ total * unit =
        ground (arith, or_panic-eq-ok _ e1, u256_mul_lem total unit) in
      let ratio_is : (0 < rate) × (ratio ≡ scaled * unit / rate) =
        ground (arith, or_panic-eq-ok _ e2, from_ratio256_lem scaled rate) in
      (ratio_is.0, sym (ok-injective r2) ∙ to_uint_ceil_lem ratio ∙ rw (ratio_is.1, scaled_is) refl)

  full-IsDistributed :
      (p q : Pool) (offer rate : ℕ) (r : DistributionResult)
      → p.total ≤ offer * rate / unit
      → distribute_full p rate ≡ ok (r, q)
      → IsDistributed p offer rate r q
  unfolding distribute_full increment_epoch
  full-IsDistributed p q offer rate r h e =
      let (consumed, e1, r1) = >>=-eq-ok (price_of p.total rate) _ e in
      let (sum, e2, r2) = >>=-eq-ok (raised_sum p consumed) _ r1 in
      let (next, e3, r3) = >>=-eq-ok (increment_epoch (record p { sum = sum })) _ r2 in
      let (epoch, e4, r4) = >>=-eq-ok (or_panic (next_epoch p.epoch)) _ e3 in
      let (pos, consumed_is) = price_of-eq-ok p.total rate e1 in
      let emptied : next.total ≡ 0 = ap (λ (t : Pool). t.total) (sym (ok-injective r4)) in
      subst (λ (s : DistributionResult × Pool). IsDistributed p offer rate s.0 s.1)
        (ok-injective r3)
        (record {
          conserved = rw emptied (omega arith);
          within = rw consumed_is (price-le p.total offer rate h);
          worth = rw consumed_is (price-worth p.total rate pos);
          moves = λ h k. omega arith;
          paid_for = inr (refl, rw consumed_is (price-exact p.total rate pos));
        })

  partial-IsDistributed :
      (p q : Pool) (offer rate bids : ℕ) (r : DistributionResult)
      → bids ≡ offer * rate / unit
      → distribute_partial p bids offer ≡ ok (r, q)
      → IsDistributed p offer rate r q
  unfolding distribute_partial
  partial-IsDistributed p q offer rate bids r h e =
      let (sum, e1, r1) = >>=-eq-ok (raised_sum p offer) _ e in
      let (u, e2, r2) = >>=-eq-ok (ensure (not (same_scaled sum p.sum)) distribution_error) _ r1 in
      let (product, e3, r3) = >>=-eq-ok (lowered_product p bids) _ r2 in
      let (v, e4, r4) =
        >>=-eq-ok (ensure (not (same_scaled product zero_scaled)) distribution_error) _ r3 in
      let (total, e5, r5) = >>=-eq-ok (or_panic (u256_sub p.total bids)) _ r4 in
      let left : total + bids ≡ p.total =
        ground (arith, or_panic-eq-ok _ e5, u256_sub_lem p.total bids) in
      subst (λ (s : DistributionResult × Pool). IsDistributed p offer rate s.0 s.1)
        (ok-injective r5)
        (record {
          conserved = left;
          within = le_refl offer;
          worth = floor_worth offer rate bids h;
          moves = λ h k. omega arith;
          paid_for = inl (floor_paid offer rate bids h);
        })
    where
      floor_paid : (o r b : ℕ) → b ≡ o * r / unit → o * r < b * unit + unit
      floor_paid o r b h = omega arith

      floor_worth : (o r b : ℕ) → b ≡ o * r / unit → b * unit * unit ≤ o * r * unit + r
      floor_worth o r b h = omega arith

  some-IsDistributed :
      (p q : Pool) (offer rate : ℕ) (r : DistributionResult)
      → distribute_some p offer rate ≡ ok (r, q)
      → IsDistributed p offer rate r q
  unfolding distribute_some
  some-IsDistributed p q offer rate r e =
      let (bids, e1, r1) = >>=-eq-ok (or_panic (u256_mul_floor offer rate)) _ e in
      let bids_is : bids ≡ offer * rate / unit =
        ground (arith, or_panic-eq-ok _ e1, u256_mul_floor_lem offer rate) in
      elim (Bool-cases (leb p.total bids)) [
        | inl full ↦
            full-IsDistributed p q offer rate r (rw bids_is at (leb→le full)) (rw full at r1)
        | inr part ↦ partial-IsDistributed p q offer rate bids r bids_is (rw part at r1)
      ]
    where
      leb→le : {a b : ℕ} → leb a b ≡ true → a ≤ b
      leb→le h = ground arith

  -- A distribution that succeeds takes the bids that it consumes out of the pool, consumes at most
  -- the offer, and consumes bids that at the rate are worth at most what it consumes of the offer, up
  -- to the last of 18 decimal places of the price. What it consumes of the offer is worth less than
  -- one bid more than the bids, or, where it consumes all bids, it is less than one of the offer more
  -- than their price.
  pub distribute-IsDistributed :
      (p q : Pool) (offer rate : ℕ) (r : DistributionResult)
      → distribute p offer rate ≡ ok (r, q)
      → IsDistributed p offer rate r q
  unfolding distribute
  distribute-IsDistributed p q offer rate r e = elim (Bool-cases (offer == 0 || p.total == 0)) [
    | inl none_taken ↦
        subst (λ (s : DistributionResult × Pool). IsDistributed p offer rate s.0 s.1)
          (ok-injective (rw none_taken at e))
          (record {
            conserved = omega arith;
            within = omega arith;
            worth = omega arith;
            moves = λ h k. elim (something h k none_taken) [ ];
            paid_for = inl (omega arith);
          })
    | inr some_taken ↦ some-IsDistributed p q offer rate r (rw some_taken at e)
  ]
    where
      something : 0 < offer → 0 < p.total → (offer == 0 || p.total == 0) ≡ true → ⊥
      something h k e = ground arith
