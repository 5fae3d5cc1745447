-- ===== src/Exchange/Swapper/Balance.antt =====
-- What a swap takes from the offers of liquidity, against what the taker and the fee get.
use nami_contracts.Base.{
  ℕ, ◌+◌, ◌*◌, ◌/◌, ◌≤◌, ◌<◌, ◌≡◌, refl, sym, subst, ◌∙◌, ◌⊎◌, Option, none, some, List, [], ◌++◌,
  arith, unwrap_or_default, ok, or_panic, >>=-eq-ok, ok-injective, ensure-eq-ok, or_panic-eq-ok,
  length,
}
use nami_contracts.Numeric.{
  Numeric, IsNumeric, unit, uint_sub-eq-some, from_ratio_one, to_uint_ceil_bounds, whole-mul,
}
use nami_contracts.Exchange.Interface.{Swappable, IsSwappable, insufficient_return}
use nami_contracts.Exchange.Swapper.{Swapper, SwapResult, new, reaches, swap_all, charge, swap}
use nami_contracts.Exchange.Swapper.Totals.{Totals, swap_all-IsRun}

reaches-eq-ok :
    (returned : ℕ) (least : Option ℕ) {u : Unit {0}}
    → reaches returned least ≡ ok u
    → unwrap_or_default least ≤ returned
reaches-eq-ok returned none e = omega arith
reaches-eq-ok returned (some n) e =
    ground (arith, ensure-eq-ok _ (insufficient_return n returned) e)

module _ {T S : Type 0} ⦃cw : Numeric⦄ (laws : IsNumeric cw) {i : Swappable T S}
    (is : IsSwappable i) where
  open laws use {dec_mul_lem}

  charge-eq-ok :
      (s : Swapper T) {fee returned : ℕ}
      → charge i s ≡ ok (fee, returned)
      → (returned + fee ≡ s.returned)
        × (s.returned * s.fee ≤ fee * unit)
        × (fee * unit < s.returned * s.fee + unit)
  unfolding charge
  charge-eq-ok s {fee} {returned} e =
      let (whole, e1, r1) = >>=-eq-ok (or_panic (cw.from_ratio s.returned 1)) _ e in
      let (product, e2, r2) = >>=-eq-ok (or_panic (cw.dec_mul whole s.fee)) _ r1 in
      let (left, e3, r3) =
        >>=-eq-ok (or_panic (cw.uint_sub s.returned (cw.to_uint_ceil product))) _ r2 in
      let whole_is = from_ratio_one laws s.returned (or_panic-eq-ok _ e1) in
      let product_is : product ≡ whole * s.fee / unit =
        ground (arith, or_panic-eq-ok _ e2, dec_mul_lem whole s.fee) in
      let exact : product ≡ s.returned * s.fee =
        rw whole_is at product_is ∙ whole-mul s.returned s.fee in
      let sum = uint_sub-eq-some laws s.returned (cw.to_uint_ceil product) (or_panic-eq-ok _ e3) in
      let (le, lt) = to_uint_ceil_bounds laws product in
      subst
        (λ (p : ℕ × ℕ).
          (p.1 + p.0 ≡ s.returned)
          × (s.returned * s.fee ≤ p.0 * unit)
          × (p.0 * unit < s.returned * s.fee + unit))
        (ok-injective r3) (sum, rw (sym exact) le, rw (sym exact) lt)

  -- If every offer of liquidity has a total and keeps to the interface, a swap that succeeds takes
  -- its return and its fee from the totals of the offers that it has used, which are the first ones
  -- of the list, and leaves the others as they are; the fee is the rate of both, rounded up; the
  -- return is not below the minimum; and either nothing of the offer remains, or every offer of
  -- liquidity is used.
  pub swap_balances :
      (offer fee : ℕ) (least : Option ℕ) (ts : List T) (held : ℕ) (r : SwapResult)
      (after : Swapper T)
      → Totals i ts held
      → swap i (new offer least fee) ts ≡ ok (r, after)
      → (used unused : List T) × (rest left : ℕ) × (ts ≡ used ++ unused)
        × (length after.pending ≡ length used)
        × Totals i after.pending rest
        × Totals i unused left
        × (rest + left + (r.return_amount + r.fee_amount) ≡ held)
        × ((r.return_amount + r.fee_amount) * fee ≤ r.fee_amount * unit)
        × (r.fee_amount * unit < (r.return_amount + r.fee_amount) * fee + unit)
        × (unwrap_or_default least ≤ r.return_amount)
        × (r.remaining_offer ≤ offer)
        × ((r.remaining_offer ≡ 0) ⊎ (unused ≡ []))
  unfolding swap
  swap_balances offer fee least ts held r after h e =
      let s : Swapper T = new offer least fee in
      let (next, e1, r1) = >>=-eq-ok (swap_all i s ts) _ e in
      let ((charged, returned), e2, r2) = >>=-eq-ok (charge i next) _ r1 in
      let (u, e3, r3) = >>=-eq-ok (reaches returned next.min_return) _ r2 in
      let q = swap_all-IsRun laws is s next ts 0 held refl h e1 in
      let (sum, le, lt) = charge-eq-ok next e2 in
      let enough = reaches-eq-ok returned next.min_return e3 in
      let fee_is : next.fee ≡ fee = q.same_fee in
      subst
        (λ (p : SwapResult × Swapper T).
          (used unused : List T) × (rest left : ℕ) × (ts ≡ used ++ unused)
          × (length p.1.pending ≡ length used)
          × Totals i p.1.pending rest
          × Totals i unused left
          × (rest + left + (p.0.return_amount + p.0.fee_amount) ≡ held)
          × ((p.0.return_amount + p.0.fee_amount) * fee ≤ p.0.fee_amount * unit)
          × (p.0.fee_amount * unit < (p.0.return_amount + p.0.fee_amount) * fee + unit)
          × (unwrap_or_default least ≤ p.0.return_amount)
          × (p.0.remaining_offer ≤ offer)
          × ((p.0.remaining_offer ≡ 0) ⊎ (unused ≡ [])))
        (ok-injective r3)
        (
          q.used,
          q.unused,
          q.rest,
          q.left,
          q.split,
          omega (arith, q.counted),
          q.pending_totals,
          q.unused_totals,
          omega (arith, q.balance, sum),
          rw (sum, sym fee_is) le,
          rw (sum, sym fee_is) lt,
          rw (q.same_least) at enough,
          q.offer_le,
          q.ends,
        )
