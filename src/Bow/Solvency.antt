-- ===== src/Bow/Solvency.antt =====
-- The shares of a pool against the root of the product of its reserves.
use nami_contracts.Base.{
  ℕ, ◌+◌, ◌*◌, ◌≤◌, ◌<◌, min, String, ◌≡◌, refl, sym, subst, ◌∙◌, inl, inr, ◌||◌, some, List, arith,
  leb, ◌==◌, str_eq, Bool-cases, ok, ensure, or_err, or_panic, >>=-eq-ok, ok-injective,
  or_err-eq-ok, or_panic-eq-ok,
}
use nami_contracts.Numeric.{Numeric, IsNumeric, unit, uint_add-eq-some, uint_sub-eq-some}
use native.Mathlib.Nat.{mul-le-mul, div-mul-le_self}
use nami_contracts.Chain.{Coin, coin, Host}
use nami_contracts.Bow.State.{
  conversion_overflow, overflow, insufficient_return, XykState, invert, swap, set,
}
use nami_contracts.Bow.Xyk.{
  Xyk, orient, balance_of, deposit_fee, later_shares, first_shares, shares_minted, deposit,
  withdraw_part, withdraw, validate_swap,
}
use nami_contracts.Bow.Coverage.{issued-covers, left-covers, left-ge}
use nami_contracts.Bow.Swaps.{IsBalanced, swap-IsSwapped, swap_empty, orient-IsBalanced}

pub record IsSolvent (s : XykState) : Type 0 where
  pub balanced : IsBalanced s
  pub covered : s.shares * s.shares ≤ s.k

module _ ⦃cw : Numeric⦄ (laws : IsNumeric cw) where
  open cw use {multiply_ratio, u256_multiply_ratio, isqrt, to_uint128}
  open laws use {
    uint_add_lem, uint_sub_lem, multiply_ratio_lem, u256_add_lem, u256_sub_lem, u256_mul_lem,
    u256_multiply_ratio_lem, to_uint128_lem, isqrt_lem,
  }

  later_shares-IsCovered :
      (c : Xyk) (s : XykState) (x y : ℕ) {minted : ℕ}
      → s.shares * s.shares ≤ s.k
      → later_shares c s x y ≡ ok minted
      → (s.shares + minted) * (s.shares + minted) ≤ (x + s.x) * (y + s.y)
  unfolding later_shares
  later_shares-IsCovered c s x y {minted} h e =
      let (by_x, e1, r1) = >>=-eq-ok (or_panic (u256_multiply_ratio x s.shares s.x)) _ e in
      let (by_y, e2, r2) = >>=-eq-ok (or_panic (u256_multiply_ratio y s.shares s.y)) _ r1 in
      let (x_sum, e3, r3) = >>=-eq-ok (or_err (cw.u256_add x s.x) overflow) _ r2 in
      let (y_sum, e4, r4) = >>=-eq-ok (or_err (cw.u256_add y s.y) overflow) _ r3 in
      let (product, e5, r5) = >>=-eq-ok (or_err (cw.u256_mul x_sum y_sum) overflow) _ r4 in
      let (delta, e6, r6) =
        >>=-eq-ok (or_err (cw.u256_sub (isqrt product) (isqrt s.k)) overflow) _ r5 in
      let (shares, e7, r7) =
        >>=-eq-ok (or_panic (u256_multiply_ratio delta s.shares (isqrt s.k))) _ r6 in
      let (fee, e8, r8) = >>=-eq-ok (deposit_fee c shares (min by_x by_y)) _ r7 in
      let f3 : x_sum ≡ x + s.x = ground (arith, or_err-eq-ok _ _ e3, u256_add_lem x s.x) in
      let f4 : y_sum ≡ y + s.y = ground (arith, or_err-eq-ok _ _ e4, u256_add_lem y s.y) in
      let f5 : product ≡ x_sum * y_sum =
        ground (arith, or_err-eq-ok _ _ e5, u256_mul_lem x_sum y_sum) in
      let f6 : delta + isqrt s.k ≡ isqrt product =
        ground (arith, or_err-eq-ok _ _ e6, u256_sub_lem (isqrt product) (isqrt s.k)) in
      let (pos, f7) = ratio-eq-some delta s.shares (isqrt s.k) (or_panic-eq-ok _ e7) in
      let f8 : minted ≤ shares = ground (arith, or_panic-eq-ok _ r8, u256_sub_lem shares fee) in
      let (least, most) = isqrt_lem s.k in
      let (kept, high) = isqrt_lem product in
      let product_is : product ≡ (x + s.x) * (y + s.y) = rw (f3, f4) at f5 in
      subst (λ (n : ℕ). (s.shares + minted) * (s.shares + minted) ≤ n) product_is
        (issued-covers s.shares s.k (isqrt s.k) minted delta shares (isqrt product) product h most
          pos f7 f8 f6 kept)
    where
      ratio-eq-some :
          (a n d : ℕ) {r : ℕ} → u256_multiply_ratio a n d ≡ some r → (0 < d) × (r * d ≤ a * n)
      ratio-eq-some a n d h =
          ground (arith, u256_multiply_ratio_lem a n d, div-mul-le_self (a * n) d)

  first_shares-IsCovered :
      (x y : ℕ) {minted : ℕ} → first_shares x y ≡ ok minted → minted * minted ≤ x * y
  unfolding first_shares
  first_shares-IsCovered x y {minted} e =
      let (least, most) = isqrt_lem (x * y) in ground (arith, u256_mul_lem x y)

  shares_minted-IsCovered :
      (c : Xyk) (s : XykState) (x y : ℕ) {minted : ℕ}
      → s.shares * s.shares ≤ s.k
      → shares_minted c s x y ≡ ok minted
      → (s.shares + minted) * (s.shares + minted) ≤ (x + s.x) * (y + s.y)
  unfolding shares_minted
  shares_minted-IsCovered c s x y {minted} h e = elim (Bool-cases (s.shares == 0)) [
    | inl z ↦
        let none_yet : s.shares ≡ 0 = ground arith in
        let first = first_shares-IsCovered x y (rw z at e) in
        let more = mul-le-mul (le_add x s.x) (le_add y s.y) in rw none_yet (omega arith)
    | inr nz ↦ later_shares-IsCovered c s x y h (rw nz at e)
  ]
    where
      le_add : (a b : ℕ) → a ≤ a + b
      le_add a b = omega arith

  set-eq-ok :
      (s t : XykState) (x y : ℕ)
      → set s x y ≡ ok t
      → (t.x ≡ x) × (t.y ≡ y) × (t.k ≡ x * y) × (t.shares ≡ s.shares)
  unfolding set
  set-eq-ok s t x y e = ground (arith, u256_mul_lem x y)

  pub deposit-IsSolvent :
      (c : Xyk) (s t : XykState) (funds : List Coin) (minted : ℕ)
      → IsSolvent s
      → deposit c s funds ≡ ok (minted, t)
      → IsSolvent t × (t.shares ≡ s.shares + minted)
  unfolding deposit
  deposit-IsSolvent c s t funds minted v e =
      let x = balance_of funds c.x in
      let y = balance_of funds c.y in
      let (shares, e1, r1) = >>=-eq-ok (shares_minted c s x y) _ e in
      let (issued, e2, r2) = >>=-eq-ok (or_err (to_uint128 shares) conversion_overflow) _ r1 in
      let (x_sum, e3, r3) = >>=-eq-ok (or_panic (cw.uint_add s.x x)) _ r2 in
      let (y_sum, e4, r4) = >>=-eq-ok (or_panic (cw.uint_add s.y y)) _ r3 in
      let (u, e5, r5) = >>=-eq-ok (set s x_sum y_sum) _ r4 in
      let (total, e6, r6) = >>=-eq-ok (or_panic (cw.uint_add u.shares issued)) _ r5 in
      let f1 = shares_minted-IsCovered c s x y v.covered e1 in
      let f2 : issued ≡ shares = ground (arith, or_err-eq-ok _ _ e2, to_uint128_lem shares) in
      let (f3, l3) = uint_add-eq-some laws s.x x (or_panic-eq-ok _ e3) in
      let (f4, l4) = uint_add-eq-some laws s.y y (or_panic-eq-ok _ e4) in
      let (g1, g2, g3, g4) = set-eq-ok s u x_sum y_sum e5 in
      let (f6, l6) = uint_add-eq-some laws u.shares issued (or_panic-eq-ok _ e6) in
      let covered : total * total ≤ u.k = rw (f6, g4, f2, g3, f3, f4) (omega (arith, f1)) in
      subst (λ (p : ℕ × XykState). IsSolvent p.1 × (p.1.shares ≡ s.shares + p.0)) (ok-injective r6)
        (
          record {
            balanced = record {
              x_fits = omega (arith, g1, f3, l3);
              y_fits = omega (arith, g2, f4, l4);
              k_is = rw (g1, g2) g3;
            };
            covered = covered;
          },
          rw (f6, g4) refl,
        )

  ratio-eq-some : (a n d : ℕ) {r : ℕ} → multiply_ratio a n d ≡ some r → (0 < d) × (r * d ≤ a * n)
  ratio-eq-some a n d h = ground (arith, multiply_ratio_lem a n d, div-mul-le_self (a * n) d)

  withdraw_part-IsSolvent :
      (c : Xyk) (s t : XykState) (amount : ℕ) (out : List Coin)
      → IsSolvent s
      → withdraw_part c s amount ≡ ok (out, t)
      → IsSolvent t × (t.shares + amount ≡ s.shares)
  unfolding withdraw_part
  withdraw_part-IsSolvent c s t amount out v e =
      let (x, e1, r1) = >>=-eq-ok (or_panic (multiply_ratio s.x amount s.shares)) _ e in
      let (y, e2, r2) = >>=-eq-ok (or_panic (multiply_ratio s.y amount s.shares)) _ r1 in
      let (x_left, e3, r3) = >>=-eq-ok (or_panic (cw.uint_sub s.x x)) _ r2 in
      let (y_left, e4, r4) = >>=-eq-ok (or_panic (cw.uint_sub s.y y)) _ r3 in
      let (u, e5, r5) = >>=-eq-ok (set s x_left y_left) _ r4 in
      let (rest, e6, r6) = >>=-eq-ok (or_panic (cw.uint_sub u.shares amount)) _ r5 in
      let (pos, f1) = ratio-eq-some s.x amount s.shares (or_panic-eq-ok _ e1) in
      let (pos', f2) = ratio-eq-some s.y amount s.shares (or_panic-eq-ok _ e2) in
      let f3 = uint_sub-eq-some laws s.x x (or_panic-eq-ok _ e3) in
      let f4 = uint_sub-eq-some laws s.y y (or_panic-eq-ok _ e4) in
      let (g1, g2, g3, g4) = set-eq-ok s u x_left y_left e5 in
      let f6 = uint_sub-eq-some laws u.shares amount (or_panic-eq-ok _ e6) ∙ g4 in
      let b = v.balanced in
      let held =
        left-covers s.x s.y s.shares rest x_left y_left pos
          (left-ge s.x s.shares amount rest x x_left f6 f3 f1)
          (left-ge s.y s.shares amount rest y y_left f6 f4 f2) (rw b.k_is at v.covered) in
      subst (λ (p : List Coin × XykState). IsSolvent p.1 × (p.1.shares + amount ≡ s.shares))
        (ok-injective r6)
        (
          record {
            balanced = record {
              x_fits = omega (arith, g1, f3, b.x_fits);
              y_fits = omega (arith, g2, f4, b.y_fits);
              k_is = rw (g1, g2) g3;
            };
            covered = subst (λ (n : ℕ). rest * rest ≤ n) (sym g3) held;
          },
          f6,
        )

  pub withdraw-IsSolvent :
      (host : Host) (c : Xyk) (s t : XykState) (amount : ℕ) (out : List Coin)
      → IsSolvent s
      → withdraw host c s amount ≡ ok (out, t)
      → IsSolvent t
  unfolding withdraw
  withdraw-IsSolvent host c s t amount out v e = elim (Bool-cases (s.shares == 0 || amount == 0)) [
    | inl nothing ↦
        subst (λ (p : List Coin × XykState). IsSolvent p.1) (ok-injective (rw nothing at e)) v
    | inr some_part ↦ elim (Bool-cases (s.shares == amount)) [
      | inl full ↦
          subst (λ (p : List Coin × XykState). IsSolvent p.1)
            (ok-injective (rw (some_part, full) at e)) v
      | inr part ↦
          let ((taken, u), e1, r1) =
            >>=-eq-ok (withdraw_part c s amount) _ (rw (some_part, part) at e) in
          subst (λ (p : List Coin × XykState). IsSolvent p.1) (ok-injective r1)
            (withdraw_part-IsSolvent c s u amount taken v e1).0
    ]
  ]

  swap-IsSolvent :
      (s t : XykState) (amount returned : ℕ)
      → IsSolvent s
      → swap s amount ≡ ok (returned, t)
      → IsSolvent t
  swap-IsSolvent s t amount returned v e = elim (Bool-cases (s.x == 0)) [
    | inl z ↦
        let same = ok-injective (sym (swap_empty laws s amount (ground arith)) ∙ e) in
        subst (λ (p : ℕ × XykState). IsSolvent p.1) same v
    | inr nz ↦
        let m = swap-IsSwapped laws s t amount returned (ground arith) e in
        record {
          balanced = record {
            x_fits = m.x_fits;
            y_fits = omega (arith, m.y_is, v.balanced.y_fits);
            k_is = m.k_is;
          };
          covered = rw m.shares_is (omega (arith, v.covered, m.k_le));
        }
  ]

  orient_covers :
      (c : Xyk) (d : String) (s : XykState)
      → s.shares * s.shares ≤ s.k
      → (orient c d s).shares * (orient c d s).shares ≤ (orient c d s).k
  unfolding orient invert
  orient_covers c d s h = elim (Bool-cases (str_eq d c.y)) [ inl e ↦ rw e h | inr e ↦ rw e h ]

  orient-IsSolvent : (c : Xyk) (d : String) (s : XykState) → IsSolvent s → IsSolvent (orient c d s)
  orient-IsSolvent c d s v = record {
    balanced = orient-IsBalanced c d s v.balanced;
    covered = orient_covers c d s v.covered;
  }

  pub validate_swap-IsSolvent :
      (c : Xyk) (s t : XykState) (offer ask : Coin)
      → IsSolvent s
      → validate_swap c s offer ask ≡ ok (tt, t)
      → IsSolvent t
  unfolding validate_swap
  validate_swap-IsSolvent c s t offer ask v e =
      let ((total, w), e1, r1) = >>=-eq-ok (swap (orient c offer.denom s) offer.amount) _ e in
      let (fee, e2, r2) = >>=-eq-ok (or_panic (multiply_ratio total c.fee unit)) _ r1 in
      let (returned, e3, r3) = >>=-eq-ok (or_panic (cw.uint_sub total fee)) _ r2 in
      let (u, e4, r4) =
        >>=-eq-ok
          (ensure (leb ask.amount returned) (insufficient_return ask (coin returned ask.denom))) _
          r3 in
      let turned = orient-IsSolvent c offer.denom s v in
      let swapped = swap-IsSolvent (orient c offer.denom s) w offer.amount total turned e1 in
      subst (λ (p : Unit {0} × XykState). IsSolvent p.1) (ok-injective r4)
        (orient-IsSolvent c offer.denom w swapped)
