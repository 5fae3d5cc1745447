-- ===== src/IndexFixed/Deposits.antt =====
-- What a deposit into the basket has to bring, and what it mints.
use nami_contracts.Base.{
  ℕ, ◌+◌, ◌*◌, ◌/◌, ◌≤◌, ◌<◌, String, ◌≡◌, sym, ap, subst, ◌∙◌, Option, none, some, List, [], ◌∷◌,
  arith, unwrap_or_default, ok, or_err, or_panic, >>=-eq-ok, ok-injective, or_err-eq-ok,
  or_panic-eq-ok, All,
}
use nami_contracts.Numeric.{Numeric, IsNumeric, unit, from_ratio-eq-some, floor_ratio}
use nami_contracts.Chain.{Coin}
use nami_contracts.IndexFixed.Vault.{Allocations, fund_of, agree, deposit_loop, deposit}

-- The funds hold `shares` times the amount per share of an allocation, and less than one more.
pub record IsBasket (funds : List Coin) (shares : ℕ) (e : String × (ℕ × String)) : Type 0 where
  pub amount : ℕ
  pub received : fund_of e.0 funds ≡ some amount
  pub weighted : 0 < e.1.0
  pub covered : shares * e.1.0 ≤ amount
  pub tight : amount < shares * e.1.0 + e.1.0

abbrev Agrees : Option ℕ → ℕ → Type 0
Agrees none n = Unit
Agrees (some k) n = k ≡ n

agree-eq-ok :
    (share : Option ℕ) (n : ℕ) {r : Option ℕ} → agree share n ≡ ok r → (r ≡ some n) × Agrees share n
unfolding agree
agree-eq-ok none n h = ground arith
agree-eq-ok (some k) n h = ground arith

quotient_bounds : (a d n : ℕ) → 0 < d → a / d ≡ n → (n * d ≤ a) × (a < n * d + d)
quotient_bounds a d n p e = grind arith

module _ ⦃cw : Numeric⦄ (laws : IsNumeric cw) where
  open laws use {from_ratio_lem, to_uint_floor_lem}

  -- The whole number of shares that an amount is worth.
  floor-eq :
      (amount required : ℕ) {units : ℕ}
      → cw.from_ratio amount required ≡ some units
      → (0 < required) × (cw.to_uint_floor units ≡ amount / required)
  floor-eq amount required {units} h =
      let (p, e) = from_ratio-eq-some laws amount required h in
      (p, to_uint_floor_lem units ∙ ap (λ (x : ℕ). x / unit) e ∙ floor_ratio amount required p)

  loop-All :
      (funds : List Coin) (m : Allocations) (share : Option ℕ) {r : Option ℕ} (n : ℕ)
      → deposit_loop funds m share ≡ ok r
      → unwrap_or_default r ≡ n
      → All (IsBasket funds n) m × Agrees share n
  unfolding deposit_loop
  loop-All funds [] none n h e = (tt, tt)
  loop-All funds [] (some k) n h e = (tt, ap unwrap_or_default (ok-injective h) ∙ e)
  loop-All funds ((denom, (required, contract)) ∷ rest) share n h e =
      let (amount, e1, h1) = >>=-eq-ok (or_err (fund_of denom funds) _) _ h in
      let (units, e2, h2) = >>=-eq-ok (or_panic (cw.from_ratio amount required)) _ h1 in
      let (share', e3, h3) = >>=-eq-ok (agree share (cw.to_uint_floor units)) _ h2 in
      let (rest_all, agreed) = loop-All funds rest share' n h3 e in
      let (same, before) = agree-eq-ok share (cw.to_uint_floor units) e3 in
      let (positive, whole) = floor-eq amount required (or_panic-eq-ok _ e2) in
      let k : cw.to_uint_floor units ≡ n = rw same at agreed in
      let quotient : amount / required ≡ n = sym whole ∙ k in
      (
        (
          record {
            amount = amount;
            received = or_err-eq-ok _ _ e1;
            weighted = positive;
            covered = (quotient_bounds amount required n positive quotient).0;
            tight = (quotient_bounds amount required n positive quotient).1;
          },
          rest_all,
        ),
        subst (Agrees share) k before,
      )

  -- A deposit that goes through brings whole baskets: each allocation has a positive amount per share,
  -- and its funds cover the minted shares and are short of covering one more.
  pub deposit-IsBasket :
      (m : Allocations) (funds : List Coin) (n : ℕ)
      → deposit m funds ≡ ok n
      → All (IsBasket funds n) m
  unfolding deposit
  deposit-IsBasket m funds n h =
      let (share, e, h1) = >>=-eq-ok (deposit_loop funds m none) _ h in
      (loop-All funds m none n e (ok-injective h1)).0
