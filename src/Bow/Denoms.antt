-- ===== src/Bow/Denoms.antt =====
-- The denoms of a swap.
use nami_contracts.Base.{
  ℕ, String, ◌≡◌, refl, ◌∙◌, ◌≢◌, false, arith, leb, str_eq, str_eq_iff, ok, ensure, or_panic,
  >>=-eq-ok, ensure-eq-ok,
}
use nami_contracts.Numeric.{Numeric, unit}
use nami_contracts.Chain.{Coin, coin}
use nami_contracts.Bow.State.{XykState, swap}
use nami_contracts.Bow.Xyk.{Xyk, orient, validate_swap}

differ : (d y : String) → d ≢ y → str_eq d y ≡ false
differ d y h = ground (arith, str_eq_iff d y)

module _ ⦃cw : Numeric⦄ where
  open cw use {multiply_ratio}

  -- Which denom is asked for only shows in the error.
  ask_unchecked :
      (c : Xyk) (s t : XykState) (offer : Coin) (amount : ℕ) (e f : String) {u : Unit {0}}
      → validate_swap c s offer (coin amount e) ≡ ok (u, t)
      → validate_swap c s offer (coin amount f) ≡ ok (u, t)
  unfolding validate_swap
  ask_unchecked c s t offer amount e f h =
      let ((total, w), e1, r1) = >>=-eq-ok (swap (orient c offer.denom s) offer.amount) _ h in
      let (fee, e2, r2) = >>=-eq-ok (or_panic (multiply_ratio total c.fee unit)) _ r1 in
      let (returned, e3, r3) = >>=-eq-ok (or_panic (cw.uint_sub total fee)) _ r2 in
      let (u, e4, r4) = >>=-eq-ok (ensure (leb amount returned) _) _ r3 in
      rw (e1, e2, e3, ensure-eq-ok _ _ e4) r4

  offer_unchecked :
      (c : Xyk) (s : XykState) (amount : ℕ) (d e : String) (ask : Coin)
      → d ≢ c.y
      → e ≢ c.y
      → validate_swap c s (coin amount d) ask ≡ validate_swap c s (coin amount e) ask
  unfolding validate_swap orient
  offer_unchecked c s amount d e ask h k = rw (differ d c.y h, differ e c.y k) refl

  -- A swap that pays in X for Y is also accepted, to the same state, for a payment in any other
  -- denom but Y, and for any denom asked.
  pub denoms_unchecked :
      (c : Xyk) (s t : XykState) (offered asked : ℕ) (d e : String)
      → c.x ≢ c.y
      → d ≢ c.y
      → validate_swap c s (coin offered c.x) (coin asked c.y) ≡ ok (tt, t)
      → validate_swap c s (coin offered d) (coin asked e) ≡ ok (tt, t)
  denoms_unchecked c s t offered asked d e x_other other h =
      ask_unchecked c s t (coin offered d) asked c.y e
        (offer_unchecked c s offered d c.x (coin asked c.y) other x_other ∙ h)
