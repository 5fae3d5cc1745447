-- ===== src/Fin/MarketMaker.antt =====
-- `MarketMakerOffer` (testing/rujira-fin/src/market_maker.rs): a quote of a market maker as an offer
-- of liquidity, and the book, which joins the pools of fixed and of oracle prices with the quotes.
use nami_contracts.Base.{
  ℕ, ◌+◌, ◌*◌, ◌/◌, ◌≤◌, ◌<◌, String, ◌≡◌, refl, subst, ◌∙◌, inl, inr, Option, some, List, [], ◌∷◌,
  arith, ltb, if◌then◌else◌, Bool-cases, Outcome, ok, ◌>>=◌, or_panic, >>=-eq-ok, ok-injective,
  or_panic-eq-ok,
}
use nami_contracts.Numeric.{Numeric, IsNumeric, unit, uint_sub-eq-some, from_ratio_one, whole-mul}
use native.Mathlib.Nat.{mul-le-mul, le_refl, div-le_of_le-mul}
use nami_contracts.Chain.{Attribute, text, number}
use nami_contracts.Exchange.Interface.{SwapError, SwapCommit, Swappable, IsSwappable, IsProgressing}
use nami_contracts.Exchange.Either.{EitherOrBoth, either, either-IsSwappable}
use nami_contracts.Exchange.Either.Progress.{either-IsProgressing}
use nami_contracts.Fin.Prices.{Side, base, quote, side_name}
use nami_contracts.Fin.Pool.{
  Storage, FinPool, pool_offer, pool_offer-IsSwappable, pool_offer-IsProgressing,
}

-- The commitment is the pair of the offer that the last swap consumed and the bids that it returned.
pub record MarketMakerOffer : Type 0 where
  pub price : ℕ
  pub total : ℕ
  pub side : Side
  pub rate : ℕ
  pub commitment : SwapCommit

module _ ⦃cw : Numeric⦄ where
  open cw use {uint_sub, from_ratio, dec_mul, dec_div, dec_inv, to_uint_floor}

  -- The price of an attribute; one of zero has no inverse, which the base side would show.
  abbrev shown_price : MarketMakerOffer → Option ℕ
  shown_price o = elim o.side [ base ↦ dec_inv o.price | quote ↦ some o.price ]

  unfoldable pub maker_attributes : MarketMakerOffer → Outcome SwapError (List (String × Attribute))
  maker_attributes o = do
    price ← or_panic (shown_price o)
    ok (("price", number price) ∷ ("side", text (side_name o.side)) ∷ [])

  -- What is left of a fill: a part of the total, or nothing.
  unfoldable pub fill :
      MarketMakerOffer → ℕ → ℕ → ℕ → Outcome SwapError ((ℕ × ℕ) × MarketMakerOffer)
  fill o offer offer_value pool_value =
      if ltb offer_value o.total
      then (do
        rest ← or_panic (uint_sub o.total offer_value)
        ok (
          (offer, offer_value),
          record o { total = rest; commitment = record { offered = offer; asked = offer_value } },
        ))
      else ok (
        (pool_value, o.total),
        record o { total = 0; commitment = record { offered = pool_value; asked = o.total } },
      )

  unfoldable pub maker_swap : MarketMakerOffer → ℕ → Outcome SwapError ((ℕ × ℕ) × MarketMakerOffer)
  maker_swap o offer = do
    whole ← or_panic (from_ratio offer 1)
    product ← or_panic (dec_mul whole o.price)
    held ← or_panic (from_ratio o.total 1)
    quotient ← or_panic (dec_div held o.price)
    fill o offer (to_uint_floor product) (to_uint_floor quotient)

  unfoldable pub maker_offer : {S : Type 0} → Swappable MarketMakerOffer S
  maker_offer = record {
    rate = λ o. o.rate;
    prefix = λ o. "rujira-fin";
    attributes = maker_attributes;
    total = λ o. ok o.total;
    swap = maker_swap;
    commit = λ o s. ok (o.commitment, s);
  }

  -- The offers that a swap goes through.
  abbrev pub book : Swappable (EitherOrBoth (EitherOrBoth FinPool FinPool) MarketMakerOffer) Storage
  book = either (either pool_offer pool_offer) maker_offer

-- A total that is worth no more than the offer is bought with no more than the offer.
bought-le :
    (offer price total product quotient : ℕ)
    → product ≡ offer * price
    → total ≤ product / unit
    → quotient ≡ total * unit * unit / price
    → quotient / unit ≤ offer
bought-le offer price total product quotient e h f =
    let value : total * unit ≤ offer * price = omega (arith, e, h) in
    let scaled : total * unit * unit ≤ price * (offer * unit) =
      omega (arith, mul-le-mul value (le_refl unit)) in
    let bound : quotient ≤ offer * unit = rw f (div-le_of_le-mul price scaled) in omega arith

module _ ⦃cw : Numeric⦄ (laws : IsNumeric cw) where
  open cw use {uint_sub, from_ratio, dec_mul, dec_div, to_uint_floor}
  open laws use {uint_sub_lem, dec_mul_lem, dec_div_lem, to_uint_floor_lem}

  fill-eq-ok :
      (o o' : MarketMakerOffer) (offer offer_value pool_value consumed bids : ℕ)
      → (o.total ≤ offer_value → pool_value ≤ offer)
      → fill o offer offer_value pool_value ≡ ok ((consumed, bids), o')
      → (consumed ≤ offer)
        × (o'.total + bids ≡ o.total)
        × (0 < offer → 0 < o.total → 0 < consumed + bids)
  unfolding fill
  fill-eq-ok o o' offer offer_value pool_value consumed bids h e =
      elim (Bool-cases (ltb offer_value o.total)) [
        | inl part ↦
            let (rest, e1, r1) =
              >>=-eq-ok (or_panic (uint_sub o.total offer_value)) _ (rw part at e) in
            let left = uint_sub-eq-some laws o.total offer_value (or_panic-eq-ok _ e1) in
            subst Filled (ok-injective r1) (le_refl offer, left, λ pos some_held. omega arith)
        | inr full ↦
            subst Filled (ok-injective (rw full at e))
              (h (ground arith), omega arith, λ pos some_held. omega arith)
      ]
    where
      Filled : (ℕ × ℕ) × MarketMakerOffer → Type 0
      Filled p =
          (p.0.0 ≤ offer)
          × (p.1.total + p.0.1 ≡ o.total)
          × (0 < offer → 0 < o.total → 0 < p.0.0 + p.0.1)

  maker_swap-eq-ok :
      (o o' : MarketMakerOffer) (offer consumed bids : ℕ)
      → maker_swap o offer ≡ ok ((consumed, bids), o')
      → (consumed ≤ offer)
        × (o'.total + bids ≡ o.total)
        × (0 < offer → 0 < o.total → 0 < consumed + bids)
  unfolding maker_swap
  maker_swap-eq-ok o o' offer consumed bids e =
      let (whole, e1, r1) = >>=-eq-ok (or_panic (from_ratio offer 1)) _ e in
      let (product, e2, r2) = >>=-eq-ok (or_panic (dec_mul whole o.price)) _ r1 in
      let (held, e3, r3) = >>=-eq-ok (or_panic (from_ratio o.total 1)) _ r2 in
      let (quotient, e4, r4) = >>=-eq-ok (or_panic (dec_div held o.price)) _ r3 in
      let whole_is = from_ratio_one laws offer (or_panic-eq-ok _ e1) in
      let held_is = from_ratio_one laws o.total (or_panic-eq-ok _ e3) in
      let product_is : product ≡ whole * o.price / unit =
        ground (arith, or_panic-eq-ok _ e2, dec_mul_lem whole o.price) in
      let exact : product ≡ offer * o.price = rw whole_is at product_is ∙ whole-mul offer o.price in
      let quotient_is : quotient ≡ held * unit / o.price =
        ground (arith, or_panic-eq-ok _ e4, dec_div_lem held o.price) in
      let bought = bought-le offer o.price o.total product quotient exact in
      fill-eq-ok o o' offer (to_uint_floor product) (to_uint_floor quotient) consumed bids
        (λ full.
          rw (to_uint_floor_lem quotient)
            (bought (rw (to_uint_floor_lem product) at full) (rw held_is at quotient_is)))
        r4

  pub maker_offer-IsSwappable : {S : Type 0} → IsSwappable (maker_offer {S = S})
  unfolding maker_offer
  maker_offer-IsSwappable = record {
    within = λ o o' offer consumed bids e. (maker_swap-eq-ok o o' offer consumed bids e).0;
    taken = λ o o' offer consumed bids held e h.
        (o'.total, refl, (maker_swap-eq-ok o o' offer consumed bids e).1 ∙ ok-injective h);
  }

  pub maker_offer-IsProgressing : (S : Type 0) → IsProgressing (maker_offer {S = S})
  unfolding IsProgressing maker_offer
  maker_offer-IsProgressing S o o' offer consumed bids held e h pos some_held =
      (maker_swap-eq-ok o o' offer consumed bids e).2 pos (omega (arith, ok-injective h))

  -- The offers of the book keep to the interface of the exchange: what a swap consumes is within
  -- what it is offered, and its bids come out of the totals, for pools of fixed and oracle prices,
  -- for quotes of a market maker, and for those of them that stand at one rate together.
  pub book-IsSwappable : IsSwappable book
  book-IsSwappable =
      either-IsSwappable laws
        (either-IsSwappable laws (pool_offer-IsSwappable laws) (pool_offer-IsSwappable laws))
        maker_offer-IsSwappable

  pub book-IsProgressing : IsProgressing book
  book-IsProgressing =
      either-IsProgressing laws
        (either-IsSwappable laws (pool_offer-IsSwappable laws) (pool_offer-IsSwappable laws))
        maker_offer-IsSwappable
        (either-IsProgressing laws (pool_offer-IsSwappable laws) (pool_offer-IsSwappable laws)
          (pool_offer-IsProgressing laws) (pool_offer-IsProgressing laws))
        (maker_offer-IsProgressing Storage)
