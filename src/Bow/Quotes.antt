-- ===== src/Bow/Quotes.antt =====
-- One quote after another, of the state that the one before it returns.
use nami_contracts.Base.{
  ℕ, ◌+◌, ◌*◌, ◌/◌, ◌≤◌, ◌<◌, ◌≡◌, refl, sym, ap, subst, ◌∙◌, inl, inr, Bool, true, false, ◌||◌,
  Option, none, some, arith, ltb, leb, ◌==◌, if◌then◌else◌, Bool-cases, Outcome, ok, or_panic,
  >>=-eq-ok, ok-injective, or_panic-eq-ok,
}
use nami_contracts.Numeric.{Numeric, IsNumeric, unit, uint_add-eq-some, uint_sub-eq-some}
use native.Mathlib.Nat.{le_refl}
use mathlib.Core.Option.{some-injective}
use nami_contracts.Bow.State.{StrategyError, XykState, swap, price}
use nami_contracts.Bow.Xyk.{Xyk, quoted, QuoteResponse, quote_of, response_of, sized_response}
use nami_contracts.Bow.Swaps.{IsBalanced, swap-IsSwapped, swap_empty}

-- Where a run of quotes has brought the pool `o`, turned to the offered denom: `total` is what the
-- swaps have given, and the sizes leave the fee of it.
pub record IsQuoted (c : Xyk) (o : XykState) (offered size : ℕ) (w : XykState) (total : ℕ)
    : Type 0 where
  pub x_pos : 0 < o.x
  pub x_is : w.x ≡ o.x + offered
  pub y_is : w.y + total ≡ o.y
  pub k_is : w.k ≡ w.x * w.y
  pub k_le : o.k ≤ w.k
  pub priced : size * unit + total * c.fee ≤ total * unit

module _ ⦃cw : Numeric⦄ (laws : IsNumeric cw) where
  open cw use {multiply_ratio}
  open laws use {uint_add_lem, uint_sub_lem, multiply_ratio_lem}

  chosen-eq-some :
      {A : Type 0} (b : Bool) (r : A) {r' : A} → (if b then none else some r) ≡ some r' → r ≡ r'
  chosen-eq-some true r h = cc
  chosen-eq-some false r h = cc

  priced-lt :
      (total fee size truncated rounded : ℕ)
      → truncated ≡ total * fee / unit
      → rounded ≡ truncated + 1
      → size + rounded ≡ total
      → size * unit + total * fee < total * unit
  priced-lt total fee size truncated rounded e f g = omega arith

  -- The size of a response leaves the fee and one unit, and its data is the state of the swap.
  response_of-IsPriced :
      (c : Xyk) (amount current total : ℕ) (after : XykState) {r : QuoteResponse}
      → response_of c amount current total after ≡ ok (some r)
      → (r.data_blob ≡ some (quoted after)) × (r.size * unit + total * c.fee < total * unit)
  unfolding response_of
  response_of-IsPriced c amount current total after {r} e =
      let (truncated, e1, r1) = >>=-eq-ok (or_panic (multiply_ratio total c.fee unit)) _ e in
      let (rounded, e2, r2) = >>=-eq-ok (or_panic (cw.uint_add truncated 1)) _ r1 in
      let (size, e3, r3) = >>=-eq-ok (or_panic (cw.uint_sub total rounded)) _ r2 in
      let (rate, e4, r4) = >>=-eq-ok (or_panic (cw.from_ratio size amount)) _ r3 in
      let f1 : truncated ≡ total * c.fee / unit =
        ground (arith, or_panic-eq-ok _ e1, multiply_ratio_lem total c.fee unit) in
      let (f2, l) = uint_add-eq-some laws truncated 1 (or_panic-eq-ok _ e2) in
      let f3 = uint_sub-eq-some laws total rounded (or_panic-eq-ok _ e3) in
      let same = chosen-eq-some (leb current rate || rate == 0) _ (ok-injective r4) in
      subst
        (λ (q : QuoteResponse).
          (q.data_blob ≡ some (quoted after)) × (q.size * unit + total * c.fee < total * unit))
        same (refl, priced-lt total c.fee size truncated rounded f1 f2 f3)

  sized_response-IsPriced :
      (c : Xyk) (amount current total : ℕ) (after : XykState) {r : QuoteResponse}
      → sized_response c amount current total after ≡ ok (some r)
      → (r.data_blob ≡ some (quoted after)) × (r.size * unit + total * c.fee < total * unit)
  unfolding sized_response
  sized_response-IsPriced c amount current total after {r} e =
      elim (Bool-cases (ltb amount c.min_quote || ltb total c.min_quote)) [
        | inl small ↦ none_given (rw small at e)
        | inr large ↦ response_of-IsPriced c amount current total after (rw large at e)
      ]
    where
      none_given :
          ◌≡◌ {A = Outcome StrategyError (Option QuoteResponse)} (ok none) (ok (some r))
          → (r.data_blob ≡ some (quoted after)) × (r.size * unit + total * c.fee < total * unit)
      none_given h = cc

  quote_of-eq-ok :
      (c : Xyk) (w : XykState) (amount : ℕ) {r : QuoteResponse}
      → multiply_ratio w.x c.step unit ≡ some amount
      → quote_of c w ≡ ok (some r)
      → (total : ℕ) × (after : XykState) × (swap w amount ≡ ok (total, after))
        × (r.data_blob ≡ some (quoted after))
        × (r.size * unit + total * c.fee < total * unit)
  unfolding quote_of
  quote_of-eq-ok c w amount {r} e h =
      let (found, e1, r1) = >>=-eq-ok (or_panic (multiply_ratio w.x c.step unit)) _ h in
      let (current, e2, r2) = >>=-eq-ok (price w) _ r1 in
      let ((total, after), e3, r3) = >>=-eq-ok (swap w found) _ r2 in
      let same : found ≡ amount = some-injective _ _ (sym (or_panic-eq-ok _ e1) ∙ e) in
      let (blob_is, priced) = sized_response-IsPriced c found current total after r3 in
      (total, after, subst (λ (n : ℕ). swap w n ≡ ok (total, after)) same e3, blob_is, priced)

  -- One more quote of a working state.
  pub quote_of-IsQuoted :
      (c : Xyk) (o w : XykState) (offered size total amount : ℕ) {r : QuoteResponse}
      → IsQuoted c o offered size w total
      → multiply_ratio w.x c.step unit ≡ some amount
      → quote_of c w ≡ ok (some r)
      → (t : ℕ) × (after : XykState) × (r.data_blob ≡ some (quoted after))
        × IsQuoted c o (offered + amount) (size + r.size) after t
  quote_of-IsQuoted c o w offered size total amount {r} q e h =
      let (given, after, run, blob_is, priced) = quote_of-eq-ok c w amount e h in
      let pos : 0 < w.x = omega (arith, q.x_pos, q.x_is) in
      let m = swap-IsSwapped laws w after amount given pos run in
      (
        total + given,
        after,
        blob_is,
        record {
          x_pos = q.x_pos;
          x_is = omega (arith, q.x_is, m.x_is);
          y_is = omega (arith, q.y_is, m.y_is);
          k_is = m.k_is;
          k_le = omega (arith, q.k_le, m.k_le);
          priced = omega (arith, q.priced, priced);
        },
      )

  quoted_empty :
      (c : Xyk) (o : XykState) (amount : ℕ) {r : QuoteResponse}
      → o.x ≡ 0
      → multiply_ratio o.x c.step unit ≡ some amount
      → ¬ (quote_of c o ≡ ok (some r))
  quoted_empty c o amount {r} z e h =
      let (given, after, run, blob_is, priced) = quote_of-eq-ok c o amount e h in
      let none_given : given ≡ 0 =
        ap (λ p. p.0) (ok-injective (sym run ∙ swap_empty laws o amount z)) in
      absurd given (r.size * unit) c.fee none_given priced
    where
      absurd : (g a f : ℕ) → g ≡ 0 → ¬ (a + g * f < g * unit)
      absurd g a f z l = grind arith

  -- A quote of the stored state.
  pub first-IsQuoted :
      (c : Xyk) (o : XykState) (amount : ℕ) {r : QuoteResponse}
      → IsBalanced o
      → multiply_ratio o.x c.step unit ≡ some amount
      → quote_of c o ≡ ok (some r)
      → (t : ℕ) × (after : XykState) × (r.data_blob ≡ some (quoted after))
        × IsQuoted c o (0 + amount) (0 + r.size) after t
  first-IsQuoted c o amount b e h = elim (Bool-cases (o.x == 0)) [
    | inl z ↦ elim (quoted_empty c o amount (ground arith) e h) [ ]
    | inr pos ↦
        quote_of-IsQuoted c o o 0 0 0 amount
          (record {
            x_pos = ground arith;
            x_is = omega arith;
            y_is = omega arith;
            k_is = b.k_is;
            k_le = le_refl o.k;
            priced = omega arith;
          })
          e h
  ]
