-- ===== src/Bow/Runs.antt =====
-- A run of quotes, each with the data that the one before it returns, and the swap that takes them
-- all.
use nami_contracts.Base.{
  ℕ, ◌+◌, ◌-◌, ◌*◌, ◌/◌, ◌≤◌, ◌<◌, String, ◌≡◌, refl, sym, ◌∙◌, ◌⊎◌, inl, inr, true, Option, none,
  some, arith, leb, ◌==◌, Bool-cases, ok, ok-injective,
}
use nami_contracts.Numeric.{Numeric, IsNumeric, unit, uint_limit}
use native.Mathlib.Nat.{mul-le-mul, le_refl}
use nami_contracts.Chain.{Coin, coin}
use nami_contracts.Bow.State.{XykState, swap}
use nami_contracts.Bow.Xyk.{
  Xyk, orient, QuoteData, quoted, QuoteRequest, QuoteResponse, working_state, quote_of, quote,
  validate_swap,
}
use nami_contracts.Bow.Swaps.{
  IsBalanced, ceil_ratio, ceil_ratio_le, swap_total, swap_empty, orient-IsBalanced,
}
use nami_contracts.Bow.Quotes.{IsQuoted, quote_of-IsQuoted, first-IsQuoted}

module _ ⦃cw : Numeric⦄ where
  open cw use {multiply_ratio}

  -- A run of quotes for the denom `d`: the data of the last one, the total of the amounts that they
  -- are for, and the total of their sizes.
  pub data Quotes (c : Xyk) (s : XykState) (d : String) : Option QuoteData → ℕ → ℕ → Type 0 where
    first : Quotes c s d none 0 0
    next :
        {blob : Option QuoteData} {offered size amount : ℕ} {w : XykState} {r : QuoteResponse}
        (req : QuoteRequest)
        → Quotes c s d blob offered size
        → req.data_blob ≡ blob
        → req.offer_denom ≡ d
        → working_state c s req ≡ ok w
        → multiply_ratio w.x c.step unit ≡ some amount
        → quote c s req ≡ ok (some r)
        → Quotes c s d r.data_blob (offered + amount) (size + r.size)

module _ ⦃cw : Numeric⦄ (laws : IsNumeric cw) where
  open cw use {multiply_ratio}
  open laws use {uint_sub_lem, multiply_ratio_lem}

  -- What a run of quotes has come to: nothing, or the data of a state.
  IsRun : Xyk → XykState → Option QuoteData → ℕ → ℕ → Type 0
  IsRun c o blob offered size =
      ((blob ≡ none) × (offered ≡ 0) × (size ≡ 0))
      ⊎ ((w : XykState) × (total : ℕ) × (blob ≡ some (quoted w))
          × IsQuoted c o offered size w total)

  working_first :
      (c : Xyk) (s : XykState) (d : String) (req : QuoteRequest)
      → req.data_blob ≡ none
      → req.offer_denom ≡ d
      → working_state c s req ≡ ok (orient c d s)
  unfolding working_state
  working_first c s d req e f = rw (e, f) refl

  working_later :
      (c : Xyk) (s : XykState) (req : QuoteRequest) (w : XykState)
      → req.data_blob ≡ some (quoted w)
      → working_state c s req ≡ ok w
  unfolding working_state
  working_later c s req w e = rw e refl

  quote_of_working :
      (c : Xyk) (s w : XykState) (req : QuoteRequest) {r : Option QuoteResponse}
      → working_state c s req ≡ ok w
      → quote c s req ≡ ok r
      → quote_of c w ≡ ok r
  unfolding quote
  quote_of_working c s w req e h = rw e at h

  Quotes-IsRun :
      (c : Xyk) (s : XykState) (d : String) {blob : Option QuoteData} {offered size : ℕ}
      → IsBalanced (orient c d s)
      → Quotes c s d blob offered size
      → IsRun c (orient c d s) blob offered size
  unfolding IsRun
  Quotes-IsRun c s d b first = inl (refl, refl, refl)
  Quotes-IsRun c s d b (next {blob} {offered} {size} {amount} {w} {r} req run e1 e2 e3 e4 e5) =
      let priced = quote_of_working c s w req e3 e5 in
      elim (Quotes-IsRun c s d b run) [
        | inl (n, no_offer, no_size) ↦
            let at_start = ok-injective (sym e3 ∙ working_first c s d req (e1 ∙ n) e2) in
            let (t, after, blob_is, q) =
              first-IsQuoted laws c (orient c d s) amount b (rw at_start at e4)
                (rw at_start at priced) in
            inr (after, t, blob_is, rw (no_offer, no_size) q)
        | inr (v, total, blob_was, q) ↦
            let same = ok-injective (sym e3 ∙ working_later c s req v (e1 ∙ blob_was)) in
            let (t, after, blob_is, q') =
              quote_of-IsQuoted laws c (orient c d s) v offered size total amount q (rw same at e4)
                (rw same at priced) in
            inr (after, t, blob_is, q')
      ]

  validate_swap_runs :
      (c : Xyk) (s t : XykState) (offer ask : Coin) (total fee : ℕ)
      → swap (orient c offer.denom s) offer.amount ≡ ok (total, t)
      → multiply_ratio total c.fee unit ≡ some fee
      → cw.uint_sub total fee ≡ some (total - fee)
      → leb ask.amount (total - fee) ≡ true
      → validate_swap c s offer ask ≡ ok (tt, orient c offer.denom t)
  unfolding validate_swap
  validate_swap_runs c s t offer ask total fee e1 e2 e3 e4 = rw (e1, e2, e3, e4) refl

  fee-le : (total fee : ℕ) → fee ≤ unit → total * fee / unit ≤ total
  fee-le total fee l = omega (arith, mul-le-mul (le_refl total) l)

  -- A swap that returns enough for its fee and the ask is valid.
  validate_swap_total :
      (c : Xyk) (s t : XykState) (offer ask : Coin) (total : ℕ)
      → swap (orient c offer.denom s) offer.amount ≡ ok (total, t)
      → c.fee ≤ unit
      → total < uint_limit
      → ask.amount * unit + total * c.fee ≤ total * unit
      → validate_swap c s offer ask ≡ ok (tt, orient c offer.denom t)
  validate_swap_total c s t offer ask total e f l h =
      let fee = total * c.fee / unit in
      let small : fee ≤ total = fee-le total c.fee f in
      let enough : ask.amount ≤ total - fee = omega arith in
      validate_swap_runs c s t offer ask total fee e
        (ground (arith, multiply_ratio_lem total c.fee unit))
        (ground (arith, uint_sub_lem total fee)) (ground arith)

  -- More is returned than the quotes gave, so the fee leaves as much.
  priced_more :
      (size given total fee : ℕ)
      → given ≤ total
      → fee ≤ unit
      → size * unit + given * fee ≤ given * unit
      → size * unit + total * fee ≤ total * unit
  priced_more size given total fee h f p =
      let more = total - given in
      let scaled = mul-le-mul (le_refl more) f in
      let sum : total ≡ given + more = omega arith in rw sum (omega arith)

  taken :
      (c : Xyk) (s w : XykState) (d e : String) (offered size given : ℕ)
      → IsBalanced (orient c d s)
      → c.fee ≤ unit
      → (orient c d s).x + offered ≤ unit
      → IsQuoted c (orient c d s) offered size w given
      → (t : XykState) × (validate_swap c s (coin offered d) (coin size e) ≡ ok (tt, t))
  taken c s w d e offered size given b f l q =
      let o = orient c d s in
      let (total, t, run, total_is) = swap_total laws o offered b q.x_pos l in
      let least : ceil_ratio o.k (o.x + offered) ≤ w.y =
        ceil_ratio_le o.k (o.x + offered) w.y (omega (arith, q.x_pos))
          (kept o.k w.k (o.x + offered) w.x w.y q.x_is q.k_is q.k_le) in
      let more : given ≤ total = more_given _ w.y given total o.y least q.y_is total_is in
      let fits : total < uint_limit = fits_under _ total o.y total_is b.y_fits in
      (
        _,
        validate_swap_total c s t (coin offered d) (coin size e) total run f fits
            (priced_more size given total c.fee more f q.priced),
      )
    where
      kept : (k m n x y : ℕ) → x ≡ n → m ≡ x * y → k ≤ m → k ≤ n * y
      kept k m n x y e f h = grind arith

      more_given : (z y a b r : ℕ) → z ≤ y → y + a ≡ r → z + b ≡ r → a ≤ b
      more_given z y a b r h e f = omega arith

      fits_under : (z b r : ℕ) → z + b ≡ r → r < uint_limit → b < uint_limit
      fits_under z b r e h = omega arith

  -- An offer of nothing is valid.
  nothing_taken :
      (c : Xyk) (s : XykState) (d e : String)
      → IsBalanced (orient c d s)
      → c.fee ≤ unit
      → (orient c d s).x ≤ unit
      → (t : XykState) × (validate_swap c s (coin 0 d) (coin 0 e) ≡ ok (tt, t))
  nothing_taken c s d e b f l = elim (Bool-cases ((orient c d s).x == 0)) [
    | inl z ↦ (
      _,
      validate_swap_total c s _ (coin 0 d) (coin 0 e) 0
          (swap_empty laws (orient c d s) 0 (ground arith)) f (omega arith) (omega arith),
    )
    | inr pos ↦ taken c s (orient c d s) d e 0 0 0 b f (omega arith) (record {
      x_pos = ground arith;
      x_is = omega arith;
      y_is = omega arith;
      k_is = b.k_is;
      k_le = le_refl _;
      priced = omega arith;
    })
  ]

  -- Where the fee is at most 1.0 and the reserve of the offered denom stays at most 10 ^ 18, a run
  -- of quotes can be taken in one swap: the contract accepts the offer of all their amounts for all
  -- their sizes.
  pub responses_honoured :
      (c : Xyk) (s : XykState) (d e : String) {blob : Option QuoteData} {offered size : ℕ}
      → IsBalanced s
      → c.fee ≤ unit
      → (orient c d s).x + offered ≤ unit
      → Quotes c s d blob offered size
      → (t : XykState) × (validate_swap c s (coin offered d) (coin size e) ≡ ok (tt, t))
  unfolding IsRun
  responses_honoured c s d e {blob} {offered} {size} b f l run =
      let turned = orient-IsBalanced c d s b in
      elim (Quotes-IsRun c s d turned run) [
        | inl (n, no_offer, no_size) ↦
            rw (no_offer, no_size) (nothing_taken c s d e turned f (omega arith))
        | inr (w, given, blob_is, q) ↦ taken c s w d e offered size given turned f l q
      ]
