-- ===== src/Fin/Arbitrage.antt =====
-- The arbitrage of the order book (testing/rujira-fin/src/contract.rs, `ExecuteMsg::Arb`): the loop of
-- packages/rujira-rs/src/exchange/arb.rs over the offers of both sides.
use nami_contracts.Base.{ℕ, ◌≡◌, some, Outcome}
use nami_contracts.Numeric.{Numeric, IsNumeric}
use nami_contracts.Exchange.Interface.{SwapError}
use nami_contracts.Exchange.Either.{EitherOrBoth}
use nami_contracts.Exchange.Arber.{Arber, run}
use nami_contracts.Exchange.Arber.Termination.{IsBelow, run_ends}
use nami_contracts.Fin.Pool.{FinPool}
use nami_contracts.Fin.MarketMaker.{MarketMakerOffer, book, book-IsSwappable, book-IsProgressing}

module _ ⦃cw : Numeric⦄ (laws : IsNumeric cw) where
  -- The arbitrage between two sides of the order book ends, in an error, a panic or a result: where
  -- every pool and quote has a total, within one round more than the totals and the numbers of the
  -- items of both sides together. No price, rate or commitment is excluded.
  pub book-run_ends :
      (rounds : ℕ) (r : Arber (EitherOrBoth (EitherOrBoth FinPool FinPool) MarketMakerOffer))
      → IsBelow book rounds r.base r.quote
      → (out : Outcome SwapError
          (Arber (EitherOrBoth (EitherOrBoth FinPool FinPool) MarketMakerOffer)))
        × (run book rounds r ≡ some out)
  book-run_ends = run_ends laws (book-IsSwappable laws) (book-IsProgressing laws)
