-- ===== src/Examples/Orders.antt =====
-- Orders of the order book, and the book at the reference numbers.
use nami_contracts.Base.{ℕ, ◌*◌, ◌≡◌, refl, false, none, some, List, [], ◌∷◌, arith, Outcome, ok}
use nami_contracts.Numeric.{unit}
use nami_contracts.Numeric.{reference, reference-IsNumeric}
use nami_contracts.BidPool.{default_pool, new_bid}
use nami_contracts.Exchange.Interface.{SwapError, no_commit, IsSwappable}
use nami_contracts.Exchange.Either.{EitherOrBoth, left, right, either, either_total}
use nami_contracts.Exchange.Arber.{Arber, begin, run}
use nami_contracts.Exchange.Arber.Termination.{IsBelow}
use nami_contracts.Fin.Prices.{base, quote, fixed}
use nami_contracts.Fin.Pool.{FinPool, pool_offer, pool_total, pool_key, pool_commit, save_snapshots}
use nami_contracts.Fin.MarketMaker.{MarketMakerOffer, maker_offer, book, book-IsSwappable}
use nami_contracts.Fin.Arbitrage.{book-run_ends}
use nami_contracts.Fin.Orders.{Order, Book, create_order, commit_pool, retract_order}
use nami_contracts.Fin.Retractions.{create_retracted}

book-IsSwappable_example : IsSwappable (book ⦃cw = reference⦄)
book-IsSwappable_example = book-IsSwappable reference-IsNumeric

abbrev empty_book : Book
empty_book = record {
  store = record { snapshots = λ k n. none; pools = λ k. false; bid_pools = λ k. none };
  orders = λ owner k. none;
}

abbrev at_par : FinPool
at_par = record {
  price = fixed unit;
  side = base;
  pool = default_pool;
  rate = unit;
  pending_sum_snapshots = [];
}

created :
    (o : Order) × (p : FinPool) × (b : Book) × (create_order at_par empty_book 5 "alice" 100
      ≡ ok (o, p, b))
    × (p.pool.total ≡ 100)
unfolding create_order new_bid commit_pool pool_commit save_snapshots
created = (_, _, _, refl, refl)

create_retracted_example :
    (order : Order) × (left : Book) × (retract_order created.1 created.2 created.0 7 none
      ≡ ok (100, order, at_par, left))
    × (left.orders created.0.owner (pool_key at_par) ≡ none)
create_retracted_example =
    create_retracted reference-IsNumeric at_par created.1 empty_book created.2 5 7 "alice" 100
      created.0 created.3 (omega arith)

-- A pool of 100 at the rate 1.0, and two quotes, one of a single token at the price 2.0.
abbrev Offer : Type 0
Offer = EitherOrBoth (EitherOrBoth FinPool FinPool) MarketMakerOffer

abbrev bids_at_par : FinPool
bids_at_par = record at_par { pool = record default_pool { total = 100 } }

abbrev asks : List Offer
asks = left (left bids_at_par) ∷ []

abbrev offered : ℕ → ℕ → MarketMakerOffer
offered price total = record {
  price = price;
  total = total;
  side = quote;
  rate = price;
  commitment = no_commit;
}

abbrev quotes : List Offer
quotes = right (offered (2 * unit) 1) ∷ right (offered unit 40) ∷ []

sides : IsBelow (book ⦃cw = reference⦄) 145 asks quotes
unfolding IsBelow either either_total pool_offer pool_total maker_offer
sides = (
  100,
  41,
  (100, 0, refl, refl, refl),
  (1, 40, refl, (40, 0, refl, refl, refl), refl),
  omega arith,
)

book-run_ends_example :
    (out : Outcome SwapError (Arber Offer)) × (run (book ⦃cw = reference⦄) 145 (begin asks quotes)
      ≡ some out)
book-run_ends_example = book-run_ends reference-IsNumeric 145 (begin asks quotes) sides
