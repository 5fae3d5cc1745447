-- ===== src/Exchange/Interface.antt =====
-- `Swappable`, `SwapCommit` and `SwapError` (packages/rujira-rs/src/exchange).
use nami_contracts.Base.{ℕ, ◌+◌, ◌≤◌, ◌<◌, String, ◌≡◌, List, Outcome, ok, ◌>>=◌, or_panic}
use nami_contracts.Numeric.{Numeric}
use nami_contracts.BidPool.{BidPoolError}
use nami_contracts.Chain.{Attribute}

pub data SwapError : Type 0 where
  std conversion_overflow : SwapError
  bid_pool : BidPoolError → SwapError
  insufficient_return : (expected returned : ℕ) → SwapError

-- The (offer, ask) totals that the market maker is committed to.
pub record SwapCommit : Type 0 where
  pub offered : ℕ
  pub asked : ℕ

-- `SwapCommit::default`
abbrev pub no_commit : SwapCommit
no_commit = record { offered = 0; asked = 0 }

-- An offer of liquidity of type `T`, which commits to a storage of type `S`. `swap` returns the
-- offer that it consumes, the bids that it returns and what is left.
pub record Swappable (T S : Type 0) : Type 0 where
  pub rate : T → ℕ
  pub prefix : T → String
  pub attributes : T → Outcome SwapError (List (String × Attribute))
  pub total : T → Outcome SwapError ℕ
  pub swap : T → ℕ → Outcome SwapError ((ℕ × ℕ) × T)
  pub commit : T → S → Outcome SwapError (SwapCommit × S)

-- What a swap owes to its caller: it consumes at most what it is offered, and its bids come out of
-- its total.
pub record IsSwappable {T S : Type 0} (i : Swappable T S) : Type 0 where
  pub within :
      (t t' : T) (offer consumed bids : ℕ)
      → i.swap t offer ≡ ok ((consumed, bids), t')
      → consumed ≤ offer
  pub taken :
      (t t' : T) (offer consumed bids held : ℕ)
      → i.swap t offer ≡ ok ((consumed, bids), t')
      → i.total t ≡ ok held
      → (rest : ℕ) × (i.total t' ≡ ok rest) × (rest + bids ≡ held)

-- A swap of something against something takes something, from the offer or from the total.
unfoldable pub IsProgressing : {T S : Type 0} → Swappable T S → Type 0
IsProgressing {T} i =
    (t t' : T) (offer consumed bids held : ℕ)
    → i.swap t offer ≡ ok ((consumed, bids), t')
    → i.total t ≡ ok held
    → 0 < offer
    → 0 < held
    → 0 < consumed + bids

module _ ⦃cw : Numeric⦄ where
  open cw use {uint_add}

  -- `+` and `+=` of `SwapCommit`
  unfoldable pub add_commit : SwapCommit → SwapCommit → Outcome SwapError SwapCommit
  add_commit a b = do
    offered ← or_panic (uint_add a.offered b.offered)
    asked ← or_panic (uint_add a.asked b.asked)
    ok (record { offered = offered; asked = asked })
