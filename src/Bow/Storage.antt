-- ===== src/Bow/Storage.antt =====
-- The stored state of a pool: what is saved, and what is loaded.
use nami_contracts.Base.{
  ℕ, ◌*◌, ◌<◌, ◌≡◌, refl, sym, ap, some, List, arith, ok, lift_err, lift_err-eq-ok,
}
use nami_contracts.Numeric.{Numeric, IsNumeric, uint_limit, wide_limit}
use nami_contracts.Chain.{Coin, Host}
use nami_contracts.Bow.State.{XykState, from_stored}
use nami_contracts.Bow.Xyk.{load_state as xyk_load_state, commit_state as xyk_commit_state}
use nami_contracts.Bow.Strategy.{
  Strategies, strategy_xyk, StrategyState, state_xyk, load_state, commit_state, validate_swap,
  deposit, withdraw,
}
use nami_contracts.Bow.Contract.{Contract, strategy, load, save}
use nami_contracts.Bow.Swaps.{IsBalanced}
use nami_contracts.Bow.Reach.{
  Reach, IsSolventState, product_fits, loaded-IsSolvent, swapped-IsSolvent, deposited-IsSolvent,
  withdrawn-IsSolvent, reserves_cover_shares,
}

module _ ⦃cw : Numeric⦄ (host : Host) where
  -- What a call makes of the state that it loaded.
  pub data IsOutcome (c : Strategies) (s : StrategyState) : StrategyState → Type 0 where
    kept : IsOutcome c s s
    swapped :
        {t : StrategyState} (offer ask : Coin) {u : Unit {0}}
        → validate_swap c s offer ask ≡ ok (u, t)
        → IsOutcome c s t
    deposited :
        {t : StrategyState} (funds : List Coin) {minted : ℕ}
        → deposit c s funds ≡ ok (minted, t)
        → IsOutcome c s t
    withdrawn :
        {t : StrategyState} (amount : ℕ) {out : List Coin}
        → withdraw host c s amount ≡ ok (out, t)
        → IsOutcome c s t

module _ ⦃cw : Numeric⦄ (laws : IsNumeric cw) where
  open laws use {u256_mul_lem}

  xyk_load_state-xyk_commit_state :
      (s : XykState) → IsBalanced s → xyk_load_state (xyk_commit_state s) ≡ ok s
  unfolding xyk_load_state from_stored
  xyk_load_state-xyk_commit_state s b =
      rw (product s.x s.y b.x_fits b.y_fits) (ap (λ k. ok (record s { k = k })) (sym b.k_is))
    where
      product : (x y : ℕ) → x < uint_limit → y < uint_limit → cw.u256_mul x y ≡ some (x * y)
      product x y h l =
          let fits : x * y < wide_limit = product_fits laws x y h l in
          ground (arith, u256_mul_lem x y)

  outcome-IsSolvent :
      (host : Host) (c : Strategies) (s : StrategyState) {t : StrategyState}
      → IsSolventState s
      → IsOutcome host c s t
      → IsSolventState t
  outcome-IsSolvent host c s v kept = v
  outcome-IsSolvent host c s v (swapped {t} offer ask e) =
      swapped-IsSolvent laws c s t offer ask v e
  outcome-IsSolvent host c s v (deposited {t} funds {minted} e) =
      deposited-IsSolvent laws c s t funds minted v e
  outcome-IsSolvent host c s v (withdrawn {t} amount {out} e) =
      withdrawn-IsSolvent laws host c s t amount out v e

  saved_state : (self : Contract) (t : StrategyState) → IsSolventState t → load (save self t) ≡ ok t
  unfolding load load_state IsSolventState
  saved_state self (state_xyk s) v =
      xyk_saved self.config.strategy (xyk_load_state-xyk_commit_state s v.balanced)
    where
      xyk_saved :
          (c : Strategies)
          → xyk_load_state (xyk_commit_state s) ≡ ok s
          → lift_err strategy (load_state c (commit_state c (state_xyk s))) ≡ ok (state_xyk s)
      xyk_saved (strategy_xyk c) e = rw e refl

  -- In every contract that can come about, what a swap, a deposit or a withdrawal makes of the state
  -- that was loaded, or that state itself, is loaded again as it was saved: the reserves and the shares
  -- are stored, and the product beside them is computed again.
  pub load-save :
      (host : Host) {self : Contract} {s t : StrategyState}
      → Reach host self
      → load self ≡ ok s
      → IsOutcome host self.config.strategy s t
      → load (save self t) ≡ ok t
  unfolding load
  load-save host {self} {s} {t} reach e out =
      let before =
        loaded-IsSolvent laws self.config.strategy self.stored
          (reserves_cover_shares laws host reach) (lift_err-eq-ok _ _ e) in
      saved_state self t (outcome-IsSolvent host self.config.strategy s before out)
