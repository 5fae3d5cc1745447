-- ===== src/Bow/Reach.antt =====
-- The reserves and shares of a pool over the life of its contract.
use nami_contracts.Base.{
  ℕ, ◌-◌, ◌*◌, ◌≤◌, ◌<◌, ◌≡◌, subst, Option, none, some, List, arith, ok, ensure, or_err, or_panic,
  lift_err, >>=-eq-ok, ok-injective, lift_err-eq-ok, or_panic-eq-ok,
}
use nami_contracts.Numeric.{Numeric, IsNumeric, uint_limit, wide_limit}
use native.Mathlib.Nat.{mul-le-mul}
use nami_contracts.Chain.{Coin, Host, Env, MessageInfo, Response, token_denom}
use nami_contracts.Bow.State.{XykState, from_stored}
use nami_contracts.Bow.Xyk.{
  load_state as xyk_load_state, deposit as xyk_deposit, withdraw as xyk_withdraw,
  validate_swap as xyk_validate_swap,
}
use nami_contracts.Bow.Strategy.{
  Strategies, strategy_xyk, StrategyState, state_xyk, load_state, commit_state, validate_swap,
  deposit, withdraw, denom,
}
use nami_contracts.Bow.Contract.{
  Contract, strategy, ExecuteMsg, msg_swap, msg_deposit, msg_withdraw, instantiate, execute,
  execute_swap, execute_deposit, execute_withdraw, sudo, check_config, recipient, reaches, load,
  payment, insufficient_funds,
}
use nami_contracts.Bow.Solvency.{
  IsSolvent, deposit-IsSolvent, withdraw-IsSolvent, validate_swap-IsSolvent,
}

module _ ⦃cw : Numeric⦄ (host : Host) where
  -- The contracts that can come about.
  pub data Reach : Contract → Type 0 where
    instantiated :
        {r : Response} {self : Contract} (s : Strategies)
        → instantiate s ≡ ok (r, self)
        → Reach self
    executed :
        {self next : Contract} {r : Response} (env : Env) (info : MessageInfo) (msg : ExecuteMsg)
        → Reach self
        → execute host env self info msg ≡ ok (r, next)
        → Reach next
    reconfigured :
        {self next : Contract} {r : Response} (s : Strategies)
        → Reach self
        → sudo self s ≡ ok (r, next)
        → Reach next

-- The stored reserves are `Uint128`s, and their product covers the square of the stored shares.
abbrev pub IsCovered : Option (ℕ × ℕ × ℕ) → Type 0
IsCovered none = Unit
IsCovered (some (x, y, shares)) = (x < uint_limit) × (y < uint_limit) × (shares * shares ≤ x * y)

-- The state of a strategy keeps to its solvency.
unfoldable pub IsSolventState : StrategyState → Type 0
IsSolventState (state_xyk s) = IsSolvent s

module _ ⦃cw : Numeric⦄ (laws : IsNumeric cw) where
  open laws use {u256_mul_lem}

  pub product_fits : (x y : ℕ) → x < uint_limit → y < uint_limit → x * y < wide_limit
  product_fits x y h l =
      let x_le : x ≤ uint_limit - 1 = omega arith in
      let y_le : y ≤ uint_limit - 1 = omega arith in omega (arith, mul-le-mul x_le y_le)

  from_stored-IsSolvent :
      (x y shares : ℕ) {s : XykState}
      → x < uint_limit
      → y < uint_limit
      → shares * shares ≤ x * y
      → from_stored (x, y, shares) ≡ ok s
      → IsSolvent s
  unfolding from_stored
  from_stored-IsSolvent x y shares {s} h l c e =
      let (k, e1, r1) = >>=-eq-ok (or_panic (cw.u256_mul x y)) _ e in
      let k_is : k ≡ x * y = ground (arith, or_panic-eq-ok _ e1, u256_mul_lem x y) in
      subst IsSolvent (ok-injective r1)
        (record { balanced = record { x_fits = h; y_fits = l; k_is = k_is }; covered = rw k_is c })

  load_state-IsSolvent :
      (stored : Option (ℕ × ℕ × ℕ)) {s : XykState}
      → IsCovered stored
      → xyk_load_state stored ≡ ok s
      → IsSolvent s
  unfolding xyk_load_state
  load_state-IsSolvent none c e =
      from_stored-IsSolvent 0 0 0 (omega arith) (omega arith) (omega arith) e
  load_state-IsSolvent (some (x, y, shares)) (h, l, c) e = from_stored-IsSolvent x y shares h l c e

  stored-IsCovered : (s : XykState) → IsSolvent s → IsCovered (some (s.x, s.y, s.shares))
  stored-IsCovered s v = (
    v.balanced.x_fits,
    v.balanced.y_fits,
    subst (λ (n : ℕ). s.shares * s.shares ≤ n) v.balanced.k_is v.covered,
  )

  pub loaded-IsSolvent :
      (c : Strategies) (stored : Option (ℕ × ℕ × ℕ)) {s : StrategyState}
      → IsCovered stored
      → load_state c stored ≡ ok s
      → IsSolventState s
  unfolding load_state IsSolventState
  loaded-IsSolvent (strategy_xyk c) stored h e =
      let (s, e1, r1) = >>=-eq-ok (xyk_load_state stored) _ e in
      subst IsSolventState (ok-injective r1) (load_state-IsSolvent stored h e1)

  pub swapped-IsSolvent :
      (c : Strategies) (s t : StrategyState) (offer ask : Coin) {u : Unit {0}}
      → IsSolventState s
      → validate_swap c s offer ask ≡ ok (u, t)
      → IsSolventState t
  unfolding validate_swap IsSolventState
  swapped-IsSolvent (strategy_xyk c) (state_xyk s) t offer ask v e =
      let ((u, w), e1, r1) = >>=-eq-ok (xyk_validate_swap c s offer ask) _ e in
      subst (λ (p : Unit {0} × StrategyState). IsSolventState p.1) (ok-injective r1)
        (validate_swap-IsSolvent laws c s w offer ask v e1)

  pub deposited-IsSolvent :
      (c : Strategies) (s t : StrategyState) (funds : List Coin) (minted : ℕ)
      → IsSolventState s
      → deposit c s funds ≡ ok (minted, t)
      → IsSolventState t
  unfolding deposit IsSolventState
  deposited-IsSolvent (strategy_xyk c) (state_xyk s) t funds minted v e =
      let ((issued, w), e1, r1) = >>=-eq-ok (xyk_deposit c s funds) _ e in
      subst (λ (p : ℕ × StrategyState). IsSolventState p.1) (ok-injective r1)
        (deposit-IsSolvent laws c s w funds issued v e1).0

  pub withdrawn-IsSolvent :
      (host : Host) (c : Strategies) (s t : StrategyState) (amount : ℕ) (out : List Coin)
      → IsSolventState s
      → withdraw host c s amount ≡ ok (out, t)
      → IsSolventState t
  unfolding withdraw IsSolventState
  withdrawn-IsSolvent host (strategy_xyk c) (state_xyk s) t amount out v e =
      let ((taken, w), e1, r1) = >>=-eq-ok (xyk_withdraw host c s amount) _ e in
      subst (λ (p : List Coin × StrategyState). IsSolventState p.1) (ok-injective r1)
        (withdraw-IsSolvent laws host c s w amount taken v e1)

  commit_state-IsCovered :
      (c : Strategies) (t : StrategyState) → IsSolventState t → IsCovered (commit_state c t)
  unfolding IsSolventState
  commit_state-IsCovered (strategy_xyk c) (state_xyk s) v = stored-IsCovered s v

  execute-IsCovered :
      (host : Host) (env : Env) (self next : Contract) (info : MessageInfo) (msg : ExecuteMsg)
      (r : Response)
      → IsCovered self.stored
      → execute host env self info msg ≡ ok (r, next)
      → IsCovered next.stored
  unfolding execute execute_swap execute_deposit execute_withdraw load
  execute-IsCovered host env self next info (msg_swap min_return to callback) r h e =
      let (state, e1, r1) = >>=-eq-ok (load self) _ e in
      let (offer, e2, r2) = >>=-eq-ok (or_err (host.one_coin info.funds) payment) _ r1 in
      let ((u, t), e3, r3) =
        >>=-eq-ok (lift_err strategy (validate_swap self.config.strategy state offer min_return)) _
          r2 in
      let (to_address, e4, r4) = >>=-eq-ok (recipient host to info.sender) _ r3 in
      let v = loaded-IsSolvent self.config.strategy self.stored h (lift_err-eq-ok _ _ e1) in
      let w =
        swapped-IsSolvent self.config.strategy state t offer min_return v (lift_err-eq-ok _ _ e3) in
      subst (λ (p : Response × Contract). IsCovered p.1.stored) (ok-injective r4)
        (commit_state-IsCovered self.config.strategy t w)
  execute-IsCovered host env self next info (msg_deposit min_return callback) r h e =
      let (state, e1, r1) = >>=-eq-ok (load self) _ e in
      let ((minted, t), e2, r2) =
        >>=-eq-ok (lift_err strategy (deposit self.config.strategy state info.funds)) _ r1 in
      let (u, e3, r3) = >>=-eq-ok (ensure (reaches minted min_return) insufficient_funds) _ r2 in
      let v = loaded-IsSolvent self.config.strategy self.stored h (lift_err-eq-ok _ _ e1) in
      let w =
        deposited-IsSolvent self.config.strategy state t info.funds minted v
          (lift_err-eq-ok _ _ e2) in
      subst (λ (p : Response × Contract). IsCovered p.1.stored) (ok-injective r3)
        (commit_state-IsCovered self.config.strategy t w)
  execute-IsCovered host env self next info (msg_withdraw callback) r h e =
      let (state, e1, r1) = >>=-eq-ok (load self) _ e in
      let (balance, e2, r2) =
        >>=-eq-ok
          (or_err (host.must_pay info.funds (token_denom (denom self.config.strategy))) payment) _
          r1 in
      let ((out, t), e3, r3) =
        >>=-eq-ok (lift_err strategy (withdraw host self.config.strategy state balance)) _ r2 in
      let v = loaded-IsSolvent self.config.strategy self.stored h (lift_err-eq-ok _ _ e1) in
      let w =
        withdrawn-IsSolvent host self.config.strategy state t balance out v
          (lift_err-eq-ok _ _ e3) in
      subst (λ (p : Response × Contract). IsCovered p.1.stored) (ok-injective r3)
        (commit_state-IsCovered self.config.strategy t w)

  -- In every contract that can come about, the product of the stored reserves covers the square of
  -- the shares.
  pub reserves_cover_shares :
      (host : Host) {self : Contract} → Reach host self → IsCovered self.stored
  unfolding instantiate sudo
  reserves_cover_shares host (instantiated {r} {self} s e) =
      let (u, e1, r1) = >>=-eq-ok (check_config (record { strategy = s })) _ e in
      subst (λ (p : Response × Contract). IsCovered p.1.stored) (ok-injective r1) tt
  reserves_cover_shares host (executed {self} {next} {r} env info msg reach e) =
      execute-IsCovered host env self next info msg r (reserves_cover_shares host reach) e
  reserves_cover_shares host (reconfigured {self} {next} {r} s reach e) =
      let (u, e1, r1) = >>=-eq-ok (check_config (record { strategy = s })) _ e in
      subst (λ (p : Response × Contract). IsCovered p.1.stored) (ok-injective r1)
        (reserves_cover_shares host reach)
