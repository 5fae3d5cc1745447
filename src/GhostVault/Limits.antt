-- ===== src/GhostVault/Limits.antt =====
-- What a market may borrow, and what a withdrawal pays.
use nami_contracts.Base.{
  ℕ, ◌+◌, ◌≤◌, String, ◌≡◌, sym, ap, subst, Option, none, some, arith, if◌then◌else◌, str_eq,
  str_eq_iff, ok, or_err, >>=-eq-ok, ok-injective, or_err-eq-ok, lookup, lookup-insert,
}
use nami_contracts.Numeric.{Numeric, IsNumeric}
use nami_contracts.Chain.{
  total_of, total_of-coins, sent, burnt, coins, Callback, Response, Env, MessageInfo, Host, IsHost,
  token_denom,
}
use nami_contracts.GhostVault.Errors.{payment}
use nami_contracts.GhostVault.State
use nami_contracts.GhostVault.State.{State, distribute_interest}
use nami_contracts.GhostVault.Borrowers
use nami_contracts.GhostVault.Borrowers.{Borrower, Borrowers}
use nami_contracts.GhostVault.Contract
use nami_contracts.GhostVault.Contract.{
  Vault, ExecuteMsg, withdraw, borrow, execute, run_msg, rcpt_id,
}
use nami_contracts.GhostVault.Pools.{withdraw_pool_pays}

-- A borrower that is loaded is what the map holds for it.
load-eq-ok :
    (m : Borrowers) (addr : String) {b : Borrower}
    → Borrowers.load m addr ≡ ok b
    → (lookup addr m ≡ some (b.limit, b.current)) × (b.addr ≡ addr)
unfolding Borrowers.load
load-eq-ok m addr h = ground arith

lookup-save :
    (b : Borrower) (m : Borrowers) (other : String)
    → lookup other (Borrowers.save b m)
      ≡ (if str_eq b.addr other then some (b.limit, b.current) else lookup other m)
unfolding Borrowers.save
lookup-save b m other = lookup-insert b.addr other (b.limit, b.current) m

module _ ⦃cw : Numeric⦄ (laws : IsNumeric cw) where
  open laws use {uint_add_lem, uint_sub_lem}

  borrow-eq-ok :
      (b : Borrower) (amount : ℕ) {b' : Borrower}
      → Borrowers.borrow b amount ≡ ok b'
      → (b' ≡ record b { current = b.current + amount }) × (b.current + amount ≤ b.limit)
  unfolding Borrowers.borrow
  borrow-eq-ok b amount h = ground (arith, uint_add_lem b.current amount)

  module _ (host : Host) (env : Env) (info : MessageInfo) where
    -- A borrow goes through only for a sender that the map of borrowers holds, and only up to its
    -- limit; it adds the amount to that borrower's debt and changes no other borrower.
    pub borrow_within_limit :
        (amount : ℕ) (cb : Option Callback) (v v' : Vault) (r : Response)
        → execute host env info (borrow amount cb) v ≡ ok (r, v')
        → (limit : ℕ) × (current : ℕ) × (lookup info.sender v.borrowers ≡ some (limit, current))
          × (current + amount ≤ limit)
          × ((other : String)
              → lookup other v'.borrowers ≡ (
                  if str_eq info.sender other
                  then some (limit, current + amount)
                  else lookup other v.borrowers))
    unfolding execute run_msg
    borrow_within_limit amount cb v v' r h =
        let (s, e, h1) =
          >>=-eq-ok (distribute_interest v.state v.config.interest env.block_time) _ h in
        let (b, e1, h2) = >>=-eq-ok (Borrowers.load v.borrowers info.sender) _ h1 in
        let (b', e2, h3) = >>=-eq-ok (Borrowers.borrow b amount) _ h2 in
        let (d, e3, h4) = >>=-eq-ok (State.borrow s amount) _ h3 in
        let (held, own) = load-eq-ok v.borrowers info.sender e1 in
        let (same, within) = borrow-eq-ok b amount e2 in
        let kept : v'.borrowers ≡ Borrowers.save b' v.borrowers =
          ap (λ x. x.1.borrowers) (sym (ok-injective h4)) in
        (b.limit, b.current, held, within, λ other. rw (kept, same, lookup-save, own))

  module _ (host : Host) (host_laws : IsHost host) (env : Env) (info : MessageInfo) where
    open host_laws use {must_pay_lem}

    withdraw_runs :
        (cb : Option Callback) (v : Vault) (s : State) (amount : ℕ) (d : ℕ × State)
        → distribute_interest v.state v.config.interest env.block_time ≡ ok s
        → or_err (host.must_pay info.funds (token_denom (rcpt_id v.config))) payment ≡ ok amount
        → State.withdraw s amount ≡ ok d
        → execute host env info (withdraw cb) v
          ≡ ok (
            Contract.withdraw_response v.config info.sender amount d.0 cb,
            record v { state = d.1 },
          )
    unfolding execute run_msg
    withdraw_runs cb v s amount d e e1 e2 = rw (e, e1, e2)

    direct_pays :
        (v : Vault) (s : State) (amount : ℕ) (d : ℕ × State)
        → State.withdraw s amount ≡ ok d
        → d.1.deposit_pool.size
            + sent v.config.denom
                (Contract.withdraw_response v.config info.sender amount d.0 none).messages
          ≡ s.deposit_pool.size
    unfolding Contract.withdraw_response
    direct_pays v s amount d e =
        omega (arith, (withdraw_pool_pays laws s amount e).0, total_of-coins v.config.denom d.0)

    callback_pays :
        (cb : Callback) (v : Vault) (amount claim : ℕ)
        → info.funds ≡ coins amount (token_denom (rcpt_id v.config))
        → sent v.config.denom
            (Contract.withdraw_response v.config info.sender amount claim (some cb)).messages
          ≡ total_of (token_denom (rcpt_id v.config)) info.funds
    unfolding Contract.withdraw_response
    callback_pays cb v amount claim e =
        let denom = token_denom (rcpt_id v.config) in
        rw e (omega (arith, total_of-coins v.config.denom amount, total_of-coins denom amount))

    -- Either answer burns the receipt tokens that came in.
    response_burns :
        (cb : Option Callback) (v : Vault) (amount claim : ℕ)
        → info.funds ≡ coins amount (token_denom (rcpt_id v.config))
        → burnt
            (token_denom (rcpt_id v.config))
            (Contract.withdraw_response v.config info.sender amount claim cb).messages
          ≡ total_of (token_denom (rcpt_id v.config)) info.funds
    unfolding Contract.withdraw_response
    response_burns none v amount claim e =
        let denom = token_denom (rcpt_id v.config) in
        rw e (ground (arith, total_of-coins denom amount, str_eq_iff denom denom))
    response_burns (some cb) v amount claim e =
        let denom = token_denom (rcpt_id v.config) in
        rw e (ground (arith, total_of-coins denom amount, str_eq_iff denom denom))

    -- An answer `r` that pays as many base tokens as tokens came in, beside one that pays what leaves
    -- the pool; both burn the tokens that came in.
    abbrev PaysBurnt : Vault → Response × Vault → Type 0
    PaysBurnt v (r, v') =
        (q : Response) × (s : State) × (execute host env info (withdraw none) v ≡ ok (q, v'))
        × (distribute_interest v.state v.config.interest env.block_time ≡ ok s)
        × (v'.state.deposit_pool.size + sent v.config.denom q.messages ≡ s.deposit_pool.size)
        × (sent v.config.denom r.messages ≡ total_of (token_denom (rcpt_id v.config)) info.funds)
        × (burnt (token_denom (rcpt_id v.config)) r.messages
            ≡ total_of (token_denom (rcpt_id v.config)) info.funds)
        × (burnt (token_denom (rcpt_id v.config)) q.messages
            ≡ total_of (token_denom (rcpt_id v.config)) info.funds)

    -- A withdrawal with a callback burns the receipt tokens that came in, as the one without does, and
    -- leaves the same vault. But it sends as many base tokens as tokens were burnt, where
    -- the other sends what the pool paid.
    pub withdraw_callback_differs :
        (cb : Callback) (v v' : Vault) (r : Response)
        → execute host env info (withdraw (some cb)) v ≡ ok (r, v')
        → (q : Response) × (s : State) × (execute host env info (withdraw none) v ≡ ok (q, v'))
          × (distribute_interest v.state v.config.interest env.block_time ≡ ok s)
          × (v'.state.deposit_pool.size + sent v.config.denom q.messages ≡ s.deposit_pool.size)
          × (sent v.config.denom r.messages ≡ total_of (token_denom (rcpt_id v.config)) info.funds)
          × (burnt (token_denom (rcpt_id v.config)) r.messages
              ≡ total_of (token_denom (rcpt_id v.config)) info.funds)
          × (burnt (token_denom (rcpt_id v.config)) q.messages
              ≡ total_of (token_denom (rcpt_id v.config)) info.funds)
    unfolding execute run_msg Contract.withdraw_response
    withdraw_callback_differs cb v v' r h =
        let (s, e, h1) =
          >>=-eq-ok (distribute_interest v.state v.config.interest env.block_time) _ h in
        let (amount, e1, h2) = >>=-eq-ok (or_err (host.must_pay info.funds _) _) _ h1 in
        let (d, e2, h3) = >>=-eq-ok (State.withdraw s amount) _ h2 in
        let came_in = must_pay_lem info.funds _ amount (or_err-eq-ok _ _ e1) in
        subst (PaysBurnt v) (ok-injective h3) (
          Contract.withdraw_response v.config info.sender amount d.0 none,
          s,
          withdraw_runs none v s amount d e e1 e2,
          e,
          direct_pays v s amount d e2,
          callback_pays cb v amount d.0 came_in.0,
          response_burns (some cb) v amount d.0 came_in.0,
          response_burns none v amount d.0 came_in.0,
        )
