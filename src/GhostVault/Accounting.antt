-- ===== src/GhostVault/Accounting.antt =====
-- What the vault owes its depositors, less what its borrowers owe it, against the tokens that move.
use nami_contracts.Base.{
  ℕ, ◌+◌, ◌≤◌, String, ◌≡◌, subst, false, Option, none, some, List, [], ◌∷◌, arith, str_eq, ok,
  ensure, or_err, >>=-eq-ok, ok-injective, or_err-eq-ok,
}
use nami_contracts.Numeric.{Numeric, IsNumeric}
use nami_contracts.Chain.{
  total_of, sent, total_of-coins, Coin, Callback, Response, Env, MessageInfo, Host, IsHost,
  token_denom,
}
use nami_contracts.GhostVault.State
use nami_contracts.GhostVault.State.{State, distribute_interest}
use nami_contracts.GhostVault.Contract
use nami_contracts.GhostVault.Borrowers
use nami_contracts.GhostVault.Borrowers.{Borrowers}
use nami_contracts.GhostVault.Contract.{
  Config, Vault, ExecuteMsg, deposit, withdraw, borrow, repay, sudo_msg, SudoMsg, add_borrower,
  update_borrower, update_interest, execute, run_msg, sudo, rcpt_id, debt_id, find_coin,
}
use nami_contracts.GhostVault.Pools.{
  distribute_conserves, deposit_pool_adds, withdraw_pool_pays, borrow_pool_adds, repay_pool_covers,
}

-- The tokens that move in a call are at most those that came in and what the idle funds of `s`,
-- the deposits less the debt, exceed those of `s'` by.
abbrev pub Covers : State → State → ℕ → ℕ → Type 0
Covers s s' received out =
    s'.deposit_pool.size + s.debt_pool.size + out
    ≤ s.deposit_pool.size + s'.debt_pool.size + received

-- A withdrawal that pays the sender, with no callback.
abbrev pub IsDirect : ExecuteMsg → Type 0
IsDirect (withdraw (some cb)) = ⊥
IsDirect msg = Unit

find_coin-le :
    (denom : String) (cs : List Coin) {n : ℕ} → find_coin denom cs ≡ some n → n ≤ total_of denom cs
unfolding find_coin
find_coin-le denom [] {n} e = cc
find_coin-le denom (c ∷ cs) {n} e = ground (arith, find_coin-le denom cs {n = n})

module _ ⦃cw : Numeric⦄ (laws : IsNumeric cw) where
  module _ (host : Host) (host_laws : IsHost host) (env : Env) (info : MessageInfo) where
    open host_laws use {must_pay_lem}

    abbrev Answers : Vault → State → Response × Vault → Type 0
    Answers v s (r, v') =
        Covers s v'.state (total_of v.config.denom info.funds) (sent v.config.denom r.messages)

    -- What came in, where `must_pay` accepts it.
    paid :
        (denom : String) (amount : ℕ)
        → host.must_pay info.funds denom ≡ some amount
        → total_of denom info.funds ≡ amount
    paid denom amount e =
        rw ((must_pay_lem info.funds denom amount e).0) (total_of-coins denom amount)

    deposit-Answers :
        (cb : Option Callback) (v : Vault) (s s' : State) (amount minted : ℕ)
        → str_eq (token_denom (rcpt_id v.config)) v.config.denom ≡ false
        → total_of v.config.denom info.funds ≡ amount
        → s'.deposit_pool.size ≡ s.deposit_pool.size + amount
        → s'.debt_pool.size ≡ s.debt_pool.size
        → Answers v s (
          Contract.deposit_response v.config env info.sender amount minted cb,
          record v { state = s' },
        )
    unfolding Contract.deposit_response
    deposit-Answers none v s s' amount minted ne came size same = omega arith
    deposit-Answers (some c) v s s' amount minted ne came size same = ground arith

    deposit-Covers :
        (cb : Option Callback) (v : Vault) (s : State) {r : Response × Vault}
        → str_eq (token_denom (rcpt_id v.config)) v.config.denom ≡ false
        → run_msg host env info (deposit cb) v s ≡ ok r
        → Answers v s r
    unfolding run_msg
    deposit-Covers cb v s ne h =
        let (amount, e, h1) = >>=-eq-ok (or_err (host.must_pay info.funds v.config.denom) _) _ h in
        let (d, e2, h2) = >>=-eq-ok (State.deposit s amount) _ h1 in
        let came = paid v.config.denom amount (or_err-eq-ok _ _ e) in
        let (size, same) = deposit_pool_adds laws s amount e2 in
        subst (Answers v s) (ok-injective h2)
          (deposit-Answers cb v s d.1 amount d.0 ne came size same)

    withdraw-Answers :
        (v : Vault) (s s' : State) (amount claim : ℕ)
        → s'.deposit_pool.size + claim ≡ s.deposit_pool.size
        → s'.debt_pool.size ≡ s.debt_pool.size
        → Answers v s (
          Contract.withdraw_response v.config info.sender amount claim none,
          record v { state = s' },
        )
    unfolding Contract.withdraw_response
    withdraw-Answers v s s' amount claim size same =
        omega (arith, total_of-coins v.config.denom claim)

    withdraw-Covers :
        (v : Vault) (s : State) {r : Response × Vault}
        → run_msg host env info (withdraw none) v s ≡ ok r
        → Answers v s r
    unfolding run_msg
    withdraw-Covers v s h =
        let (amount, e, h1) = >>=-eq-ok (or_err (host.must_pay info.funds _) _) _ h in
        let (d, e2, h2) = >>=-eq-ok (State.withdraw s amount) _ h1 in
        let (size, same) = withdraw_pool_pays laws s amount e2 in
        subst (Answers v s) (ok-injective h2) (withdraw-Answers v s d.1 amount d.0 size same)

    borrow-Answers :
        (cb : Option Callback) (v : Vault) (b : Borrowers) (s s' : State) (amount minted : ℕ)
        → s'.debt_pool.size ≡ s.debt_pool.size + amount
        → s'.deposit_pool.size ≡ s.deposit_pool.size
        → Answers v s (
          Contract.borrow_response v.config info.sender amount minted cb,
          record v { state = s'; borrowers = b },
        )
    unfolding Contract.borrow_response
    borrow-Answers none v b s s' amount minted size same =
        omega (arith, total_of-coins v.config.denom amount)
    borrow-Answers (some c) v b s s' amount minted size same =
        omega (arith, total_of-coins v.config.denom amount)

    borrow-Covers :
        (amount : ℕ) (cb : Option Callback) (v : Vault) (s : State) {r : Response × Vault}
        → run_msg host env info (borrow amount cb) v s ≡ ok r
        → Answers v s r
    unfolding run_msg
    borrow-Covers amount cb v s h =
        let (b, e, h1) = >>=-eq-ok (Borrowers.load v.borrowers info.sender) _ h in
        let (b', e1, h2) = >>=-eq-ok (Borrowers.borrow b amount) _ h1 in
        let (d, e2, h3) = >>=-eq-ok (State.borrow s amount) _ h2 in
        let (size, same) = borrow_pool_adds laws s amount e2 in
        subst (Answers v s) (ok-injective h3)
          (borrow-Answers cb v (Borrowers.save b' v.borrowers) s d.1 amount d.0 size same)

    repay-Covers :
        (v : Vault) (s : State) {r : Response × Vault}
        → run_msg host env info repay v s ≡ ok r
        → Answers v s r
    unfolding run_msg
    repay-Covers v s h =
        let (b, e, h1) = >>=-eq-ok (Borrowers.load v.borrowers info.sender) _ h in
        let (amount, e1, h2) = >>=-eq-ok (or_err (find_coin v.config.denom info.funds) _) _ h1 in
        let (tokens, e2, h3) = >>=-eq-ok (or_err (find_coin _ info.funds) _) _ h2 in
        let (b', e3, h4) = >>=-eq-ok (Borrowers.repay b amount) _ h3 in
        let (d, e4, h5) = >>=-eq-ok (State.repay s amount tokens) _ h4 in
        let (size, same) = repay_pool_covers laws s amount tokens e4 in
        subst (Answers v s) (ok-injective h5)
          (omega (arith, find_coin-le v.config.denom info.funds (or_err-eq-ok _ _ e1)))

    sudo_covers :
        (msg : SudoMsg) (v : Vault) {r : Response × Vault}
        → sudo host msg v ≡ ok r
        → (r.0.messages ≡ []) × (r.1.state ≡ v.state)
    unfolding sudo
    sudo_covers (add_borrower addr limit) v h = ground arith
    sudo_covers (update_borrower addr limit) v h = ground arith
    sudo_covers (update_interest i) v h = ground arith

    run_msg-Covers :
        (msg : ExecuteMsg) (v : Vault) (s : State) {r : Response × Vault}
        → IsDirect msg
        → str_eq (token_denom (rcpt_id v.config)) v.config.denom ≡ false
        → Covers v.state s 0 0
        → Covers s v.state 0 0
        → run_msg host env info msg v s ≡ ok r
        → Answers v v.state r
    run_msg-Covers (deposit cb) v s d ne le ge h = omega (arith, deposit-Covers cb v s ne h)
    run_msg-Covers (withdraw none) v s d ne le ge h = omega (arith, withdraw-Covers v s h)
    run_msg-Covers (withdraw (some cb)) v s d ne le ge h = absurd d
    run_msg-Covers (borrow amount cb) v s d ne le ge h =
        omega (arith, borrow-Covers amount cb v s h)
    run_msg-Covers repay v s d ne le ge h = omega (arith, repay-Covers v s h)
    run_msg-Covers (sudo_msg msg) v s d ne le ge h =
        unfold run_msg in
        (let (_, e, h1) = >>=-eq-ok (ensure (str_eq info.sender v.config.registry) _) _ h in
          let (none_sent, kept) = sudo_covers msg v h1 in rw (none_sent, kept) (omega arith))

    -- The vault stays solvent: if it holds at least its deposits less the debt, and its receipt token
    -- is not its base denom, then after any call that goes through but a withdrawal with a callback it
    -- still does, by the tokens that came in and went out.
    pub execute_solvent :
        (msg : ExecuteMsg) (v v' : Vault) (r : Response) (held held' : ℕ)
        → IsDirect msg
        → str_eq (token_denom (rcpt_id v.config)) v.config.denom ≡ false
        → execute host env info msg v ≡ ok (r, v')
        → v.state.deposit_pool.size ≤ v.state.debt_pool.size + held
        → held' + sent v.config.denom r.messages ≡ held + total_of v.config.denom info.funds
        → v'.state.deposit_pool.size ≤ v'.state.debt_pool.size + held'
    unfolding execute
    execute_solvent msg v v' r held held' d ne h solvent moved =
        let (s, e, h1) =
          >>=-eq-ok (distribute_interest v.state v.config.interest env.block_time) _ h in
        let even = (distribute_conserves laws v.state v.config.interest env.block_time e).0 in
        omega (arith, run_msg-Covers msg v s d ne (omega arith) (omega arith) h1)
