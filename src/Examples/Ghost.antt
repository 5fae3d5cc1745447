-- ===== src/Examples/Ghost.antt =====
-- The theorems on the ghost vault at a vault with 1000 deposited and 500 borrowed.
use nami_contracts.Base.{
  ℕ, ◌+◌, ◌*◌, ◌≤◌, String, ◌≡◌, refl, none, some, [], ◌∷◌, arith, if◌then◌else◌, str_eq, ok,
  lookup,
}
use nami_contracts.Numeric.{unit, reference, reference-IsNumeric}
use nami_contracts.Chain.{
  coin, coins, Callback, opaque, Response, MessageInfo, token_denom, total_of, sent, burnt,
}
use nami_contracts.SharePool
use nami_contracts.SharePool.{SharePool}
use nami_contracts.Interest
use nami_contracts.Interest.{Interest}
use nami_contracts.GhostVault.Borrowers
use nami_contracts.GhostVault.State
use nami_contracts.GhostVault.State.{State, distribute_interest}
use nami_contracts.GhostVault.Contract
use nami_contracts.GhostVault.Contract.{
  Config, Vault, deposit, withdraw, borrow, execute, rcpt_id, debt_id,
}
use nami_contracts.GhostVault.Pools.{distribute_conserves}
use nami_contracts.GhostVault.Accounting.{execute_solvent}
use nami_contracts.GhostVault.Limits.{borrow_within_limit, withdraw_callback_differs}
use nami_contracts.Examples.Sample.{sample, sample-IsHost, sample_env, paid_by}

abbrev tenth : ℕ
tenth = 100_000_000_000_000_000

abbrev config : Config
config = record {
  denom = "usdc";
  interest = record {
    target_utilization = 8 * tenth;
    base_rate = tenth;
    step1 = 2 * tenth;
    step2 = 20 * tenth;
  };
  registry = "registry";
}

abbrev state : State
state = record {
  last_updated = 0;
  debt_pool = record { size = 500; shares = 500 * unit };
  deposit_pool = record { size = 1_000; shares = 1_000 * unit };
}

abbrev vault : Vault
vault = record { config = config; state = state; borrowers = ("market", (800, 500)) ∷ [] }

abbrev lent : Vault
lent = record vault {
  state = record state { debt_pool = record { size = 600; shares = 600 * unit } };
  borrowers = ("market", (800, 600)) ∷ [];
}

abbrev answer : Response
answer = Contract.borrow_response config "market" 100 100 none

accrues_nothing : distribute_interest state config.interest 0 ≡ ok state
unfolding distribute_interest State.calculate_interest State.debt_rate State.utilization
    Interest.rate SharePool.deposit SharePool.join SharePool.ownership SharePool.whole_shares
accrues_nothing = refl

borrow_100 :
    execute sample sample_env (paid_by "market" 0 "usdc") (borrow 100 none) vault
    ≡ ok (answer, lent)
unfolding execute Contract.run_msg Borrowers.load Borrowers.save Borrowers.borrow State.borrow
    SharePool.join
borrow_100 = rw accrues_nothing refl

abbrev repayment : MessageInfo
repayment = record {
  sender = "market";
  funds = coin 100 "usdc" ∷ coin 50 (token_denom (debt_id config)) ∷ [];
}

abbrev repaid : Vault
repaid = record vault {
  state = record state { debt_pool = record { size = 450; shares = 450 * unit } };
  borrowers = ("market", (800, 400)) ∷ [];
}

abbrev drawn : Vault
drawn = record vault {
  state = record state { deposit_pool = record { size = 990; shares = 990 * unit } };
}

abbrev callback : Callback
callback = opaque "again"

withdraw_10 :
    execute sample sample_env
      (paid_by "lender" 10 (token_denom (rcpt_id config)))
      (withdraw (some callback))
      vault
    ≡ ok (Contract.withdraw_response config "lender" 10 10 (some callback), drawn)
unfolding execute Contract.run_msg State.withdraw SharePool.leave SharePool.ownership
    SharePool.whole_shares
withdraw_10 = rw accrues_nothing refl

distribute_conserves_example :
    (state.deposit_pool.size + 500 ≡ 1_000 + 500)
    × (500 ≤ state.debt_pool.size)
    × (state.deposit_pool.shares ≡ 1_000 * unit)
    × (state.debt_pool.shares ≡ 500 * unit)
    × (state.last_updated ≡ 0)
distribute_conserves_example =
    distribute_conserves reference-IsNumeric state config.interest 0 accrues_nothing

sent_100 : 400 + sent config.denom answer.messages ≡ 500 + total_of config.denom (coins 0 "usdc")
unfolding Contract.borrow_response
sent_100 = refl

execute_solvent_example : 1_000 ≤ 600 + 400
execute_solvent_example =
    execute_solvent reference-IsNumeric sample sample-IsHost sample_env (paid_by "market" 0 "usdc")
      (borrow 100 none) vault lent answer 500 400 tt refl borrow_100 (omega arith) sent_100

borrow_within_limit_example :
    (limit : ℕ) × (current : ℕ) × (lookup "market" vault.borrowers ≡ some (limit, current))
    × (current + 100 ≤ limit)
    × ((other : String)
        → lookup other lent.borrowers ≡ (
            if str_eq "market" other
            then some (limit, current + 100)
            else lookup other vault.borrowers))
borrow_within_limit_example =
    borrow_within_limit reference-IsNumeric sample sample_env (paid_by "market" 0 "usdc") 100 none
      vault lent answer borrow_100

withdraw_callback_differs_example :
    (q : Response) × (s : State) × (execute sample sample_env
        (paid_by "lender" 10 (token_denom (rcpt_id config)))
        (withdraw none)
        vault
      ≡ ok (q, drawn))
    × (distribute_interest state config.interest 0 ≡ ok s)
    × (990 + sent "usdc" q.messages ≡ s.deposit_pool.size)
    × (sent "usdc" (Contract.withdraw_response config "lender" 10 10 (some callback)).messages
        ≡ total_of (token_denom (rcpt_id config)) (coins 10 (token_denom (rcpt_id config))))
    × (burnt
          (token_denom (rcpt_id config))
          (Contract.withdraw_response config "lender" 10 10 (some callback)).messages
        ≡ total_of (token_denom (rcpt_id config)) (coins 10 (token_denom (rcpt_id config))))
    × (burnt (token_denom (rcpt_id config)) q.messages
        ≡ total_of (token_denom (rcpt_id config)) (coins 10 (token_denom (rcpt_id config))))
withdraw_callback_differs_example =
    withdraw_callback_differs reference-IsNumeric sample sample-IsHost sample_env
      (paid_by "lender" 10 (token_denom (rcpt_id config))) callback vault drawn _ withdraw_10
