-- ===== src/Examples/Fixed.antt =====
-- The theorems on the fixed index at a basket of 10 btc and 6 eth a share.
use nami_contracts.Base.{
  ℕ, ◌≤◌, String, ◌≡◌, refl, false, none, some, List, [], ◌∷◌, arith, ok, traverse, All, lookup,
}
use nami_contracts.Numeric.{reference, reference-IsNumeric}
use nami_contracts.Chain.{Coin, coin, Response, MessageInfo}
use nami_contracts.IndexFixed.Vault
use nami_contracts.IndexFixed.Vault.{Allocations, fund_of, rebalance}
use nami_contracts.IndexFixed.Contract
use nami_contracts.IndexFixed.Contract.{Index, Config}
use nami_contracts.IndexFixed.Deposits.{IsBasket, deposit-IsBasket}
use nami_contracts.IndexFixed.Withdrawals.{IsCovered, IsBalanced, withdraw-IsCovered, rebalance_own}
use nami_contracts.IndexFixed.Effects.{deposit_keeps_shares}
use nami_contracts.Examples.Sample.{sample, sample_env}

abbrev allocations : Allocations
allocations = ("btc", (10, "fin_btc")) ∷ ("eth", (6, "fin_eth")) ∷ []

abbrev brought : List Coin
brought = coin 20 "btc" ∷ coin 13 "eth" ∷ []

deposit_two : Vault.deposit allocations brought ≡ ok 2
unfolding Vault.deposit Vault.deposit_loop Vault.agree fund_of
deposit_two = refl

deposit-IsBasket_example : All (IsBasket brought 2) allocations
deposit-IsBasket_example = deposit-IsBasket reference-IsNumeric allocations brought 2 deposit_two

abbrev settled : Allocations
settled = ("btc", (12, "fin_btc")) ∷ ("eth", (6, "fin_eth")) ∷ []

rebalance_ten : rebalance sample "self" 10 allocations ≡ ok settled
unfolding rebalance Vault.rebalance_loop
rebalance_ten = refl

withdraw_three : Vault.withdraw settled 3 ≡ ok (coin 36 "btc" ∷ coin 18 "eth" ∷ [])
unfolding Vault.withdraw Vault.withdraw_coin traverse
withdraw_three = refl

rebalance_own_example : IsBalanced sample "self" 10 settled "eth"
rebalance_own_example =
    rebalance_own sample "self" reference-IsNumeric 10 allocations "eth" (omega arith) rebalance_ten
      refl

withdraw-IsCovered_example : All (IsCovered sample "self") (coin 36 "btc" ∷ coin 18 "eth" ∷ [])
withdraw-IsCovered_example =
    withdraw-IsCovered sample "self" reference-IsNumeric 10 3 allocations (refl, (refl, tt))
      rebalance_ten (omega arith) withdraw_three

abbrev index : Index
index = record {
  config = record { quote_denom = "usdc"; fee_collector = "treasury" };
  fee_manager = record {
    last_accrual_time = 0;
    high_water_mark = 0;
    rates = record { management = none; performance = none; transaction = none };
  };
  allocations = allocations;
}

abbrev depositor : MessageInfo
depositor = record { sender = "user"; funds = brought }

abbrev grown : Allocations
grown = ("btc", (10, "fin_btc")) ∷ ("eth", (5, "fin_eth")) ∷ []

deposit_runs :
    (r : Response) × (Contract.deposit_arm sample sample_env depositor index 0
      ≡ ok (r, grown, false))
unfolding Contract.deposit_arm Vault.deposit Vault.deposit_loop Vault.agree fund_of rebalance
    Vault.rebalance_loop
deposit_runs = (_, refl)

deposit_keeps_shares_example :
    (w' : ℕ) × (addr : String) × (lookup "btc" grown ≡ some (w', addr)) × (10 ≤ w')
unfolding fund_of
deposit_keeps_shares_example =
    deposit_keeps_shares reference-IsNumeric sample sample_env depositor index 0 deposit_runs.1
      "btc" "fin_btc" 10 20 125 10 refl refl refl refl (omega arith)
