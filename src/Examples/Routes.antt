-- ===== src/Examples/Routes.antt =====
-- The theorems on the affiliate router and on the entry adapter.
use nami_contracts.Base.{
  ℕ, ◌+◌, ◌<◌, String, ◌≡◌, refl, Option, none, some, List, [], ◌∷◌, ◌++◌, ok, traverse, Pairs,
}
use nami_contracts.Numeric.{reference, reference-IsNumeric}
use nami_contracts.Chain.{
  Coin, coin, coins, SwapEntry, then_deposit, then_send, then_swap, index_deposit, CosmosMsg,
  wasm_execute, Response, total_of, sent,
}
use nami_contracts.IndexFixed.Vault
use nami_contracts.IndexFixed.Vault.{Allocations}
use nami_contracts.Affiliate
use nami_contracts.Affiliate.{Router}
use nami_contracts.EntryAdapter.Holdings
use nami_contracts.EntryAdapter.Holdings.{Index}
use nami_contracts.EntryAdapter.Status
use nami_contracts.EntryAdapter.Contract
use nami_contracts.EntryAdapter.Contract.{Adapter, deposit, run_step, self_then}
use nami_contracts.EntryAdapter.Baskets.{left, balances, deposit_msg-deposits}
use nami_contracts.EntryAdapter.Messages.{IsPurchase, IsSale}
use nami_contracts.EntryAdapter.Flows.{asked, deposit_spends, swap_sends}
use nami_contracts.Examples.Sample.{sample, sample-IsHost, sample_env, paid_by}

abbrev router : Router
router = record { config = record { max_affiliate_fee_bps = 100 }; whitelist = ("index", tt) ∷ [] }

abbrev partner : Option (String × ℕ)
partner = some ("partner", 50)

abbrev allocations : Allocations
allocations = ("btc", (10, "fin_btc")) ∷ ("eth", (6, "fin_eth")) ∷ []

abbrev index : Index
index = record {
  address = "index";
  allocation = ("btc", 10) ∷ ("eth", 6) ∷ [];
  denom = "x/nami-index-fixed-index-rcpt";
}

basket_runs :
    (r : CosmosMsg × List SwapEntry) × (Holdings.deposit_msg sample sample_env index ≡ ok r)
unfolding Holdings.deposit_msg Holdings.info_of Holdings.share_of Holdings.min_units Holdings.use_up
    traverse
basket_runs = (_, refl)

deposit_msg-deposits_example :
    (share : ℕ) × (funds : List Coin) × (basket_runs.0.0 ≡ wasm_execute "index" index_deposit funds)
    × (0 < share)
    × (Vault.deposit allocations funds ≡ ok share)
    × ((denom : String)
        → total_of denom funds + left denom basket_runs.0.1
          ≡ balances sample "self" denom index.allocation)
deposit_msg-deposits_example =
    deposit_msg-deposits reference-IsNumeric sample sample_env index allocations refl
      (refl, (refl, tt)) basket_runs.1

abbrev adapter : Adapter
adapter = record {
  config = record { quote_denom = "usdc" };
  swap_contracts = ("btc", "fin_btc") ∷ ("eth", "fin_eth") ∷ [];
}

abbrev swaps : List SwapEntry
swaps =
    record { denom = "btc"; amount = 70; min_return = none }
    ∷ record { denom = "eth"; amount = 30; min_return = some 9 }
    ∷ []

enter_runs :
    (r : Response) × (Contract.execute sample sample_env
        (paid_by "user" 100 "usdc")
        (deposit "index" swaps)
        adapter
      ≡ ok r)
unfolding Contract.execute Contract.swap_all Status.swap_msg
enter_runs = (_, refl)

deposit_spends_example :
    (total_of "usdc" (coins 100 "usdc") ≡ asked swaps)
    × (sent "usdc" enter_runs.0.messages ≡ asked swaps)
    × ((msgs : List CosmosMsg) × (enter_runs.0.messages
          ≡ msgs ++ self_then sample_env (then_deposit "user" "index") ∷ [])
        × Pairs (IsPurchase adapter.swap_contracts "usdc") swaps msgs)
deposit_spends_example =
    deposit_spends reference-IsNumeric sample sample_env sample-IsHost (paid_by "user" 100 "usdc")
      "index" swaps adapter enter_runs.1

abbrev held : List Coin
held = coin 125 "btc" ∷ coin 66 "eth" ∷ []

send_runs :
    (r : Response) × (run_step sample sample_env (then_send "user" (some 50)) adapter ≡ ok r)
unfolding run_step Contract.send_back traverse
send_runs = (_, refl)

swap_runs :
    (r : Response) × (run_step sample sample_env (then_swap "user" (some 50)) adapter ≡ ok r)
unfolding run_step Contract.swap_back Status.swap_msg traverse
swap_runs = (_, refl)

swap_sends_example :
    ((denom : String) → sent denom swap_runs.0.messages ≡ total_of denom held)
    × ((msgs : List CosmosMsg) × (swap_runs.0.messages
          ≡ msgs ++ self_then sample_env (then_send "user" (some 50)) ∷ [])
        × Pairs (IsSale adapter.swap_contracts) held msgs)
swap_sends_example =
    swap_sends reference-IsNumeric sample sample_env "user" (some 50) adapter held refl swap_runs.1
