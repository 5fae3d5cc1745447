-- ===== src/Examples/Nav.antt =====
-- The theorems on the NAV index at an index of btc, its quote coin, and eth.
use nami_contracts.Base.{
  ℕ, ◌+◌, ◌*◌, ◌≤◌, String, ◌≡◌, refl, ◌⊎◌, none, some, [], ◌∷◌, arith, ok, lookup,
}
use nami_contracts.Numeric.{unit, reference, reference-IsNumeric}
use nami_contracts.Chain.{CosmosMsg}
use nami_contracts.AssetAllocation
use nami_contracts.AssetAllocation.{AssetAllocation, Snapshot}
use nami_contracts.AssetAllocation.Trades.{IsTrade, rebalance_sells}
use nami_contracts.NavIndex.Vault
use nami_contracts.NavIndex.Vault.{Vault, Allocations, other_allocations}
use nami_contracts.NavIndex.Contract.{shares_for}
use nami_contracts.NavIndex.Shares.{worth, deposit_keeps_nav}
use nami_contracts.Examples.Sample.{sample}

abbrev tenth : ℕ
tenth = 100_000_000_000_000_000

abbrev btc : AssetAllocation
btc = record {
  denom = "btc";
  weight = 2 * tenth;
  swap_contract = none;
  oracle = "BTC";
  threshold = 0;
  slippage = tenth;
}

abbrev eth : AssetAllocation
eth = record {
  denom = "eth";
  weight = 8 * tenth;
  swap_contract = some "fin_eth";
  oracle = "ETH";
  threshold = 0;
  slippage = tenth;
}

abbrev vault : Vault
vault = record { host = sample; address = "self"; quote_denom = "btc" }

abbrev allocations : Allocations
allocations = ("btc", btc) ∷ ("eth", eth) ∷ []

abbrev held : Snapshot
held = record { balance = 125; price = unit; value = 125 * unit }

rebalance_runs :
    (msg : CosmosMsg) × (AssetAllocation.rebalance_msg sample "self" (191 * unit) btc held eth
      ≡ ok (some msg))
unfolding AssetAllocation.rebalance_msg AssetAllocation.snapshot AssetAllocation.target_value
    AssetAllocation.side_of AssetAllocation.trade AssetAllocation.sell
rebalance_runs = (_, refl)

rebalance_sells_example :
    (denom : String) × (available : ℕ) × (((denom ≡ "eth") × (some 66 ≡ some available))
      ⊎ ((denom ≡ "btc") × (available ≡ 125)))
    × IsTrade eth denom available rebalance_runs.0
rebalance_sells_example =
    rebalance_sells reference-IsNumeric sample "self" (191 * unit) btc held eth rebalance_runs.0
      rebalance_runs.1

swap_runs : (msg : CosmosMsg) × (AssetAllocation.swap_msg sample "self" 10 "user" none eth ≡ ok msg)
unfolding AssetAllocation.swap_msg AssetAllocation.snapshot
swap_runs = (_, refl)

abbrev price : ℕ
price = 1_660_000_000_000_000_000

nav_100 : Vault.nav vault allocations (some 25) 100 ≡ ok price
unfolding Vault.nav Vault.load_allocations Vault.other_allocations Vault.add_values Vault.per_share
    AssetAllocation.snapshot
nav_100 = refl

quote_price_btc : Vault.quote_price vault allocations ≡ ok unit
unfolding Vault.quote_price AssetAllocation.snapshot
quote_price_btc = refl

shares_for_25 : shares_for 25 unit price ≡ ok 15
unfolding shares_for
shares_for_25 = refl

deposit_keeps_nav_example :
    (quote : AssetAllocation) × (lookup "btc" allocations ≡ some quote)
    × (price * (100 + 15) ≤ worth vault (quote ∷ other_allocations vault allocations))
deposit_keeps_nav_example =
    deposit_keeps_nav reference-IsNumeric vault allocations 25 100 (omega arith) nav_100
      quote_price_btc shares_for_25
