-- ===== src/NavIndex/Vault.antt =====
-- `Vault` (contracts/nami-index-nav/src/vault.rs). The methods take and return the map `ALLOCATIONS`.
use nami_contracts.Base.{
  ℕ, min, String, Bool, true, false, not, ◌&&◌, ◌||◌, Option, none, some, List, [], ◌∷◌, ◌++◌, ltb,
  leb, ◌==◌, if◌then◌else◌, str_eq, unwrap_or_default, Outcome, ok, err, ◌>>=◌, ◌>>◌, ensure,
  or_err, or_panic, lift_err, length, keep_if, Store, lookup, insert, erase,
}
use nami_contracts.Numeric.{Numeric, unit}
use nami_contracts.Chain.{coins, Denoms, CosmosMsg, bank_send, Host}
use nami_contracts.AssetAllocation.{AssetAllocation, Snapshot, snapshot, rebalance_msg, swap_msg}
use nami_contracts.NavIndex.Errors.{
  ContractError, std, checked_from_ratio, overflow, oracle_error, asset_allocation_error,
  slippage_exceeded, weight_not_zero, missing_quote_allocation, weight_one, invalid_swap_contract,
  slippage_one, invalid_denom_pair,
}

abbrev pub Allocations : Type 0
Allocations = Store AssetAllocation

-- The fields of the source's `Vault` that its methods read.
pub record Vault : Type 0 where
  pub host : Host
  pub address : String
  pub quote_denom : String

abbrev is_pair : Denoms → String → String → Bool
is_pair d quote denom =
    (str_eq d.quote quote && str_eq d.base denom) || (str_eq d.base quote && str_eq d.quote denom)

-- The checks on the swap contract of an allocation.
unfoldable pub check_swap_contract :
    Vault → AssetAllocation → Option String → Outcome ContractError (Unit {0})
check_swap_contract v a none = ok tt
check_swap_contract v a (some swap_addr) = do
  valid ← or_err (v.host.addr_validate swap_addr) std
  denoms ← or_err (v.host.fin_config swap_addr) std
  ensure (is_pair denoms v.quote_denom a.denom) invalid_denom_pair
  price ← or_err (v.host.price a.oracle) oracle_error
  ok tt

abbrev unwrap_or : Option ℕ → ℕ → ℕ
unwrap_or none n = n
unwrap_or (some m) n = m

abbrev is_some {ℓ} : {A : Type ℓ} → Option A → Bool
is_some none = false
is_some (some a) = true

unfoldable pub save_allocation :
    Vault → AssetAllocation → Allocations → Outcome ContractError Allocations
save_allocation v a m = do
  ensure (is_some a.swap_contract || str_eq a.denom v.quote_denom) invalid_swap_contract
  check_swap_contract v a a.swap_contract
  ensure (ltb 0 a.slippage && ltb a.slippage unit) slippage_one
  ok (insert a.denom a m)

unfoldable pub save_all :
    Vault → List AssetAllocation → Allocations → Outcome ContractError Allocations
save_all v [] m = ok m
save_all v (a ∷ rest) m = save_allocation v a m >>= save_all v rest

unfoldable pub remove_allocation : Vault → String → Allocations → Outcome ContractError Allocations
remove_allocation v denom m = do
  amount ← or_err (v.host.query_balance v.address denom) std
  ensure (amount == 0) weight_not_zero
  ok (erase denom m)

-- The allocations without a swap contract.
abbrev pub quotes : List AssetAllocation → List AssetAllocation
quotes = keep_if (λ (a : AssetAllocation). not (is_some a.swap_contract))

abbrev has_denom : String → List AssetAllocation → Bool
has_denom denom [] = false
has_denom denom (a ∷ rest) = str_eq a.denom denom || has_denom denom rest

-- The values of the map but the one of the quote denom.
unfoldable pub other_allocations : Vault → Allocations → List AssetAllocation
other_allocations v [] = []
other_allocations v ((_, a) ∷ m) =
    if str_eq a.denom v.quote_denom then other_allocations v m else a ∷ other_allocations v m

unfoldable pub load_allocations :
    Vault → Allocations → Outcome ContractError (AssetAllocation × List AssetAllocation)
load_allocations v m = do
  quote ← or_err (lookup v.quote_denom m) std
  ok (quote, other_allocations v m)

-- The removal of the allocations that are not in the new set.
unfoldable pub remove_absent :
    Vault
    → List AssetAllocation
    → List AssetAllocation
    → Allocations
    → Outcome ContractError Allocations
remove_absent v targets [] m = ok m
remove_absent v targets (a ∷ rest) m =
    (if has_denom a.denom targets then ok m else remove_allocation v a.denom m)
    >>= remove_absent v targets rest

-- `next` on the quotes, and that no other one follows.
unfoldable pub single_quote : List AssetAllocation → Outcome ContractError AssetAllocation
single_quote [] = err missing_quote_allocation
single_quote (a ∷ []) = ok a
single_quote (a ∷ b ∷ rest) = err missing_quote_allocation

module _ ⦃cw : Numeric⦄ where
  open cw use {uint_sub, from_ratio, dec_add, dec_sub, dec_mul, dec_div, to_uint_floor}

  -- `sum::<Decimal>()` of the weights
  unfoldable pub sum_weights : ℕ → List AssetAllocation → Outcome ContractError ℕ
  sum_weights acc [] = ok acc
  sum_weights acc (a ∷ rest) = do acc' ← or_panic (dec_add acc a.weight); sum_weights acc' rest

  unfoldable pub init :
      Vault → List AssetAllocation → Allocations → Outcome ContractError Allocations
  init v allocations m = do
    total ← sum_weights 0 allocations
    ensure (total == unit) weight_one
    ensure (length (quotes allocations) == 1) missing_quote_allocation
    save_all v allocations m

  unfoldable pub update_allocations :
      Vault → List AssetAllocation → Allocations → Outcome ContractError Allocations
  update_allocations v targets m = do
    total ← sum_weights 0 targets
    ensure (total == unit) weight_one
    quote_alloc ← single_quote (quotes targets)
    (curr_quote, curr_others) ← load_allocations v m
    ensure (str_eq curr_quote.denom quote_alloc.denom) missing_quote_allocation
    kept ← remove_absent v targets curr_others m
    save_all v targets kept

  abbrev pub snap : Vault → AssetAllocation → Outcome ContractError Snapshot
  snap v a = lift_err asset_allocation_error (snapshot v.host v.address a)

  unfoldable pub quote_price : Vault → Allocations → Outcome ContractError ℕ
  quote_price v m = do
    quote_asset ← or_err (lookup v.quote_denom m) std
    s ← snap v quote_asset
    ok s.price

  -- The fold over the values of the other allocations.
  unfoldable pub add_values : Vault → ℕ → List AssetAllocation → Outcome ContractError ℕ
  add_values v acc [] = ok acc
  add_values v acc (a ∷ rest) = do
    s ← snap v a
    acc' ← or_panic (dec_add acc s.value)
    add_values v acc' rest

  -- The end of `nav`: the total over the shares, or the price of the quote coin where there are none.
  unfoldable pub per_share : ℕ → ℕ → ℕ → Outcome ContractError ℕ
  per_share q_price total shares = if shares == 0 then ok q_price else do
    share_ratio ← or_panic (from_ratio shares 1)
    or_err (dec_div total share_ratio) checked_from_ratio

  unfoldable pub nav : Vault → Allocations → Option ℕ → ℕ → Outcome ContractError ℕ
  nav v m amount shares = do
    (quote, others) ← load_allocations v m
    q ← snap v quote
    net ← or_err (uint_sub q.balance (unwrap_or_default amount)) overflow
    whole ← or_panic (from_ratio net 1)
    starting ← or_err (dec_mul whole q.price) overflow
    total ← add_values v starting others
    per_share q.price total shares

  -- The messages of the allocations that trade.
  unfoldable pub rebalance_others :
      Vault
      → ℕ
      → AssetAllocation
      → Snapshot
      → List AssetAllocation
      → Outcome ContractError (List CosmosMsg)
  rebalance_others v total quote q [] = ok []
  rebalance_others v total quote q (a ∷ rest) = do
    msg ← lift_err asset_allocation_error (rebalance_msg v.host v.address total quote q a)
    msgs ← rebalance_others v total quote q rest
    ok (elim msg [ none ↦ msgs | some m ↦ m ∷ msgs ])

  unfoldable pub rebalance : Vault → Allocations → Outcome ContractError (List CosmosMsg)
  rebalance v m = do
    (quote, others) ← load_allocations v m
    q ← snap v quote
    total ← add_values v q.value others
    rebalance_others v total quote q others

  -- `Decimal::from_ratio(a, 1).checked_mul(b)?.to_uint_floor()` and the same with `checked_div`
  unfoldable pub times : ℕ → ℕ → Outcome ContractError ℕ
  times a b = do
    whole ← or_panic (from_ratio a 1)
    product ← or_err (dec_mul whole b) overflow
    ok (to_uint_floor product)

  unfoldable pub over : ℕ → ℕ → Outcome ContractError ℕ
  over a b = do
    whole ← or_panic (from_ratio a 1)
    quotient ← or_err (dec_div whole b) checked_from_ratio
    ok (to_uint_floor quotient)

  -- `min_return`: the subtraction is unwrapped where it is done.
  unfoldable pub least_return : ℕ → ℕ → Outcome ContractError (Option ℕ)
  least_return amt_in_quote alloc_max =
      if ltb alloc_max amt_in_quote
      then (or_panic (uint_sub amt_in_quote alloc_max) >>= (λ x. ok (some x)))
      else ok none

  -- One allocation of a withdrawal: its message, where it has one, and what remains.
  unfoldable pub withdraw_step :
      Vault → String → ℕ → ℕ → ℕ → ℕ → AssetAllocation → Outcome ContractError (List CosmosMsg × ℕ)
  withdraw_step v sender quote_price total_weight max_cost rem a = do
    share ← or_err (dec_div a.weight total_weight) checked_from_ratio
    amt ← times rem share
    if amt == 0 then ok ([], rem) else do
      amt_in_quote ← over amt quote_price
      alloc_max ← times max_cost share
      least ← least_return amt_in_quote alloc_max
      msg ← lift_err asset_allocation_error (swap_msg v.host v.address amt sender least a)
      rem' ← or_err (uint_sub rem amt) overflow
      ok (msg ∷ [], rem')

  unfoldable pub withdraw_others :
      Vault → String → ℕ → ℕ → ℕ → ℕ → List AssetAllocation → Outcome ContractError (List CosmosMsg)
  withdraw_others v sender quote_price total_weight max_cost rem [] = ok []
  withdraw_others v sender quote_price total_weight max_cost rem (a ∷ rest) = do
    (msgs, rem') ← withdraw_step v sender quote_price total_weight max_cost rem a
    later ← withdraw_others v sender quote_price total_weight max_cost rem' rest
    ok (msgs ++ later)

  unfoldable pub withdraw :
      Vault → Allocations → ℕ → String → Option ℕ → Outcome ContractError (List CosmosMsg)
  withdraw v m value sender slippage = do
    (quote, others) ← load_allocations v m
    q ← snap v quote
    let slip = unwrap_or slippage unit
    amount ← over value q.price
    whole ← or_panic (from_ratio amount 1)
    kept ← or_err (dec_sub unit slip) overflow
    let min_amount = to_uint_floor (unwrap_or_default (dec_mul whole kept))
    let send_quote = min amount q.balance
    let first = bank_send sender (coins send_quote quote.denom)
    owed ← or_err (uint_sub amount send_quote) overflow
    remaining ← times owed q.price
    if remaining == 0
        then (ensure (leb min_amount send_quote) slippage_exceeded >> ok (first ∷ []))
        else (do
          total_weight ← sum_weights 0 others
          max_cost ← or_err (uint_sub amount min_amount) overflow
          msgs ← withdraw_others v sender q.price total_weight max_cost remaining others
          ok (first ∷ msgs))
