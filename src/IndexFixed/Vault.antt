-- ===== src/IndexFixed/Vault.antt =====
-- `Vault` (contracts/nami-index-fixed/src/vault.rs): the allocations of the index. The methods take and
-- return the map `ALLOCATIONS`, which holds for each denom its amount per share and its swap contract.
use nami_contracts.Base.{
  ℕ, String, Bool, false, not, ◌&&◌, ◌||◌, Option, none, some, List, [], ◌∷◌, map, ltb, ◌==◌,
  if◌then◌else◌, str_eq, unwrap_or_default, Outcome, ok, err, ◌>>=◌, ◌>>◌, ensure, or_err, or_panic,
  traverse, Store, lookup, contains, insert, erase,
}
use nami_contracts.Numeric.{Numeric}
use nami_contracts.Chain.{
  Coin, coin, coins, after_reallocate, fin_swap, CosmosMsg, wasm_execute, Denoms, Host,
}
use nami_contracts.IndexFixed.Errors.{
  ContractError, std, overflow, missing_denomination, deposit_proportions_not_identical,
  weight_not_zero, invalid_weight, invalid_denom_pair, allocation_already_exists,
}

abbrev pub Allocations : Type 0
Allocations = Store (ℕ × String)

-- Whether a trading pair is of the two denoms, in either order.
abbrev pub is_pair : Denoms → String → String → Bool
is_pair d quote denom =
    (str_eq d.quote quote && str_eq d.base denom) || (str_eq d.base quote && str_eq d.quote denom)

unfoldable pub add_allocation :
    Host → String → String → ℕ → String → Allocations → Outcome ContractError Allocations
add_allocation host quote_denom denom weight contract m = do
  ensure (not (contains denom m)) allocation_already_exists
  addr ← or_err (host.addr_validate contract) std
  denoms ← or_err (host.fin_config addr) std
  ensure (is_pair denoms quote_denom denom) invalid_denom_pair
  ok (insert denom (weight, addr) m)

-- `Vault::init`
unfoldable pub init :
    Host → String → List (String × ℕ × String) → Allocations → Outcome ContractError Allocations
init host quote_denom [] m = ok m
init host quote_denom ((denom, weight, contract) ∷ rest) m =
    add_allocation host quote_denom denom weight contract m >>= init host quote_denom rest

-- The map that `collect` makes of the funds: a later coin of a denom replaces an earlier one.
unfoldable pub fund_of : String → List Coin → Option ℕ
fund_of denom [] = none
fund_of denom (c ∷ cs) = elim (fund_of denom cs) [
  | some amount ↦ some amount
  | none ↦ if str_eq c.denom denom then some c.amount else none
]

-- The `match` on the share so far.
unfoldable pub agree : Option ℕ → ℕ → Outcome ContractError (Option ℕ)
agree none this_share = ok (some this_share)
agree (some prev) this_share =
    if prev == this_share then ok (some prev) else err deposit_proportions_not_identical

module _ ⦃cw : Numeric⦄ where
  open cw use {uint_sub, uint_mul, from_ratio, to_uint_floor}

  -- The loop of `Vault::deposit`.
  unfoldable pub deposit_loop :
      List Coin → Allocations → Option ℕ → Outcome ContractError (Option ℕ)
  deposit_loop funds [] share = ok share
  deposit_loop funds ((denom, (required, _)) ∷ rest) share = do
    received ← or_err (fund_of denom funds) (missing_denomination denom)
    units ← or_panic (from_ratio received required)
    share' ← agree share (to_uint_floor units)
    deposit_loop funds rest share'

  unfoldable pub deposit : Allocations → List Coin → Outcome ContractError ℕ
  deposit m funds = do share ← deposit_loop funds m none; ok (unwrap_or_default share)

  -- One coin of a withdrawal.
  unfoldable pub withdraw_coin : ℕ → String × (ℕ × String) → Outcome ContractError Coin
  withdraw_coin shares (denom, (amount_per_share, _)) = do
    total_amount ← or_err (uint_mul amount_per_share shares) overflow
    ok (coin total_amount denom)

  unfoldable pub withdraw : Allocations → ℕ → Outcome ContractError (List Coin)
  withdraw m shares = if shares == 0 then ok [] else traverse (withdraw_coin shares) m

  -- The loop of `Vault::rebalance` over the entries read before it.
  unfoldable pub rebalance_loop :
      Host → String → ℕ → Allocations → Allocations → Outcome ContractError Allocations
  rebalance_loop host address total_shares [] m = ok m
  rebalance_loop host address total_shares ((denom, (_, contract)) ∷ rest) m = do
    balance ← or_err (host.query_balance address denom) std
    ratio ← or_panic (from_ratio balance total_shares)
    rebalance_loop host address total_shares rest (insert denom (to_uint_floor ratio, contract) m)

  unfoldable pub rebalance : Host → String → ℕ → Allocations → Outcome ContractError Allocations
  rebalance host address total_shares m =
      if total_shares == 0 then ok m else rebalance_loop host address total_shares m m

  unfoldable pub reallocate :
      Host → String → String → ℕ → ℕ → Option ℕ → Allocations → Outcome ContractError CosmosMsg
  reallocate host from to weight total_shares min_return m = do
    (curr_weight, swap_from) ← or_err (lookup from m) std
    (_, swap_to) ← or_err (lookup to m) std
    ensure (ltb weight curr_weight) invalid_weight
    excess ← or_err (uint_sub curr_weight weight) overflow
    amount_to_swap ← or_err (uint_mul excess total_shares) overflow
    returned ← or_err (host.fin_simulate swap_from (coin amount_to_swap from)) std
    ok (
        wasm_execute swap_from
          (fin_swap (record {
            min_return = none;
            to = none;
            callback = some (after_reallocate swap_to returned min_return);
          }))
          (coins amount_to_swap from))

unfoldable pub remove_allocation : String → Allocations → Outcome ContractError Allocations
remove_allocation denom m = do
  (weight, _) ← or_err (lookup denom m) std
  ensure (weight == 0) weight_not_zero
  ok (erase denom m)

pub record VaultStatus : Type 0 where
  pub total_shares : ℕ
  pub allocation : List (String × ℕ)

unfoldable pub status : Allocations → ℕ → VaultStatus
status m total_shares = record {
  total_shares = total_shares;
  allocation = map (λ e. (e.0, e.1.0)) m;
}

-- Whether a sender is one of the swap contracts.
unfoldable pub is_auth : Allocations → String → Bool
is_auth [] sender = false
is_auth ((_, (_, contract)) ∷ rest) sender = str_eq contract sender || is_auth rest sender
