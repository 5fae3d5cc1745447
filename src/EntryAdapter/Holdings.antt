-- ===== src/EntryAdapter/Holdings.antt =====
-- `Index` (contracts/nami-index-entry-adapter/src/index.rs): the adapter's view of a fixed index, and the
-- deposit of whole baskets out of what the adapter holds.
use nami_contracts.Base.{
  ℕ, min, String, not, Option, none, some, List, [], ◌∷◌, ◌==◌, if◌then◌else◌, Outcome, ok, err,
  ◌>>=◌, ◌>>◌, ensure, or_err, or_panic, traverse,
}
use nami_contracts.Numeric.{Numeric}
use Prim.Native.String.{◌++◌ as str_append}
use nami_contracts.Chain.{
  Coin, coin, coins, SwapEntry, CosmosMsg, wasm_execute, index_deposit, index_withdraw, Env, Host,
}
use nami_contracts.EntryAdapter.Errors.{
  ContractError, std, overflow, index_error, invalid_deposit_amount, invalid_deposit_proportions,
}

pub record Index : Type 0 where
  pub address : String
  pub allocation : List (String × ℕ)
  pub denom : String

unfoldable pub load : Host → String → Outcome ContractError Index
load host address = do
  allocation ← or_err (host.index_allocation address) std
  ok (record {
    address = address;
    allocation = allocation;
    denom = str_append "x/nami-index-fixed-" (str_append address "-rcpt");
  })

-- One of the `infos`: denom, amount per share, balance and whole units.
pub record Info : Type 0 where
  pub denom : String
  pub weight : ℕ
  pub total : ℕ
  pub units : ℕ

-- `Iterator::min`
unfoldable pub min_units : List Info → Option ℕ
min_units [] = none
min_units (i ∷ is) = elim (min_units is) [ none ↦ some i.units | some u ↦ some (min i.units u) ]

-- `filter(|u| !u.is_zero())` on the least number of units, with the error where there is none.
unfoldable pub share_of : List Info → Outcome ContractError ℕ
share_of infos = elim (min_units infos) [
  | none ↦ err (index_error invalid_deposit_proportions)
  | some u ↦ if u == 0 then err (index_error invalid_deposit_proportions) else ok u
]

module _ ⦃cw : Numeric⦄ where
  open cw use {uint_sub, uint_mul, from_ratio, to_uint_floor}

  unfoldable pub info_of : Host → String → String × ℕ → Outcome ContractError Info
  info_of host address (denom, weight) = do
    amount ← or_err (host.query_balance address denom) std
    ensure (not (amount == 0)) (index_error (invalid_deposit_amount denom))
    units ← or_panic (from_ratio amount weight)
    ok (record { denom = denom; weight = weight; total = amount; units = to_uint_floor units })

  -- The fold over the infos: the coins to deposit, and what is left over of them.
  unfoldable pub use_up : ℕ → List Info → Outcome ContractError (List Coin × List SwapEntry)
  use_up share [] = ok ([], [])
  use_up share (i ∷ is) = do
    used ← or_err (uint_mul share i.weight) overflow
    rem ← or_err (uint_sub i.total used) overflow
    (funds, rems) ← use_up share is
    ok (
      coin used i.denom ∷ funds,
      (if rem == 0
          then rems
          else record { denom = i.denom; amount = rem; min_return = none } ∷ rems),
    )

  unfoldable pub deposit_msg :
      Host → Env → Index → Outcome ContractError (CosmosMsg × List SwapEntry)
  deposit_msg host env index = do
    infos ← traverse (info_of host env.contract_address) index.allocation
    share ← share_of infos
    (funds, remaining_coins) ← use_up share infos
    ok (wasm_execute index.address index_deposit funds, remaining_coins)

unfoldable pub withdraw_msg : ℕ → Index → CosmosMsg
withdraw_msg amount index = wasm_execute index.address index_withdraw (coins amount index.denom)
