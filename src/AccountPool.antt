-- ===== src/AccountPool.antt =====
-- `AccountPool` (packages/rujira-rs/src/account_pool.rs): revenue that is distributed to accounts
-- in proportion to their amounts. `sum` and the snapshots are `Decimal`s. A method with `&mut self`
-- returns its result with the new pool.
pub mod Accounts
pub mod Funding
pub mod Claims
use nami_contracts.Base.{
  ℕ, zero, suc, ◌+◌, ◌-◌, ◌*◌, ◌/◌, ◌%◌, ◌^◌, ◌≤◌, ◌<◌, min, String, ◌≡◌, refl, sym, ap, subst, ◌∙◌,
  ◌≢◌, ◌↔◌, ◌⊎◌, inl, inr, Bool, true, false, not, ◌&&◌, ◌||◌, Option, none, some, List, [], ◌∷◌,
  ◌++◌, map, arith, ltb, leb, ◌==◌, if◌then◌else◌, str_eq, str_lt, str_eq_iff, ltb→lt, lt→ltb,
  Bool-cases, Option-cases, unwrap_or_default, Outcome, ok, err, panic, ◌>>=◌, ◌>>◌, ensure, or_err,
  or_panic, lift_err, >>=-eq-ok, ok-injective, lift_err-eq-ok, ensure-eq-ok, or_err-eq-ok,
  or_panic-eq-ok, traverse, length, All, All-map, traverse-All, sum_by, is_empty, keep_if, Store,
  lookup, contains, insert, erase, lookup-insert, lookup-erase, Distinct, Distinct-insert,
  Distinct-found, All-lookup,
}
use nami_contracts.Numeric.{
  Numeric, IsNumeric, unit, uint_limit, wide_limit, fit, fit256, fit-eq-some, uint_add-eq-some,
  uint_sub-eq-some, uint_mul-eq-some, from_ratio-eq-some, from_ratio_one, to_uint_ceil_bounds,
  to_uint_floor_bounds, from_ratio_whole, dec_mul_whole, whole-mul, floor_ratio,
}

pub record AccountPool : Type 0 where
  pub pending : ℕ
  pub total : ℕ
  pub sum : ℕ

pub record AccountPoolAccount : Type 0 where
  pub amount : ℕ
  pub sum_snapshot : ℕ

-- `OverflowError`
pub data OverflowError : Type 0 where
  overflow : OverflowError

-- `AccountPool::default`
abbrev pub default_pool : AccountPool
default_pool = record { pending = 0; total = 0; sum = 0 }

abbrev pub AccountResult : Type 0
AccountResult = Outcome OverflowError (AccountPoolAccount × AccountPool)

module _ ⦃cw : Numeric⦄ where
  open cw use {uint_add, uint_sub, from_ratio, dec_add, dec_sub, dec_mul, to_uint_floor}

  unfoldable pub join : AccountPool → ℕ → AccountResult
  join p amount = do
    total ← or_panic (uint_add p.total amount)
    ok (record { amount = amount; sum_snapshot = p.sum }, record p { total = total })

  unfoldable pub increase_account : AccountPool → AccountPoolAccount → ℕ → AccountResult
  increase_account p account amount = do
    total ← or_panic (uint_add p.total amount)
    raised ← or_panic (uint_add account.amount amount)
    ok (record { amount = raised; sum_snapshot = p.sum }, record p { total = total })

  unfoldable pub decrease_account : AccountPool → AccountPoolAccount → ℕ → AccountResult
  decrease_account p account amount = do
    total ← or_err (uint_sub p.total amount) overflow
    lowered ← or_err (uint_sub account.amount amount) overflow
    ok (record { amount = lowered; sum_snapshot = p.sum }, record p { total = total })

  unfoldable pub distribute_some : AccountPool → ℕ → Outcome OverflowError AccountPool
  distribute_some p amount = do
    pending ← or_panic (uint_add p.pending amount)
    ratio ← or_panic (from_ratio amount p.total)
    sum ← or_panic (dec_add p.sum ratio)
    ok (record p { pending = pending; sum = sum })

  unfoldable pub distribute : AccountPool → ℕ → Outcome OverflowError AccountPool
  distribute p amount = if amount == 0 then ok p else distribute_some p amount

  unfoldable pub pending_revenue : AccountPool → AccountPoolAccount → Outcome OverflowError ℕ
  pending_revenue p account = do
    rise ← or_panic (dec_sub p.sum account.sum_snapshot)
    amount ← or_panic (from_ratio account.amount 1)
    revenue ← or_panic (dec_mul rise amount)
    ok (to_uint_floor revenue)

  -- The revenue, the account and the pool after the claim.
  unfoldable pub claim :
      AccountPool
      → AccountPoolAccount
      → Outcome OverflowError (ℕ × AccountPoolAccount × AccountPool)
  claim p account = do
    amount ← pending_revenue p account
    pending ← or_panic (uint_sub p.pending amount)
    ok (amount, record account { sum_snapshot = p.sum }, record p { pending = pending })
