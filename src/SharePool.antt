-- ===== src/SharePool.antt =====
-- `SharePool` (packages/rujira-rs/src/share_pool.rs): a pool of tokens owned by shares. `size` is a
-- `Uint128`, `shares` a `Decimal`. A method with `&mut self` returns its result with the new pool.
pub mod Join
pub mod Deposit
pub mod Leave
pub mod Solvency
use nami_contracts.Base.{
  ℕ, zero, suc, ◌+◌, ◌-◌, ◌*◌, ◌/◌, ◌%◌, ◌^◌, ◌≤◌, ◌<◌, min, String, ◌≡◌, refl, sym, ap, ◌∙◌, ◌≢◌,
  ◌↔◌, ◌⊎◌, inl, inr, Bool, true, false, not, ◌&&◌, ◌||◌, Option, none, some, List, [], ◌∷◌, ◌++◌,
  map, arith, ltb, leb, ◌==◌, if◌then◌else◌, str_eq, str_lt, str_eq_iff, ltb→lt, lt→ltb, Bool-cases,
  Option-cases, unwrap_or_default, Outcome, ok, err, panic, ◌>>=◌, ◌>>◌, ensure, or_err, or_panic,
  lift_err, >>=-eq-ok, traverse, length, All, sum_by, is_empty, keep_if, Store, lookup, contains,
  insert, erase, lookup-insert, lookup-erase,
}
use nami_contracts.Numeric.{
  Numeric, IsNumeric, unit, uint_limit, fit, fit-eq-some, uint_add-eq-some, uint_sub-eq-some,
  uint_mul-eq-some, from_ratio-eq-some, from_ratio_one, to_uint_ceil_bounds, to_uint_floor_bounds,
  from_ratio_whole, dec_mul_whole, whole-mul,
}

pub record SharePool : Type 0 where
  pub size : ℕ
  pub shares : ℕ

pub data SharePoolError : Type 0 where
  share_overflow zero_amount invalid_deposit : SharePoolError

-- `SharePool::default`
abbrev pub empty_pool : SharePool
empty_pool = record { size = 0; shares = 0 }

-- A result of the pool's methods, with the pool after the call.
abbrev pub PoolResult : Type 0 → Type 0
PoolResult A = Outcome SharePoolError (A × SharePool)

module _ ⦃cw : Numeric⦄ where
  open cw use {
    uint_add, uint_sub, multiply_ratio, from_ratio, from_ratio256, dec_add, dec_sub, dec_mul,
    dec_div, to_uint_floor,
  }

  -- `shares()`: the whole shares.
  unfoldable pub whole_shares : SharePool → ℕ
  whole_shares p = to_uint_floor p.shares

  unfoldable pub join : SharePool → ℕ → PoolResult ℕ
  join p amount =
      if amount == 0
      then err zero_amount
      else if p.shares == 0
      then (do
        size ← or_panic (uint_add p.size amount)
        whole ← or_panic (from_ratio amount 1)
        shares ← or_panic (dec_add p.shares whole)
        ok (amount, record { size = size; shares = shares }))
      else (do
        ratio ← or_panic (from_ratio amount p.size)
        issuance ← or_panic (dec_mul p.shares ratio)
        shares ← or_panic (dec_add p.shares issuance)
        size ← or_panic (uint_add p.size amount)
        ok (to_uint_floor issuance, record { size = size; shares = shares }))

  unfoldable pub ownership : SharePool → ℕ → Outcome SharePoolError ℕ
  unfolding whole_shares
  ownership p shares =
      if shares == 0 then ok 0 else or_panic (multiply_ratio p.size shares (whole_shares p))

  unfoldable pub leave : SharePool → ℕ → PoolResult ℕ
  unfolding ownership whole_shares
  leave p amount =
      if amount == 0
      then err zero_amount
      else if ltb (whole_shares p) amount
      then err share_overflow
      else if amount == whole_shares p
      then ok (p.size, record { size = 0; shares = 0 })
      else (do
        claim ← ownership p amount
        size ← or_panic (uint_sub p.size claim)
        whole ← or_panic (from_ratio amount 1)
        shares ← or_panic (dec_sub p.shares whole)
        ok (claim, record { size = size; shares = shares }))

  unfoldable pub ratio : SharePool → Outcome SharePoolError ℕ
  ratio p =
      if p.shares == 0
      then ok 0
      else do whole ← or_panic (from_ratio p.size 1); or_panic (dec_div whole p.shares)

  unfoldable pub deposit : SharePool → ℕ → PoolResult (Unit {0})
  deposit p amount = do
    size ← or_panic (uint_add p.size amount)
    let trial : ℕ = 1000
    (test, checked) ← join (record p { size = size }) trial
    value ← ownership checked test
    kept ← or_panic (from_ratio256 value trial)
    least ← or_panic (from_ratio256 99 100)
    ensure (leb least kept) invalid_deposit
    ok (tt, record p { size = size })
