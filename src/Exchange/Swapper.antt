-- ===== src/Exchange/Swapper.antt =====
-- `Swapper` (packages/rujira-rs/src/exchange/swapper.rs): an offer that is swapped against one offer
-- of liquidity after another. The iterator is the list of what it would yield.
pub mod Totals
pub mod Balance
use nami_contracts.Base.{
  ℕ, zero, suc, ◌+◌, ◌-◌, ◌*◌, ◌/◌, ◌%◌, ◌^◌, ◌≤◌, ◌<◌, min, String, ◌≡◌, refl, sym, ap, subst, ◌∙◌,
  ◌≢◌, ◌↔◌, ◌⊎◌, inl, inr, Bool, true, false, not, ◌&&◌, ◌||◌, Option, none, some, List, [], ◌∷◌,
  ◌++◌, map, arith, ltb, leb, ◌==◌, if◌then◌else◌, str_eq, str_lt, str_eq_iff, ltb→lt, lt→ltb,
  Bool-cases, Option-cases, unwrap_or_default, Outcome, ok, err, panic, ◌>>=◌, ◌>>◌, ensure, or_err,
  or_panic, lift_err, >>=-eq-ok, ok-injective, lift_err-eq-ok, ensure-eq-ok, or_err-eq-ok,
  or_panic-eq-ok, traverse, length, All, All-map, traverse-All, sum_by, is_empty, keep_if, Store,
  lookup, contains, insert, erase, lookup-insert, lookup-erase, Distinct, Distinct-insert,
  Distinct-found, All-lookup,
}
use nami_contracts.Numeric.{
  Numeric, IsNumeric, unit, uint_limit, wide_limit, fit, fit256, fit-eq-some, uint_add-eq-some,
  uint_sub-eq-some, uint_mul-eq-some, from_ratio-eq-some, from_ratio_one, to_uint_ceil_bounds,
  to_uint_floor_bounds, from_ratio_whole, dec_mul_whole, whole-mul, floor_ratio,
}
use Prim.Native.String.{◌++◌ as str_append}
use nami_contracts.Chain.{Attribute, number, Event}
use nami_contracts.Exchange.Interface.{
  SwapError, insufficient_return, SwapCommit, no_commit, add_commit, Swappable,
}

pub record Swapper (T : Type 0) : Type 0 where
  pub events : List Event
  pub fee : ℕ
  pub min_return : Option ℕ
  pub offer : ℕ
  pub returned : ℕ
  pub pending : List T

pub record SwapResult : Type 0 where
  pub events : List Event
  pub fee_amount : ℕ
  pub return_amount : ℕ
  pub remaining_offer : ℕ

-- `Swapper::new`
abbrev pub new : {T : Type 0} → ℕ → Option ℕ → ℕ → Swapper T
new offer min_return fee = record {
  events = [];
  fee = fee;
  min_return = min_return;
  offer = offer;
  returned = 0;
  pending = [];
}

abbrev pub reaches : ℕ → Option ℕ → Outcome SwapError (Unit {0})
reaches returned none = ok tt
reaches returned (some least) = ensure (leb least returned) (insufficient_return least returned)

module _ {T S : Type 0} ⦃cw : Numeric⦄ (i : Swappable T S) where
  open cw use {uint_add, uint_sub, from_ratio, dec_mul, to_uint_ceil}

  unfoldable pub event : T → ℕ → ℕ → List (String × Attribute) → Event
  event t offer bid attributes = record {
    kind = str_append (i.prefix t) "/trade";
    attributes =
        ("rate", number (i.rate t)) ∷ ("offer", number offer) ∷ ("bid", number bid) ∷ attributes;
  }

  -- The swapper after one offer of liquidity.
  unfoldable pub swap_one : Swapper T → T → Outcome SwapError (Swapper T)
  unfolding event
  swap_one s t = do
    ((offer, bids), t') ← i.swap t s.offer
    attrs ← i.attributes t'
    remaining ← or_panic (uint_sub s.offer offer)
    returned ← or_panic (uint_add s.returned bids)
    ok (record s {
      events = s.events ++ event t' offer bids attrs ∷ [];
      pending = s.pending ++ t' ∷ [];
      offer = remaining;
      returned = returned;
    })

  -- The loop, which stops when nothing of the offer remains.
  unfoldable pub swap_all : Swapper T → List T → Outcome SwapError (Swapper T)
  swap_all s [] = ok s
  swap_all s (t ∷ ts) =
      swap_one s t >>= λ next. if next.offer == 0 then ok next else swap_all next ts

  -- The fee, and what it leaves of the bids.
  unfoldable pub charge : Swapper T → Outcome SwapError (ℕ × ℕ)
  charge s = do
    whole ← or_panic (from_ratio s.returned 1)
    product ← or_panic (dec_mul whole s.fee)
    let fee : ℕ = to_uint_ceil product
    returned ← or_panic (uint_sub s.returned fee)
    ok (fee, returned)

  unfoldable pub swap : Swapper T → List T → Outcome SwapError (SwapResult × Swapper T)
  swap s ts = do
    next ← swap_all s ts
    (fee, returned) ← charge next
    reaches returned next.min_return
    ok (
      record {
        events = next.events;
        fee_amount = fee;
        return_amount = returned;
        remaining_offer = next.offer;
      },
      record next { returned = returned },
    )

  -- The commitments of the offers, added up in their order.
  unfoldable pub commit_all : SwapCommit → List T → S → Outcome SwapError (SwapCommit × S)
  commit_all c [] s = ok (c, s)
  commit_all c (t ∷ ts) s = do (d, s') ← i.commit t s; sum ← add_commit c d; commit_all sum ts s'

  unfoldable pub commit : Swapper T → S → Outcome SwapError (SwapCommit × S)
  commit self s = commit_all no_commit self.pending s
