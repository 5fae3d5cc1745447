-- ===== src/Exchange/Arber.antt =====
-- `Arber` (packages/rujira-rs/src/exchange/arb.rs): arbitrage between offers of liquidity of two
-- sides. An iterator with its current item is the list of what is left, the current item first.
pub mod Termination
use nami_contracts.Base.{
  ℕ, zero, suc, ◌+◌, ◌-◌, ◌*◌, ◌/◌, ◌%◌, ◌^◌, ◌≤◌, ◌<◌, min, String, ◌≡◌, refl, sym, ap, subst, ◌∙◌,
  ◌≢◌, ◌↔◌, ◌⊎◌, inl, inr, Bool, true, false, not, ◌&&◌, ◌||◌, Option, none, some, List, [], ◌∷◌,
  ◌++◌, map, arith, ltb, leb, ◌==◌, if◌then◌else◌, str_eq, str_lt, str_eq_iff, ltb→lt, lt→ltb,
  Bool-cases, Option-cases, unwrap_or_default, Outcome, ok, err, panic, ◌>>=◌, ◌>>◌, ensure, or_err,
  or_panic, lift_err, >>=-eq-ok, ok-injective, lift_err-eq-ok, ensure-eq-ok, or_err-eq-ok,
  or_panic-eq-ok, traverse, length, All, All-map, traverse-All, sum_by, is_empty, keep_if, Store,
  lookup, contains, insert, erase, lookup-insert, lookup-erase, Distinct, Distinct-insert,
  Distinct-found, All-lookup,
}
use nami_contracts.Numeric.{
  Numeric, IsNumeric, unit, uint_limit, wide_limit, fit, fit256, fit-eq-some, uint_add-eq-some,
  uint_sub-eq-some, uint_mul-eq-some, from_ratio-eq-some, from_ratio_one, to_uint_ceil_bounds,
  to_uint_floor_bounds, from_ratio_whole, dec_mul_whole, whole-mul, floor_ratio,
}
use nami_contracts.Exchange.Interface.{SwapError, SwapCommit, no_commit, add_commit, Swappable}
use nami_contracts.Exchange.Swapper.{commit_all}

-- The loop's variables: what is left of both sides, the profits, and the pending items of `Arber`.
pub record Arber (T : Type 0) : Type 0 where
  pub base : List T
  pub quote : List T
  pub profit_base : ℕ
  pub profit_quote : ℕ
  pub pending_base : List T
  pub pending_quote : List T

-- `Arber::default` before the loop over two iterators.
abbrev pub begin : {T : Type 0} → List T → List T → Arber T
begin base quote = record {
  base = base;
  quote = quote;
  profit_base = 0;
  profit_quote = 0;
  pending_base = [];
  pending_quote = [];
}

module _ {T S : Type 0} ⦃cw : Numeric⦄ (i : Swappable T S) where
  open cw use {uint_add, uint_sub}

  -- The profits of both checked subtractions, if neither fails.
  abbrev pub profits : Option ℕ → Option ℕ → Option (ℕ × ℕ)
  profits (some m) (some n) = some (m, n)
  profits (some m) none = none
  profits none n = none

  -- `Arbitrage::arbitrage` of the first item with the second; both are changed.
  unfoldable pub arbitrage : T → T → Outcome SwapError (Option (ℕ × ℕ) × T × T)
  arbitrage self other = do
    float ← i.total self
    ((offer_a, bids_a), other') ← i.swap other float
    ((offer_b, bids_b), self') ← i.swap self bids_a
    ok (profits (uint_sub bids_b offer_a) (uint_sub bids_a offer_b), self', other')

  -- The next item, if nothing is left of the current one.
  unfoldable pub pass_empty : T → List T → Outcome SwapError (List T)
  pass_empty t ts = do held ← i.total t; ok (if held == 0 then ts else t ∷ ts)

  unfoldable pub take_profit :
      Arber T → T → List T → T → List T → ℕ → ℕ → Outcome SwapError (Bool × Arber T)
  take_profit r b bs q qs m n = do
    profit_base ← or_panic (uint_add r.profit_base m)
    profit_quote ← or_panic (uint_add r.profit_quote n)
    base ← pass_empty b bs
    quote ← pass_empty q qs
    ok (
      true,
      record {
        base = base;
        quote = quote;
        profit_base = profit_base;
        profit_quote = profit_quote;
        pending_base = r.pending_base ++ b ∷ [];
        pending_quote = r.pending_quote ++ q ∷ [];
      },
    )

  abbrev pub settle :
      Arber T → T → List T → T → List T → Option (ℕ × ℕ) → Outcome SwapError (Bool × Arber T)
  settle r b bs q qs none = ok (false, record r { base = b ∷ bs; quote = q ∷ qs })
  settle r b bs q qs (some (m, n)) = take_profit r b bs q qs m n

  -- One round of the loop, and whether it goes on.
  unfoldable pub round : Arber T → List T → List T → Outcome SwapError (Bool × Arber T)
  round r [] qs = ok (false, r)
  round r (b ∷ bs) [] = ok (false, r)
  round r (b ∷ bs) (q ∷ qs) = do (found, b', q') ← arbitrage b q; settle r b' bs q' qs found

  -- `run`, in at most `rounds` rounds; `none` if these do not do.
  unfoldable pub run : ℕ → Arber T → Option (Outcome SwapError (Arber T))
  run zero r = none
  run (suc rounds) r = elim (round r r.base r.quote) [
    | ok (true, next) ↦ run rounds next
    | ok (false, next) ↦ some (ok next)
    | err e ↦ some (err e)
    | panic ↦ some panic
  ]

  -- The commitments of both sides.
  unfoldable pub commit : Arber T → S → Outcome SwapError ((SwapCommit × SwapCommit) × S)
  commit r s = do
    (base, s') ← commit_all i no_commit r.pending_base s
    (quote, s'') ← commit_all i no_commit r.pending_quote s'
    ok ((base, quote), s'')
