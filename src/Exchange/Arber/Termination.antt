-- ===== src/Exchange/Arber/Termination.antt =====
-- The rounds of the loop of an arbitrage.
use nami_contracts.Base.{
  ℕ, zero, suc, ◌+◌, ◌≤◌, ◌<◌, ◌≡◌, refl, sym, ap, subst, ◌∙◌, ◌⊎◌, inl, inr, Bool, true, false,
  Option, none, some, List, [], ◌∷◌, arith, ◌==◌, if◌then◌else◌, Bool-cases, Outcome, ok, err,
  panic, or_panic, >>=-eq-ok, ok-injective, length,
}
use nami_contracts.Numeric.{Numeric, IsNumeric, uint_sub-eq-some}
use mathlib.Core.Option.{some-injective}
use nami_contracts.Exchange.Interface.{SwapError, Swappable, IsSwappable, IsProgressing}
use nami_contracts.Exchange.Swapper.Totals.{Totals}
use nami_contracts.Exchange.Arber.{
  Arber, profits, arbitrage, pass_empty, take_profit, settle, round, run,
}

-- Both sides have totals, which with the numbers of their items come to less than `bound`.
unfoldable pub IsBelow : {T S : Type 0} → Swappable T S → ℕ → List T → List T → Type 0
IsBelow i bound base quote =
    (m n : ℕ) × Totals i base m × Totals i quote n × (m + n + length base + length quote < bound)

module _ {T S : Type 0} ⦃cw : Numeric⦄ (laws : IsNumeric cw) {i : Swappable T S}
    (is : IsSwappable i) (progress : IsProgressing i) where
  profits-eq-some :
      (o p : Option ℕ) {m n : ℕ} → profits i o p ≡ some (m, n) → (o ≡ some m) × (p ≡ some n)
  profits-eq-some (some a) (some b) h =
      let same = some-injective _ _ h in (ap (λ p. some p.0) same, ap (λ p. some p.1) same)
  profits-eq-some (some a) none h = cc
  profits-eq-some none p h = cc

  -- A profitable arbitrage leaves no more in either, and less in both together unless one is empty.
  arbitrage-eq-ok :
      (b q b' q' : T) (tb tq m n : ℕ)
      → i.total b ≡ ok tb
      → i.total q ≡ ok tq
      → arbitrage i b q ≡ ok (some (m, n), b', q')
      → (tb' tq' : ℕ) × (i.total b' ≡ ok tb')
        × (i.total q' ≡ ok tq')
        × (tb' ≤ tb)
        × (tq' ≤ tq)
        × (0 < tb' → 0 < tq' → tb' + tq' < tb + tq)
  unfolding arbitrage IsProgressing
  arbitrage-eq-ok b q b' q' tb tq m n hb hq e =
      let (float, e1, r1) = >>=-eq-ok (i.total b) _ e in
      let (((a0, a1), q1), e2, r2) = >>=-eq-ok (i.swap q float) _ r1 in
      let (((b0, b1), b2), e3, r3) = >>=-eq-ok (i.swap b a1) _ r2 in
      let float_is : float ≡ tb = ok-injective (sym e1 ∙ hb) in
      let (tq', gq, sq) = is.taken q q1 float a0 a1 tq e2 hq in
      let (tb', gb, sb) = is.taken b b2 a1 b0 b1 tb e3 hb in
      let same = ok-injective r3 in
      let (gain, other) =
        profits-eq-some (cw.uint_sub b1 a0) (cw.uint_sub a1 b0) (ap (λ p. p.0) same) in
      let gain_is = uint_sub-eq-some laws b1 a0 gain in
      (
        tb',
        tq',
        subst (λ t. i.total t ≡ ok tb') (ap (λ p. p.1) same) gb,
        subst (λ t. i.total t ≡ ok tq') (ap (λ p. p.2) same) gq,
        omega (arith, sb),
        omega (arith, sq),
        λ pb pq.
            let moved : 0 < a0 + a1 =
              progress q q1 float a0 a1 tq e2 hq (omega (arith, float_is, sb))
                (omega (arith, sq)) in
            omega (arith, moved, gain_is, sb, sq),
      )

  pass_empty-eq-ok :
      (t : T) (ts rest : List T) (held later : ℕ)
      → i.total t ≡ ok held
      → Totals i ts later
      → pass_empty i t ts ≡ ok rest
      → ((held ≡ 0) × Totals i rest later × (length rest ≡ length ts))
        ⊎ ((0 < held) × Totals i rest (held + later) × (length rest ≡ suc (length ts)))
  unfolding pass_empty
  pass_empty-eq-ok t ts rest held later h k e =
      let (n, e1, r1) = >>=-eq-ok (i.total t) _ e in
      let n_is : n ≡ held = ok-injective (sym e1 ∙ h) in
      let rest_is : (if held == 0 then ts else t ∷ ts) ≡ rest = rw n_is at (ok-injective r1) in
      elim (Bool-cases (held == 0)) [
        | inl z ↦
            let same : ts ≡ rest = rw z at rest_is in
            inl (ground arith, subst (λ xs. Totals i xs later) same k, ap length (sym same))
        | inr nz ↦
            let same : t ∷ ts ≡ rest = rw nz at rest_is in
            let all : Totals i (t ∷ ts) (held + later) = (held, later, h, k, refl) in
            inr (
              ground arith,
              subst (λ xs. Totals i xs (held + later)) same all,
              ap length (sym same),
            )
      ]

  below :
      (bs qs base quote : List T) (tb tq mb nq tb' tq' bound : ℕ)
      → ((tb' ≡ 0) × Totals i base mb × (length base ≡ length bs))
        ⊎ ((0 < tb') × Totals i base (tb' + mb) × (length base ≡ suc (length bs)))
      → ((tq' ≡ 0) × Totals i quote nq × (length quote ≡ length qs))
        ⊎ ((0 < tq') × Totals i quote (tq' + nq) × (length quote ≡ suc (length qs)))
      → tb' ≤ tb
      → tq' ≤ tq
      → (0 < tb' → 0 < tq' → tb' + tq' < tb + tq)
      → tb + mb + (tq + nq) + suc (length bs) + suc (length qs) < suc bound
      → IsBelow i bound base quote
  unfolding IsBelow
  below bs qs base quote tb tq mb nq tb' tq' bound (inl (z, h, c)) (inl (y, k, d)) lb lq less l =
      (mb, nq, h, k, omega arith)
  below bs qs base quote tb tq mb nq tb' tq' bound (inl (z, h, c)) (inr (y, k, d)) lb lq less l =
      (mb, tq' + nq, h, k, omega arith)
  below bs qs base quote tb tq mb nq tb' tq' bound (inr (z, h, c)) (inl (y, k, d)) lb lq less l =
      (tb' + mb, nq, h, k, omega arith)
  below bs qs base quote tb tq mb nq tb' tq' bound (inr (z, h, c)) (inr (y, k, d)) lb lq less l =
      (tb' + mb, tq' + nq, h, k, omega (arith, less z y))

  -- What a round makes of the arbitrage of the two current items.
  settle-IsBelow :
      (r next : Arber T) (b q b' q' : T) (bs qs : List T) (tb tq mb nq bound : ℕ)
      (found : Option (ℕ × ℕ))
      → i.total b ≡ ok tb
      → i.total q ≡ ok tq
      → Totals i bs mb
      → Totals i qs nq
      → tb + mb + (tq + nq) + suc (length bs) + suc (length qs) < suc bound
      → arbitrage i b q ≡ ok (found, b', q')
      → settle i r b' bs q' qs found ≡ ok (true, next)
      → IsBelow i bound next.base next.quote
  unfolding take_profit
  settle-IsBelow r next b q b' q' bs qs tb tq mb nq bound none hb hq kb kq l e run = cc
  settle-IsBelow r next b q b' q' bs qs tb tq mb nq bound (some (gain_b, gain_q)) hb hq kb kq l e
        run =
      let (tb', tq', gb, gq, lb, lq, less) =
        arbitrage-eq-ok b q b' q' tb tq gain_b gain_q hb hq e in
      let (pb, f1, s1) = >>=-eq-ok (or_panic (cw.uint_add r.profit_base gain_b)) _ run in
      let (pq, f2, s2) = >>=-eq-ok (or_panic (cw.uint_add r.profit_quote gain_q)) _ s1 in
      let (base, f3, s3) = >>=-eq-ok (pass_empty i b' bs) _ s2 in
      let (quote, f4, s4) = >>=-eq-ok (pass_empty i q' qs) _ s3 in
      subst (λ (p : Bool × Arber T). IsBelow i bound p.1.base p.1.quote) (ok-injective s4)
        (below bs qs base quote tb tq mb nq tb' tq' bound
          (pass_empty-eq-ok b' bs base tb' mb gb kb f3)
          (pass_empty-eq-ok q' qs quote tq' nq gq kq f4) lb lq less l)

  -- A round that goes on comes below the bound that it was at.
  round-IsBelow :
      (r next : Arber T) (base quote : List T) (bound : ℕ)
      → IsBelow i (suc bound) base quote
      → round i r base quote ≡ ok (true, next)
      → IsBelow i bound next.base next.quote
  unfolding round IsBelow
  round-IsBelow r next [] quote bound h e = cc
  round-IsBelow r next (b ∷ bs) [] bound h e = cc
  round-IsBelow r next (b ∷ bs) (q ∷ qs) bound (m, n, (tb, mb, hb, kb, sb), (tq, nq, hq, kq, sq), l)
        e =
      let ((found, b', q'), e1, r1) = >>=-eq-ok (arbitrage i b q) _ e in
      settle-IsBelow r next b q b' q' bs qs tb tq mb nq bound found hb hq kb kq
        (omega (arith, l, sb, sq)) e1 r1

  -- The loop after a round.
  after_round : ℕ → Outcome SwapError (Bool × Arber T) → Option (Outcome SwapError (Arber T))
  after_round rounds o = elim o [
    | ok (true, next) ↦ run i rounds next
    | ok (false, next) ↦ some (ok next)
    | err e ↦ some (err e)
    | panic ↦ some panic
  ]

  -- Where every item has a total and keeps to the interface, and a swap of something against
  -- something takes something, from the offer or from the item, the loop ends, in an error or in a
  -- result, within one round more than the totals and the numbers of the items of both sides together.
  pub run_ends :
      (rounds : ℕ) (r : Arber T)
      → IsBelow i rounds r.base r.quote
      → (out : Outcome SwapError (Arber T)) × (run i rounds r ≡ some out)
  unfolding run IsBelow after_round
  run_ends zero r (m, n, h, k, l) = elim (never _ l) [ ]
    where
      never : (a : ℕ) → ¬ (a < 0)
      never a h = omega arith
  run_ends (suc rounds) r h = go (λ next. run_ends rounds next) (round i r r.base r.quote) refl
    where
      go :
          ((next : Arber T)
            → IsBelow i rounds next.base next.quote
            → (out : Outcome SwapError (Arber T)) × (run i rounds next ≡ some out))
          → (o : Outcome SwapError (Bool × Arber T)) → round i r r.base r.quote ≡ o
          → (out : Outcome SwapError (Arber T)) × (after_round rounds o ≡ some out)
      go later (ok (true, next)) e = later next (round-IsBelow r next r.base r.quote rounds h e)
      go later (ok (false, next)) e = (ok next, refl)
      go later (err reason) e = (err reason, refl)
      go later panic e = (panic, refl)
