-- ===== src/Exchange/Either.antt =====
-- Two offers at one rate as one (packages/rujira-rs/src/exchange/swappable.rs). `EitherOrBoth` is a
-- type of `itertools`.
pub mod Progress
use nami_contracts.Base.{
  ℕ, ◌+◌, ◌-◌, ◌≤◌, ◌<◌, String, ◌≡◌, sym, ap, subst, ◌∙◌, List, ◌++◌, arith, Outcome, ok, ◌>>=◌,
  or_panic, >>=-eq-ok, ok-injective, or_panic-eq-ok,
}
use nami_contracts.Numeric.{Numeric, IsNumeric, uint_limit, uint_add-eq-some, uint_sub-eq-some}
use nami_contracts.Chain.{Attribute}
use nami_contracts.Exchange.Interface.{SwapError, SwapCommit, Swappable, IsSwappable, add_commit}

pub data EitherOrBoth (T V : Type 0) : Type 0 where
  both : T → V → EitherOrBoth T V
  left : T → EitherOrBoth T V
  right : V → EitherOrBoth T V

module _ {T V S : Type 0} ⦃cw : Numeric⦄ (a : Swappable T S) (b : Swappable V S) where
  open cw use {uint_add, uint_sub, uint_mul, from_ratio, to_uint_floor}

  either_prefix : EitherOrBoth T V → String
  either_prefix (both x y) = a.prefix x
  either_prefix (left x) = a.prefix x
  either_prefix (right y) = b.prefix y

  either_rate : EitherOrBoth T V → ℕ
  either_rate (both x y) = a.rate x
  either_rate (left x) = a.rate x
  either_rate (right y) = b.rate y

  either_attributes : EitherOrBoth T V → Outcome SwapError (List (String × Attribute))
  either_attributes (both x y) = do
    first ← a.attributes x
    second ← b.attributes y
    ok (first ++ second)
  either_attributes (left x) = a.attributes x
  either_attributes (right y) = b.attributes y

  unfoldable pub either_total : EitherOrBoth T V → Outcome SwapError ℕ
  either_total (both x y) = do m ← a.total x; n ← b.total y; or_panic (uint_add m n)
  either_total (left x) = a.total x
  either_total (right y) = b.total y

  -- The part of an amount that goes to the first offer.
  unfoldable pub first_part : T → V → ℕ → Outcome SwapError ℕ
  first_part x y amount = do
    m ← a.total x
    scaled ← or_panic (uint_mul m amount)
    n ← b.total y
    whole ← or_panic (uint_add m n)
    share ← or_panic (from_ratio scaled whole)
    ok (to_uint_floor share)

  unfoldable pub swap_both : T → V → ℕ → Outcome SwapError ((ℕ × ℕ) × EitherOrBoth T V)
  swap_both x y amount = do
    offer_a ← first_part x y amount
    offer_b ← or_panic (uint_sub amount offer_a)
    ((consumed_a, bids_a), x') ← a.swap x offer_a
    ((consumed_b, bids_b), y') ← b.swap y offer_b
    consumed ← or_panic (uint_add consumed_a consumed_b)
    bids ← or_panic (uint_add bids_a bids_b)
    ok ((consumed, bids), both x' y')

  unfoldable pub either_swap : EitherOrBoth T V → ℕ → Outcome SwapError ((ℕ × ℕ) × EitherOrBoth T V)
  either_swap (both x y) amount = swap_both x y amount
  either_swap (left x) amount = a.swap x amount >>= λ (r, x'). ok (r, left x')
  either_swap (right y) amount = b.swap y amount >>= λ (r, y'). ok (r, right y')

  either_commit : EitherOrBoth T V → S → Outcome SwapError (SwapCommit × S)
  either_commit (both x y) s = do
    (c, s') ← a.commit x s
    (d, s'') ← b.commit y s'
    sum ← add_commit c d
    ok (sum, s'')
  either_commit (left x) s = a.commit x s
  either_commit (right y) s = b.commit y s

  unfoldable pub either : Swappable (EitherOrBoth T V) S
  unfolding either_prefix either_rate either_attributes either_commit
  either = record {
    rate = either_rate;
    prefix = either_prefix;
    attributes = either_attributes;
    total = either_total;
    swap = either_swap;
    commit = either_commit;
  }

module _ {T V S : Type 0} ⦃cw : Numeric⦄ (laws : IsNumeric cw) {a : Swappable T S}
    {b : Swappable V S} (is_a : IsSwappable a) (is_b : IsSwappable b) where
  open laws use {uint_add_lem, uint_sub_lem}

  add-eq-ok :
      (m n : ℕ) {r : ℕ}
      → or_panic {E = SwapError} (cw.uint_add m n) ≡ ok r
      → (r ≡ m + n) × (m + n < uint_limit)
  add-eq-ok m n e = uint_add-eq-some laws m n (or_panic-eq-ok _ e)

  -- The parts of a swap of both.
  pub swap_both-eq-ok :
      (x : T) (y : V) (t' : EitherOrBoth T V) (offer consumed bids : ℕ)
      → swap_both a b x y offer ≡ ok ((consumed, bids), t')
      → (part ca ba cb bb : ℕ) × (x' : T) × (y' : V) × (part ≤ offer)
        × (a.swap x part ≡ ok ((ca, ba), x'))
        × (b.swap y (offer - part) ≡ ok ((cb, bb), y'))
        × (consumed ≡ ca + cb)
        × (bids ≡ ba + bb)
        × (both x' y' ≡ t')
        × (first_part a b x y offer ≡ ok part)
  unfolding swap_both
  swap_both-eq-ok x y t' offer consumed bids e =
      let (part, e1, r1) = >>=-eq-ok (first_part a b x y offer) _ e in
      let (rest, e2, r2) = >>=-eq-ok (or_panic (cw.uint_sub offer part)) _ r1 in
      let (((ca, ba), x'), e3, r3) = >>=-eq-ok (a.swap x part) _ r2 in
      let (((cb, bb), y'), e4, r4) = >>=-eq-ok (b.swap y rest) _ r3 in
      let (c, e5, r5) = >>=-eq-ok (or_panic (cw.uint_add ca cb)) _ r4 in
      let (d, e6, r6) = >>=-eq-ok (or_panic (cw.uint_add ba bb)) _ r5 in
      let split = uint_sub-eq-some laws offer part (or_panic-eq-ok _ e2) in
      let rest_is : rest ≡ offer - part = omega (arith, split) in
      let same = ok-injective r6 in
      (
        part,
        ca,
        ba,
        cb,
        bb,
        x',
        y',
        omega (arith, split),
        e3,
        rw rest_is at e4,
        ap (λ p. p.0.0) (sym same) ∙ (add-eq-ok ca cb e5).0,
        ap (λ p. p.0.1) (sym same) ∙ (add-eq-ok ba bb e6).0,
        ap (λ p. p.1) same,
        e1,
      )

  both-within :
      (x : T) (y : V) (t' : EitherOrBoth T V) (offer consumed bids : ℕ)
      → swap_both a b x y offer ≡ ok ((consumed, bids), t')
      → consumed ≤ offer
  both-within x y t' offer consumed bids e =
      let (part, ca, ba, cb, bb, x', y', le, e1, e2, f1, f2, f3, f4) =
        swap_both-eq-ok x y t' offer consumed bids e in
      omega
        (arith, is_a.within x x' part ca ba e1, is_b.within y y' (offer - part) cb bb e2, f1, le)

  both-taken :
      (x : T) (y : V) (t' : EitherOrBoth T V) (offer consumed bids held : ℕ)
      → swap_both a b x y offer ≡ ok ((consumed, bids), t')
      → either_total a b (both x y) ≡ ok held
      → (rest : ℕ) × (either_total a b t' ≡ ok rest) × (rest + bids ≡ held)
  unfolding either_total
  both-taken x y t' offer consumed bids held e h =
      let (part, ca, ba, cb, bb, x', y', le, e1, e2, f1, f2, f3, f4) =
        swap_both-eq-ok x y t' offer consumed bids e in
      let (m, h1, k1) = >>=-eq-ok (a.total x) _ h in
      let (n, h2, k2) = >>=-eq-ok (b.total y) _ k1 in
      let (sum, fits) = add-eq-ok m n k2 in
      let (m', g1, s1) = is_a.taken x x' part ca ba m e1 h1 in
      let (n', g2, s2) = is_b.taken y y' (offer - part) cb bb n e2 h2 in
      let left_over : m' + n' < uint_limit = omega (arith, s1, s2, fits) in
      (
        m' + n',
        subst (λ (t : EitherOrBoth T V). either_total a b t ≡ ok (m' + n')) f3
            (rw (g1, g2) (sum_fits m' n' left_over)),
        omega (arith, s1, s2, f2, sum),
      )
    where
      sum_fits :
          (k l : ℕ) → k + l < uint_limit → or_panic {E = SwapError} (cw.uint_add k l) ≡ ok (k + l)
      sum_fits k l h = ground (arith, uint_add_lem k l)

  -- Where both offers keep to the interface, so do the two as one.
  pub either-IsSwappable : IsSwappable (either a b)
  unfolding either either_swap either_total
  either-IsSwappable = record { within = within; taken = taken }
    where
      within :
          (t t' : EitherOrBoth T V) (offer consumed bids : ℕ)
          → either_swap a b t offer ≡ ok ((consumed, bids), t')
          → consumed ≤ offer
      within (both x y) t' offer consumed bids e = both-within x y t' offer consumed bids e
      within (left x) t' offer consumed bids e =
          let (((c, d), x'), e1, r1) = >>=-eq-ok (a.swap x offer) _ e in
          rw (ap (λ p. p.0.0) (ok-injective r1)) at (is_a.within x x' offer c d e1)
      within (right y) t' offer consumed bids e =
          let (((c, d), y'), e1, r1) = >>=-eq-ok (b.swap y offer) _ e in
          rw (ap (λ p. p.0.0) (ok-injective r1)) at (is_b.within y y' offer c d e1)

      taken :
          (t t' : EitherOrBoth T V) (offer consumed bids held : ℕ)
          → either_swap a b t offer ≡ ok ((consumed, bids), t')
          → either_total a b t ≡ ok held
          → (rest : ℕ) × (either_total a b t' ≡ ok rest) × (rest + bids ≡ held)
      taken (both x y) t' offer consumed bids held e h =
          both-taken x y t' offer consumed bids held e h
      taken (left x) t' offer consumed bids held e h =
          let (((c, d), x'), e1, r1) = >>=-eq-ok (a.swap x offer) _ e in
          let (rest, g, s) = is_a.taken x x' offer c d held e1 h in
          subst
            (λ (p : (ℕ × ℕ) × EitherOrBoth T V).
              (rest : ℕ) × (either_total a b p.1 ≡ ok rest) × (rest + p.0.1 ≡ held))
            (ok-injective r1) (rest, g, s)
      taken (right y) t' offer consumed bids held e h =
          let (((c, d), y'), e1, r1) = >>=-eq-ok (b.swap y offer) _ e in
          let (rest, g, s) = is_b.taken y y' offer c d held e1 h in
          subst
            (λ (p : (ℕ × ℕ) × EitherOrBoth T V).
              (rest : ℕ) × (either_total a b p.1 ≡ ok rest) × (rest + p.0.1 ≡ held))
            (ok-injective r1) (rest, g, s)
