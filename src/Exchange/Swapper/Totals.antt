-- ===== src/Exchange/Swapper/Totals.antt =====
-- What a swap takes from the offers of liquidity and where it goes.
use nami_contracts.Base.{
  ℕ, ◌+◌, ◌≤◌, ◌≡◌, refl, ap, subst, ◌∙◌, ◌⊎◌, inl, inr, List, [], ◌∷◌, ◌++◌, arith, ◌==◌,
  Bool-cases, ok, or_panic, >>=-eq-ok, ok-injective, or_panic-eq-ok, length,
}
use nami_contracts.Numeric.{Numeric, IsNumeric, uint_add-eq-some, uint_sub-eq-some}
use nami_contracts.Exchange.Interface.{Swappable, IsSwappable}
use nami_contracts.Exchange.Swapper.{Swapper, swap_one, swap_all}

-- The totals of offers of liquidity come to `held`.
abbrev pub Totals : {T S : Type 0} → Swappable T S → List T → ℕ → Type 0
Totals i [] held = held ≡ 0
Totals i (t ∷ ts) held = (n rest : ℕ) × (i.total t ≡ ok n) × Totals i ts rest × (held ≡ n + rest)

-- How far a swapper `s` has come with the offers `ts`, which held `held`: `used` of them are swapped
-- and pending in `next`, `unused` are not.
pub record IsRun {T S : Type 0} (i : Swappable T S) (s : Swapper T) (ts : List T) (before held : ℕ)
    (next : Swapper T) : Type 0 where
  pub used : List T
  pub unused : List T
  pub rest : ℕ
  pub left : ℕ
  pub split : ts ≡ used ++ unused
  pub counted : length next.pending ≡ length s.pending + length used
  pub pending_totals : Totals i next.pending rest
  pub unused_totals : Totals i unused left
  pub balance : rest + left + next.returned ≡ before + held + s.returned
  pub offer_le : next.offer ≤ s.offer
  pub ends : (next.offer ≡ 0) ⊎ (unused ≡ [])
  pub same_fee : next.fee ≡ s.fee
  pub same_least : next.min_return ≡ s.min_return

append-Totals :
    {T S : Type 0} (i : Swappable T S) (xs ys : List T) (m n : ℕ)
    → Totals i xs m
    → Totals i ys n
    → Totals i (xs ++ ys) (m + n)
append-Totals i [] ys m n h k = subst (Totals i ys) (omega arith) k
append-Totals i (x ∷ xs) ys m n (a, b, e, h, s) k =
    (a, b + n, e, append-Totals i xs ys b n h k, omega arith)

length_append : {T : Type 0} (xs ys : List T) → length (xs ++ ys) ≡ length xs + length ys
length_append [] ys = omega arith
length_append (x ∷ xs) ys = omega (arith, length_append xs ys)

module _ {T S : Type 0} ⦃cw : Numeric⦄ (laws : IsNumeric cw) {i : Swappable T S}
    (is : IsSwappable i) where
  -- One offer that held `n`.
  swap_one-eq-ok :
      (s next : Swapper T) (t : T) (before n : ℕ)
      → Totals i s.pending before
      → i.total t ≡ ok n
      → swap_one i s t ≡ ok next
      → (rest : ℕ) × Totals i next.pending (before + rest)
        × (rest + next.returned ≡ n + s.returned)
        × (next.offer ≤ s.offer)
        × (length next.pending ≡ length s.pending + 1)
        × (next.fee ≡ s.fee)
        × (next.min_return ≡ s.min_return)
  unfolding swap_one
  swap_one-eq-ok s next t before n h e run =
      let (((c, d), t'), e1, r1) = >>=-eq-ok (i.swap t s.offer) _ run in
      let (attrs, e0, r0) = >>=-eq-ok (i.attributes t') _ r1 in
      let (remaining, e2, r2) = >>=-eq-ok (or_panic (cw.uint_sub s.offer c)) _ r0 in
      let (returned, e3, r3) = >>=-eq-ok (or_panic (cw.uint_add s.returned d)) _ r2 in
      let f2 = uint_sub-eq-some laws s.offer c (or_panic-eq-ok _ e2) in
      let (f3, fits) = uint_add-eq-some laws s.returned d (or_panic-eq-ok _ e3) in
      let (rest, g, sum) = is.taken t t' s.offer c d n e1 e in
      let one : Totals i (t' ∷ []) rest = (rest, 0, g, refl, omega arith) in
      subst
        (λ (q : Swapper T).
          (rest : ℕ) × Totals i q.pending (before + rest)
          × (rest + q.returned ≡ n + s.returned)
          × (q.offer ≤ s.offer)
          × (length q.pending ≡ length s.pending + 1)
          × (q.fee ≡ s.fee)
          × (q.min_return ≡ s.min_return))
        (ok-injective r3)
        (
          rest,
          append-Totals i s.pending (t' ∷ []) before rest h one,
          omega (arith, sum, f3),
          omega (arith, f2),
          length_append s.pending (t' ∷ []),
          refl,
          refl,
        )

  pub swap_all-IsRun :
      (s next : Swapper T) (ts : List T) (before held : ℕ)
      → Totals i s.pending before
      → Totals i ts held
      → swap_all i s ts ≡ ok next
      → IsRun i s ts before held next
  unfolding swap_all
  swap_all-IsRun s next [] before held h k e =
      subst (IsRun i s [] before held) (ok-injective e) (record {
        used = [];
        unused = [];
        rest = before;
        left = 0;
        split = refl;
        counted = omega arith;
        pending_totals = h;
        unused_totals = refl;
        balance = omega (arith, k);
        offer_le = omega arith;
        ends = inr refl;
        same_fee = refl;
        same_least = refl;
      })
  swap_all-IsRun s next (t ∷ ts) before held h (n, later, e, k, sum) run =
      let (mid, e1, r1) = >>=-eq-ok (swap_one i s t) _ run in
      let (rest, totals, bal, le, count, fee_is, least_is) =
        swap_one-eq-ok s mid t before n h e e1 in
      elim (Bool-cases (mid.offer == 0)) [
        | inl z ↦ subst (IsRun i s (t ∷ ts) before held) (ok-injective (rw z at r1)) (record {
          used = t ∷ [];
          unused = ts;
          rest = before + rest;
          left = later;
          split = refl;
          counted = count;
          pending_totals = totals;
          unused_totals = k;
          balance = omega (arith, bal, sum);
          offer_le = le;
          ends = inl (ground arith);
          same_fee = fee_is;
          same_least = least_is;
        })
        | inr nz ↦
            let q = swap_all-IsRun mid next ts (before + rest) later totals k (rw nz at r1) in
            record {
              used = t ∷ q.used;
              unused = q.unused;
              rest = q.rest;
              left = q.left;
              split = ap (λ us. t ∷ us) q.split;
              counted = omega (arith, q.counted, count);
              pending_totals = q.pending_totals;
              unused_totals = q.unused_totals;
              balance = omega (arith, q.balance, bal, sum);
              offer_le = omega (arith, q.offer_le, le);
              ends = q.ends;
              same_fee = q.same_fee ∙ fee_is;
              same_least = q.same_least ∙ least_is;
            }
      ]
