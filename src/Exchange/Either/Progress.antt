-- ===== src/Exchange/Either/Progress.antt =====
-- What two offers as one take of a swap (packages/rujira-rs/src/exchange/swappable.rs).
use nami_contracts.Base.{
  ℕ, ◌+◌, ◌-◌, ◌*◌, ◌/◌, ◌≤◌, ◌<◌, ◌≡◌, sym, ap, ◌∙◌, ◌⊎◌, inl, inr, arith, false, ltb, ◌==◌,
  ltb→lt, Bool-cases, ok, or_panic, >>=-eq-ok, ok-injective, or_panic-eq-ok,
}
use nami_contracts.Numeric.{
  Numeric, IsNumeric, unit, uint_add-eq-some, uint_mul-eq-some, from_ratio-eq-some, floor_ratio,
}
use native.Mathlib.Nat.{mul-le-mul, le_refl, mul-pos, div-mul-le_self, mul-div_cancel_left}
use nami_contracts.Exchange.Interface.{Swappable, IsSwappable, IsProgressing}
use nami_contracts.Exchange.Either.{
  both, left, right, either, either_total, either_swap, first_part, swap_both-eq-ok,
}

-- A share of an offer by two totals leaves something for one of them that holds something.
share_moves :
    (m n offer : ℕ)
    → 0 < offer
    → 0 < m + n
    → ((0 < m) × (0 < m * offer / (m + n))) ⊎ ((0 < n) × (0 < offer - m * offer / (m + n)))
share_moves m n offer h k = elim (Bool-cases (n == 0)) [
  | inl none_second ↦
      let n_is : n ≡ 0 = ground arith in
      let whole : m * offer / (m + n) ≡ offer = rw n_is (all_first m offer (omega (arith, n_is))) in
      inl (omega (arith, n_is), rw whole h)
  | inr some_second ↦
      let pos : 0 < n = ground arith in
      inr (pos, part_lt (m * offer / (m + n)) m n offer pos h (div-mul-le_self (m * offer) (m + n)))
]
  where
    all_first : (m offer : ℕ) → 0 < m → m * offer / (m + 0) ≡ offer
    all_first m offer pos =
        let same : m + 0 ≡ m = omega arith in rw same (mul-div_cancel_left offer pos)

    part_lt :
        (part m n offer : ℕ) → 0 < n → 0 < offer → part * (m + n) ≤ m * offer → 0 < offer - part
    part_lt part m n offer pos h le = elim (Bool-cases (ltb part offer)) [
      | inl l ↦ let below = ltb→lt part offer l in omega (arith, below)
      | inr g ↦ elim (too_much m n offer (part * (m + n)) le (enough g) (mul-pos h pos)) [ ]
    ]
      where
        enough : ltb part offer ≡ false → offer * (m + n) ≤ part * (m + n)
        enough g = mul-le-mul (ground arith) (le_refl (m + n))

        too_much : (m n offer k : ℕ) → k ≤ m * offer → offer * (m + n) ≤ k → 0 < offer * n → ⊥
        too_much m n offer k le ge pos = omega (arith, le, ge, pos)

module _ {T V S : Type 0} ⦃cw : Numeric⦄ (laws : IsNumeric cw) {a : Swappable T S}
    {b : Swappable V S} (is_a : IsSwappable a) (is_b : IsSwappable b) where
  open cw use {uint_add, uint_mul, from_ratio, to_uint_floor}
  open laws use {to_uint_floor_lem}

  first_part-eq-ok :
      (x : T) (y : V) (offer part m n : ℕ)
      → a.total x ≡ ok m
      → b.total y ≡ ok n
      → first_part a b x y offer ≡ ok part
      → (0 < m + n) × (part ≡ m * offer / (m + n))
  unfolding first_part
  first_part-eq-ok x y offer part m n hm hn e =
      let (m', e1, r1) = >>=-eq-ok (a.total x) _ e in
      let (scaled, e2, r2) = >>=-eq-ok (or_panic (uint_mul m' offer)) _ r1 in
      let (n', e3, r3) = >>=-eq-ok (b.total y) _ r2 in
      let (whole, e4, r4) = >>=-eq-ok (or_panic (uint_add m' n')) _ r3 in
      let (share, e5, r5) = >>=-eq-ok (or_panic (from_ratio scaled whole)) _ r4 in
      let m_is : m' ≡ m = ok-injective (sym e1 ∙ hm) in
      let n_is : n' ≡ n = ok-injective (sym e3 ∙ hn) in
      let scaled_is : scaled ≡ m * offer =
        (uint_mul-eq-some laws m' offer (or_panic-eq-ok _ e2)) ∙ ap (λ k. k * offer) m_is in
      let whole_is : whole ≡ m + n =
        rw (m_is, n_is) at ((uint_add-eq-some laws m' n' (or_panic-eq-ok _ e4)).0) in
      let (pos, share_is) = from_ratio-eq-some laws scaled whole (or_panic-eq-ok _ e5) in
      let floor : part ≡ share / unit = sym (ok-injective r5) ∙ to_uint_floor_lem share in
      (
        rw whole_is at pos,
        floor
            ∙ rw (share_is, scaled_is, whole_is)
                (floor_ratio (m * offer) (m + n) (rw whole_is at pos)),
      )

  -- Where both offers take something of a swap of something against something, so do the two as one.
  pub either-IsProgressing : IsProgressing a → IsProgressing b → IsProgressing (either a b)
  unfolding IsProgressing either either_swap either_total
  either-IsProgressing go_a go_b (both x y) t' offer consumed bids held e h pos some_held =
      let (part, ca, ba, cb, bb, x', y', le, e1, e2, f1, f2, f3, f4) =
        swap_both-eq-ok laws is_a is_b x y t' offer consumed bids e in
      let (m, h1, k1) = >>=-eq-ok (a.total x) _ h in
      let (n, h2, k2) = >>=-eq-ok (b.total y) _ k1 in
      let (whole, part_is) = first_part-eq-ok x y offer part m n h1 h2 f4 in
      elim (share_moves m n offer pos whole) [
        | inl (m_pos, part_pos) ↦
            let moved = go_a x x' part ca ba m e1 h1 (rw part_is part_pos) m_pos in
            omega (arith, moved, f1, f2)
        | inr (n_pos, rest_pos) ↦
            let moved = go_b y y' (offer - part) cb bb n e2 h2 (rw part_is rest_pos) n_pos in
            omega (arith, moved, f1, f2)
      ]
  either-IsProgressing go_a go_b (left x) t' offer consumed bids held e h pos some_held =
      let (((c, d), x'), e1, r1) = >>=-eq-ok (a.swap x offer) _ e in
      rw (ap (λ p. p.0.0 + p.0.1) (ok-injective r1)) at
        (go_a x x' offer c d held e1 h pos some_held)
  either-IsProgressing go_a go_b (right y) t' offer consumed bids held e h pos some_held =
      let (((c, d), y'), e1, r1) = >>=-eq-ok (b.swap y offer) _ e in
      rw (ap (λ p. p.0.0 + p.0.1) (ok-injective r1)) at
        (go_b y y' offer c d held e1 h pos some_held)
