-- ===== src/Affiliate/Fees.antt =====
-- The fee of an affiliate and the rest, coin by coin (contracts/nami-affiliate/src/contract.rs).
use nami_contracts.Base.{
  ℕ, ◌+◌, ◌*◌, ◌/◌, ◌≤◌, String, ◌≡◌, refl, sym, subst, ◌∙◌, ◌⊎◌, inl, inr, Bool, true, not, Option,
  none, some, List, [], ◌∷◌, map, arith, leb, ◌==◌, if◌then◌else◌, str_eq, ok, or_err, >>=-eq-ok,
  ok-injective, or_err-eq-ok, traverse, is_empty, keep_if,
}
use nami_contracts.Numeric.{Numeric, IsNumeric, uint_sub-eq-some, uint_mul-eq-some}
use mathlib.Core.Option.{some-injective}
use nami_contracts.Chain.{Coin, CosmosMsg, bank_send, total_of, sent}
use nami_contracts.Affiliate.Contract.{split_coin}

abbrev pub paid : Coin → Bool
paid c = not (c.amount == 0)

pub total_of-kept :
    (denom : String) (cs : List Coin) → total_of denom (keep_if paid cs) ≡ total_of denom cs
total_of-kept denom [] = refl
total_of-kept denom (c ∷ cs) = ground (arith, total_of-kept denom cs)

pub sent_if :
    (denom addr : String) (cs : List Coin)
    → sent denom (if is_empty cs then [] else bank_send addr cs ∷ []) ≡ total_of denom cs
sent_if denom addr [] = refl
sent_if denom addr (c ∷ cs) = omega arith

-- A coin splits into one of the fee and one of the rest, of its own denom.
abbrev IsSplit : ℕ → Coin → Coin × Coin → Type 0
IsSplit bps c (net, fee) =
    (net.denom ≡ c.denom)
    × (fee.denom ≡ c.denom)
    × (net.amount + fee.amount ≡ c.amount)
    × (fee.amount * 10_000 ≤ c.amount * bps)
    × (fee.amount ≡ c.amount * bps / 10_000)

-- The fee of a denom: the basis points of each coin, rounded down.
abbrev owed : ℕ → String → List Coin → ℕ
owed bps denom [] = 0
owed bps denom (c ∷ cs) =
    (if str_eq c.denom denom then c.amount * bps / 10_000 else 0) + owed bps denom cs

-- The messages of the fee: none without an affiliate, and with one at most a payment to it, which of
-- each denom is what is owed, where the basis points are within the cap.
abbrev pub PaysAffiliate : ℕ → List Coin → Option (String × ℕ) → List CosmosMsg → Type 0
PaysAffiliate cap funds none fees = fees ≡ []
PaysAffiliate cap funds (some (addr, bps)) fees =
    (bps ≤ cap)
    × ((fees ≡ []) ⊎ ((cs : List Coin) × (fees ≡ bank_send addr cs ∷ [])))
    × ((denom : String) → sent denom fees ≡ owed bps denom funds)

pub leb→le : (a b : ℕ) → leb a b ≡ true → a ≤ b
leb→le a b h = ground arith

pub one_payment :
    (addr : String) (cs : List Coin)
    → let fees = if is_empty cs then [] else bank_send addr cs ∷ [] in
      (fees ≡ []) ⊎ ((ds : List Coin) × (fees ≡ bank_send addr ds ∷ []))
one_payment addr [] = inl refl
one_payment addr (c ∷ cs) = inr (c ∷ cs, refl)

fee_part :
    (amount bps product fee net : ℕ)
    → product ≡ amount * bps
    → some (product / 10_000) ≡ some fee
    → net + fee ≡ amount
    → (net + fee ≡ amount) × (fee * 10_000 ≤ amount * bps) × (fee ≡ amount * bps / 10_000)
fee_part amount bps product fee net h1 h2 h3 =
    let exact : fee ≡ amount * bps / 10_000 = sym (some-injective _ _ h2) ∙ rw h1 refl in
    (h3, omega (arith, exact), exact)

scale : (a b bps cap : ℕ) → a ≤ b * bps → bps ≤ cap → a ≤ b * cap
scale a b bps cap h le = grind arith

pub charged :
    (denom addr : String) (nets fees : List Coin) (total bps cap : ℕ)
    → total_of denom nets + total_of denom fees ≡ total
    → total_of denom fees * 10_000 ≤ total * bps
    → leb bps cap ≡ true
    → (total_of denom nets
          + sent denom
              (if is_empty (keep_if paid fees) then [] else bank_send addr (keep_if paid fees) ∷ [])
        ≡ total)
      × (sent denom
              (if is_empty (keep_if paid fees) then [] else bank_send addr (keep_if paid fees) ∷ [])
            * 10_000
          ≤ total * cap)
charged denom addr nets fees total bps cap sum rate le =
    let same = sent_if denom addr (keep_if paid fees) ∙ total_of-kept denom fees in
    (rw same sum, rw same (scale (total_of denom fees * 10_000) total bps cap rate (ground arith)))

module _ ⦃cw : Numeric⦄ (laws : IsNumeric cw) where
  open laws use {uint_div_lem}

  split_coin-IsSplit :
      (bps : ℕ) (c : Coin) {p : Coin × Coin} → split_coin bps c ≡ ok p → IsSplit bps c p
  unfolding split_coin
  split_coin-IsSplit bps c h =
      let (product, e1, h1) = >>=-eq-ok (or_err (cw.uint_mul c.amount bps) _) _ h in
      let (fee, e2, h2) = >>=-eq-ok (or_err (cw.uint_div product 10_000) _) _ h1 in
      let (net, e3, h3) = >>=-eq-ok (or_err (cw.uint_sub c.amount fee) _) _ h2 in
      let p1 = (uint_mul-eq-some laws c.amount bps (or_err-eq-ok _ _ e1)) in
      let p2 : some (product / 10_000) ≡ some fee =
        sym (uint_div_lem product 10_000) ∙ or_err-eq-ok _ _ e2 in
      let p3 = uint_sub-eq-some laws c.amount fee (or_err-eq-ok _ _ e3) in
      subst (IsSplit bps c) (ok-injective h3) (
        let (sum, rate, exact) = fee_part c.amount bps product fee net p1 p2 p3 in
        (refl, refl, sum, rate, exact))

  add_totals :
      (bps : ℕ) (denom : String) (c : Coin) (p : Coin × Coin) (net fee total : ℕ)
      → IsSplit bps c p
      → net + fee ≡ total
      → fee * 10_000 ≤ total * bps
      → ((if str_eq p.0.denom denom then p.0.amount else 0)
            + net
            + ((if str_eq p.1.denom denom then p.1.amount else 0) + fee)
          ≡ (if str_eq c.denom denom then c.amount else 0) + total)
        × (((if str_eq p.1.denom denom then p.1.amount else 0) + fee) * 10_000
            ≤ ((if str_eq c.denom denom then c.amount else 0) + total) * bps)
  add_totals bps denom c (n, f) net fee total (same, same', sum, rate, exact) h le = ground arith

  add_owed :
      (bps : ℕ) (denom : String) (c : Coin) (p : Coin × Coin) (fee total : ℕ)
      → IsSplit bps c p
      → fee ≡ total
      → (if str_eq p.1.denom denom then p.1.amount else 0) + fee
        ≡ (if str_eq c.denom denom then c.amount * bps / 10_000 else 0) + total
  add_owed bps denom c (n, f) fee total (same, same', sum, rate, exact) h =
      rw (same', exact, h) refl

  -- What a traversal of splits makes of the totals.
  pub totals :
      (bps : ℕ) (denom : String) (cs : List Coin) {ps : List (Coin × Coin)}
      → traverse (split_coin bps) cs ≡ ok ps
      → (total_of denom (map (λ p. p.0) ps) + total_of denom (map (λ p. p.1) ps)
          ≡ total_of denom cs)
        × (total_of denom (map (λ p. p.1) ps) * 10_000 ≤ total_of denom cs * bps)
  unfolding traverse
  totals bps denom [] h = ground arith
  totals bps denom (c ∷ cs) h =
      let (p, e1, h1) = >>=-eq-ok (split_coin bps c) _ h in
      let (ps, e2, h2) = >>=-eq-ok (traverse (split_coin bps) cs) _ h1 in
      let (sum, rate) = totals bps denom cs e2 in
      subst
        (λ (ps : List (Coin × Coin)).
          (total_of denom (map (λ p. p.0) ps) + total_of denom (map (λ p. p.1) ps)
            ≡ total_of denom (c ∷ cs))
          × (total_of denom (map (λ p. p.1) ps) * 10_000 ≤ total_of denom (c ∷ cs) * bps))
        (ok-injective h2) (add_totals bps denom c p _ _ _ (split_coin-IsSplit bps c e1) sum rate)

  pub fees_owed :
      (bps : ℕ) (denom : String) (cs : List Coin) {ps : List (Coin × Coin)}
      → traverse (split_coin bps) cs ≡ ok ps
      → total_of denom (map (λ p. p.1) ps) ≡ owed bps denom cs
  unfolding traverse
  fees_owed bps denom [] h = ground arith
  fees_owed bps denom (c ∷ cs) h =
      let (p, e1, h1) = >>=-eq-ok (split_coin bps c) _ h in
      let (ps, e2, h2) = >>=-eq-ok (traverse (split_coin bps) cs) _ h1 in
      subst
        (λ (ps : List (Coin × Coin)). total_of denom (map (λ p. p.1) ps) ≡ owed bps denom (c ∷ cs))
        (ok-injective h2)
        (add_owed bps denom c p _ _ (split_coin-IsSplit bps c e1) (fees_owed bps denom cs e2))
