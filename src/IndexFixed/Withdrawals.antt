-- ===== src/IndexFixed/Withdrawals.antt =====
-- What a withdrawal from the basket pays out, after the amounts per share are set to the balances.
use nami_contracts.Base.{
  ℕ, ◌*◌, ◌/◌, ◌≤◌, ◌<◌, String, ◌≡◌, refl, sym, ap, subst, ◌∙◌, ◌⊎◌, inl, inr, false, none, some,
  List, [], ◌∷◌, arith, ◌==◌, str_eq, str_eq_iff, Bool-cases, ok, or_err, or_panic, >>=-eq-ok,
  ok-injective, or_err-eq-ok, or_panic-eq-ok, All, traverse-All, lookup, insert, lookup-insert,
  Distinct, Distinct-insert, Distinct-found,
}
use nami_contracts.Numeric.{
  Numeric, IsNumeric, unit, uint_mul-eq-some, from_ratio-eq-some, floor_ratio,
}
use mathlib.Core.Option.{some-injective}
use native.Mathlib.Nat.{mul-le-mul, le_refl}
use nami_contracts.Chain.{Coin, Host}
use nami_contracts.IndexFixed.Vault
use nami_contracts.IndexFixed.Vault.{Allocations, rebalance, rebalance_loop, withdraw_coin}

share-le : (balance total net : ℕ) → net ≤ total → balance / total * net ≤ balance
share-le balance total net h = let le = mul-le-mul (le_refl (balance / total)) h in grind arith

module _ (host : Host) (address : String) where
  -- The contract holds the coin.
  abbrev pub IsCovered : Coin → Type 0
  IsCovered c = (b : ℕ) × (host.query_balance address c.denom ≡ some b) × (c.amount ≤ b)

  -- The amount per share of a denom is its balance over the shares, rounded down.
  abbrev pub IsBalanced : ℕ → Allocations → String → Type 0
  IsBalanced total m denom =
      (b : ℕ) × (contract : String) × (host.query_balance address denom ≡ some b)
      × (0 < total)
      × (lookup denom m ≡ some (b / total, contract))

  -- What a rebalance over `entries` makes of the map for a denom.
  abbrev Rebalanced : ℕ → Allocations → Allocations → Allocations → String → Type 0
  Rebalanced total entries m m' denom =
      ((lookup denom entries ≡ none) × (lookup denom m' ≡ lookup denom m))
      ⊎ IsBalanced total m' denom

  step-Rebalanced :
      (total : ℕ) (rest m m' : Allocations) (k denom : String) (w : ℕ) (c : String) (b w' : ℕ)
      → host.query_balance address k ≡ some b
      → 0 < total
      → w' ≡ b / total
      → Rebalanced total rest (insert k (w', c) m) m' denom
      → Rebalanced total ((k, (w, c)) ∷ rest) m m' denom
  step-Rebalanced total rest m m' k denom w c b w' held p e (inr done) = inr done
  step-Rebalanced total rest m m' k denom w c b w' held p e (inl (fresh, same)) =
      let found = same ∙ lookup-insert k denom (w', c) m in
      elim (Bool-cases (str_eq k denom)) [
        | inl eq ↦
            let is : k ≡ denom = (str_eq_iff k denom).0 eq in
            inr (
              b,
              c,
              subst (λ d. host.query_balance address d ≡ some b) is held,
              p,
              found ∙ rw eq (rw e refl),
            )
        | inr ne ↦ inl (rw ne fresh, found ∙ rw ne refl)
      ]

  present :
      (total : ℕ) (m m' : Allocations) (denom : String) (e : ℕ × String)
      → Rebalanced total m m m' denom
      → lookup denom m' ≡ some e
      → IsBalanced total m' denom
  present total m m' denom e (inl (absent, same)) found = cc
  present total m m' denom e (inr done) found = done

  kept :
      (total : ℕ) (m m' : Allocations) (denom : String) (e : ℕ × String)
      → Rebalanced total m m m' denom
      → lookup denom m ≡ some e
      → IsBalanced total m' denom
  kept total m m' denom e (inl (absent, same)) own = cc
  kept total m m' denom e (inr done) own = done

  module _ ⦃cw : Numeric⦄ (laws : IsNumeric cw) where
    open laws use {to_uint_floor_lem, uint_mul_lem}

    loop-Rebalanced :
        (total : ℕ) (entries m : Allocations) {m' : Allocations} (denom : String)
        → rebalance_loop host address total entries m ≡ ok m'
        → Rebalanced total entries m m' denom
    unfolding rebalance_loop
    loop-Rebalanced total [] m denom h = inl (refl, ap (lookup denom) (sym (ok-injective h)))
    loop-Rebalanced total ((k, (w, c)) ∷ rest) m {m'} denom h =
        let (b, e1, h1) = >>=-eq-ok (or_err (host.query_balance address k) _) _ h in
        let (ratio, e2, h2) = >>=-eq-ok (or_panic (cw.from_ratio b total)) _ h1 in
        let (positive, r) = from_ratio-eq-some laws b total (or_panic-eq-ok _ e2) in
        let w' = cw.to_uint_floor ratio in
        let floor =
          to_uint_floor_lem ratio ∙ ap (λ (x : ℕ). x / unit) r ∙ floor_ratio b total positive in
        step-Rebalanced total rest m m' k denom w c b w' (or_err-eq-ok _ _ e1) positive floor
          (loop-Rebalanced total rest (insert k (w', c) m) denom h2)

    loop-Distinct :
        (total : ℕ) (entries m : Allocations) {m' : Allocations}
        → rebalance_loop host address total entries m ≡ ok m'
        → Distinct m
        → Distinct m'
    unfolding rebalance_loop
    loop-Distinct total [] m h d = subst Distinct (ok-injective h) d
    loop-Distinct total ((k, (w, c)) ∷ rest) m h d =
        let (b, e1, h1) = >>=-eq-ok (or_err (host.query_balance address k) _) _ h in
        let (ratio, e2, h2) = >>=-eq-ok (or_panic (cw.from_ratio b total)) _ h1 in
        loop-Distinct total rest (insert k (cw.to_uint_floor ratio, c) m) h2
          (Distinct-insert k _ m d)

    rebalance-IsBalanced :
        (total : ℕ) (m : Allocations) {m' : Allocations} (denom : String) {e : ℕ × String}
        → 0 < total
        → rebalance host address total m ≡ ok m'
        → lookup denom m' ≡ some e
        → IsBalanced total m' denom
    unfolding rebalance
    rebalance-IsBalanced total m {m'} denom {e} p h found =
        let positive : (total == 0) ≡ false = ground arith in
        present total m m' denom e (loop-Rebalanced total m m denom (rw positive at h)) found

    -- A rebalance that goes through for a positive number of shares sets the amount per share of each
    -- allocation to the contract's balance over the shares, rounded down.
    pub rebalance_own :
        (total : ℕ) (m : Allocations) {m' : Allocations} (denom : String) {e : ℕ × String}
        → 0 < total
        → rebalance host address total m ≡ ok m'
        → lookup denom m ≡ some e
        → IsBalanced total m' denom
    unfolding rebalance
    rebalance_own total m {m'} denom {e} p h own =
        let positive : (total == 0) ≡ false = ground arith in
        kept total m m' denom e (loop-Rebalanced total m m denom (rw positive at h)) own

    pub rebalance_none :
        (m : Allocations) {m' : Allocations} → rebalance host address 0 m ≡ ok m' → m' ≡ m
    unfolding rebalance
    rebalance_none m h = sym (ok-injective h)

    pub rebalance-Distinct :
        (total : ℕ) (m : Allocations) {m' : Allocations}
        → rebalance host address total m ≡ ok m'
        → Distinct m
        → Distinct m'
    unfolding rebalance
    rebalance-Distinct total m h d = elim (Bool-cases (total == 0)) [
      | inl z ↦ subst Distinct (ok-injective (rw z at h)) d
      | inr z ↦ loop-Distinct total m m (rw z at h) d
    ]

    coin-IsCovered :
        (total net : ℕ) (m : Allocations) (e : String × (ℕ × String)) (c : Coin)
        → net ≤ total
        → IsBalanced total m e.0
        → lookup e.0 m ≡ some e.1
        → withdraw_coin net e ≡ ok c
        → IsCovered c
    unfolding withdraw_coin
    coin-IsCovered total net m (denom, (w, a)) c le (b, contract, held, p, found) own h =
        let (t, e1, h1) = >>=-eq-ok (or_err (cw.uint_mul w net) _) _ h in
        let product = uint_mul-eq-some laws w net (or_err-eq-ok _ _ e1) in
        let weight : w ≡ b / total = ap (λ x. x.0) (some-injective _ _ (sym own ∙ found)) in
        subst IsCovered (ok-injective h1) (b, held, rw (product, weight) (share-le b total net le))

    -- After a rebalance, a withdrawal of at most all shares pays no more of any coin than the contract
    -- holds.
    pub withdraw-IsCovered :
        (total net : ℕ) (m : Allocations) {m' : Allocations} {paid : List Coin}
        → Distinct m
        → rebalance host address total m ≡ ok m'
        → net ≤ total
        → Vault.withdraw m' net ≡ ok paid
        → All IsCovered paid
    unfolding Vault.withdraw
    withdraw-IsCovered total net m {m'} {paid} d h le w = elim (Bool-cases (net == 0)) [
      | inl z ↦ subst (All IsCovered) (ok-injective (rw z at w)) tt
      | inr z ↦
          let positive : 0 < total = ground arith in
          traverse-All (withdraw_coin net) m'
            (λ e c own run.
              coin-IsCovered total net m' e c le (rebalance-IsBalanced total m e.0 positive h own)
                own run)
            (Distinct-found m' (rebalance-Distinct total m h d)) (rw z at w)
    ]
