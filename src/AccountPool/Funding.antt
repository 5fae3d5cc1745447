-- ===== src/AccountPool/Funding.antt =====
-- The pending revenue against what the accounts can claim.
use nami_contracts.Base.{
  ℕ, ◌+◌, ◌-◌, ◌*◌, ◌/◌, ◌≤◌, ◌≡◌, refl, sym, subst, ◌∙◌, inl, inr, List, [], ◌∷◌, ◌++◌, arith,
  ◌==◌, Bool-cases, ok, or_err, or_panic, >>=-eq-ok, ok-injective, or_err-eq-ok, or_panic-eq-ok,
  All-map, sum_by,
}
use nami_contracts.Numeric.{
  Numeric, IsNumeric, unit, fit, uint_add-eq-some, uint_sub-eq-some, from_ratio-eq-some,
  from_ratio_one,
}
use native.Mathlib.Nat.{mul-le-mul, le_refl, div-mul-le_self}
use nami_contracts.AccountPool.{
  AccountPool, AccountPoolAccount, overflow, default_pool, join, increase_account, decrease_account,
  distribute, distribute_some, pending_revenue, claim,
}
use nami_contracts.AccountPool.Accounts.{
  owed_to, IsFunded, nothing_owed, owed_raised, replaced-IsFunded,
}

module _ ⦃cw : Numeric⦄ where
  -- A pool with the accounts that its owner keeps, each taken and put back as the methods return
  -- them.
  pub data Reach : AccountPool → List AccountPoolAccount → Type 0 where
    start : Reach default_pool []
    joined :
        {p q : AccountPool} {accounts : List AccountPoolAccount} {a : AccountPoolAccount}
        (amount : ℕ)
        → Reach p accounts
        → join p amount ≡ ok (a, q)
        → Reach q (a ∷ accounts)
    increased :
        {p q : AccountPool} {b : AccountPoolAccount} (a : AccountPoolAccount)
        (before after : List AccountPoolAccount) (amount : ℕ)
        → Reach p (before ++ a ∷ after)
        → increase_account p a amount ≡ ok (b, q)
        → Reach q (before ++ b ∷ after)
    decreased :
        {p q : AccountPool} {b : AccountPoolAccount} (a : AccountPoolAccount)
        (before after : List AccountPoolAccount) (amount : ℕ)
        → Reach p (before ++ a ∷ after)
        → decrease_account p a amount ≡ ok (b, q)
        → Reach q (before ++ b ∷ after)
    distributed :
        {p q : AccountPool} {accounts : List AccountPoolAccount} (amount : ℕ)
        → Reach p accounts
        → distribute p amount ≡ ok q
        → Reach q accounts
    claimed :
        {p q : AccountPool} {b : AccountPoolAccount} {paid : ℕ} (a : AccountPoolAccount)
        (before after : List AccountPoolAccount)
        → Reach p (before ++ a ∷ after)
        → claim p a ≡ ok (paid, b, q)
        → Reach q (before ++ b ∷ after)

module _ ⦃cw : Numeric⦄ (laws : IsNumeric cw) where
  open laws use {
    uint_add_lem, uint_sub_lem, from_ratio_lem, dec_add_lem, dec_sub_lem, dec_mul_lem,
    to_uint_floor_lem,
  }

  join-IsFunded :
      (p q : AccountPool) (a : AccountPoolAccount) (accounts : List AccountPoolAccount) (amount : ℕ)
      → IsFunded p accounts
      → join p amount ≡ ok (a, q)
      → IsFunded q (a ∷ accounts)
  unfolding join
  join-IsFunded p q a accounts amount f e =
      let (total, e1, r1) = >>=-eq-ok (or_panic (cw.uint_add p.total amount)) _ e in
      let (total_is, fits) = uint_add-eq-some laws p.total amount (or_panic-eq-ok _ e1) in
      let a' : AccountPoolAccount = record { amount = amount; sum_snapshot = p.sum } in
      subst (λ (r : AccountPoolAccount × AccountPool). IsFunded r.1 (r.0 ∷ accounts))
        (ok-injective r1)
        (record {
          snapshots = (omega arith, f.snapshots);
          amounts = omega (arith, f.amounts);
          covered = rw (nothing_owed p.sum a' refl) (omega (arith, f.covered));
        })

  increase-IsFunded :
      (p q : AccountPool) (a b : AccountPoolAccount) (before after : List AccountPoolAccount)
      (amount : ℕ)
      → IsFunded p (before ++ a ∷ after)
      → increase_account p a amount ≡ ok (b, q)
      → IsFunded q (before ++ b ∷ after)
  unfolding increase_account
  increase-IsFunded p q a b before after amount f e =
      let (total, e1, r1) = >>=-eq-ok (or_panic (cw.uint_add p.total amount)) _ e in
      let (raised, e2, r2) = >>=-eq-ok (or_panic (cw.uint_add a.amount amount)) _ r1 in
      let (total_is, fits) = uint_add-eq-some laws p.total amount (or_panic-eq-ok _ e1) in
      let (raised_is, fit) = uint_add-eq-some laws a.amount amount (or_panic-eq-ok _ e2) in
      subst (λ (r : AccountPoolAccount × AccountPool). IsFunded r.1 (before ++ r.0 ∷ after))
        (ok-injective r2)
        (replaced-IsFunded p _ a _ before after f refl refl (omega arith) (omega arith))

  decrease-IsFunded :
      (p q : AccountPool) (a b : AccountPoolAccount) (before after : List AccountPoolAccount)
      (amount : ℕ)
      → IsFunded p (before ++ a ∷ after)
      → decrease_account p a amount ≡ ok (b, q)
      → IsFunded q (before ++ b ∷ after)
  unfolding decrease_account
  decrease-IsFunded p q a b before after amount f e =
      let (total, e1, r1) = >>=-eq-ok (or_err (cw.uint_sub p.total amount) overflow) _ e in
      let (lowered, e2, r2) = >>=-eq-ok (or_err (cw.uint_sub a.amount amount) overflow) _ r1 in
      let total_is = uint_sub-eq-some laws p.total amount (or_err-eq-ok _ _ e1) in
      let lowered_is = uint_sub-eq-some laws a.amount amount (or_err-eq-ok _ _ e2) in
      subst (λ (r : AccountPoolAccount × AccountPool). IsFunded r.1 (before ++ r.0 ∷ after))
        (ok-injective r2)
        (replaced-IsFunded p _ a _ before after f refl refl (omega arith) (omega arith))

  -- The share of a distribution that all amounts together are owed is no more than its amount.
  spread-le :
      (amount total held : ℕ) → held ≤ total → held * (amount * unit / total) ≤ amount * unit
  spread-le amount total held h =
      omega (
        arith,
        mul-le-mul h (le_refl (amount * unit / total)),
        div-mul-le_self (amount * unit) total,
      )

  distribute_some-IsFunded :
      (p q : AccountPool) (accounts : List AccountPoolAccount) (amount : ℕ)
      → IsFunded p accounts
      → distribute_some p amount ≡ ok q
      → IsFunded q accounts
  unfolding distribute_some
  distribute_some-IsFunded p q accounts amount f e =
      let (pending, e1, r1) = >>=-eq-ok (or_panic (cw.uint_add p.pending amount)) _ e in
      let (ratio, e2, r2) = >>=-eq-ok (or_panic (cw.from_ratio amount p.total)) _ r1 in
      let (sum, e3, r3) = >>=-eq-ok (or_panic (cw.dec_add p.sum ratio)) _ r2 in
      let (pending_is, fits) = uint_add-eq-some laws p.pending amount (or_panic-eq-ok _ e1) in
      let (pos, ratio_is) = from_ratio-eq-some laws amount p.total (or_panic-eq-ok _ e2) in
      let sum_is : sum ≡ p.sum + ratio =
        ground (arith, or_panic-eq-ok _ e3, dec_add_lem p.sum ratio) in
      let spread : sum_by (λ a. a.amount) accounts * ratio ≤ amount * unit =
        rw ratio_is (spread-le amount p.total (sum_by (λ a. a.amount) accounts) f.amounts) in
      let due = owed_raised p.sum ratio accounts f.snapshots in
      subst (λ (r : AccountPool). IsFunded r accounts) (ok-injective r3)
        (record {
          snapshots = rw sum_is (All-map accounts (λ a h. later p.sum ratio h) f.snapshots);
          amounts = f.amounts;
          covered = rw (sum_is, due, pending_is) (omega (arith, f.covered, spread));
        })
    where
      later : {n : ℕ} (s r : ℕ) → n ≤ s → n ≤ s + r
      later s r h = omega arith

  distribute-IsFunded :
      (p q : AccountPool) (accounts : List AccountPoolAccount) (amount : ℕ)
      → IsFunded p accounts
      → distribute p amount ≡ ok q
      → IsFunded q accounts
  unfolding distribute
  distribute-IsFunded p q accounts amount f e = elim (Bool-cases (amount == 0)) [
    | inl z ↦ subst (λ (r : AccountPool). IsFunded r accounts) (ok-injective (rw z at e)) f
    | inr nz ↦ distribute_some-IsFunded p q accounts amount f (rw nz at e)
  ]

  pending_revenue-eq-ok :
      (p : AccountPool) (a : AccountPoolAccount) {revenue : ℕ}
      → pending_revenue p a ≡ ok revenue
      → revenue * unit ≤ owed_to p.sum a
  unfolding pending_revenue
  pending_revenue-eq-ok p a {revenue} e =
      let (rise, e1, r1) = >>=-eq-ok (or_panic (cw.dec_sub p.sum a.sum_snapshot)) _ e in
      let (amount, e2, r2) = >>=-eq-ok (or_panic (cw.from_ratio a.amount 1)) _ r1 in
      let (product, e3, r3) = >>=-eq-ok (or_panic (cw.dec_mul rise amount)) _ r2 in
      let rise_is : rise ≡ p.sum - a.sum_snapshot =
        ground (arith, or_panic-eq-ok _ e1, dec_sub_lem p.sum a.sum_snapshot) in
      let amount_is = from_ratio_one laws a.amount (or_panic-eq-ok _ e2) in
      let product_is : product ≡ rise * amount / unit =
        ground (arith, or_panic-eq-ok _ e3, dec_mul_lem rise amount) in
      let revenue_is = sym (ok-injective r3) ∙ to_uint_floor_lem product in
      floor_of_product rise a.amount product revenue (p.sum - a.sum_snapshot) rise_is
        (rw amount_is at product_is) revenue_is
    where
      floor_of_product :
          (rise n product r s : ℕ)
          → rise ≡ s
          → product ≡ rise * (n * unit) / unit
          → r ≡ product / unit
          → r * unit ≤ n * s
      floor_of_product rise n product r s e f g =
          let below : r * unit ≤ n * rise = omega arith in rw e at below

  claim-IsFunded :
      (p q : AccountPool) (a b : AccountPoolAccount) (before after : List AccountPoolAccount)
      (paid : ℕ)
      → IsFunded p (before ++ a ∷ after)
      → claim p a ≡ ok (paid, b, q)
      → IsFunded q (before ++ b ∷ after)
  unfolding claim
  claim-IsFunded p q a b before after paid f e =
      let (revenue, e1, r1) = >>=-eq-ok (pending_revenue p a) _ e in
      let (pending, e2, r2) = >>=-eq-ok (or_panic (cw.uint_sub p.pending revenue)) _ r1 in
      let within = pending_revenue-eq-ok p a e1 in
      let left = uint_sub-eq-some laws p.pending revenue (or_panic-eq-ok _ e2) in
      subst (λ (r : ℕ × AccountPoolAccount × AccountPool). IsFunded r.2 (before ++ r.1 ∷ after))
        (ok-injective r2)
        (replaced-IsFunded p _ a _ before after f refl refl refl (omega (arith, within, left)))

  -- In every pool that can come about, the pending revenue covers what the accounts can claim.
  pub Reach-IsFunded :
      {p : AccountPool} {accounts : List AccountPoolAccount}
      → Reach p accounts
      → IsFunded p accounts
  Reach-IsFunded start = record { snapshots = tt; amounts = omega arith; covered = omega arith }
  Reach-IsFunded (joined {p} {q} {accounts} {a} amount r e) =
      join-IsFunded p q a accounts amount (Reach-IsFunded r) e
  Reach-IsFunded (increased {p} {q} {b} a before after amount r e) =
      increase-IsFunded p q a b before after amount (Reach-IsFunded r) e
  Reach-IsFunded (decreased {p} {q} {b} a before after amount r e) =
      decrease-IsFunded p q a b before after amount (Reach-IsFunded r) e
  Reach-IsFunded (distributed {p} {q} {accounts} amount r e) =
      distribute-IsFunded p q accounts amount (Reach-IsFunded r) e
  Reach-IsFunded (claimed {p} {q} {b} {paid} a before after r e) =
      claim-IsFunded p q a b before after paid (Reach-IsFunded r) e
