-- ===== src/NavIndex/Shares.antt =====
-- The price of a share against what the contract holds.
use nami_contracts.Base.{
  ℕ, ◌+◌, ◌*◌, ◌/◌, ◌≤◌, ◌<◌, ◌≡◌, refl, sym, ap, subst, ◌∙◌, false, some, List, [], ◌∷◌, arith,
  ◌==◌, unwrap_or_default, ok, or_err, or_panic, >>=-eq-ok, ok-injective, lift_err-eq-ok,
  or_err-eq-ok, or_panic-eq-ok, lookup,
}
use nami_contracts.Numeric.{
  Numeric, IsNumeric, unit, fit-eq-some, uint_sub-eq-some, from_ratio_one, floor_ratio,
}
use mathlib.Core.Option.{some-injective}
use native.Mathlib.Nat.{div-mul-le_self}
use nami_contracts.AssetAllocation.{AssetAllocation, Snapshot}
use nami_contracts.AssetAllocation.Trades.{snapshot-eq-ok, value_is}
use nami_contracts.NavIndex.Vault
use nami_contracts.NavIndex.Vault.{
  Vault, Allocations, add_values, nav, times, other_allocations, load_allocations,
}
use nami_contracts.NavIndex.Contract.{shares_for}

-- The value of an asset by the balance and the price that are asked for.
abbrev pub value_of : Vault → AssetAllocation → ℕ
value_of v a =
    unwrap_or_default (v.host.query_balance v.address a.denom)
    * unwrap_or_default (v.host.price a.oracle)

abbrev pub worth : Vault → List AssetAllocation → ℕ
worth v [] = 0
worth v (a ∷ rest) = value_of v a + worth v rest

-- The shares at the price `n` are worth no more than a total.
priced :
    (total shares n : ℕ)
    → n ≡ total * unit / (shares * unit)
    → 0 < shares * unit
    → n * shares ≤ total
priced total shares n e p =
    let below = div-mul-le_self (total * unit) (shares * unit) in
    descale (subst (λ (x : ℕ). x * (shares * unit) ≤ total * unit) (sym e) below)
  where
    descale : n * (shares * unit) ≤ total * unit → n * shares ≤ total
    descale h = omega arith

covered :
    (n shares minted amount balance net q value rest total : ℕ)
    → n * shares ≤ total
    → minted * n ≤ amount * q
    → total ≡ net * q + rest
    → net + amount ≡ balance
    → value ≡ balance * q
    → n * (shares + minted) ≤ value + rest
covered n shares minted amount balance net q value rest total h1 h2 h3 h4 h5 =
    let product = ap (λ (x : ℕ). x * q) h4 in omega arith

nonzero_false : (n : ℕ) → 0 < n → (n == 0) ≡ false
nonzero_false n p = ground arith

ap2_add : {a b c d : ℕ} → a ≡ b → c ≡ d → a + c ≡ b + d
ap2_add h k = omega arith

rounded :
    (value n minted : ℕ)
    → 0 < n
    → minted ≡ value * unit / n / unit
    → (minted * n ≤ value) × (value < minted * n + n)
rounded value n minted p e = grind (arith, floor_ratio value n p)

module _ ⦃cw : Numeric⦄ (laws : IsNumeric cw) where
  open laws use {dec_add_lem, dec_div_lem, to_uint_floor_lem}

  snap-value :
      (v : Vault) (a : AssetAllocation) {s : Snapshot}
      → Vault.snap v a ≡ ok s
      → s.value ≡ value_of v a
  snap-value v a h =
      let (b, p, value, pos) = snapshot-eq-ok laws v.host v.address a (lift_err-eq-ok _ _ h) in
      rw (b, p, value) refl

  add_values-eq-ok :
      (v : Vault) (acc : ℕ) (as_list : List AssetAllocation) {r : ℕ}
      → add_values v acc as_list ≡ ok r
      → r ≡ acc + worth v as_list
  unfolding add_values
  add_values-eq-ok v acc [] h = ground arith
  add_values-eq-ok v acc (a ∷ rest) h =
      let (s, e1, h1) = >>=-eq-ok (Vault.snap v a) _ h in
      let (acc', e2, h2) = >>=-eq-ok (or_panic (cw.dec_add acc s.value)) _ h1 in
      let sum =
        (fit-eq-some (acc + s.value) (sym (dec_add_lem acc s.value) ∙ or_panic-eq-ok _ e2)).0 in
      let value = snap-value v a e1 in
      add_values-eq-ok v acc' rest h2
      ∙ ap (λ x. x + worth v rest) (sum ∙ ap (λ x. acc + x) value)
      ∙ (omega arith)

  quotient_is :
      (value n quotient : ℕ)
      → cw.dec_div value n ≡ some quotient
      → (0 < n) × (quotient ≡ value * unit / n)
  quotient_is value n quotient h = ground (arith, dec_div_lem value n)

  -- The shares that a deposit mints are worth at most what it pays, and one more would be worth more
  -- than that.
  pub shares_for_lem :
      (amount q_price n : ℕ) {minted : ℕ}
      → shares_for amount q_price n ≡ ok minted
      → (0 < n) × (minted * n ≤ amount * q_price) × (amount * q_price < minted * n + n)
  unfolding shares_for
  shares_for_lem amount q_price n {minted} h =
      let (whole, e1, h1) = >>=-eq-ok (or_panic (cw.from_ratio amount 1)) _ h in
      let (value, e2, h2) = >>=-eq-ok (or_err (cw.dec_mul whole q_price) _) _ h1 in
      let (quotient, e3, h3) = >>=-eq-ok (or_err (cw.dec_div value n) _) _ h2 in
      let v =
        value_is laws amount q_price whole value (or_panic-eq-ok _ e1) (or_err-eq-ok _ _ e2) in
      let (p, d) = quotient_is value n quotient (or_err-eq-ok _ _ e3) in
      let m : minted ≡ value * unit / n / unit =
        sym (ok-injective h3) ∙ to_uint_floor_lem quotient ∙ ap (λ (x : ℕ). x / unit) d in
      let (low, high) = rounded value n minted p m in
      (p, subst (λ (x : ℕ). minted * n ≤ x) v low, subst (λ (x : ℕ). x < minted * n + n) v high)

  per_share-le :
      (q_price total shares : ℕ) {n : ℕ}
      → 0 < shares
      → Vault.per_share q_price total shares ≡ ok n
      → n * shares ≤ total
  unfolding Vault.per_share
  per_share-le q_price total shares {n} p h =
      let positive : (shares == 0) ≡ false = nonzero_false shares p in
      let (ratio, e, h1) = >>=-eq-ok (or_panic (cw.from_ratio shares 1)) _ (rw positive at h) in
      let (q, d) = quotient_is total ratio n (or_err-eq-ok _ _ h1) in
      let r = from_ratio_one laws shares (or_panic-eq-ok _ e) in
      priced total shares n (d ∙ ap (λ (x : ℕ). total * unit / x) r) (subst (λ (x : ℕ). 0 < x) r q)

  load_allocations-eq-ok :
      (v : Vault) (m : Allocations) {r : AssetAllocation × List AssetAllocation}
      → load_allocations v m ≡ ok r
      → (lookup v.quote_denom m ≡ some r.0) × (r.1 ≡ other_allocations v m)
  unfolding load_allocations
  load_allocations-eq-ok v m h =
      let (quote, e, h1) = >>=-eq-ok (or_err (lookup v.quote_denom m) _) _ h in
      subst
        (λ (r : AssetAllocation × List AssetAllocation).
          (lookup v.quote_denom m ≡ some r.0) × (r.1 ≡ other_allocations v m))
        (ok-injective h1) (or_err-eq-ok _ _ e, refl)

  -- The price of a share is the worth of what the contract holds, a deposit left out, over the shares.
  nav-eq-ok :
      (v : Vault) (m : Allocations) (amount shares : ℕ) {n : ℕ}
      → 0 < shares
      → nav v m (some amount) shares ≡ ok n
      → (quote : AssetAllocation) × (s : Snapshot) × (net : ℕ) × (lookup v.quote_denom m
          ≡ some quote)
        × (Vault.snap v quote ≡ ok s)
        × (net + amount ≡ s.balance)
        × (n * shares ≤ net * s.price + worth v (other_allocations v m))
  unfolding nav
  nav-eq-ok v m amount shares {n} p h =
      let (loaded, e0, h0) = >>=-eq-ok (load_allocations v m) _ h in
      let (own, same) = load_allocations-eq-ok v m e0 in
      let (s, e1, h1) = >>=-eq-ok (Vault.snap v loaded.0) _ h0 in
      let (net, e2, h2) = >>=-eq-ok (or_err (cw.uint_sub s.balance amount) _) _ h1 in
      let (whole, e3, h3) = >>=-eq-ok (or_panic (cw.from_ratio net 1)) _ h2 in
      let (starting, e4, h4) = >>=-eq-ok (or_err (cw.dec_mul whole s.price) _) _ h3 in
      let (total, e5, h5) = >>=-eq-ok (add_values v starting loaded.1) _ h4 in
      let start =
        value_is laws net s.price whole starting (or_panic-eq-ok _ e3) (or_err-eq-ok _ _ e4) in
      let sum = add_values-eq-ok v starting loaded.1 e5 in
      let below = per_share-le s.price total shares p h5 in
      let split : total ≡ net * s.price + worth v (other_allocations v m) =
        sum ∙ ap2_add start (ap (worth v) same) in
      (
        loaded.0,
        s,
        net,
        own,
        e1,
        uint_sub-eq-some laws s.balance amount (or_err-eq-ok _ _ e2),
        subst (λ (x : ℕ). n * shares ≤ x) split below,
      )

  -- Where there are shares, a deposit takes no value from them: at the price of a share before it, the
  -- old and the minted shares together are worth no more than what the contract then holds.
  pub deposit_keeps_nav :
      (v : Vault) (m : Allocations) (amount shares : ℕ) {n q_price minted : ℕ}
      → 0 < shares
      → nav v m (some amount) shares ≡ ok n
      → Vault.quote_price v m ≡ ok q_price
      → shares_for amount q_price n ≡ ok minted
      → (quote : AssetAllocation) × (lookup v.quote_denom m ≡ some quote)
        × (n * (shares + minted) ≤ worth v (quote ∷ other_allocations v m))
  unfolding Vault.quote_price
  deposit_keeps_nav v m amount shares {n} {q_price} {minted} p h hq hs =
      let (quote, s, net, own, snapped, kept, below) = nav-eq-ok v m amount shares p h in
      let (quote', e0, h0) = >>=-eq-ok (or_err (lookup v.quote_denom m) _) _ hq in
      let (s', e1, h1) = >>=-eq-ok (Vault.snap v quote') _ h0 in
      let same : quote' ≡ quote = some-injective _ _ (sym (or_err-eq-ok _ _ e0) ∙ own) in
      let same_s : s' ≡ s = ok-injective (sym e1 ∙ ap (Vault.snap v) same ∙ snapped) in
      let price : s.price ≡ q_price =
        ap (λ (x : Snapshot). x.price) (sym same_s) ∙ ok-injective h1 in
      let (q, low, high) = shares_for_lem amount q_price n hs in
      let value =
        sym (snap-value v quote snapped)
        ∙ (snapshot-eq-ok laws v.host v.address quote (lift_err-eq-ok _ _ snapped)).2
        ∙ ap (λ x. s.balance * x) price in
      let below' =
        subst (λ (x : ℕ). n * shares ≤ net * x + worth v (other_allocations v m)) price below in
      (
        quote,
        own,
        covered n shares minted amount s.balance net q_price (value_of v quote)
            (worth v (other_allocations v m)) _ below' low refl kept value,
      )
