-- ===== src/EntryAdapter/Baskets.antt =====
-- What the adapter deposits, against what the fixed index takes.
use nami_contracts.Base.{
  ℕ, ◌+◌, ◌*◌, ◌/◌, ◌≤◌, ◌<◌, String, ◌≡◌, refl, sym, ap, subst, ◌∙◌, ◌≢◌, inl, inr, not, Option,
  none, some, List, [], ◌∷◌, map, arith, ◌==◌, if◌then◌else◌, str_eq, str_eq_iff, Option-cases,
  unwrap_or_default, ok, ensure, or_err, or_panic, >>=-eq-ok, ok-injective, or_err-eq-ok,
  or_panic-eq-ok, traverse, All, All-map, lookup, Distinct,
}
use nami_contracts.Numeric.{
  Numeric, IsNumeric, unit, uint_limit, fit, uint_sub-eq-some, uint_mul-eq-some,
}
use native.Mathlib.Nat.{mul-div_cancel}
use nami_contracts.Chain.{
  Coin, coin, SwapEntry, CosmosMsg, wasm_execute, index_deposit, Env, Host, total_of,
}
use nami_contracts.IndexFixed.Vault
use nami_contracts.IndexFixed.Vault.{Allocations, fund_of, agree, deposit_loop}
use nami_contracts.EntryAdapter.Holdings.{
  Index, Info, min_units, share_of, info_of, use_up, deposit_msg,
}

-- The coins that are worth a number of shares.
abbrev pub basket : ℕ → List (String × ℕ) → List Coin
basket share [] = []
basket share ((denom, weight) ∷ rest) = coin (share * weight) denom ∷ basket share rest

-- What the adapter held of a denom, and what is left over of it.
abbrev held : String → List Info → ℕ
held denom [] = 0
held denom (i ∷ is) = (if str_eq i.denom denom then i.total else 0) + held denom is

abbrev pub left : String → List SwapEntry → ℕ
left denom [] = 0
left denom (e ∷ es) = (if str_eq e.denom denom then e.amount else 0) + left denom es

-- What the adapter holds of the denoms of an allocation, by the balances that are asked for.
abbrev pub balances : Host → String → String → List (String × ℕ) → ℕ
balances host address denom [] = 0
balances host address denom ((d, weight) ∷ rest) =
    (if str_eq d denom then unwrap_or_default (host.query_balance address d) else 0)
    + balances host address denom rest

-- The infos that belong to an allocation.
abbrev Match : Host → String → List (String × ℕ) → List Info → Type 0
Match host address [] [] = Unit
Match host address [] (i ∷ is) = ⊥
Match host address (e ∷ es) [] = ⊥
Match host address (e ∷ es) (i ∷ is) =
    (i.denom ≡ e.0)
    × (i.weight ≡ e.1)
    × (host.query_balance address e.0 ≡ some i.total)
    × (0 < e.1)
    × (i.units * unit < uint_limit)
    × Match host address es is

fund_of-absent :
    (share : ℕ) (denom : String) (m : Allocations)
    → lookup denom m ≡ none
    → fund_of denom (basket share (map (λ e. (e.0, e.1.0)) m)) ≡ none
unfolding fund_of
fund_of-absent share denom [] h = refl
fund_of-absent share denom (e ∷ m) h = ground (arith, fund_of-absent share denom m)

fund_of-later :
    (denom : String) (c : Coin) (cs : List Coin) {x : ℕ}
    → fund_of denom cs ≡ some x
    → fund_of denom (c ∷ cs) ≡ some x
unfolding fund_of
fund_of-later denom c cs h = rw h refl

fund_of-here :
    (denom : String) (n : ℕ) (cs : List Coin)
    → fund_of denom cs ≡ none
    → fund_of denom (coin n denom ∷ cs) ≡ some n
unfolding fund_of
fund_of-here denom n cs h = ground (arith, str_eq_iff denom denom)

-- A basket holds the share of each allocation.
abbrev Funded : ℕ → List Coin → String × (ℕ × String) → Type 0
Funded share funds e = fund_of e.0 funds ≡ some (share * e.1.0)

basket-Funded :
    (share : ℕ) (m : Allocations)
    → Distinct m
    → All (Funded share (basket share (map (λ e. (e.0, e.1.0)) m))) m
basket-Funded share [] d = tt
basket-Funded share ((denom, (w, contract)) ∷ m) (fresh, d) = (
  fund_of-here denom (share * w) _ (fund_of-absent share denom m fresh),
  All-map m (λ e h. fund_of-later e.0 (coin (share * w) denom) _ h) (basket-Funded share m d),
)

min_units-empty :
    (is : List Info) (u : ℕ) → min_units is ≡ none → All (λ (i : Info). u ≤ i.units) is
unfolding min_units
min_units-empty [] u h = tt
min_units-empty (i ∷ is) u h = elim (Option-cases (min_units is)) [
  | inl e ↦ absurd (ground arith)
  | inr (v, e) ↦ absurd (ground arith)
]

min_units-le :
    (infos : List Info) (u x : ℕ)
    → min_units infos ≡ some u
    → x ≤ u
    → All (λ (i : Info). x ≤ i.units) infos
unfolding min_units
min_units-le [] u x h le = tt
min_units-le (i ∷ is) u x h le = elim (Option-cases (min_units is)) [
  | inl e ↦ (ground arith, min_units-empty is x e)
  | inr (v, e) ↦ (ground arith, min_units-le is v x e (ground arith))
]

share_of-eq-ok :
    (infos : List Info) {share : ℕ}
    → share_of infos ≡ ok share
    → (min_units infos ≡ some share) × (0 < share)
unfolding share_of
share_of-eq-ok infos h = ground arith

smaller : {a b : ℕ} → a ≤ b → b * unit < uint_limit → a * unit < uint_limit
smaller h le = omega arith

agree_same : (share : ℕ) → agree (some share) share ≡ ok (some share)
unfolding agree
agree_same share = ground arith

agree_first : (share : ℕ) → agree none share ≡ ok (some share)
unfolding agree
agree_first share = refl

loop_end : ⦃cw : Numeric⦄ (funds : List Coin) (r : Option ℕ) → deposit_loop funds [] r ≡ ok r
unfolding deposit_loop
loop_end funds r = refl

mul_swap : (a b c : ℕ) → a * b * c ≡ a * c * b
mul_swap a b c = grind arith

division : (a b : ℕ) → 0 < b → a * b * unit / b ≡ a * unit
division a b p = ap (λ (x : ℕ). x / b) (mul_swap a b unit) ∙ mul-div_cancel (a * unit) p

fit-some : (n : ℕ) → n < uint_limit → fit n ≡ some n
fit-some n h = ground arith

unit_quotient : (x k : ℕ) → x < uint_limit → k ≡ x / unit → k * unit < uint_limit
unit_quotient x k h e = omega arith

same_units : (u : ℕ) → u * unit / unit ≡ u
same_units u = omega arith

use_up_part :
    (d e denom : String) (w v share total used rem : ℕ) (funds : List Coin) (rems : List SwapEntry)
    (balance : Option ℕ) (rest : ℕ)
    → e ≡ d
    → v ≡ w
    → used ≡ share * v
    → rem + used ≡ total
    → balance ≡ some total
    → total_of denom funds + left denom rems ≡ rest
    → (coin used e ≡ coin (share * w) d)
      × (total_of denom (coin used e ∷ funds)
            + left denom (
                if rem == 0
                then rems
                else record { denom = e; amount = rem; min_return = none } ∷ rems)
          ≡ (if str_eq d denom then unwrap_or_default balance else 0) + rest)
use_up_part d e denom w v share total used rem funds rems balance rest h1 h2 h3 h4 h5 h6 =
    (rw h1 (rw h3 (rw h2 refl)), ground arith)

Match-positive :
    (host : Host) (address : String) (m : Allocations) (infos : List Info)
    → Match host address (map (λ e. (e.0, e.1.0)) m) infos
    → All (λ e. 0 < e.1.0) m
Match-positive host address [] infos h = tt
Match-positive host address (e ∷ m) [] h = absurd h
Match-positive host address (e ∷ m) (i ∷ is) (h1, h2, h3, p, h5, h) =
    (p, Match-positive host address m is h)

-- There is an allocation where there is a share, and the share fits as a decimal.
shared :
    (host : Host) (address : String) (alloc : List (String × ℕ)) (infos : List Info) (share : ℕ)
    → Match host address alloc infos
    → min_units infos ≡ some share
    → (share * unit < uint_limit) × (alloc ≢ [])
unfolding min_units
shared host address [] [] share m h = absurd (ground arith)
shared host address [] (i ∷ is) share m h = absurd m
shared host address (e ∷ es) [] share m h = absurd m
shared host address (e ∷ es) (i ∷ is) share (m1, m2, m3, m4, small, m) h =
    (smaller (min_units-le (i ∷ is) share share h (omega arith)).0 small, λ q. cc)

module _ ⦃cw : Numeric⦄ (laws : IsNumeric cw) where
  open laws use {from_ratio_lem, to_uint_floor_lem}

  from_ratio-small :
      (amount weight units : ℕ)
      → cw.from_ratio amount weight ≡ some units
      → (0 < weight) × (units < uint_limit)
  from_ratio-small amount weight units e = ground (arith, from_ratio_lem amount weight)

  ratio_of_basket :
      (share w : ℕ)
      → share * unit < uint_limit
      → 0 < w
      → cw.from_ratio (share * w) w ≡ some (share * unit)
  ratio_of_basket share w small p =
      rw (from_ratio_lem (share * w) w) (rw (division share w p) (ground arith))

  floor_whole : (share : ℕ) → cw.to_uint_floor (share * unit) ≡ share
  floor_whole share = to_uint_floor_lem (share * unit) ∙ same_units share

  from_ratio_units :
      (amount weight units : ℕ)
      → cw.from_ratio amount weight ≡ some units
      → (0 < weight) × (cw.to_uint_floor units * unit < uint_limit)
  from_ratio_units amount weight units e =
      let (p, small) = from_ratio-small amount weight units e in
      (p, unit_quotient units (cw.to_uint_floor units) small (to_uint_floor_lem units))

  info_of-eq-ok :
      (host : Host) (address denom : String) (weight : ℕ) {i : Info}
      → info_of host address (denom, weight) ≡ ok i
      → (i.denom ≡ denom)
        × (i.weight ≡ weight)
        × (host.query_balance address denom ≡ some i.total)
        × (0 < weight)
        × (i.units * unit < uint_limit)
  unfolding info_of
  info_of-eq-ok host address denom weight h =
      let (amount, e3, h3) = >>=-eq-ok (or_err (host.query_balance address denom) _) _ h in
      let (t, e4, h4) = >>=-eq-ok (ensure (not (amount == 0)) _) _ h3 in
      let (units, e5, h5) = >>=-eq-ok (or_panic (cw.from_ratio amount weight)) _ h4 in
      let (p, small) = from_ratio_units amount weight units (or_panic-eq-ok _ e5) in
      subst
        (λ (i : Info).
          (i.denom ≡ denom)
          × (i.weight ≡ weight)
          × (host.query_balance address denom ≡ some i.total)
          × (0 < weight)
          × (i.units * unit < uint_limit))
        (ok-injective h5) (refl, refl, or_err-eq-ok _ _ e3, p, small)

  infos-Match :
      (host : Host) (address : String) (alloc : List (String × ℕ)) {infos : List Info}
      → traverse (info_of host address) alloc ≡ ok infos
      → Match host address alloc infos
  unfolding traverse
  infos-Match host address [] h = subst (Match host address []) (ok-injective h) tt
  infos-Match host address ((denom, weight) ∷ rest) h =
      let (i, e, h1) = >>=-eq-ok (info_of host address (denom, weight)) _ h in
      let (is, e2, h2) = >>=-eq-ok (traverse (info_of host address) rest) _ h1 in
      let (d, w, b, p, small) = info_of-eq-ok host address denom weight e in
      subst (Match host address ((denom, weight) ∷ rest)) (ok-injective h2)
        (d, w, b, p, small, infos-Match host address rest e2)

  -- The fixed index computes the share of such a basket.
  loop_step :
      (share : ℕ) (funds : List Coin) (e : String × (ℕ × String)) (m : Allocations)
      → share * unit < uint_limit
      → 0 < e.1.0
      → Funded share funds e
      → (start : Option ℕ) → agree start share ≡ ok (some share)
      → deposit_loop funds (e ∷ m) start ≡ deposit_loop funds m (some share)
  unfolding deposit_loop
  loop_step share funds (denom, (w, contract)) m small p f start agreed =
      rw f (rw (ratio_of_basket share w small p) (rw (floor_whole share) (rw agreed refl)))

  loop_on :
      (share : ℕ) (funds : List Coin) (m : Allocations)
      → share * unit < uint_limit
      → All (λ e. 0 < e.1.0) m
      → All (Funded share funds) m
      → deposit_loop funds m (some share) ≡ ok (some share)
  loop_on share funds [] small pos all = loop_end funds (some share)
  loop_on share funds (e ∷ m) small (p, pos) (f, all) =
      loop_step share funds e m small p f (some share) (agree_same share)
      ∙ loop_on share funds m small pos all

  -- What the fold makes of the infos.
  use_up-eq-ok :
      (host : Host) (address : String) (share : ℕ) (alloc : List (String × ℕ)) (infos : List Info)
      (denom : String) {r : List Coin × List SwapEntry}
      → Match host address alloc infos
      → use_up share infos ≡ ok r
      → (r.0 ≡ basket share alloc)
        × (total_of denom r.0 + left denom r.1 ≡ balances host address denom alloc)
  unfolding use_up
  use_up-eq-ok host address share [] [] denom m h = ground arith
  use_up-eq-ok host address share [] (i ∷ is) denom m h = absurd m
  use_up-eq-ok host address share (e ∷ es) [] denom m h = absurd m
  use_up-eq-ok host address share ((d, w) ∷ es) (i ∷ is) denom (d_eq, w_eq, b, p, small, m) h =
      let (used, e1, h1) = >>=-eq-ok (or_err (cw.uint_mul share i.weight) _) _ h in
      let (rem, e2, h2) = >>=-eq-ok (or_err (cw.uint_sub i.total used) _) _ h1 in
      let (rest, e3, h3) = >>=-eq-ok (use_up share is) _ h2 in
      let u = uint_mul-eq-some laws share i.weight (or_err-eq-ok _ _ e1) in
      let v = uint_sub-eq-some laws i.total used (or_err-eq-ok _ _ e2) in
      let (same, sum) = use_up-eq-ok host address share es is denom m e3 in
      let (c, total) =
        use_up_part d i.denom denom w i.weight share i.total used rem rest.0 rest.1 _ _ d_eq w_eq u
          v b sum in
      subst
        (λ (r : List Coin × List SwapEntry).
          (r.0 ≡ basket share ((d, w) ∷ es))
          × (total_of denom r.0 + left denom r.1 ≡ balances host address denom ((d, w) ∷ es)))
        (ok-injective h3) (rw c (ap (λ fs. coin (share * w) d ∷ fs) same), total)

  deposit_takes :
      (host : Host) (address : String) (share : ℕ) (m : Allocations) (infos : List Info)
      → Distinct m
      → Match host address (map (λ e. (e.0, e.1.0)) m) infos
      → min_units infos ≡ some share
      → Vault.deposit m (basket share (map (λ e. (e.0, e.1.0)) m)) ≡ ok share
  unfolding Vault.deposit
  deposit_takes host address share [] infos d h least =
      absurd ((shared host address [] infos share h least).1 refl)
  deposit_takes host address share (e ∷ m) infos d h least =
      let small = (shared host address (map (λ e. (e.0, e.1.0)) (e ∷ m)) infos share h least).0 in
      let (p, pos) = Match-positive host address (e ∷ m) infos h in
      let (f, all) = basket-Funded share (e ∷ m) d in
      rw (loop_step share _ e m small p f none (agree_first share))
        (rw (loop_on share _ m small pos all) refl)

  -- Where the adapter sees the allocations of a fixed index, no denom twice, and makes a deposit, the
  -- index takes its funds for a number of shares that is not zero; of each denom, the coins deposited
  -- and the coins to swap back are together what the adapter holds.
  pub deposit_msg-deposits :
      (host : Host) (env : Env) (index : Index) (m : Allocations) {r : CosmosMsg × List SwapEntry}
      → index.allocation ≡ map (λ e. (e.0, e.1.0)) m
      → Distinct m
      → deposit_msg host env index ≡ ok r
      → (share : ℕ) × (funds : List Coin) × (r.0 ≡ wasm_execute index.address index_deposit funds)
        × (0 < share)
        × (Vault.deposit m funds ≡ ok share)
        × ((denom : String)
            → total_of denom funds + left denom r.1
              ≡ balances host env.contract_address denom index.allocation)
  unfolding deposit_msg
  deposit_msg-deposits host env index m alloc d h =
      let (infos, e1, h1) =
        >>=-eq-ok (traverse (info_of host env.contract_address) index.allocation) _ h in
      let (share, e2, h2) = >>=-eq-ok (share_of infos) _ h1 in
      let (used, e3, h3) = >>=-eq-ok (use_up share infos) _ h2 in
      let matches = infos-Match host env.contract_address index.allocation e1 in
      let (least, pos) = share_of-eq-ok infos e2 in
      let same =
        (use_up-eq-ok host env.contract_address share index.allocation infos "" matches e3).0 in
      let takes =
        deposit_takes host env.contract_address share m infos d
          (subst (λ a. Match host env.contract_address a infos) alloc matches) least in
      (
        share,
        used.0,
        ap (λ (x : CosmosMsg × List SwapEntry). x.0) (sym (ok-injective h3)),
        pos,
        rw same (rw alloc takes),
        subst
            (λ (x : CosmosMsg × List SwapEntry).
              (denom : String)
              → total_of denom used.0 + left denom x.1
                ≡ balances host env.contract_address denom index.allocation)
            (ok-injective h3)
            (λ denom.
              (use_up-eq-ok host env.contract_address share index.allocation infos denom matches
                e3).1),
      )
