-- ===== src/IndexFixed/Effects.antt =====
-- What the calls of the fixed index do to its tokens and to the amounts per share.
use nami_contracts.Base.{
  ℕ, zero, suc, ◌+◌, ◌*◌, ◌/◌, ◌≤◌, String, ◌≡◌, sym, ap, subst, ◌∙◌, Bool, some, List, arith,
  if◌then◌else◌, str_eq, ok, or_err, or_panic, >>=-eq-ok, ok-injective, or_err-eq-ok,
  or_panic-eq-ok, sum_by, lookup, All-lookup,
}
use nami_contracts.Numeric.{Numeric, IsNumeric, uint_add-eq-some}
use mathlib.Core.Option.{some-injective}
use native.Mathlib.Nat.{le-div_iff_mul-le, le_refl}
use nami_contracts.Chain.{
  CosmosMsg, mint_tokens, burn_tokens, Response, Env, MessageInfo, Host, supply,
}
use nami_contracts.IndexFixed.Vault
use nami_contracts.IndexFixed.Vault.{Allocations, fund_of, rebalance}
use nami_contracts.IndexFixed.Contract.{Index, deposit_arm, rcpt_id}
use nami_contracts.IndexFixed.Deposits.{IsBasket, deposit-IsBasket}
use nami_contracts.IndexFixed.Withdrawals.{rebalance_own, rebalance_none}

-- The tokens of a denom that messages burn, and those that they mint.
burnt_by : String → CosmosMsg → ℕ
burnt_by denom (burn_tokens d amount) = if str_eq d denom then amount else 0
burnt_by denom _ = 0

minted_by : String → CosmosMsg → ℕ
minted_by denom (mint_tokens d amount to) = if str_eq d denom then amount else 0
minted_by denom _ = 0

pub burnt : String → List CosmosMsg → ℕ
burnt denom = sum_by (burnt_by denom)

pub minted : String → List CosmosMsg → ℕ
minted denom = sum_by (minted_by denom)

covers_shares :
    (w n came b t aum t1 shares total amount : ℕ)
    → n * w ≤ amount
    → amount ≡ came
    → t ≡ total
    → t1 ≡ t + aum
    → shares ≡ t1 + n
    → w * (total + aum) + came ≤ b
    → w * shares ≤ b
covers_shares w n came b t aum t1 shares total amount h1 h2 h3 h4 h5 h6 = grind arith

module _ ⦃cw : Numeric⦄ (laws : IsNumeric cw) (host : Host) (env : Env) (info : MessageInfo) where
  open laws use {uint_add_lem}

  shares_kept :
      (shares : ℕ) (m : Allocations) {m' : Allocations} (denom contract : String) (w b : ℕ)
      → rebalance host env.contract_address shares m ≡ ok m'
      → lookup denom m ≡ some (w, contract)
      → host.query_balance env.contract_address denom ≡ some b
      → w * shares ≤ b
      → (w' : ℕ) × (addr : String) × (lookup denom m' ≡ some (w', addr)) × (w ≤ w')
  shares_kept zero m denom contract w b h own held le =
      (w, contract, rw (rebalance_none host env.contract_address laws m h) own, le_refl w)
  shares_kept (suc k) m denom contract w b h own held le =
      let (b', addr, held', p, found) =
        rebalance_own host env.contract_address laws (suc k) m denom (omega arith) h own in
      let same : b' ≡ b = some-injective _ _ (sym held' ∙ held) in
      (b' / suc k, addr, found, rw same ((le-div_iff_mul-le (omega arith)).1 le))

  -- A deposit does not lower the amount per share of any allocation: where the contract held the old
  -- amount for every share, the due fee included, beside the coins that came in, the amount for the
  -- grown number of shares is at least the old one.
  pub deposit_keeps_shares :
      (i : Index) (aum_fee : ℕ) {r : Response} {m' : Allocations} {again : Bool}
      → deposit_arm host env info i aum_fee ≡ ok (r, m', again)
      → (denom contract : String) (w came b total : ℕ)
      → lookup denom i.allocations ≡ some (w, contract)
      → fund_of denom info.funds ≡ some came
      → host.query_balance env.contract_address denom ≡ some b
      → supply host (rcpt_id env) ≡ some total
      → w * (total + aum_fee) + came ≤ b
      → (w' : ℕ) × (addr : String) × (lookup denom m' ≡ some (w', addr)) × (w ≤ w')
  unfolding deposit_arm
  deposit_keeps_shares i aum_fee {r} {m'} h denom contract w came b total own got held sup covers =
      let (n, e1, h1) = >>=-eq-ok (Vault.deposit i.allocations info.funds) _ h in
      let (t, e2, h2) = >>=-eq-ok (or_err (supply host (rcpt_id env)) _) _ h1 in
      let (t1, e3, h3) = >>=-eq-ok (or_panic (cw.uint_add t aum_fee)) _ h2 in
      let (shares, e4, h4) = >>=-eq-ok (or_panic (cw.uint_add t1 n)) _ h3 in
      let (m1, e5, h5) =
        >>=-eq-ok (rebalance host env.contract_address shares i.allocations) _ h4 in
      let basket =
        All-lookup (IsBasket info.funds n) denom i.allocations
          (deposit-IsBasket laws i.allocations info.funds n e1) own in
      let same : basket.amount ≡ came = some-injective _ _ (sym basket.received ∙ got) in
      let t_eq : t ≡ total = some-injective _ _ (sym (or_err-eq-ok _ _ e2) ∙ sup) in
      let s1 = (uint_add-eq-some laws t aum_fee (or_panic-eq-ok _ e3)).0 in
      let s2 = (uint_add-eq-some laws t1 n (or_panic-eq-ok _ e4)).0 in
      let cover =
        covers_shares w n came b t aum_fee t1 shares total basket.amount basket.covered same t_eq s1
          s2 covers in
      let kept = shares_kept shares i.allocations denom contract w b e5 own held cover in
      subst (λ m. (w' : ℕ) × (addr : String) × (lookup denom m ≡ some (w', addr)) × (w ≤ w'))
        (ap (λ x. x.1) (ok-injective h5)) kept
