-- ===== src/Affiliate/Split.antt =====
-- How a routed call splits its funds between the contract that it calls and the affiliate.
use nami_contracts.Base.{
  ℕ, ◌+◌, ◌*◌, ◌≤◌, String, ◌≡◌, subst, Option, none, some, List, map, arith, leb, ok, ensure,
  >>=-eq-ok, ok-injective, ensure-eq-ok, traverse,
}
use nami_contracts.Numeric.{Numeric, IsNumeric}
use nami_contracts.Chain.{Coin, CosmosMsg, total_of, sent}
use nami_contracts.Affiliate.Contract.{Config, split_coin, charge}
use nami_contracts.Affiliate.Fees.{charged, totals}

module _ ⦃cw : Numeric⦄ (laws : IsNumeric cw) where
  pub charge_conserves :
      (config : Config) (funds : List Coin) (affiliate : Option (String × ℕ)) (denom : String)
      {r : List Coin × List CosmosMsg}
      → charge config funds affiliate ≡ ok r
      → (total_of denom r.0 + sent denom r.1 ≡ total_of denom funds)
        × (sent denom r.1 * 10_000 ≤ total_of denom funds * config.max_affiliate_fee_bps)
  unfolding charge
  charge_conserves config funds none denom h = ground arith
  charge_conserves config funds (some (addr, bps)) denom h =
      let (t, e0, h0) = >>=-eq-ok (ensure (leb bps config.max_affiliate_fee_bps) _) _ h in
      let (pairs, e1, h1) = >>=-eq-ok (traverse (split_coin bps) funds) _ h0 in
      let (sum, rate) = totals laws bps denom funds e1 in
      subst
        (λ (r : List Coin × List CosmosMsg).
          (total_of denom r.0 + sent denom r.1 ≡ total_of denom funds)
          × (sent denom r.1 * 10_000 ≤ total_of denom funds * config.max_affiliate_fee_bps))
        (ok-injective h1)
        (charged denom addr (map (λ p. p.0) pairs) (map (λ p. p.1) pairs) _ bps _ sum rate
          (ensure-eq-ok _ _ e0))
