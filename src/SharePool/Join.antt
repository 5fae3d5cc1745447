-- ===== src/SharePool/Join.antt =====
-- Joining a pool: what is issued, and what it costs the members.
use nami_contracts.Base.{
  ℕ, ◌+◌, ◌*◌, ◌/◌, ◌≤◌, ◌<◌, ◌≡◌, ◌⊎◌, inl, inr, false, arith, ◌==◌, Bool-cases, ok,
}
use nami_contracts.Numeric.{Numeric, IsNumeric, unit, uint_limit}
use native.Mathlib.Nat.{mul-le-mul, le_refl}
use nami_contracts.SharePool.{SharePool, join}

-- What a `join` of `amount` leaves behind.
pub record IsJoined (p : SharePool) (amount minted : ℕ) (p' : SharePool) : Type 0 where
  pub positive : 0 < amount
  pub paid : p'.size ≡ p.size + amount
  pub issued : p.shares + minted * unit ≤ p'.shares
  pub fair : (p.shares ≡ 0) ⊎ (p'.shares * p.size ≤ p.shares * p'.size)
  pub size_fits : p'.size < uint_limit
  pub shares_fit : p'.shares < uint_limit

-- A share of a deposit, rounded down twice, is at most the exact one.
issue-le : (s a z r i : ℕ) → r * z ≤ a * unit → i * unit ≤ s * r → (s + i) * z ≤ s * (z + a)
issue-le s a z r i h k = omega (arith, mul-le-mul (le_refl s) h, mul-le-mul k (le_refl z))

module _ ⦃cw : Numeric⦄ (laws : IsNumeric cw) where
  open laws use {uint_add_lem, from_ratio_lem, dec_add_lem, dec_mul_lem, to_uint_floor_lem}

  join_first :
      (p : SharePool) (amount : ℕ) {minted : ℕ} {p' : SharePool}
      → join p amount ≡ ok (minted, p')
      → p.shares ≡ 0
      → IsJoined p amount minted p'
  unfolding join
  join_first p amount h e = ground (
    arith,
    uint_add_lem p.size amount,
    from_ratio_lem amount 1,
    dec_add_lem p.shares (amount * unit),
  )

  join_next :
      (p : SharePool) (amount : ℕ) {minted : ℕ} {p' : SharePool}
      → join p amount ≡ ok (minted, p')
      → (p.shares == 0) ≡ false
      → IsJoined p amount minted p'
  unfolding join
  join_next p amount h e =
      let ratio = amount * unit / p.size in
      let issuance = p.shares * ratio / unit in
      ground (
        arith,
        uint_add_lem p.size amount,
        from_ratio_lem amount p.size,
        dec_mul_lem p.shares ratio,
        dec_add_lem p.shares issuance,
        to_uint_floor_lem issuance,
        issue-le p.shares amount p.size ratio issuance,
      )

  -- A `join` that goes through adds the amount to the pool and issues shares that cover the minted
  -- tokens; where the pool had shares, its size per share does not fall.
  pub join-IsJoined :
      (p : SharePool) (amount : ℕ) {minted : ℕ} {p' : SharePool}
      → join p amount ≡ ok (minted, p')
      → IsJoined p amount minted p'
  join-IsJoined p amount h = elim (Bool-cases (p.shares == 0)) [
    | inl e ↦ join_first p amount h (ground arith)
    | inr e ↦ join_next p amount h e
  ]
