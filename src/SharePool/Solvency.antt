-- ===== src/SharePool/Solvency.antt =====
-- A pool over its life: tokens are minted by `join` and burnt by `leave`, and deposits come in.
use nami_contracts.Base.{ℕ, ◌+◌, ◌-◌, ◌*◌, ◌≤◌, ◌<◌, ◌≡◌, arith, Outcome, ok}
use nami_contracts.Numeric.{Numeric, IsNumeric, unit, uint_limit}
use nami_contracts.SharePool.{
  SharePool, SharePoolError, empty_pool, join, leave, deposit, whole_shares,
}
use nami_contracts.SharePool.Join.{join-IsJoined}
use nami_contracts.SharePool.Leave.{IsLeft, leave_total}

module _ ⦃cw : Numeric⦄ where
  -- The pools that a contract can hold, with the number of minted tokens that are not burnt.
  pub data Reach : SharePool → ℕ → Type 0 where
    start : Reach empty_pool 0
    joined :
        {p p' : SharePool} {tokens minted : ℕ} (amount : ℕ)
        → Reach p tokens
        → join p amount ≡ ok (minted, p')
        → Reach p' (tokens + minted)
    left :
        {p p' : SharePool} {tokens : ℕ} (amount claim : ℕ)
        → Reach p tokens
        → amount ≤ tokens
        → leave p amount ≡ ok (claim, p')
        → Reach p' (tokens - amount)
    deposited :
        {p p' : SharePool} {tokens : ℕ} (amount : ℕ)
        → Reach p tokens
        → deposit p amount ≡ ok (tt, p')
        → Reach p' tokens

-- The pool fits its types, and its shares cover the tokens.
pub record IsSolvent (p : SharePool) (tokens : ℕ) : Type 0 where
  pub size_fits : p.size < uint_limit
  pub shares_fit : p.shares < uint_limit
  pub covered : tokens * unit ≤ p.shares

module _ ⦃cw : Numeric⦄ (laws : IsNumeric cw) where
  open laws use {uint_add_lem, to_uint_floor_lem}

  tokens-le-whole : (p : SharePool) (tokens : ℕ) → IsSolvent p tokens → tokens ≤ whole_shares p
  unfolding whole_shares
  tokens-le-whole p tokens s = omega (arith, to_uint_floor_lem p.shares)

  leave_positive :
      (p p' : SharePool) (amount claim : ℕ) → leave p amount ≡ ok (claim, p') → 0 < amount
  unfolding leave
  leave_positive p p' amount claim e = ground arith

  -- Two runs of one call end in one pool.
  same_pool :
      {r : Outcome SharePoolError (ℕ × SharePool)} {c d : ℕ} {p q : SharePool}
      → r ≡ ok (c, p)
      → r ≡ ok (d, q)
      → p ≡ q
  same_pool e f = cc

  leave-IsSolvent :
      (p p' : SharePool) (tokens amount claim : ℕ)
      → IsSolvent p tokens
      → amount ≤ tokens
      → leave p amount ≡ ok (claim, p')
      → IsSolvent p' (tokens - amount)
  unfolding whole_shares
  leave-IsSolvent p p' tokens amount claim s h e =
      let positive = leave_positive p p' amount claim e in
      let held = tokens-le-whole p tokens s in
      let (c, q, run, l) =
        leave_total laws p amount s.size_fits s.shares_fit positive (omega arith) in
      rw (same_pool e run) (record {
        size_fits = omega (arith, l.paid, s.size_fits);
        shares_fit = omega (arith, l.shares_le, s.shares_fit);
        covered = omega (arith, l.burnt, to_uint_floor_lem q.shares);
      })

  deposit-IsSolvent :
      (p p' : SharePool) (tokens amount : ℕ)
      → IsSolvent p tokens
      → deposit p amount ≡ ok (tt, p')
      → IsSolvent p' tokens
  unfolding deposit
  deposit-IsSolvent p p' tokens amount s e = ground (arith, uint_add_lem p.size amount)

  -- In every pool that can be reached, the shares cover the tokens.
  pub Reach-IsSolvent : {p : SharePool} {tokens : ℕ} → Reach p tokens → IsSolvent p tokens
  Reach-IsSolvent start = omega arith
  Reach-IsSolvent (joined {p} {p'} {tokens} {minted} amount r e) =
      let s = Reach-IsSolvent r in
      let j = join-IsJoined laws p amount e in
      record { size_fits = j.size_fits; shares_fit = j.shares_fit; covered = omega arith }
  Reach-IsSolvent (left {p} {p'} {tokens} amount claim r h e) =
      leave-IsSolvent p p' tokens amount claim (Reach-IsSolvent r) h e
  Reach-IsSolvent (deposited {p} {p'} {tokens} amount r e) =
      deposit-IsSolvent p p' tokens amount (Reach-IsSolvent r) e

  -- Whatever came before, the holders of the tokens can redeem any positive part of them: `leave`
  -- goes through, pays at most in proportion, and burns exactly that part.
  pub redeemable :
      (p : SharePool) (tokens amount : ℕ)
      → Reach p tokens
      → 0 < amount
      → amount ≤ tokens
      → (claim : ℕ) × (p' : SharePool) × (leave p amount ≡ ok (claim, p'))
        × IsLeft p amount claim p'
  redeemable p tokens amount r h k =
      let s = Reach-IsSolvent r in
      let le = tokens-le-whole p tokens s in
      leave_total laws p amount s.size_fits s.shares_fit h (omega arith)
