-- ===== src/AccountPool/Accounts.antt =====
-- What the accounts of a pool can claim together.
use nami_contracts.Base.{ℕ, ◌+◌, ◌-◌, ◌*◌, ◌≤◌, ◌≡◌, refl, List, [], ◌∷◌, ◌++◌, arith, All, sum_by}
use nami_contracts.Numeric.{unit}
use nami_contracts.AccountPool.{AccountPool, AccountPoolAccount}

-- What an account can claim where the pool's sum is `sum`, in atomics.
abbrev pub owed_to : ℕ → AccountPoolAccount → ℕ
owed_to sum a = a.amount * (sum - a.sum_snapshot)

abbrev pub owed : ℕ → List AccountPoolAccount → ℕ
owed sum = sum_by (owed_to sum)

-- The accounts' amounts stay within the total, their snapshots within the sum, and the pending
-- revenue covers what they can claim.
pub record IsFunded (p : AccountPool) (accounts : List AccountPoolAccount) : Type 0 where
  pub snapshots : All (λ a. a.sum_snapshot ≤ p.sum) accounts
  pub amounts : sum_by (λ a. a.amount) accounts ≤ p.total
  pub covered : owed p.sum accounts ≤ p.pending * unit

pub sum_by_split :
    (f : AccountPoolAccount → ℕ) (xs ys : List AccountPoolAccount) (a : AccountPoolAccount)
    → sum_by f (xs ++ a ∷ ys) ≡ f a + sum_by f (xs ++ ys)
sum_by_split f [] ys a = refl
sum_by_split f (x ∷ xs) ys a = omega (arith, sum_by_split f xs ys a)

pub taken_out :
    (P : AccountPoolAccount → Type 0) (xs ys : List AccountPoolAccount) (a : AccountPoolAccount)
    → All P (xs ++ a ∷ ys)
    → P a × All P (xs ++ ys)
taken_out P [] ys a h = h
taken_out P (x ∷ xs) ys a (h, hs) = let (k, ks) = taken_out P xs ys a hs in (k, (h, ks))

put_back :
    (P : AccountPoolAccount → Type 0) (xs ys : List AccountPoolAccount) (a : AccountPoolAccount)
    → P a
    → All P (xs ++ ys)
    → All P (xs ++ a ∷ ys)
put_back P [] ys a h hs = (h, hs)
put_back P (x ∷ xs) ys a h (k, ks) = (k, put_back P xs ys a h ks)

pub nothing_owed : (sum : ℕ) (b : AccountPoolAccount) → b.sum_snapshot ≡ sum → owed_to sum b ≡ 0
nothing_owed sum b e = grind arith

-- A rise of the sum is owed on every amount.
pub owed_raised :
    (sum rise : ℕ) (accounts : List AccountPoolAccount)
    → All (λ a. a.sum_snapshot ≤ sum) accounts
    → owed (sum + rise) accounts ≡ owed sum accounts + sum_by (λ a. a.amount) accounts * rise
owed_raised sum rise [] h = omega arith
owed_raised sum rise (a ∷ accounts) (h, hs) =
    let longer : sum + rise - a.sum_snapshot ≡ (sum - a.sum_snapshot) + rise = omega arith in
    rw longer (omega (arith, owed_raised sum rise accounts hs))

-- An account put in the place of another, with the others as they were.
pub replaced-IsFunded :
    (p q : AccountPool) (a b : AccountPoolAccount) (before after : List AccountPoolAccount)
    → IsFunded p (before ++ a ∷ after)
    → q.sum ≡ p.sum
    → b.sum_snapshot ≡ p.sum
    → p.total + b.amount ≡ q.total + a.amount
    → p.pending * unit ≤ q.pending * unit + owed_to p.sum a
    → IsFunded q (before ++ b ∷ after)
replaced-IsFunded p q a b before after f same snap total paid =
    let rest = before ++ after in
    let (was, others) = taken_out _ before after a f.snapshots in
    let held : sum_by (λ a. a.amount) rest + b.amount ≤ q.total =
      omega (arith, f.amounts, total, sum_by_split (λ a. a.amount) before after a) in
    let due : owed p.sum rest ≤ q.pending * unit =
      omega (arith, f.covered, paid, sum_by_split (owed_to p.sum) before after a) in
    record {
      snapshots = rw same (put_back _ before after b (omega (arith, snap)) others);
      amounts = rw (sum_by_split (λ a. a.amount) before after b) (omega (arith, held));
      covered =
          rw (same, sum_by_split (owed_to p.sum) before after b, nothing_owed p.sum b snap)
            (omega (arith, due));
    }
