-- ===== src/Bow/Coverage.antt =====
-- The arithmetic of shares and reserves.
use nami_contracts.Base.{ℕ, ◌+◌, ◌*◌, ◌≤◌, ◌<◌, ◌≡◌, ap, inl, inr, arith, ltb, ltb→lt, Bool-cases}
use native.Mathlib.Nat.{mul-le-mul, le_refl, le_of_mul-le-mul_right, mul-pos}

square_lt : (a b : ℕ) → a * a < b * b → a < b
square_lt a b h = elim (Bool-cases (ltb a b)) [
  | inl e ↦ ltb→lt a b e
  | inr e ↦ let above : b ≤ a = ground arith in omega (arith, mul-le-mul above above)
]

-- Shares issued for a growth of the root of the product stay below the new root.
issued-le :
    (shares k root minted delta : ℕ)
    → shares * shares ≤ k
    → k < (root + 1) * (root + 1)
    → minted * root ≤ delta * shares
    → 0 < root
    → (shares ≤ root) × (minted ≤ delta)
issued-le shares k root minted delta h l m p =
    let below : shares < root + 1 = square_lt shares (root + 1) (omega arith) in
    let le : shares ≤ root = omega arith in
    let scaled = mul-le-mul (le_refl delta) le in
    let most : minted * root ≤ delta * root = omega arith in (le, le_of_mul-le-mul_right most p)

pub issued-covers :
    (shares k root minted delta issued raised product : ℕ)
    → shares * shares ≤ k
    → k < (root + 1) * (root + 1)
    → 0 < root
    → issued * root ≤ delta * shares
    → minted ≤ issued
    → delta + root ≡ raised
    → raised * raised ≤ product
    → (shares + minted) * (shares + minted) ≤ product
issued-covers shares k root minted delta issued raised product h l p m n e r =
    let (le, most) = issued-le shares k root issued delta h l m p in
    let sum : shares + minted ≤ raised = omega arith in omega (arith, mul-le-mul sum sum)

-- What is left of the reserves covers what is left of the shares.
pub left-covers :
    (x y shares rest x' y' : ℕ)
    → 0 < shares
    → x * rest ≤ x' * shares
    → y * rest ≤ y' * shares
    → shares * shares ≤ x * y
    → rest * rest ≤ x' * y'
left-covers x y shares rest x' y' p h l c =
    let parts = mul-le-mul h l in
    let whole = mul-le-mul (le_refl (rest * rest)) c in
    let scaled : rest * rest * (shares * shares) ≤ x' * y' * (shares * shares) = omega arith in
    le_of_mul-le-mul_right scaled (mul-pos p p)

-- Taking a part of a reserve, rounded down, leaves at least the other part.
pub left-ge :
    (x shares amount rest out x' : ℕ)
    → rest + amount ≡ shares
    → x' + out ≡ x
    → out * shares ≤ x * amount
    → x * rest ≤ x' * shares
left-ge x shares amount rest out x' e f h =
    omega (arith, ap (λ (n : ℕ). x * n) e, ap (λ (n : ℕ). n * shares) f)
