-- ===== src/Numeric/Root.antt =====
-- The square root rounded down, two binary digits of the argument at a time.
use nami_contracts.Base.{
  ℕ, zero, suc, ◌+◌, ◌*◌, ◌/◌, ◌≤◌, ◌<◌, true, false, arith, leb, ◌==◌, if◌then◌else◌, inl, inr,
  Bool-cases,
}

abbrev digit : ℕ → ℕ → ℕ
digit r n = if leb ((2 * r + 1) * (2 * r + 1)) n then 2 * r + 1 else 2 * r

abbrev root : ℕ → ℕ → ℕ
root zero n = 0
root (suc steps) n = elim (n == 0) [ true ↦ 0 | false ↦ digit (root steps (n / 4)) n ]

abbrev pub isqrt : ℕ → ℕ
isqrt n = root n n

digit_bounds :
    (r q n : ℕ)
    → r * r ≤ q
    → q < (r + 1) * (r + 1)
    → 4 * q ≤ n
    → n < 4 * q + 4
    → (digit r n * digit r n ≤ n) × (n < (digit r n + 1) * (digit r n + 1))
digit_bounds r q n h k l m = elim (Bool-cases (leb ((2 * r + 1) * (2 * r + 1)) n)) [
  | inl e ↦ rw e (ground arith)
  | inr e ↦ rw e (ground arith)
]

root_bounds :
    (steps n : ℕ)
    → n ≤ steps
    → (root steps n * root steps n ≤ n) × (n < (root steps n + 1) * (root steps n + 1))
root_bounds zero n h = grind arith
root_bounds (suc steps) n h = elim (Bool-cases (n == 0)) [
  | inl e ↦ rw (e, root) (ground arith)
  | inr e ↦
      let (le, lt) = root_bounds steps (n / 4) (ground arith) in
      rw (e, root) (digit_bounds (root steps (n / 4)) (n / 4) n le lt (omega arith) (omega arith))
]

pub isqrt_lem : (n : ℕ) → (isqrt n * isqrt n ≤ n) × (n < (isqrt n + 1) * (isqrt n + 1))
isqrt_lem n = root_bounds n n (omega arith)
