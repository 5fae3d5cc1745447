-- ===== src/Bow/Swaps.antt =====
-- What a swap does to the reserves.
use nami_contracts.Base.{
  ℕ, ◌+◌, ◌-◌, ◌*◌, ◌/◌, ◌≤◌, ◌<◌, String, ◌≡◌, refl, subst, inl, inr, true, false, some, arith,
  leb, ◌==◌, str_eq, Bool-cases, ok, ensure, or_panic, >>=-eq-ok, ok-injective, ensure-eq-ok,
  or_panic-eq-ok,
}
use nami_contracts.Numeric.{
  Numeric, IsNumeric, unit, uint_limit, wide_limit, uint_add-eq-some, uint_sub-eq-some,
}
use native.Mathlib.Nat.{div-le_of_le-mul, lt-div-mul-add, mul-le-mul, le_refl}
use nami_contracts.Bow.Xyk.{Xyk, orient}
use nami_contracts.Bow.State.{invert, underflow, XykState, next_reserve, swap, swap_reserve}

-- The reserves that a state records are `Uint128`s, and its product is theirs.
pub record IsBalanced (s : XykState) : Type 0 where
  pub x_fits : s.x < uint_limit
  pub y_fits : s.y < uint_limit
  pub k_is : s.k ≡ s.x * s.y

invert-IsBalanced : (s : XykState) → IsBalanced s → IsBalanced (invert s)
unfolding invert
invert-IsBalanced s b = record {
  x_fits = b.y_fits;
  y_fits = b.x_fits;
  k_is = omega (arith, b.k_is);
}

pub orient-IsBalanced :
    (c : Xyk) (d : String) (s : XykState) → IsBalanced s → IsBalanced (orient c d s)
unfolding orient
orient-IsBalanced c d s b = elim (Bool-cases (str_eq d c.y)) [
  | inl e ↦ rw e (invert-IsBalanced s b)
  | inr e ↦ rw e b
]

pub record IsSwapped (s : XykState) (amount returned : ℕ) (t : XykState) : Type 0 where
  pub x_is : t.x ≡ s.x + amount
  pub x_fits : t.x < uint_limit
  pub y_is : t.y + returned ≡ s.y
  pub k_is : t.k ≡ t.x * t.y
  pub k_le : s.k ≤ t.k
  pub shares_is : t.shares ≡ s.shares

-- The quotient in 18 decimal places, rounded up.
abbrev pub ceil_ratio : ℕ → ℕ → ℕ
ceil_ratio k x = (k * unit / x + (unit - 1)) / unit

-- It is no more than a reserve that keeps the product.
pub ceil_ratio_le : (k x y : ℕ) → 0 < x → k ≤ x * y → ceil_ratio k x ≤ y
ceil_ratio_le k x y h l =
    let q : k * unit / x ≤ y * unit =
      div-le_of_le-mul x (omega (arith, mul-le-mul l (le_refl unit))) in
    omega arith

scaled_le : (a b : ℕ) → a * unit < b * unit + unit → a ≤ b
scaled_le a b h = omega arith

-- It keeps the product where the divisor has at most 18 decimal places.
pub ceil_ratio_covers : (k x : ℕ) → 0 < x → x ≤ unit → k ≤ x * ceil_ratio k x
ceil_ratio_covers k x h l =
    let q = k * unit / x in
    let r = ceil_ratio k x in
    let below : q ≤ r * unit = omega arith in
    let above : k * unit < q * x + x = lt-div-mul-add h in
    let scaled = mul-le-mul below (le_refl x) in scaled_le k (x * r) (omega arith)

module _ ⦃cw : Numeric⦄ (laws : IsNumeric cw) where
  open cw use {from_ratio256, to_uint_ceil, to_uint128}
  open laws use {
    uint_add_lem, uint_sub_lem, from_ratio256_lem, to_uint_ceil_lem, u256_mul_lem, to_uint128_lem,
  }

  next_reserve-eq-ok :
      (k x : ℕ) {y : ℕ} → next_reserve k x ≡ ok y → (y ≡ ceil_ratio k x) × (y < uint_limit)
  unfolding next_reserve
  next_reserve-eq-ok k x h = ground (
    arith,
    from_ratio256_lem k x,
    to_uint_ceil_lem (k * unit / x),
    to_uint128_lem (ceil_ratio k x),
  )

  swap_reserve-IsSwapped :
      (s t : XykState) (amount returned : ℕ)
      → swap_reserve s amount ≡ ok (returned, t)
      → IsSwapped s amount returned t
  unfolding swap_reserve
  swap_reserve-IsSwapped s t amount returned e =
      let (x, e1, r1) = >>=-eq-ok (or_panic (cw.uint_add s.x amount)) _ e in
      let (y_new, e2, r2) = >>=-eq-ok (next_reserve s.k x) _ r1 in
      let (out, e3, r3) = >>=-eq-ok (or_panic (cw.uint_sub s.y y_new)) _ r2 in
      let (y, e4, r4) = >>=-eq-ok (or_panic (cw.uint_sub s.y out)) _ r3 in
      let (k, e5, r5) = >>=-eq-ok (or_panic (cw.u256_mul x y)) _ r4 in
      let (u, e6, r6) = >>=-eq-ok (ensure (leb s.k k) underflow) _ r5 in
      let (x_is, x_fits) = uint_add-eq-some laws s.x amount (or_panic-eq-ok _ e1) in
      let y_is = uint_sub-eq-some laws s.y out (or_panic-eq-ok _ e4) in
      let k_is : k ≡ x * y = ground (arith, u256_mul_lem x y) in
      let k_le : s.k ≤ k = ground (arith, ensure-eq-ok _ _ e6) in
      subst (λ p. IsSwapped s amount p.0 p.1) (ok-injective r6)
        (record {
          x_is = x_is;
          x_fits = omega arith;
          y_is = y_is;
          k_is = k_is;
          k_le = k_le;
          shares_is = refl;
        })

  pub swap-IsSwapped :
      (s t : XykState) (amount returned : ℕ)
      → 0 < s.x
      → swap s amount ≡ ok (returned, t)
      → IsSwapped s amount returned t
  unfolding swap
  swap-IsSwapped s t amount returned h e =
      let used : (s.x == 0) ≡ false = ground arith in
      swap_reserve-IsSwapped s t amount returned (rw used at e)

  -- An empty reserve X gives nothing.
  pub swap_empty : (s : XykState) (amount : ℕ) → s.x ≡ 0 → swap s amount ≡ ok (0, s)
  unfolding swap
  swap_empty s amount h = rw h refl

  next_reserve_total :
      (k x y : ℕ) → 0 < x → ceil_ratio k x ≡ y → y < uint_limit → next_reserve k x ≡ ok y
  unfolding next_reserve
  next_reserve_total k x y h e l =
      let fits : k * unit / x < wide_limit = omega arith in
      ground (arith, from_ratio256_lem k x, to_uint_ceil_lem (k * unit / x), to_uint128_lem y)

  swap_reserve_runs :
      (s : XykState) (amount x y returned : ℕ)
      → cw.uint_add s.x amount ≡ some x
      → next_reserve s.k x ≡ ok y
      → cw.uint_sub s.y y ≡ some returned
      → cw.uint_sub s.y returned ≡ some y
      → cw.u256_mul x y ≡ some (x * y)
      → leb s.k (x * y) ≡ true
      → swap_reserve s amount ≡ ok (returned, record s { x = x; y = y; k = x * y })
  unfolding swap_reserve
  swap_reserve_runs s amount x y returned e1 e2 e3 e4 e5 e6 = rw (e1, e2, e3, e4, e5, e6) refl

  swap_runs :
      (s : XykState) (amount x y : ℕ)
      → 0 < s.x
      → s.x + amount ≡ x
      → x ≤ unit
      → s.y < uint_limit
      → y ≤ s.y
      → ceil_ratio s.k x ≡ y
      → s.k ≤ x * y
      → swap s amount ≡ ok (s.y - y, record s { x = x; y = y; k = x * y })
  unfolding swap
  swap_runs s amount x y h e f l m c covers =
      let used : (s.x == 0) ≡ false = ground arith in
      let next = next_reserve_total s.k x y (omega arith) c (omega arith) in
      let fits : x * y < wide_limit = omega (arith, mul-le-mul f m) in
      let run =
        swap_reserve_runs s amount x y (s.y - y) (ground (arith, uint_add_lem s.x amount)) next
          (ground (arith, uint_sub_lem s.y y)) (ground (arith, uint_sub_lem s.y (s.y - y)))
          (ground (arith, u256_mul_lem x y)) (ground arith) in
      rw used run

  -- A swap of a balanced state goes through where the new reserve has at most 18 decimal places;
  -- it leaves the least reserve Y that keeps the product.
  pub swap_total :
      (s : XykState) (amount : ℕ)
      → IsBalanced s
      → 0 < s.x
      → s.x + amount ≤ unit
      → (returned : ℕ) × (t : XykState) × (swap s amount ≡ ok (returned, t))
        × (ceil_ratio s.k (s.x + amount) + returned ≡ s.y)
  swap_total s amount b h l =
      let x = s.x + amount in
      let covers = ceil_ratio_covers s.k x (omega arith) l in
      let up : s.x ≤ x = omega arith in
      let grows = mul-le-mul up (le_refl s.y) in
      let least : ceil_ratio s.k x ≤ s.y =
        ceil_ratio_le s.k x s.y (omega arith) (rw b.k_is grows) in
      (
        s.y - ceil_ratio s.k x,
        _,
        swap_runs s amount x (ceil_ratio s.k x) h refl l b.y_fits least refl covers,
        omega arith,
      )
