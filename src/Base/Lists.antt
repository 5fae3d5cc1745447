-- ===== src/Base/Lists.antt =====
-- Lists measured by native numbers, and predicates over lists.
use Prim.Native.Nat.{ℕ, suc, ◌+◌}
use mathlib.Core.Bool.{Bool, true, false}
use mathlib.Core.List.{List, [], ◌∷◌}
use mathlib.Core.Path.{◌≡◌, subst}
use nami_contracts.Base.Tests.{if◌then◌else◌}
use nami_contracts.Base.Results.{Outcome, ok, traverse, >>=-eq-ok, ok-injective}

module _ {ℓ} {A : Type ℓ} where
  abbrev pub length : List A → ℕ
  length [] = 0
  length (x ∷ xs) = suc (length xs)

  abbrev pub All {κ} : (A → Type κ) → List A → Type κ
  All P [] = Unit
  All P (x ∷ xs) = P x × All P xs

  pub All-map {κ μ} :
      {P : A → Type κ} {Q : A → Type μ} (xs : List A) → ((x : A) → P x → Q x) → All P xs → All Q xs
  All-map [] f h = tt
  All-map (x ∷ xs) f (h, hs) = (f x h, All-map xs f hs)

  abbrev pub sum_by : (A → ℕ) → List A → ℕ
  sum_by f [] = 0
  sum_by f (x ∷ xs) = f x + sum_by f xs

  abbrev pub is_empty : List A → Bool
  is_empty [] = true
  is_empty (x ∷ xs) = false

  -- `iter().filter(keep)`
  abbrev pub keep_if : (A → Bool) → List A → List A
  keep_if keep [] = []
  keep_if keep (x ∷ xs) = if keep x then x ∷ keep_if keep xs else keep_if keep xs

-- What holds of each result of a traversal.
pub traverse-All {ℓ κ μ ν ξ} :
    {E : Type ℓ} {A : Type κ} {B : Type μ} {P : A → Type ν} {Q : B → Type ξ} (f : A → Outcome E B)
    (xs : List A) {ys : List B}
    → ((x : A) (y : B) → P x → f x ≡ ok y → Q y)
    → All P xs
    → traverse f xs ≡ ok ys
    → All Q ys
unfolding traverse
traverse-All {Q = Q} f [] keep h e = subst (All Q) (ok-injective e) tt
traverse-All {Q = Q} f (x ∷ xs) keep (h, hs) e =
    let (y, e1, r1) = >>=-eq-ok (f x) _ e in
    let (rest, e2, r2) = >>=-eq-ok (traverse f xs) _ r1 in
    subst (All Q) (ok-injective r2) (keep x y h e1, traverse-All f xs keep hs e2)

-- Two lists of one length, related item by item.
abbrev pub Pairs : {A B : Type 0} → (A → B → Type 0) → List A → List B → Type 0
Pairs R [] [] = Unit
Pairs R [] (y ∷ ys) = ⊥
Pairs R (x ∷ xs) [] = ⊥
Pairs R (x ∷ xs) (y ∷ ys) = R x y × Pairs R xs ys

-- A traversal relates what it is given to its results.
pub traverse-Pairs {ℓ} :
    {E : Type ℓ} {A B : Type 0} {R : A → B → Type 0} (f : A → Outcome E B)
    → ((x : A) (y : B) → f x ≡ ok y → R x y)
    → (xs : List A) {ys : List B} → traverse f xs ≡ ok ys
    → Pairs R xs ys
unfolding traverse
traverse-Pairs {R = R} f law [] e = subst (Pairs R []) (ok-injective e) tt
traverse-Pairs {R = R} f law (x ∷ xs) e =
    let (y, e1, r1) = >>=-eq-ok (f x) _ e in
    let (rest, e2, r2) = >>=-eq-ok (traverse f xs) _ r1 in
    subst (Pairs R (x ∷ xs)) (ok-injective r2) (law x y e1, traverse-Pairs f law xs e2)
