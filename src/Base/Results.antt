-- ===== src/Base/Results.antt =====
-- What a Rust function of the contracts ends in: a value, an error of its error type, or a panic,
-- which aborts the transaction.
use mathlib.Core.Path.{◌≡◌, refl}
use mathlib.Core.Bool.{Bool, true, false}
use mathlib.Core.Option.{Option, none, some}
use mathlib.Core.List.{List, [], ◌∷◌}

pub data Outcome {ℓ κ} (E : Type ℓ) (A : Type κ) : Type (ℓ ⊔ κ) where
  ok : A → Outcome E A
  err : E → Outcome E A
  panic : Outcome E A

infixl 5 ◌>>=◌ ◌>>◌
abbrev pub ◌>>=◌ {ℓ κ μ} :
    {E : Type ℓ} {A : Type κ} {B : Type μ} → Outcome E A → (A → Outcome E B) → Outcome E B
ok a >>= f = f a
err e >>= f = err e
panic >>= f = panic

abbrev pub ◌>>◌ {ℓ κ} : {E : Type ℓ} {B : Type κ} → Outcome E (Unit {0}) → Outcome E B → Outcome E B
m >> k = m >>= λ _. k

-- `ensure!(test, e)`
abbrev pub ensure {ℓ} : {E : Type ℓ} → Bool → E → Outcome E (Unit {0})
ensure true e = ok tt
ensure false e = err e

module _ {ℓ κ} {E : Type ℓ} {A : Type κ} where
  -- `?` on a checked operation whose error converts into `e`
  abbrev pub or_err : Option A → E → Outcome E A
  or_err (some a) e = ok a
  or_err none e = err e

  -- an operator that panics where its checked form has no value
  abbrev pub or_panic : Option A → Outcome E A
  or_panic (some a) = ok a
  or_panic none = panic

-- `?` where the callee's error type converts by `From`
abbrev pub lift_err {ℓ κ μ} :
    {E : Type ℓ} {F : Type κ} {A : Type μ} → (E → F) → Outcome E A → Outcome F A
lift_err f (ok a) = ok a
lift_err f (err e) = err (f e)
lift_err f panic = panic

-- Inversion of a successful bind.
pub >>=-eq-ok {ℓ κ μ} :
    {E : Type ℓ} {A : Type κ} {B : Type μ} (run : Outcome E A) (next : A → Outcome E B) {y : B}
    → (run >>= next) ≡ ok y
    → (x : A) × (run ≡ ok x) × (next x ≡ ok y)
>>=-eq-ok panic next ends = cc
>>=-eq-ok (err reason) next ends = cc
>>=-eq-ok (ok x) next ends = (x, refl, ends)

pub ok-injective {ℓ κ} :
    {E : Type ℓ} {A : Type κ} {a b : A} → ◌≡◌ {A = Outcome E A} (ok a) (ok b) → a ≡ b
ok-injective h = cc

pub err-injective {ℓ κ} :
    {E : Type ℓ} {A : Type κ} {a b : E} → ◌≡◌ {A = Outcome E A} (err a) (err b) → a ≡ b
err-injective h = cc

pub ok-not-err {ℓ κ} :
    {E : Type ℓ} {A : Type κ} {a : A} {e : E} → ◌≡◌ {A = Outcome E A} (ok a) (err e) → ⊥
ok-not-err h = cc

pub lift_err-eq-ok {ℓ κ μ} :
    {E : Type ℓ} {F : Type κ} {A : Type μ} (f : E → F) (m : Outcome E A) {a : A}
    → lift_err f m ≡ ok a
    → m ≡ ok a
lift_err-eq-ok f (ok a) h = cc
lift_err-eq-ok f (err e) h = cc
lift_err-eq-ok f panic h = cc

pub ensure-eq-ok {ℓ} :
    {E : Type ℓ} (test : Bool) (e : E) {u : Unit} → ensure test e ≡ ok u → test ≡ true
ensure-eq-ok true e h = refl
ensure-eq-ok false e h = cc

pub or_err-eq-ok {ℓ κ} :
    {E : Type ℓ} {A : Type κ} (o : Option A) (e : E) {a : A} → or_err o e ≡ ok a → o ≡ some a
or_err-eq-ok (some a) e h = cc
or_err-eq-ok none e h = cc

pub or_panic-eq-ok {ℓ κ} :
    {E : Type ℓ} {A : Type κ} (o : Option A) {a : A} → or_panic {E = E} o ≡ ok a → o ≡ some a
or_panic-eq-ok (some a) h = cc
or_panic-eq-ok none h = cc

-- `iter().map(f).collect::<Result<Vec<_>, _>>()`
unfoldable pub traverse {ℓ κ μ} :
    {E : Type ℓ} {A : Type κ} {B : Type μ} → (A → Outcome E B) → List A → Outcome E (List B)
traverse f [] = ok []
traverse f (x ∷ xs) = f x >>= λ y. traverse f xs >>= λ ys. ok (y ∷ ys)
