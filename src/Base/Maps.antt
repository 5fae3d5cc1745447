-- ===== src/Base/Maps.antt =====
-- A storage map with text keys, in ascending order of the keys, as `range` yields it.
use Prim.Native.String.{String}
use mathlib.Core.Path.{◌≡◌, refl, subst}
use mathlib.Core.Bool.{Bool, true, false}
use mathlib.Core.Option.{Option, none, some, some-injective}
use mathlib.Core.List.{List, [], ◌∷◌}
use native.Mathlib.Omega.{arith}
use mathlib.Core.Logic.{inl, inr}
use nami_contracts.Base.Tests.{str_eq, str_lt, str_eq_iff, Bool-cases, if◌then◌else◌}
use nami_contracts.Base.Lists.{All}

abbrev pub Store {ℓ} : Type ℓ → Type ℓ
Store V = List (String × V)

module _ {ℓ} {V : Type ℓ} where
  -- `may_load`
  abbrev pub lookup : String → Store V → Option V
  lookup k [] = none
  lookup k ((j, v) ∷ m) = if str_eq j k then some v else lookup k m

  -- `has`
  abbrev pub contains : String → Store V → Bool
  contains k m = elim (lookup k m) [ none ↦ false | some _ ↦ true ]

  -- A new value for a key that the map has, and a new key in its place in the order.
  abbrev pub replace : String → V → Store V → Store V
  replace k v [] = []
  replace k v (e ∷ m) = if str_eq e.0 k then (k, v) ∷ m else e ∷ replace k v m

  abbrev pub place : String → V → Store V → Store V
  place k v [] = (k, v) ∷ []
  place k v (e ∷ m) = if str_lt k e.0 then (k, v) ∷ e ∷ m else e ∷ place k v m

  -- `save`
  abbrev pub insert : String → V → Store V → Store V
  insert k v m = if contains k m then replace k v m else place k v m

  -- `remove`
  abbrev pub erase : String → Store V → Store V
  erase k [] = []
  erase k (e ∷ m) = if str_eq e.0 k then erase k m else e ∷ erase k m

  lookup-replace :
      (k j : String) (v : V) (m : Store V)
      → contains k m ≡ true
      → lookup j (replace k v m) ≡ (if str_eq k j then some v else lookup j m)
  lookup-replace k j v [] h = cc
  lookup-replace k j v (e ∷ m) h =
      ground (arith, str_eq_iff k j, str_eq_iff e.0 k, str_eq_iff e.0 j, lookup-replace k j v m)

  lookup-place :
      (k j : String) (v : V) (m : Store V)
      → contains k m ≡ false
      → lookup j (place k v m) ≡ (if str_eq k j then some v else lookup j m)
  lookup-place k j v [] h = refl
  lookup-place k j v (e ∷ m) h =
      ground (arith, str_eq_iff k j, str_eq_iff e.0 k, str_eq_iff e.0 j, lookup-place k j v m)

  pub lookup-insert :
      (k j : String) (v : V) (m : Store V)
      → lookup j (insert k v m) ≡ (if str_eq k j then some v else lookup j m)
  lookup-insert k j v m = elim (Bool-cases (contains k m)) [
    | inl h ↦ rw h (lookup-replace k j v m h)
    | inr h ↦ rw h (lookup-place k j v m h)
  ]

  -- No key stands twice.
  abbrev pub Distinct : Store V → Type ℓ
  Distinct [] = Unit
  Distinct ((k, v) ∷ m) = (lookup k m ≡ none) × Distinct m

  Distinct-replace :
      (k : String) (v : V) (m : Store V)
      → contains k m ≡ true
      → Distinct m
      → Distinct (replace k v m)
  Distinct-replace k v [] h d = tt
  Distinct-replace k v (e ∷ m) h d =
      ground (
        arith,
        str_eq_iff e.0 k,
        str_eq_iff k e.0,
        lookup-replace k e.0 v m,
        Distinct-replace k v m,
      )

  Distinct-place :
      (k : String) (v : V) (m : Store V)
      → contains k m ≡ false
      → Distinct m
      → Distinct (place k v m)
  Distinct-place k v [] h d = (refl, tt)
  Distinct-place k v (e ∷ m) h d =
      ground
        (arith, str_eq_iff e.0 k, str_eq_iff k e.0, lookup-place k e.0 v m, Distinct-place k v m)

  pub Distinct-insert : (k : String) (v : V) (m : Store V) → Distinct m → Distinct (insert k v m)
  Distinct-insert k v m d = elim (Bool-cases (contains k m)) [
    | inl h ↦ rw h (Distinct-replace k v m h d)
    | inr h ↦ rw h (Distinct-place k v m h d)
  ]

  found_in :
      (big m : Store V)
      → Distinct m
      → ((k : String) (v : V) → lookup k m ≡ some v → lookup k big ≡ some v)
      → All (λ e. lookup e.0 big ≡ some e.1) m
  found_in big [] d h = tt
  found_in big ((k, v) ∷ m) (fresh, d) h = (
    h k v (ground (arith, str_eq_iff k k)),
    found_in big m d (λ j w e. h j w (ground (arith, str_eq_iff k j))),
  )

  -- Each entry of such a map is found under its key.
  pub Distinct-found : (m : Store V) → Distinct m → All (λ e. lookup e.0 m ≡ some e.1) m
  Distinct-found m d = found_in m m d (λ k v e. e)

  -- What holds of every entry holds of the one that is found.
  pub All-lookup :
      (P : String × V → Type 0) (k : String) (m : Store V) {v : V}
      → All P m
      → lookup k m ≡ some v
      → P (k, v)
  All-lookup P k [] h e = cc
  All-lookup P k ((j, w) ∷ m) {v} (h, hs) e = elim (Bool-cases (str_eq j k)) [
    | inl eq ↦
        let same : some w ≡ some v = rw eq at e in
        subst (λ (x : String). P (x, v)) ((str_eq_iff j k).0 eq)
          (subst (λ (x : V). P (j, x)) (some-injective _ _ same) h)
    | inr ne ↦ All-lookup P k m hs (rw ne at e)
  ]

  pub lookup-erase :
      (k j : String) (m : Store V)
      → lookup j (erase k m) ≡ (if str_eq k j then none else lookup j m)
  lookup-erase k j [] = ground arith
  lookup-erase k j (e ∷ m) =
      ground (arith, str_eq_iff k j, str_eq_iff e.0 k, str_eq_iff e.0 j, lookup-erase k j m)
