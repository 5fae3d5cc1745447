-- ===== src/Assets/Denoms.antt =====
-- Denoms that are read as assets.
use nami_contracts.Base.{
  ℕ, ◌≡◌, refl, sym, ap, ◌∙◌, ◌≢◌, inl, inr, true, false, List, [], ◌∷◌, ◌++◌, map, arith, ◌==◌,
  Bool-cases, ok, err,
}
use nami_contracts.Assets.{
  Text, split, dash, lower_byte, to_ascii_lowercase, rune_denom, text_eq, secured_denom,
  Layer1AssetError, invalid_native_denom, two_parts, from_native,
}
use nami_contracts.Assets.Split.{IsWord, IsSome, split-IsSome, split_at, split_two}

map_append : {A B : Type 0} (f : A → B) (xs ys : List A) → map f (xs ++ ys) ≡ map f xs ++ map f ys
map_append f [] ys = refl
map_append f (x ∷ xs) ys = ap (λ zs. f x ∷ zs) (map_append f xs ys)

-- Lower case makes no dash.
lower-IsWord : (w : Text) → IsWord dash w → IsWord dash (to_ascii_lowercase w)
lower-IsWord [] h = tt
lower-IsWord (x ∷ w) (h, hs) = (kept x h, lower-IsWord w hs)
  where
    kept : (x : ℕ) → x ≢ dash → lower_byte x ≢ dash
    kept x h = ground arith

text_eq-eq-true : (s t : Text) → text_eq s t ≡ true → s ≡ t
text_eq-eq-true [] [] h = refl
text_eq-eq-true [] (y ∷ ys) h = cc
text_eq-eq-true (x ∷ xs) [] h = cc
text_eq-eq-true (x ∷ xs) (y ∷ ys) h = elim (Bool-cases (x == y)) [
  | inl e ↦
      let same : x ≡ y = ground arith in
      let rest = text_eq-eq-true xs ys (rw e at h) in rw (same, rest) refl
  | inr e ↦ differs (rw e at h)
]
  where
    differs : {A : Type 0} → false ≡ true → A
    differs h = cc

-- The denom of RUNE has one part.
rune_parts : split dash rune_denom ≡ rune_denom ∷ []
unfolding split
rune_parts = refl

-- A text of two parts or more is not it.
not_rune :
    (s w : Text) (ws : List Text) → IsSome ws → split dash s ≡ w ∷ ws → text_eq s rune_denom ≡ false
not_rune s w [] h e = elim h [ ]
not_rune s w (v ∷ ws) h e = elim (Bool-cases (text_eq s rune_denom)) [
  | inl r ↦
      let same = text_eq-eq-true s rune_denom r in
      counts (sym e ∙ ap (split dash) same ∙ rune_parts)
  | inr r ↦ r
]
  where
    counts : {A : Type 0} → w ∷ v ∷ ws ≡ rune_denom ∷ [] → A
    counts h = cc

from_native_other :
    (s w : Text) (ws : List Text)
    → IsSome ws
    → split dash s ≡ w ∷ ws
    → from_native s ≡ two_parts (w ∷ ws) (invalid_native_denom s)
unfolding from_native
from_native_other s w ws h e = rw (not_rune s w ws h e, e) refl

denom_parts :
    (chain symbol : Text)
    → to_ascii_lowercase (chain ++ dash ∷ symbol)
      ≡ to_ascii_lowercase chain ++ dash ∷ to_ascii_lowercase symbol
denom_parts chain symbol = map_append lower_byte chain (dash ∷ symbol)

-- The denom of a secured asset whose chain and symbol have no dash is read as that asset in lower
-- case. Where the symbol has a dash, as that of a token with an address has, the denom is refused.
pub from_native_secured :
    (chain w v : Text)
    → IsWord dash chain
    → IsWord dash w
    → (from_native (secured_denom (record { chain = chain; symbol = w }))
        ≡ ok (record { chain = to_ascii_lowercase chain; symbol = to_ascii_lowercase w }))
      × (from_native (secured_denom (record { chain = chain; symbol = w ++ dash ∷ v }))
          ≡ err (
              invalid_native_denom
                (secured_denom (record { chain = chain; symbol = w ++ dash ∷ v }))))
from_native_secured chain w v h k =
    let c = to_ascii_lowercase chain in
    let d = to_ascii_lowercase w in
    let u = to_ascii_lowercase v in
    let c_word = lower-IsWord chain h in
    let d_word = lower-IsWord w k in
    let plain = denom_parts chain w in
    let long = denom_parts chain (w ++ dash ∷ v) ∙ ap (λ t. c ++ dash ∷ t) (denom_parts w v) in
    let two = ap (split dash) plain ∙ split_two dash c d c_word d_word in
    let more =
      ap (split dash) long
      ∙ split_at dash c (d ++ dash ∷ u) c_word
      ∙ ap (λ ws. c ∷ ws) (split_at dash d u d_word) in
    (
      from_native_other (to_ascii_lowercase (chain ++ dash ∷ w)) c (d ∷ []) tt two,
      from_native_other (to_ascii_lowercase (chain ++ dash ∷ (w ++ dash ∷ v))) c (d ∷ split dash u)
            tt more
          ∙ three c d (split dash u) _ (split-IsSome dash u),
    )
  where
    three :
        (a b : Text) (ws : List Text) (e : Layer1AssetError)
        → IsSome ws
        → two_parts (a ∷ b ∷ ws) e ≡ err e
    three a b [] e h = elim h [ ]
    three a b (x ∷ ws) e h = refl
