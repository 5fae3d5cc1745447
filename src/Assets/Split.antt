-- ===== src/Assets/Split.antt =====
-- Texts that are split at a byte and joined again.
use nami_contracts.Base.{
  ℕ, ◌≡◌, refl, ap, ◌∙◌, ◌≢◌, inl, inr, true, false, List, [], ◌∷◌, ◌++◌, arith, ◌==◌, Bool-cases,
  All,
}
use nami_contracts.Assets.{Text, push, split}

-- A text without the byte `c`.
abbrev pub IsWord : ℕ → Text → Type 0
IsWord c = All (λ x. x ≢ c)

-- The parts with `c` between them.
abbrev pub join : ℕ → List Text → Text
join c [] = []
join c (w ∷ []) = w
join c (w ∷ v ∷ ws) = w ++ c ∷ join c (v ∷ ws)

-- At least one part.
abbrev pub IsSome : List Text → Type 0
IsSome [] = ⊥
IsSome (w ∷ ws) = Unit

pub split-IsSome : (c : ℕ) (s : Text) → IsSome (split c s)
unfolding split
split-IsSome c [] = tt
split-IsSome c (x ∷ xs) = elim (Bool-cases (x == c)) [
  | inl e ↦ rw e tt
  | inr e ↦ rw e (pushed x (split c xs))
]
  where
    pushed : (x : ℕ) (ws : List Text) → IsSome (push x ws)
    pushed x [] = tt
    pushed x (w ∷ ws) = tt

join-push : (c x : ℕ) (ws : List Text) → IsSome ws → join c (push x ws) ≡ x ∷ join c ws
join-push c x [] h = elim h [ ]
join-push c x (w ∷ []) h = refl
join-push c x (w ∷ v ∷ ws) h = refl

join_start : (c : ℕ) (ws : List Text) → IsSome ws → join c ([] ∷ ws) ≡ c ∷ join c ws
join_start c [] h = elim h [ ]
join_start c (w ∷ ws) h = refl

-- The parts make up the text.
pub join-split : (c : ℕ) (s : Text) → join c (split c s) ≡ s
unfolding split
join-split c [] = refl
join-split c (x ∷ xs) = elim (Bool-cases (x == c)) [
  | inl e ↦
      let same : x ≡ c = ground arith in
      rw e (join_start c (split c xs) (split-IsSome c xs) ∙ rw (join-split c xs, same) refl)
  | inr e ↦
      rw e (join-push c x (split c xs) (split-IsSome c xs) ∙ ap (λ t. x ∷ t) (join-split c xs))
]

push_words : (c x : ℕ) (ws : List Text) → x ≢ c → All (IsWord c) ws → All (IsWord c) (push x ws)
push_words c x [] h k = ((h, tt), tt)
push_words c x (w ∷ ws) h (k, ks) = ((h, k), ks)

-- No part has the byte.
pub split_words : (c : ℕ) (s : Text) → All (IsWord c) (split c s)
unfolding split
split_words c [] = (tt, tt)
split_words c (x ∷ xs) = elim (Bool-cases (x == c)) [
  | inl e ↦ rw e (tt, split_words c xs)
  | inr e ↦ rw e (push_words c x (split c xs) (ground arith) (split_words c xs))
]

-- A text without the byte is one part.
split_word : (c : ℕ) (w : Text) → IsWord c w → split c w ≡ w ∷ []
unfolding split
split_word c [] h = refl
split_word c (x ∷ w) (h, hs) =
    let other : (x == c) ≡ false = ground arith in rw (other, split_word c w hs) refl

-- A first part ends at the byte.
pub split_at : (c : ℕ) (w s : Text) → IsWord c w → split c (w ++ c ∷ s) ≡ w ∷ split c s
unfolding split
split_at c [] s h = let same : (c == c) ≡ true = ground arith in rw same refl
split_at c (x ∷ w) s (h, hs) =
    let other : (x == c) ≡ false = ground arith in rw (other, split_at c w s hs) refl

pub split_two : (c : ℕ) (w v : Text) → IsWord c w → IsWord c v → split c (w ++ c ∷ v) ≡ w ∷ v ∷ []
split_two c w v h k = split_at c w v h ∙ ap (λ ws. w ∷ ws) (split_word c v k)
