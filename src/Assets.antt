-- ===== src/Assets.antt =====
-- Names of assets (packages/rujira-rs/src/asset.rs and memoed.rs). A text is the list of its bytes.
pub mod Split
pub mod Names
pub mod Denoms
use nami_contracts.Base.{
  ℕ, zero, suc, ◌+◌, ◌-◌, ◌*◌, ◌/◌, ◌%◌, ◌^◌, ◌≤◌, ◌<◌, min, String, ◌≡◌, refl, sym, ap, subst, ◌∙◌,
  ◌≢◌, ◌↔◌, ◌⊎◌, inl, inr, Bool, true, false, not, ◌&&◌, ◌||◌, Option, none, some, List, [], ◌∷◌,
  ◌++◌, map, arith, ltb, leb, ◌==◌, if◌then◌else◌, str_eq, str_lt, str_eq_iff, ltb→lt, lt→ltb,
  Bool-cases, Option-cases, unwrap_or_default, Outcome, ok, err, panic, ◌>>=◌, ◌>>◌, ensure, or_err,
  or_panic, lift_err, >>=-eq-ok, ok-injective, lift_err-eq-ok, ensure-eq-ok, or_err-eq-ok,
  or_panic-eq-ok, traverse, length, All, All-map, traverse-All, sum_by, is_empty, keep_if, Store,
  lookup, contains, insert, erase, lookup-insert, lookup-erase, Distinct, Distinct-insert,
  Distinct-found, All-lookup,
}

abbrev pub Text : Type 0
Text = List ℕ

-- `str::split` at a character
abbrev pub push : ℕ → List Text → List Text
push x [] = (x ∷ []) ∷ []
push x (w ∷ ws) = (x ∷ w) ∷ ws

unfoldable pub split : ℕ → Text → List Text
split c [] = [] ∷ []
split c (x ∷ xs) = let rest = split c xs in if x == c then [] ∷ rest else push x rest

-- `to_ascii_lowercase`
abbrev pub lower_byte : ℕ → ℕ
lower_byte x = if leb 65 x && leb x 90 then x + 32 else x

abbrev pub to_ascii_lowercase : Text → Text
to_ascii_lowercase = map lower_byte

abbrev pub dot : ℕ
dot = 46

abbrev pub dash : ℕ
dash = 45

-- "rune", "RUNE" and "THOR"
abbrev pub rune_denom : Text
rune_denom = 114 ∷ 117 ∷ 110 ∷ 101 ∷ []

abbrev pub rune_symbol : Text
rune_symbol = 82 ∷ 85 ∷ 78 ∷ 69 ∷ []

abbrev pub thor : Text
thor = 84 ∷ 72 ∷ 79 ∷ 82 ∷ []

abbrev pub text_eq : Text → Text → Bool
text_eq [] [] = true
text_eq [] (y ∷ ys) = false
text_eq (x ∷ xs) [] = false
text_eq (x ∷ xs) (y ∷ ys) = x == y && text_eq xs ys

pub record NativeAsset : Type 0 where
  pub symbol : Text

pub record SecuredAsset : Type 0 where
  pub chain : Text
  pub symbol : Text

pub record Layer1Asset : Type 0 where
  pub chain : Text
  pub symbol : Text

pub data Asset : Type 0 where
  native : NativeAsset → Asset
  secured : SecuredAsset → Asset
  layer1 : Layer1Asset → Asset

pub data Layer1AssetError : Type 0 where
  invalid : Text → Layer1AssetError
  invalid_native_denom : Text → Layer1AssetError

-- `Display`
abbrev pub native_name : NativeAsset → Text
native_name a = rune_symbol ++ dot ∷ a.symbol

abbrev pub secured_name : SecuredAsset → Text
secured_name a = a.chain ++ dash ∷ a.symbol

abbrev pub layer1_name : Layer1Asset → Text
layer1_name a = a.chain ++ dot ∷ a.symbol

unfoldable pub asset_name : Asset → Text
asset_name (native a) = native_name a
asset_name (secured a) = secured_name a
asset_name (layer1 a) = layer1_name a

-- `denom_string`
abbrev pub native_denom : NativeAsset → Text
native_denom a = to_ascii_lowercase a.symbol

abbrev pub secured_denom : SecuredAsset → Text
secured_denom a = to_ascii_lowercase (secured_name a)

abbrev pub layer1_denom : Layer1Asset → Text
layer1_denom a = to_ascii_lowercase (layer1_name a)

-- `Asset::to_memo`
unfoldable pub to_memo : Asset → Text
to_memo (native a) = native_denom a
to_memo (secured a) = secured_denom a
to_memo (layer1 a) = layer1_denom a

-- The first part of a symbol, up to a dash.
abbrev pub first_part : List Text → Text
first_part [] = []
first_part (w ∷ ws) = w

unfoldable pub secured_ticker : SecuredAsset → Text
secured_ticker a = first_part (split dash a.symbol)

unfoldable pub layer1_ticker : Layer1Asset → Text
layer1_ticker a = first_part (split dash a.symbol)

-- Exactly two parts.
abbrev pub two_parts : List Text → Layer1AssetError → Outcome Layer1AssetError Layer1Asset
two_parts (chain ∷ symbol ∷ []) e = ok (record { chain = chain; symbol = symbol })
two_parts [] e = err e
two_parts (w ∷ []) e = err e
two_parts (w ∷ v ∷ u ∷ ws) e = err e

unfoldable pub from_native : Text → Outcome Layer1AssetError Layer1Asset
from_native denom =
    if text_eq denom rune_denom
    then ok (record { chain = thor; symbol = rune_denom })
    else two_parts (split dash denom) (invalid_native_denom denom)

unfoldable pub is_rune : Layer1Asset → Bool
is_rune a = text_eq a.chain thor && text_eq a.symbol rune_symbol

-- `TryFrom<&str>`
unfoldable pub try_from : Text → Outcome Layer1AssetError Layer1Asset
try_from value = two_parts (split dot value) (invalid value)
