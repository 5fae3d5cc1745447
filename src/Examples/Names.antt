-- ===== src/Examples/Names.antt =====
-- Names and denoms of assets. The texts are "BTC.BTC", "eth", "usdc" and the like.
use nami_contracts.Base.{◌≡◌, refl, ◌↔◌, false, [], ◌∷◌, ◌++◌, arith, ok, err}
use nami_contracts.Assets.{
  Text, dot, dash, to_ascii_lowercase, thor, rune_denom, Layer1Asset, layer1_name, secured_denom,
  invalid_native_denom, try_from, from_native, is_rune,
}
use nami_contracts.Assets.Split.{IsWord}
use nami_contracts.Assets.Names.{try_from_iff}
use nami_contracts.Assets.Denoms.{from_native_secured}

-- "BTC"
abbrev btc : Text
btc = 66 ∷ 84 ∷ 67 ∷ []

abbrev btc_asset : Layer1Asset
btc_asset = record { chain = btc; symbol = btc }

try_from_iff_example :
    (try_from (layer1_name btc_asset) ≡ ok btc_asset)
    ↔ ((layer1_name btc_asset ≡ layer1_name btc_asset) × IsWord dot btc × IsWord dot btc)
try_from_iff_example = try_from_iff (layer1_name btc_asset) btc_asset

btc-IsWord : IsWord dash btc
btc-IsWord = (omega arith, (omega arith, (omega arith, tt)))

from_native_secured_example :
    (from_native (secured_denom (record { chain = btc; symbol = btc }))
      ≡ ok (record { chain = to_ascii_lowercase btc; symbol = to_ascii_lowercase btc }))
    × (from_native (secured_denom (record { chain = btc; symbol = btc ++ dash ∷ btc }))
        ≡ err (
            invalid_native_denom
              (secured_denom (record { chain = btc; symbol = btc ++ dash ∷ btc }))))
from_native_secured_example = from_native_secured btc btc btc btc-IsWord btc-IsWord

-- RUNE, read from its denom, is not RUNE.
rune_read :
    (from_native rune_denom ≡ ok (record { chain = thor; symbol = rune_denom }))
    × (is_rune (record { chain = thor; symbol = rune_denom }) ≡ false)
unfolding from_native is_rune
rune_read = (refl, refl)
