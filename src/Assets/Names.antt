-- ===== src/Assets/Names.antt =====
-- Names of assets that are read back.
use nami_contracts.Base.{◌≡◌, refl, sym, ap, ◌∙◌, ◌↔◌, List, [], ◌∷◌, ok, ok-injective, All}
use nami_contracts.Assets.{
  Text, split, dot, Layer1Asset, Layer1AssetError, invalid, layer1_name, two_parts, try_from,
}
use nami_contracts.Assets.Split.{IsWord, join, join-split, split_words, split_two}

two_parts-eq-ok :
    (ws : List Text) (e : Layer1AssetError) (a : Layer1Asset)
    → two_parts ws e ≡ ok a
    → ws ≡ a.chain ∷ a.symbol ∷ []
two_parts-eq-ok [] e a h = cc
two_parts-eq-ok (w ∷ []) e a h = cc
two_parts-eq-ok (w ∷ v ∷ []) e a h =
    ap (λ (b : Layer1Asset). b.chain ∷ b.symbol ∷ []) (ok-injective h)
two_parts-eq-ok (w ∷ v ∷ u ∷ ws) e a h = cc

-- A text is read as an asset exactly if it is the name of that asset and neither the chain nor the
-- symbol has a dot.
pub try_from_iff :
    (s : Text) (a : Layer1Asset)
    → (try_from s ≡ ok a) ↔ ((layer1_name a ≡ s) × IsWord dot a.chain × IsWord dot a.symbol)
unfolding try_from
try_from_iff s a = (read, named)
  where
    read :
        two_parts (split dot s) (invalid s) ≡ ok a
        → (layer1_name a ≡ s) × IsWord dot a.chain × IsWord dot a.symbol
    read h =
        let parts = two_parts-eq-ok (split dot s) (invalid s) a h in
        let words : All (IsWord dot) (a.chain ∷ a.symbol ∷ []) = rw parts at (split_words dot s) in
        (sym (ap (join dot) parts) ∙ join-split dot s, words.0, words.1.0)

    named :
        (layer1_name a ≡ s) × IsWord dot a.chain × IsWord dot a.symbol
        → two_parts (split dot s) (invalid s) ≡ ok a
    named (e, c, d) = rw (sym e, split_two dot a.chain a.symbol c d) refl
