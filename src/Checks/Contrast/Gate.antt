-- ===== src/Checks/Contrast/Gate.antt =====
-- web/src/themes/contrast.test.mjs: which themes pass.
use mirocraft.Prelude.{◌≡◌, ◌≢◌, false, ◌||◌, [], Text, some}
use mirocraft.Checks.Contrast.{Pair, Rgb, Css, Floats, value_of, is_missing, is_below, parse_hex}
use mirocraft.Checks.Contrast.Wcag.{ColourOf, Legible}
use mirocraft.Prelude.Dict.{lookup}

module _ {F : Type 0} (m : Floats F) where
  -- Both tokens of the pair are there and are colours, whose contrast is not below the threshold.
  data Fine (tokens : Css) (pair : Pair) : Type 0 where
    fine :
        {fg bg : Rgb}
        → (is_missing tokens pair.fg || is_missing tokens pair.bg) ≡ false
        → parse_hex (value_of tokens pair.fg) ≡ some fg
        → parse_hex (value_of tokens pair.bg) ≡ some bg
        → is_below m pair.is_large fg bg ≡ false
        → Fine tokens pair

  -- The token is set to a text that is this colour.
  pub data Token (tokens : Css) (name : Text) (colour : Rgb) : Type 0 where
    token :
        {value : Text}
        → lookup name tokens ≡ some value
        → value ≢ []
        → ColourOf value colour
        → Token tokens name colour

  pub data Passes (tokens : Css) (pair : Pair) : Type 0 where
    passes :
        {fg bg : Rgb}
        → Token tokens pair.fg fg
        → Token tokens pair.bg bg
        → Legible m pair.is_large fg bg
        → Passes tokens pair
