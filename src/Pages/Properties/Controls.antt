-- ===== src/Pages/Properties/Controls.antt =====
-- web/src/pages/ServerSettings.tsx: `SettingInput`, the control of a row.
use mirocraft.Prelude.{
  ℕ, Bool, List, [], ◌∷◌, Option, none, some, get_or_else, any, ◌===◌, if◌then◌else◌, Text, codes,
}
use mirocraft.Api.Servers.{Setting, SettingKind, string, int, bool, enum}

pub data Control : Type 0 where
  text_box : (value : Text) → Control
  checkbox : (checked : Bool) → Control
  select : (options : List Text) → (value : Text) → Control
  number_box : (value : Text) → (min max : Option ℕ) → Control

unfoldable pub options_of : List Text → Text → List Text
options_of values value = if any (λ option. option === value) values then values else value ∷ values

unfoldable pub control_for : SettingKind → Setting → Text → Control
unfolding options_of
control_for string setting value = text_box value
control_for bool setting value = checkbox (value === codes "true")
control_for enum setting value = select (options_of (get_or_else setting.values []) value) value
control_for int setting value = number_box value setting.min setting.max

unfoldable pub control : Option Setting → Text → Control
unfolding control_for
control none value = text_box value
control (some setting) value = control_for setting.kind setting value
