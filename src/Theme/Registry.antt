-- ===== src/Theme/Registry.antt =====
-- web/src/themes/index.ts: the registry of built-in themes.
use mirocraft.Prelude.{List, [], ◌∷◌, Option, get_or_else, find, ◌===◌, ℕ, Text, codes}
use mirocraft.Prelude.Dict.{lookup}
use mirocraft.Api.Types.{ThemeBase, dark, light}

pub record Preview : Type 0 where
  pub bg : Text
  pub text : Text
  pub accent : Text

pub record BuiltinTheme : Type 0 where
  pub id : Text
  pub name : Text
  pub base : ThemeBase
  pub preview : Preview

abbrev pub system : Text
system = codes "system"

abbrev theme_dark : BuiltinTheme
theme_dark = record {
  id = codes "dark";
  name = codes "Тёмная";
  base = dark;
  preview = record { bg = codes "#16181d"; text = codes "#e6e8ee"; accent = codes "#4ade80" };
}

abbrev theme_light : BuiltinTheme
theme_light = record {
  id = codes "light";
  name = codes "Светлая";
  base = light;
  preview = record { bg = codes "#ffffff"; text = codes "#1a1d23"; accent = codes "#157f3c" };
}

abbrev theme_midnight : BuiltinTheme
theme_midnight = record {
  id = codes "midnight";
  name = codes "Полночь";
  base = dark;
  preview = record { bg = codes "#000000"; text = codes "#dbe3f4"; accent = codes "#5b8cff" };
}

abbrev theme_grass : BuiltinTheme
theme_grass = record {
  id = codes "grass";
  name = codes "Трава";
  base = dark;
  preview = record { bg = codes "#161b14"; text = codes "#e4ead9"; accent = codes "#8bc34a" };
}

abbrev theme_nether : BuiltinTheme
theme_nether = record {
  id = codes "nether";
  name = codes "Незер";
  base = dark;
  preview = record { bg = codes "#1c1210"; text = codes "#f0e0d8"; accent = codes "#ff6a3d" };
}

unfoldable pub builtin_themes : List BuiltinTheme
builtin_themes = theme_dark ∷ theme_light ∷ theme_midnight ∷ theme_grass ∷ theme_nether ∷ []

-- `BUILTIN_THEMES[0]`
abbrev pub first_theme : BuiltinTheme
first_theme = theme_dark

unfoldable pub find_builtin : Text → Option BuiltinTheme
unfolding builtin_themes
find_builtin id = find (λ theme. theme.id === id) builtin_themes

abbrev pub base_name : ThemeBase → Text
base_name dark = codes "dark"
base_name light = codes "light"

-- `EDITOR_DEFAULTS`
abbrev pub default_accent : Text
default_accent = codes "#7c5cff"

abbrev pub default_radius : ℕ
default_radius = 10

unfoldable pub accent_foreground : ThemeBase → Text
accent_foreground light = codes "#ffffff"
accent_foreground dark = codes "#0b0b12"

unfoldable pub swatch_for : ThemeBase → List (Text × Text) → Preview
unfolding find_builtin lookup
swatch_for base vars =
    let fallback = get_or_else (find_builtin (base_name base)) first_theme in
    record {
      bg = get_or_else (lookup (codes "--bg") vars) fallback.preview.bg;
      text = get_or_else (lookup (codes "--text") vars) fallback.preview.text;
      accent = get_or_else (lookup (codes "--accent") vars) fallback.preview.accent;
    }
