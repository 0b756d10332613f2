-- ===== src/Theme/Apply.antt =====
-- web/src/lib/theme.ts: painting a theme choice, and the cache that the next page load reads.
pub mod Choice
pub mod Paint
pub mod Base
use mirocraft.Prelude.{
  Bool, List, [], ◌∷◌, ◌++◌, Option, some, none, get_or_else, find, drop, length, ◌===◌, Text,
  codes, starts_with, if◌then◌else◌,
}
use mirocraft.Prelude.Dict.{insert, erase}
use mirocraft.Api.Types.{ThemeBase, dark, light, CustomTheme}
use mirocraft.Theme.Registry.{BuiltinTheme, system, find_builtin, first_theme, base_name}

abbrev pub Vars : Type 0
Vars = List (Text × Text)

-- `document.documentElement`: its `data-theme` attribute and its inline style.
pub record Root : Type 0 where
  pub data_theme : Text
  pub style : Vars

-- The three entries of localStorage. `vars` stands for the JSON text of an object.
pub record Cache : Type 0 where
  pub available : Bool
  pub choice : Option Text
  pub base : Option Text
  pub vars : Option Vars

pub record Page : Type 0 where
  pub root : Root
  pub cache : Cache

abbrev custom_prefix : Text
custom_prefix = codes "custom:"

unfoldable pub theme_tokens : List Text
theme_tokens =
    codes "--bg"
    ∷ codes "--bg-elevated"
    ∷ codes "--bg-inset"
    ∷ codes "--text"
    ∷ codes "--text-muted"
    ∷ codes "--text-faint"
    ∷ codes "--accent"
    ∷ codes "--accent-hover"
    ∷ codes "--accent-fg"
    ∷ codes "--success"
    ∷ codes "--success-bg"
    ∷ codes "--warning"
    ∷ codes "--warning-bg"
    ∷ codes "--danger"
    ∷ codes "--danger-bg"
    ∷ codes "--info"
    ∷ codes "--info-bg"
    ∷ codes "--border"
    ∷ codes "--border-strong"
    ∷ codes "--radius"
    ∷ codes "--radius-sm"
    ∷ codes "--radius-lg"
    ∷ codes "--console-bg"
    ∷ codes "--console-text"
    ∷ codes "--console-error"
    ∷ codes "--console-warn"
    ∷ codes "--console-info"
    ∷ codes "--console-debug"
    ∷ codes "--console-timestamp"
    ∷ []

unfoldable pub is_custom : Text → Bool
unfolding starts_with
is_custom choice = starts_with choice custom_prefix

-- `choice.slice(CUSTOM_PREFIX.length)`
unfoldable pub custom_id : Text → Text
unfolding codes
custom_id choice = drop (length custom_prefix) choice

unfoldable pub custom_choice : Text → Text
custom_choice id = custom_prefix ++ id

-- The operating system's preference is the parameter `prefers_light` from here on.
unfoldable pub system_base : Bool → ThemeBase
system_base prefers_light = if prefers_light then light else dark

-- The loops over `removeProperty` and `setProperty`.
unfoldable pub remove_properties : List Text → Vars → Vars
unfolding erase
remove_properties [] style = style
remove_properties (token ∷ tokens) style = remove_properties tokens (erase token style)

unfoldable pub set_properties : Vars → Vars → Vars
unfolding insert
set_properties [] style = style
set_properties ((name, value) ∷ vars) style = set_properties vars (insert name value style)

-- The function `cache`; nothing is kept where storage is denied.
unfoldable pub write_cache : Text → ThemeBase → Option Vars → Cache → Cache
write_cache choice base vars c =
    if c.available
    then record c { choice = some choice; base = some (base_name base); vars = vars }
    else c

unfoldable pub clear_overrides : Root → Root
unfolding remove_properties
clear_overrides root = record root { style = remove_properties theme_tokens root.style }

unfoldable pub find_custom : Text → List CustomTheme → Option CustomTheme
find_custom choice themes = find (λ t. t.id === custom_id choice) themes

-- `apply` of a choice that is neither the system's nor custom.
unfoldable pub apply_builtin : Text → Page → Page
unfolding clear_overrides write_cache
apply_builtin choice p =
    let builtin = get_or_else (find_builtin choice) first_theme in
    record {
      root = record (clear_overrides p.root) { data_theme = builtin.id };
      cache = write_cache builtin.id builtin.base none p.cache;
    }

unfoldable pub apply_custom : Text → Option CustomTheme → Page → Page
unfolding apply_builtin clear_overrides set_properties write_cache
-- The theme is gone: `apply("dark", customThemes)`, which clears the overrides again.
apply_custom choice none p =
    apply_builtin (codes "dark") (record p { root = clear_overrides p.root })
apply_custom choice (some theme) p = record {
  root = record {
    data_theme = base_name theme.base;
    style = set_properties theme.vars (clear_overrides p.root).style;
  };
  cache = write_cache choice theme.base (some theme.vars) p.cache;
}

unfoldable pub apply : Bool → Text → List CustomTheme → Page → Page
unfolding system_base apply_builtin apply_custom clear_overrides write_cache
apply prefers_light choice themes p =
    if choice === system
    then record {
      root = record (clear_overrides p.root) { data_theme = base_name (system_base prefers_light) };
      cache = write_cache choice (system_base prefers_light) none p.cache;
    }
    else if is_custom choice
    then apply_custom choice (find_custom choice themes) p
    else apply_builtin choice p

unfoldable pub cached_choice : Cache → Text
cached_choice c = if c.available then get_or_else c.choice system else system

abbrev custom_base : Option CustomTheme → ThemeBase
custom_base none = dark
custom_base (some theme) = theme.base

abbrev builtin_base : Option BuiltinTheme → ThemeBase
builtin_base none = dark
builtin_base (some theme) = theme.base

unfoldable pub base_of : Bool → Text → List CustomTheme → ThemeBase
unfolding system_base
base_of prefers_light choice themes =
    if choice === system
    then system_base prefers_light
    else if is_custom choice
    then custom_base (find_custom choice themes)
    else builtin_base (find_builtin choice)

-- The listener of `watchSystem`: `onChange` runs if the user follows the system.
unfoldable pub on_system_change : {S : Type 0} → Text → (S → S) → S → S
on_system_change choice on_change s = if choice === system then on_change s else s
