-- ===== src/Theme/Apply/Base.antt =====
-- web/src/lib/theme.ts: the base of a choice, as `baseOf` reports it and as `apply` caches it.
use mirocraft.Prelude.{
  ◌≡◌, inl, inr, Bool, true, List, Option, some, none, get_or_else, ◌===◌, Text, codes, Bool-cases,
}
use mirocraft.Api.Types.{ThemeBase, CustomTheme}
use mirocraft.Theme.Registry.{BuiltinTheme, system, find_builtin, base_name, first_theme}
use mirocraft.Theme.Apply.{
  builtin_base, custom_base, Cache, Page, is_custom, write_cache, find_custom, apply_custom, apply,
  base_of,
}

-- What the cache holds of a choice with this base and these overrides.
abbrev pub Holds : Cache → ThemeBase → Type 0
Holds c base = c.base ≡ some (base_name base)

builtin_base-Holds :
    (choice : Text) (found : Option BuiltinTheme) (c : Cache)
    → c.available ≡ true
    → let theme = get_or_else found first_theme in
      Holds (write_cache theme.id theme.base none c) (builtin_base found)
unfolding write_cache
builtin_base-Holds choice none c kept = rw kept
builtin_base-Holds choice (some theme) c kept = rw kept

apply_custom-Holds :
    (choice : Text) (found : Option CustomTheme) (p : Page)
    → p.cache.available ≡ true
    → Holds (apply_custom choice found p).cache (custom_base found)
unfolding apply_custom find_builtin codes ◌===◌
apply_custom-Holds choice none p kept = rw kept
apply_custom-Holds choice (some theme) p kept = rw kept

-- If storage is allowed, the base that is cached for the next page load is the one that `baseOf`
-- reports: for the system's choice, for a built-in theme, for an unknown one, and for a custom
-- theme, found or gone.
pub apply-Holds :
    (prefers_light : Bool) (choice : Text) (themes : List CustomTheme) (p : Page)
    → p.cache.available ≡ true
    → Holds (apply prefers_light choice themes p).cache (base_of prefers_light choice themes)
unfolding apply base_of
apply-Holds prefers_light choice themes p kept = elim (Bool-cases (choice === system)) [
  | inl follows ↦ rw (follows, kept)
  | inr chosen ↦ rw chosen (elim (Bool-cases (is_custom choice)) [
    | inl custom ↦ rw custom (apply_custom-Holds choice (find_custom choice themes) p kept)
    | inr builtin ↦ rw builtin (builtin_base-Holds choice (find_builtin choice) p.cache kept)
  ])
]
