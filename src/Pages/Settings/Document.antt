-- ===== src/Pages/Settings/Document.antt =====
-- web/src/pages/Settings.tsx: a theme as the editor writes it to a file, reads it from one, and
-- takes it from the saved ones.
use mirocraft.Prelude.{
  zero, Bool, false, not, ◌&&◌, [], ◌∷◌, Option, none, some, get_or_else, ◌===◌, if◌then◌else◌,
  Text, codes,
}
use mirocraft.Prelude.Dict.{lookup}
use mirocraft.Api.Json.{Json, null, str, object, property, nullish, truthy, to_text}
use mirocraft.Api.Types.{dark, light, CustomTheme}
use mirocraft.Theme.Registry.{base_name, default_accent, default_radius}
use mirocraft.Pages.Settings.Radius.{ℤ, pos, px, parse_int}
use mirocraft.Pages.Settings.{ThemeEditor, schema, editor_vars}

-- The document that is written to a file.
unfoldable pub handle_export : ThemeEditor → Json
unfolding editor_vars
handle_export e = object (
    (codes "schema", str schema)
    ∷ (codes "name", e.name)
    ∷ (codes "base", str (base_name e.base))
    ∷ (codes "vars", object (editor_vars e))
    ∷ [])

-- `parseInt(text, 10) || DEFAULT_RADIUS`
unfoldable pub or_default : Option ℤ → ℤ
or_default none = pos default_radius
or_default (some (pos zero)) = pos default_radius
or_default (some z) = z

abbrev pub is_str : Text → Json → Bool
is_str t (str s) = s === t
is_str t other = false

abbrev failed : Text → ThemeEditor → ThemeEditor
failed text e = record e { error = some (str text) }

unfoldable pub fill : Json → ThemeEditor → ThemeEditor
unfolding or_default parse_int to_text property
fill doc e =
    let vars = property (codes "vars") doc in
    let radius_text = nullish (property (codes "--radius") vars) (str (px (pos default_radius))) in
    record e {
      name = nullish (property (codes "name") doc) (str (codes "Импортированная тема"));
      base = if is_str (codes "light") (property (codes "base") doc) then light else dark;
      accent = nullish (property (codes "--accent") vars) (str default_accent);
      radius = or_default (parse_int (to_text radius_text));
      editing_id = none;
    }

unfoldable pub read_doc : Json → ThemeEditor → ThemeEditor
unfolding fill property
read_doc null e = failed (codes "Файл не похож на тему Mirocraft") e
read_doc doc e =
    let version = property (codes "schema") doc in
    if truthy version && not (is_str schema version)
    then failed (codes "Неподдерживаемая версия формата темы") e
    else fill doc e

-- The file as `JSON.parse` reads it, or nothing for a text that is no JSON.
unfoldable pub handle_import : Option Json → ThemeEditor → ThemeEditor
unfolding read_doc
handle_import none e = failed (codes "Файл не похож на тему Mirocraft") e
handle_import (some doc) e = read_doc doc (record e { error = none })

-- The button that edits a saved theme.
unfoldable pub edit : CustomTheme → ThemeEditor → ThemeEditor
unfolding lookup or_default parse_int
edit theme e = record e {
  editing_id = some theme.id;
  name = str theme.name;
  base = theme.base;
  accent = str (get_or_else (lookup (codes "--accent") theme.vars) default_accent);
  radius = or_default (parse_int (get_or_else (lookup (codes "--radius") theme.vars) (codes "10")));
}
