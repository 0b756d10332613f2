-- ===== src/Pages/Settings/Laws.antt =====
-- web/src/pages/Settings.tsx: a theme that is exported and imported, and what a preview sets.
use mirocraft.Prelude.{◌≡◌, refl, ap, ◌∙◌, zero, suc, none, some, ◌===◌, if◌then◌else◌, codes}
use mirocraft.Api.Json.{
  Json, null, undefined, boolean, num, str, arr, obj, property, nullish, to_text, fields,
}
use mirocraft.Api.Types.{ThemeBase, dark, light}
use mirocraft.Theme.Registry.{base_name, default_radius}
use mirocraft.Theme.Apply.{theme_tokens}
use mirocraft.Theme.Provider.{previewed}
use mirocraft.Theme.Provider.Laws.{Brings}
use mirocraft.Pages.Settings.Radius.{ℤ, pos, negsuc, parse_int-px}
use mirocraft.Pages.Settings.{ThemeEditor, editor_vars, css_vars}
use mirocraft.Pages.Settings.Document.{
  handle_export, handle_import, read_doc, fill, or_default, is_str,
}

-- A value that `??` keeps.
abbrev pub IsPresent : Json → Type 0
IsPresent undefined = ⊥
IsPresent null = ⊥
IsPresent j = Unit

nullish_present : (j d : Json) → IsPresent j → nullish j d ≡ j
nullish_present undefined d h = absurd h
nullish_present null d h = absurd h
nullish_present (boolean b) d h = refl
nullish_present (num n) d h = refl
nullish_present (str t) d h = refl
nullish_present (arr is) d h = refl
nullish_present (obj fs) d h = refl

-- The radius 0 counts as none.
abbrev pub kept_radius : ℤ → ℤ
kept_radius (pos zero) = pos default_radius
kept_radius z = z

-- Importing an exported theme restores it.
pub record Restores (e old new : ThemeEditor) : Type 0 where
  pub name : new.name ≡ e.name
  pub base : new.base ≡ e.base
  pub accent : new.accent ≡ e.accent
  pub radius : new.radius ≡ kept_radius e.radius
  pub editing_id : new.editing_id ≡ none
  pub error : new.error ≡ none
  pub busy : new.busy ≡ old.busy

or_default-kept : (z : ℤ) → or_default (some z) ≡ kept_radius z
unfolding or_default
or_default-kept (pos zero) = refl
or_default-kept (pos (suc n)) = refl
or_default-kept (negsuc n) = refl

read_base :
    (b : ThemeBase) → (if is_str (codes "light") (str (base_name b)) then light else dark) ≡ b
unfolding codes ◌===◌
read_base dark = refl
read_base light = refl

-- A theme that is exported and imported again has the name, the base and the accent that it had, if
-- the name and the accent are there, and its radius, except that the radius 0 becomes the default of
-- 10; the form then edits no saved theme, shows no error and is as busy as it was.
pub handle_import-export :
    (e old : ThemeEditor)
    → IsPresent e.name
    → IsPresent e.accent
    → Restores e old (handle_import (some (handle_export e)) old)
unfolding handle_import handle_export read_doc fill property codes ◌===◌ fields editor_vars to_text
handle_import-export e old name accent = record {
  name = nullish_present e.name _ name;
  base = read_base e.base;
  accent = nullish_present e.accent _ accent;
  radius = ap or_default (parse_int-px e.radius) ∙ or_default-kept e.radius;
  editing_id = refl;
  error = refl;
  busy = refl;
}

-- The editor sets only tokens, whatever the form holds.
editor_vars-Brings : (e : ThemeEditor) → Brings (previewed (css_vars (editor_vars e)) e.base)
unfolding css_vars editor_vars theme_tokens codes ◌===◌
editor_vars-Brings e = (refl, (refl, (refl, (refl, (refl, (refl, tt))))))
