-- ===== src/Pages/Settings.antt =====
-- web/src/pages/Settings.tsx: the theme editor. Each handler is
-- split at the calls that it awaits; two of them are the theme provider's.
pub mod Radius
pub mod Document
pub mod Account
pub mod View
pub mod OneAction
pub mod Laws
use mirocraft.Prelude.{
  ℕ, Bool, true, false, ◌&&◌, List, [], ◌∷◌, map, Option, none, some, ◌===◌, if◌then◌else◌, Text,
  codes, is_empty,
}
use mirocraft.Api.Json.{Json, str, to_text}
use mirocraft.Api.Types.{ThemeBase, dark}
use mirocraft.Api.Http.{Failure, Outcome, returned, threw}
use mirocraft.Api.Endpoint.{Endpoint}
use mirocraft.Api.Themes.{ThemeInput, create_custom_theme, update_custom_theme, delete_custom_theme}
use mirocraft.Theme.Registry.{accent_foreground, base_name, default_accent, default_radius}
use mirocraft.Theme.Apply.{Vars, custom_choice, custom_id, is_custom}
use mirocraft.Pages.Report.{report}
use mirocraft.Pages.Settings.Radius.{ℤ, pos, px, small_radius, large_radius}

abbrev pub schema : Text
schema = codes "mirocraft.theme/v1"

-- An imported name or accent may be any value, as the file had it.
pub record ThemeEditor : Type 0 where
  pub name : Json
  pub base : ThemeBase
  pub accent : Json
  pub radius : ℤ
  pub editing_id : Option Text
  pub error : Option Json
  pub busy : Bool

unfoldable pub new_editor : ThemeEditor
new_editor = record {
  name = str (codes "Моя тема");
  base = dark;
  accent = str default_accent;
  radius = pos default_radius;
  editing_id = none;
  error = none;
  busy = false;
}

unfoldable pub editor_vars : ThemeEditor → List (Text × Json)
editor_vars e =
    (codes "--accent", e.accent)
    ∷ (codes "--accent-hover", e.accent)
    ∷ (codes "--accent-fg", str (accent_foreground e.base))
    ∷ (codes "--radius", str (px e.radius))
    ∷ (codes "--radius-sm", str (px (small_radius e.radius)))
    ∷ (codes "--radius-lg", str (px (large_radius e.radius)))
    ∷ []

-- The variables as `setProperty` takes them.
unfoldable pub css_vars : List (Text × Json) → Vars
css_vars vars = map (λ kv. (kv.0, to_text kv.1)) vars

abbrev theme_input : ThemeEditor → ThemeInput
theme_input e = record {
  schema = schema;
  name = e.name;
  base = base_name e.base;
  vars = editor_vars e;
}

-- The fields of the form.
pub data Field : Type 0 where
  name_typed : (name : Text) → Field
  base_picked : (base : ThemeBase) → Field
  accent_picked : (accent : Text) → Field
  radius_moved : (radius : ℕ) → Field

unfoldable pub change_field : Field → ThemeEditor → ThemeEditor
change_field (name_typed name) e = record e { name = str name }
change_field (base_picked base) e = record e { base = base }
change_field (accent_picked accent) e = record e { accent = str accent }
change_field (radius_moved radius) e = record e { radius = pos radius }

-- What a handler awaits: a call of the client, or `reloadCustomThemes` or `setChoice` of the
-- provider. A deletion keeps what its closure had when the button was pressed.
pub data Job : Type 0 where
  send : (editing_id : Option Text) → ThemeInput → Job
  reload_saved choose_saved : (id : Text) → Job
  remove : (id : Text) → (base : ThemeBase) → (choice : Text) → (editing_id : Option Text) → Job
  choose_base : (id : Text) → (base : ThemeBase) → (editing_id : Option Text) → Job
  reload_left : Job

-- A save gives the id of the theme.
abbrev pub Reply : Job → Type 0
Reply (send id input) = Text
Reply job = Unit

abbrev pub named : Option Text → Option Text
named none = none
named (some id) = if is_empty id then none else some id

abbrev save_endpoint : Option Text → ThemeInput → Endpoint
save_endpoint none input = create_custom_theme input
save_endpoint (some id) input = update_custom_theme id input

unfoldable pub endpoint_of : Job → Option Endpoint
endpoint_of (send id input) = some (save_endpoint (named id) input)
endpoint_of (remove id base choice editing) = some (delete_custom_theme id)
endpoint_of other = none

-- The choice that a job gives to the provider.
unfoldable pub choice_of : Job → Option Text
choice_of (choose_saved id) = some (custom_choice id)
choice_of (choose_base id base editing) = some (base_name base)
choice_of other = none

unfoldable pub handle_save : ThemeEditor → ThemeEditor × List Job
handle_save e = (record e { error = none; busy = true }, send e.editing_id (theme_input e) ∷ [])

unfoldable pub handle_delete : Text → Text → ThemeEditor → ThemeEditor × List Job
handle_delete id choice e = (e, remove id e.base choice e.editing_id ∷ [])

abbrev is_editing : Option Text → Text → Bool
is_editing none id = false
is_editing (some editing) id = editing === id

abbrev forget : Text → Option Text → ThemeEditor → ThemeEditor × List Job
forget id editing e =
    (if is_editing editing id then record e { editing_id = none } else e, reload_left ∷ [])

unfoldable pub succeed : (job : Job) → Reply job → ThemeEditor → ThemeEditor × List Job
unfolding custom_id is_custom
succeed (send editing input) id e = (e, reload_saved id ∷ [])
succeed (reload_saved id) reply e = (e, choose_saved id ∷ [])
succeed (choose_saved id) reply e = (record e { editing_id = some id; busy = false }, [])
succeed (remove id base choice editing) reply e =
    if is_custom choice && custom_id choice === id
    then (e, choose_base id base editing ∷ [])
    else forget id editing e
succeed (choose_base id base editing) reply e = forget id editing e
succeed reload_left reply e = (e, [])

abbrev not_saved : Failure → ThemeEditor → ThemeEditor
not_saved f e = record e {
  error = some (report f (codes "Не удалось сохранить тему"));
  busy = false;
}

unfoldable pub fail : Job → Failure → ThemeEditor → ThemeEditor
fail (send editing input) f e = not_saved f e
fail (reload_saved id) f e = not_saved f e
fail (choose_saved id) f e = not_saved f e
fail other f e = record e { error = some (report f (codes "Не удалось удалить тему")) }

unfoldable pub settle : (job : Job) → Outcome (Reply job) → ThemeEditor → ThemeEditor × List Job
unfolding succeed fail
settle job (returned reply) e = succeed job reply e
settle job (threw f) e = (fail job f e, [])
