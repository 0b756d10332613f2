-- ===== src/Pages/Properties.antt =====
-- web/src/pages/ServerSettings.tsx: the editor of server.properties. A dictionary is read by its
-- own keys; the order of the keys and their small letters are the browser's, and parameters.
pub mod Rows
pub mod Controls
pub mod Saving
pub mod View
pub mod Running
pub mod Managed
use mirocraft.Prelude.{
  ℕ, Bool, true, false, not, List, [], ◌∷◌, ◌++◌, map, Option, none, some, get_or_else, filter,
  includes, length, ◌===◌, if◌then◌else◌, Text, codes,
}
use mirocraft.Prelude.Dict.{lookup, insert}
use mirocraft.Api.Json.{Json}
use mirocraft.Api.Http.{Outcome, returned, threw}
use mirocraft.Api.Endpoint.{Endpoint}
use mirocraft.Api.Servers.{Setting, Settings, get_settings, patch_settings}
use mirocraft.Pages.Report.{report}

abbrev pub Values : Type 0
Values = List (Text × Text)

pub record Editor : Type 0 where
  pub settings : Option Settings
  pub draft : Values
  pub error : Option Json
  pub notice : Option Text
  pub saving : Bool
  pub filter : Text

abbrev pub is_some {ℓ} : {A : Type ℓ} → Option A → Bool
is_some none = false
is_some (some a) = true

-- `key in dict`
abbrev pub contains {ℓ} : {V : Type ℓ} → Text → List (Text × V) → Bool
contains key dict = is_some (lookup key dict)

unfoldable pub schema_into : List Setting → List (Text × Setting) → List (Text × Setting)
unfolding insert
schema_into [] dict = dict
schema_into (item ∷ items) dict = schema_into items (insert item.key item dict)

unfoldable pub schema_by_key : List Setting → List (Text × Setting)
unfolding schema_into
schema_by_key items = schema_into items []

pub record Row : Type 0 where
  pub key : Text
  pub setting : Option Setting
  pub value : Text
  pub managed : Bool
  pub changed : Bool

-- `value !== values[key]`
unfoldable pub differs : Text → Option Text → Bool
differs value none = true
differs value (some old) = not (value === old)

abbrev is_changed : Option Text → Option Text → Bool
is_changed none old = false
is_changed (some value) old = differs value old

unfoldable pub shown_value : Values → Values → Text → Text
shown_value draft values key = get_or_else (lookup key draft) (get_or_else (lookup key values) [])

unfoldable pub row_of : Settings → Values → Text → Row
unfolding lookup differs schema_by_key shown_value
row_of settings draft key = record {
  key = key;
  setting = lookup key (schema_by_key settings.schema);
  value = shown_value draft settings.values key;
  managed = contains key settings.managed;
  changed = is_changed (lookup key draft) (lookup key settings.values);
}

unfoldable pub known_keys : Settings → List Text
unfolding lookup
known_keys settings =
    filter (λ key. contains key settings.values) (map (λ (s : Setting). s.key) settings.schema)

unfoldable pub matches : (Text → Text) → Text → Text → Bool
unfolding includes
matches lower text key = includes (lower key) (lower text)

module _ (before : Text → Text → Bool) where
  -- `sort` on keys
  unfoldable pub put_key : Text → List Text → List Text
  put_key x [] = x ∷ []
  put_key x (y ∷ ys) = let rest = put_key x ys in if before x y then x ∷ y ∷ ys else y ∷ rest

  unfoldable pub sort_keys : List Text → List Text
  unfolding put_key
  sort_keys [] = []
  sort_keys (x ∷ xs) = put_key x (sort_keys xs)

  unfoldable pub rest_keys : Settings → List Text
  unfolding sort_keys lookup schema_by_key
  rest_keys settings = sort_keys (
      filter (λ key. not (contains key (schema_by_key settings.schema)))
        (map (λ kv. kv.0) settings.values))

  unfoldable pub rows_of : (Text → Text) → Settings → Values → Text → List Row
  unfolding row_of known_keys rest_keys matches
  rows_of lower settings draft text =
      map (row_of settings draft)
        (filter (matches lower text) (known_keys settings ++ rest_keys settings))

  unfoldable pub rows : (Text → Text) → Editor → List Row
  unfolding rows_of
  rows lower e = elim e.settings [
    | none ↦ []
    | some settings ↦ rows_of lower settings e.draft e.filter
  ]

-- The part of the draft that the file does not hold.
unfoldable pub changes_of : Values → Values → Values
unfolding differs lookup
changes_of values draft = filter (λ kv. differs kv.1 (lookup kv.0 values)) draft

unfoldable pub changed_count : Editor → ℕ
unfolding changes_of
changed_count e = elim e.settings [
  | none ↦ 0
  | some settings ↦ length (changes_of settings.values e.draft)
]

-- `set`
unfoldable pub set_value : Text → Text → Editor → Editor
unfolding insert
set_value key value e = record e { notice = none; draft = insert key value e.draft }

-- What a handler does at once, with the changes that it sends.
unfoldable pub save_changes : Values → Editor → Editor × Option Values
save_changes [] e = (e, none)
save_changes (change ∷ changes) e =
    (record e { saving = true; error = none }, some (change ∷ changes))

unfoldable pub save_from : Option Settings → Editor → Editor × Option Values
unfolding save_changes changes_of
save_from none e = (e, none)
save_from (some settings) e = save_changes (changes_of settings.values e.draft) e

unfoldable pub handle_save : Editor → Editor × Option Values
unfolding save_from
handle_save e = save_from e.settings e

abbrev saved_notice : Option Bool → Text
saved_notice (some true) =
    codes "Сохранено. Сервер запущен — изменения применятся после перезапуска."
saved_notice other = codes "Сохранено."

unfoldable pub saved : Outcome Settings → Editor → Editor
saved (returned updated) e = record e {
  settings = some updated;
  draft = [];
  notice = some (saved_notice updated.restart_required);
  saving = false;
}
saved (threw f) e = record e {
  error = some (report f (codes "Не удалось сохранить"));
  saving = false;
}

unfoldable pub loaded : Outcome Settings → Editor → Editor
loaded (returned settings) e = record e { settings = some settings; draft = [] }
loaded (threw f) e = record e {
  error = some (report f (codes "Не удалось прочитать server.properties"));
}

pub data Event : Type 0 where
  load_started : Event
  load_ended save_ended : Outcome Settings → Event
  typed : (key value : Text) → Event
  filtered : (text : Text) → Event
  reset save_pressed : Event

unfoldable pub step : Event → Editor → Editor
unfolding loaded saved set_value handle_save
step load_started e = record e { error = none }
step (load_ended outcome) e = loaded outcome e
step (save_ended outcome) e = saved outcome e
step (typed key value) e = set_value key value e
step (filtered text) e = record e { filter = text }
step reset e = record e { draft = [] }
step save_pressed e = (handle_save e).0

-- The endpoints that a load and a save use.
abbrev pub load_endpoint : Text → Endpoint
load_endpoint id = get_settings id

abbrev pub save_endpoint : Text → Values → Endpoint
save_endpoint id changes = patch_settings id changes
