-- ===== src/Pages/Properties/View.antt =====
-- web/src/pages/ServerSettings.tsx: what the editor shows.
use mirocraft.Prelude.{
  Bool, true, false, not, ◌&&◌, ◌||◌, List, ◌++◌, map, Option, none, some, length, ltb, ◌==◌, ◌===◌,
  if◌then◌else◌, Text, codes, decimal,
}
use mirocraft.Api.Json.{Json, str, nullish}
use mirocraft.Api.Servers.{Setting, Settings}
use mirocraft.Pages.Ui.{
  View, ◌⊕◌, text, raw, button, checkbox, input, select, when, when_some, when_error, each, given,
  notice_view,
}
use mirocraft.Pages.Properties.{
  Editor, Row, Event, typed, filtered, reset, save_pressed, rows_of, changed_count,
}
use mirocraft.Pages.Properties.Controls.{Control, control, text_box, number_box}

abbrev flag_text : Bool → Text
flag_text b = if b then codes "true" else codes "false"

abbrev same_options : List Text → List (Text × Text)
same_options options = map (λ o. (o, o)) options

-- `SettingInput`
unfoldable pub control_view :
    Control → (shown : Text) → (disabled : Bool) → (change : Text → Event) → View Event
control_view (text_box value) shown disabled change = input value disabled change
control_view (Control.checkbox checked) shown disabled change =
    checkbox checked disabled (λ b. change (flag_text b)) ⊕ text shown
control_view (Control.select options value) shown disabled change =
    select value (same_options options) disabled change
control_view (number_box value min max) shown disabled change = input value disabled change

abbrev note_of : Option Setting → Option Text
note_of none = none
note_of (some setting) = given setting.note

abbrev default_of : Option Setting → Option Text
default_of none = none
default_of (some setting) = setting.default

abbrev is_unknown : Option Setting → Bool
is_unknown none = true
is_unknown (some setting) = false

unfoldable pub row_view : Row → View Event
unfolding control
row_view row =
    text row.key
    ⊕ when_some (note_of row.setting) (λ note. text note)
    ⊕ when row.managed
        (text (codes "Этим ключом управляет панель — меняйте его в настройках сервера"))
    ⊕ when (is_unknown row.setting && not row.managed) (text (codes "Не из стандартного набора"))
    ⊕ control_view (control row.setting row.value) row.value row.managed (λ t. typed row.key t)
    ⊕ when row.changed (text (codes "•"))
    ⊕ when_some (default_of row.setting) (λ default.
      when (not (row.value === default))
        (button (codes "по умолчанию") row.managed (λ x. typed row.key default)))

abbrev awaited_message : Option Json → Json
awaited_message none = str (codes "Загрузка…")
awaited_message (some error) = nullish error (str (codes "Загрузка…"))

-- The order of the keys and their small letters are the browser's.
module _ (before : Text → Text → Bool) (lower : Text → Text) where
  unfoldable pub settings_view : Editor → Settings → View Event
  settings_view e settings =
      text (codes "server.properties")
      ⊕ input e.filter false (λ t. filtered t)
      ⊕ when (ltb 0 (changed_count e)) (text (codes "Изменений: " ++ decimal (changed_count e)))
      ⊕ button (codes "Сбросить") (changed_count e == 0 || e.saving) (λ x. reset)
      ⊕ button (if e.saving then codes "Сохранение…" else codes "Сохранить")
          (changed_count e == 0 || e.saving) (λ x. save_pressed)
      ⊕ when_error e.error (λ message. raw message)
      ⊕ notice_view e.error e.notice
      ⊕ when (length (rows_of before lower settings e.draft e.filter) == 0)
          (text (codes "Ничего не найдено"))
      ⊕ each row_view (rows_of before lower settings e.draft e.filter)

  unfoldable pub editor_view : Editor → Option Settings → View Event
  editor_view e none = raw (awaited_message e.error)
  editor_view e (some settings) = settings_view e settings

  unfoldable pub view : Editor → View Event
  view e = editor_view e e.settings
