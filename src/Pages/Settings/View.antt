-- ===== src/Pages/Settings/View.antt =====
-- web/src/pages/Settings.tsx: what the page shows.
use mirocraft.Prelude.{
  ℕ, Bool, true, false, not, List, [], ◌∷◌, ◌++◌, Option, none, some, length, ltb, ◌===◌,
  if◌then◌else◌, Text, codes,
}
use mirocraft.Api.Json.{to_text}
use mirocraft.Api.Types.{ThemeBase, dark, light, CustomTheme, Me, Role, admin, user}
use mirocraft.Theme.Registry.{BuiltinTheme, builtin_themes, base_name, system}
use mirocraft.Theme.Apply.{custom_choice}
use mirocraft.Pages.Ui.{
  View, ◌⊕◌, text, raw, button, input, select, when, when_some, when_error, each, given,
}
use mirocraft.Pages.Settings.{
  ThemeEditor, Field, name_typed, base_picked, accent_picked, radius_moved, named,
}
use mirocraft.Pages.Settings.Account.{AccountForm, can_submit}
use mirocraft.Pages.Settings.Radius.{px, int_text}

-- The controls of the theme picker and of the theme editor.
pub data Event : Type 0 where
  chosen : (choice : Text) → Event
  filled : Field → Event
  save_pressed export_pressed import_pressed : Event
  edit_pressed : CustomTheme → Event
  delete_pressed : (id : Text) → Event

-- `ThemeCard`
unfoldable pub theme_card : (name choice : Text) → (custom : Bool) → View Event
theme_card name choice custom =
    button (codes "Aa" ++ name ++ (if custom then codes "своя" else [])) false (λ x. chosen choice)

unfoldable pub picker_view : List CustomTheme → View Event
picker_view themes =
    text (codes "Тема оформления")
    ⊕ text (codes "Выбор хранится в профиле, поэтому переезжает вместе с вами в другой браузер.")
    ⊕ theme_card (codes "Как в системе") system false
    ⊕ each (λ (t : BuiltinTheme). theme_card t.name t.id false) builtin_themes
    ⊕ each (λ (t : CustomTheme). theme_card t.name (custom_choice t.id) true) themes

unfoldable pub base_named : Text → ThemeBase
base_named t = if t === codes "light" then light else dark

abbrev is_given : Option Text → Bool
is_given id = elim (named id) [ none ↦ false | some id ↦ true ]

unfoldable pub saved_theme_view : CustomTheme → View Event
saved_theme_view theme =
    text theme.name
    ⊕ text (base_name theme.base)
    ⊕ button (codes "Править") false (λ x. edit_pressed theme)
    ⊕ button (codes "Удалить") false (λ x. delete_pressed theme.id)

unfoldable pub editor_view : (number : Text → ℕ) → List CustomTheme → ThemeEditor → View Event
unfolding base_named
editor_view number themes e =
    text (codes "Своя тема")
    ⊕ text (
        codes
          "Возьмите светлую или тёмную основу, поменяйте акцент и скругления. Превью применяется сразу — прямо к этой странице.")
    ⊕ text (codes "Название")
    ⊕ input (to_text e.name) false (λ t. filled (name_typed t))
    ⊕ text (codes "Основа")
    ⊕ select (base_name e.base)
        ((codes "dark", codes "Тёмная") ∷ (codes "light", codes "Светлая") ∷ []) false
        (λ t. filled (base_picked (base_named t)))
    ⊕ text (codes "Акцентный цвет")
    ⊕ input (to_text e.accent) false (λ t. filled (accent_picked t))
    ⊕ raw e.accent
    ⊕ text (codes "Скругление: " ++ px e.radius)
    ⊕ input (int_text e.radius) false (λ t. filled (radius_moved (number t)))
    ⊕ when_error e.error (λ message. raw message)
    ⊕ button (if is_given e.editing_id then codes "Сохранить" else codes "Создать тему") e.busy
        (λ x. save_pressed)
    ⊕ button (codes "Экспорт JSON") false (λ x. export_pressed)
    ⊕ button (codes "Импорт JSON") false (λ x. import_pressed)
    ⊕ when (ltb 0 (length themes)) (each saved_theme_view themes)

-- The controls of the form that changes the password.
pub data AccountEvent : Type 0 where
  typed : (old_password password : Text) → AccountEvent
  submit_pressed : AccountEvent

abbrev role_label : Role → Text
role_label admin = codes "администратор"
role_label user = codes "пользователь"

unfoldable pub account_view : Me → AccountForm → View AccountEvent
account_view me f =
    text (codes "Аккаунт")
    ⊕ text (codes "Логин: " ++ me.email ++ codes " · роль: " ++ role_label me.role)
    ⊕ text (codes "Текущий пароль")
    ⊕ input f.old_password false (λ t. typed t f.password)
    ⊕ text (codes "Новый пароль")
    ⊕ input f.password false (λ t. typed f.old_password t)
    ⊕ when_some (given f.message) (λ message. text message)
    ⊕ when_error f.error (λ message. raw message)
    ⊕ button (codes "Сменить пароль") (not (can_submit f)) (λ x. submit_pressed)
