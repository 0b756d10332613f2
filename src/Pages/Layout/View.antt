-- ===== src/Pages/Layout/View.antt =====
-- web/src/components/Layout.tsx: what the shell shows around a page.
use mirocraft.Prelude.{Bool, true, false, Option, ◌===◌, if◌then◌else◌, Text, codes}
use mirocraft.Api.Types.{Me, Role, admin, user, ThemeBase, dark, light}
use mirocraft.Pages.Ui.{View, ◌⊕◌, text, link, button, when, when_some, each}
use mirocraft.Pages.Layout.{MenuEvent, menu_button, close_button, nav_items}

-- The controls of the shell; `themed` is the provider's `toggleLightDark`.
pub data Event : Type 0 where
  menu : MenuEvent → Event
  themed logout_pressed : Event

abbrev pub is_admin : Role → Bool
is_admin admin = true
is_admin user = false

abbrev is_dark : ThemeBase → Bool
is_dark dark = true
is_dark light = false

-- The word of an item, by its target.
unfoldable pub item_label : Text → Text
item_label to =
    if to === codes "/"
    then codes "Серверы"
    else if to === codes "/settings"
    then codes "Настройки"
    else if to === codes "/admin"
    then codes "Пользователи"
    else codes "Боты"

unfoldable pub shell_view :
    (menu_open : Bool) → ThemeBase → Me → (children : View Event) → View Event
shell_view menu_open base me children =
    button (if menu_open then codes "Закрыть меню" else codes "Открыть меню") false
      (λ x. menu menu_button)
    ⊕ link (codes "/") (codes "Mirocraft")
    ⊕ when menu_open (button (codes "Закрыть меню") false (λ x. menu close_button))
    ⊕ link (codes "/") (codes "Mirocraft")
    ⊕ button (codes "Закрыть меню") false (λ x. menu close_button)
    ⊕ each (λ to. link to (item_label to)) (nav_items (is_admin me.role))
    ⊕ text me.email
    ⊕ text (if is_admin me.role then codes "администратор" else codes "пользователь")
    ⊕ button (if is_dark base then codes "Светлая" else codes "Тёмная") false (λ x. themed)
    ⊕ button (codes "Выйти") false (λ x. logout_pressed)
    ⊕ children
    ⊕ text (codes "Mirocraft · AGPL-3.0 · ")
    ⊕ link (codes "https://github.com/collybia/mirocraft") (codes "исходный код")

-- `PageHeader`, the top of a page.
unfoldable pub page_header :
    {E : Type 0} → (title : View E) → (description actions back : Option (View E)) → View E
page_header title description actions back =
    when_some back (λ v. v) ⊕ title ⊕ when_some description (λ v. v) ⊕ when_some actions (λ v. v)
