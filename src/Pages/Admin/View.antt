-- ===== src/Pages/Admin/View.antt =====
-- web/src/pages/Admin.tsx: what the page shows.
use mirocraft.Prelude.{
  ℕ, Bool, true, false, not, [], ◌∷◌, Option, none, some, ◌===◌, if◌then◌else◌, Text, codes,
  decimal,
}
use mirocraft.Api.Types.{User, Role, admin, user}
use mirocraft.Pages.Ui.{
  View, ◌⊕◌, text, raw, button, submit, input, select, when, when_error, each, notice_view,
}
use mirocraft.Pages.Admin.{
  Admin, UserForm, email_typed, password_typed, role_picked, servers_typed, ram_typed, Action,
  reset_password, change_role, change_blocked, remove, Event, filled, create_submitted, pressed,
  format_limits,
}

abbrev pub is_busy : Option Text → Bool
is_busy none = false
is_busy (some what) = true

-- `busy === "new"`
unfoldable pub is_creating : Option Text → Bool
is_creating none = false
is_creating (some what) = what === codes "new"

abbrev is_admin : Role → Bool
is_admin admin = true
is_admin user = false

unfoldable pub role_named : Text → Role
role_named t = if t === codes "admin" then admin else user

abbrev role_name : Role → Text
role_name admin = codes "admin"
role_name user = codes "user"

abbrev row_button : Text → Option Text → Action → User → View Event
row_button label busy action u = button label (is_busy busy) (λ x. pressed action u x.typed x.sure)

-- The browser's: how it writes a date, and what `Number` makes of a field.
module _ (format_date : Text → Text) (number : Text → ℕ) where
  unfoldable pub row_view : (me : Text) → Option Text → User → View Event
  row_view me busy u =
      text u.email
      ⊕ when (u.id === me) (text (codes "это вы"))
      ⊕ when u.blocked (text (codes "заблокирован"))
      ⊕ text (if is_admin u.role then codes "администратор" else codes "пользователь")
      ⊕ text (format_limits u)
      ⊕ text (format_date u.created_at)
      ⊕ row_button (codes "Сменить пароль") busy reset_password u
      ⊕ when (not (u.id === me)) (
          row_button (if is_admin u.role then codes "Снять админа" else codes "Сделать админом")
            busy change_role u
          ⊕ row_button (if u.blocked then codes "Разблокировать" else codes "Заблокировать") busy
              change_blocked u
          ⊕ row_button (codes "Удалить") busy remove u)

  unfoldable pub form_view : Option Text → UserForm → View Event
  unfolding role_named
  form_view busy f =
      text (codes "Новая учётная запись")
      ⊕ text (codes "Логин")
      ⊕ input f.email false (λ t. filled (email_typed t))
      ⊕ text (codes "Пароль")
      ⊕ input f.password false (λ t. filled (password_typed t))
      ⊕ text (codes "Роль")
      ⊕ select (role_name f.role)
          ((codes "user", codes "пользователь") ∷ (codes "admin", codes "администратор") ∷ []) false
          (λ t. filled (role_picked (role_named t)))
      ⊕ text (codes "Серверов, 0 — без лимита")
      ⊕ input (decimal f.max_servers) false (λ t. filled (servers_typed (number t)))
      ⊕ text (codes "Память, МБ")
      ⊕ input (decimal f.max_ram_mb) false (λ t. filled (ram_typed (number t)))
      ⊕ submit (codes "Создать") (is_creating busy) (f.email ∷ f.password ∷ []) create_submitted

  unfoldable pub view : (me : Text) → Admin → View Event
  view me s =
      text (codes "Пользователи")
      ⊕ when_error s.error (λ message. raw message)
      ⊕ notice_view s.error s.notice
      ⊕ text (codes "Логин")
      ⊕ text (codes "Роль")
      ⊕ text (codes "Лимиты")
      ⊕ text (codes "Создан")
      ⊕ when s.loading (text (codes "Загрузка…"))
      ⊕ when (not s.loading) (each (row_view me s.busy) s.users)
      ⊕ form_view s.busy s.form
