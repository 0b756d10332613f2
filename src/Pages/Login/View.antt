-- ===== src/Pages/Login/View.antt =====
-- web/src/pages/Login.tsx: what the sign-in form shows.
use mirocraft.Prelude.{false, [], ◌∷◌, if◌then◌else◌, Text, codes}
use mirocraft.Pages.Ui.{View, ◌⊕◌, text, submit, input, when_some, given}
use mirocraft.Pages.Login.{Login}

pub data Event : Type 0 where
  typed : (email password : Text) → Event
  submitted : Event

unfoldable pub view : Login → View Event
view f =
    text (codes "Mirocraft")
    ⊕ text (codes "Панель управления серверами")
    ⊕ text (codes "Логин")
    ⊕ input f.email false (λ t. typed t f.password)
    ⊕ text (codes "Пароль")
    ⊕ input f.password false (λ t. typed f.email t)
    ⊕ when_some (given f.error) (λ error. text error)
    ⊕ submit (if f.busy then codes "Вход…" else codes "Войти") f.busy (f.email ∷ f.password ∷ [])
        submitted
    ⊕ text (codes "Первый вход — логин ")
    ⊕ text (codes "admin")
    ⊕ text (codes " и пароль из")
    ⊕ text (codes " initial-admin.txt")
    ⊕ text (codes " в каталоге данных.")
