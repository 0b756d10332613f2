-- ===== src/Pages/Login.antt =====
-- web/src/pages/Login.tsx: the sign-in form.
pub mod Ends
pub mod View
use mirocraft.Prelude.{Bool, true, false, Option, none, some, ◌===◌, if◌then◌else◌, Text, codes}
use mirocraft.Api.Json.{Json, str}
use mirocraft.Api.Http.{Fetch, World, Failure, api_error, Outcome, returned, threw}
use mirocraft.Api.Accounts.{login}
use mirocraft.App.{App, load_user}

pub record Login : Type 0 where
  pub email : Text
  pub password : Text
  pub error : Option Text
  pub busy : Bool

unfoldable pub type_login : (email password : Text) → Login → Login
type_login email password f = record f { email = email; password = password }

abbrev is_rate_limit : Json → Bool
is_rate_limit (str code) = code === codes "rate_limited"
is_rate_limit code = false

-- `err instanceof ApiError && err.code === "rate_limited"`
unfoldable pub is_rate_limited : Failure → Bool
is_rate_limited (api_error status code message details) = is_rate_limit code
is_rate_limited e = false

unfoldable pub refused : Failure → Login → Login
unfolding is_rate_limited
refused e f = record f {
  error = some (
      if is_rate_limited e
      then codes "Слишком много попыток. Подождите минуту."
      else codes "Неверный логин или пароль.");
  busy = false;
}

-- What the form and the application make of the answer; `onLoggedIn` loads the user.
unfoldable pub finish_login :
    {Net : Type 0} → Fetch Net → Login × App → Outcome Json × World Net → (Login × App) × World Net
unfolding refused load_user
finish_login fetch (f, a) (returned body, w) =
    let (a', w') = load_user fetch a w in ((record f { busy = false }, a'), w')
finish_login fetch (f, a) (threw e, w) = ((refused e f, a), w)

unfoldable pub handle_submit :
    {Net : Type 0} → Fetch Net → Login × App → World Net → (Login × App) × World Net
unfolding finish_login login
handle_submit fetch (f, a) w =
    finish_login fetch (record f { error = none; busy = true }, a)
      (login fetch f.email f.password w)
