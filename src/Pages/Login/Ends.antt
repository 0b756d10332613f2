-- ===== src/Pages/Login/Ends.antt =====
-- web/src/pages/Login.tsx with `login` of web/src/lib/api.ts and `loadUser` of web/src/App.tsx: how
-- a sign-in ends.
use mirocraft.Prelude.{
  [], subst, sym, ◌≡◌, ◌≢◌, ap, inl, inr, Bool-cases, Option, ◌===◌, ===_sound, ===_refl,
  if◌then◌else◌, Text, true, false, none, some, codes,
}
use mirocraft.Api.Json.{Json, null, undefined, boolean, num, str, arr, obj, property}
use mirocraft.Api.Session.{Storage, get_token}
use mirocraft.Api.Session.Laws.{kept}
use mirocraft.Api.Http.{
  Fetch, World, Failure, api_error, network, syntax, type_error, Outcome, returned, threw,
}
use mirocraft.Api.Accounts.{login, token_of}
use mirocraft.Api.Accounts.Laws.{Leaves, login-Leaves}
use mirocraft.App.{App}
use mirocraft.App.Laws.{Settled, load_user-Settled}
use mirocraft.Pages.Login.{Login, refused, is_rate_limited, finish_login, handle_submit}

-- The code of an error that the daemon has sent.
abbrev pub code_of : Failure → Option Json
code_of (api_error status code message details) = some code
code_of e = none

-- What the form says of a failure: a limit by its name, and of any other that the login or the
-- password is wrong.
pub data Says (e : Failure) : Text → Type 0 where
  limited :
      code_of e ≡ some (str (codes "rate_limited"))
      → Says e (codes "Слишком много попыток. Подождите минуту.")
  wrong :
      code_of e ≢ some (str (codes "rate_limited")) → Says e (codes "Неверный логин или пароль.")

-- The form and the application behind a sign-in: the user is loaded with the token of the reply, as
-- far as storage keeps it, or nothing has changed but the form.
pub data SubmitEnds {Net : Type 0} (before : Storage) (f : Login) (a : App)
    : Outcome Json → (Login × App) × World Net → Type 0 where
  admitted :
      {body : Json} {stored : Storage} {b : App} {w : World Net}
      → get_token stored ≡ kept before.available (token_of (property (codes "token") body))
      → Settled stored b w.storage
      → SubmitEnds before f a (returned body) ((record f { error = none; busy = false }, b), w)
  turned_away :
      {e : Failure} {message : Text} {w : World Net}
      → w.storage ≡ before
      → Says e message
      → SubmitEnds before f a (threw e) ((record f { error = some message; busy = false }, a), w)

abbrev text_of : Option Json → Text
text_of (some (str t)) = t
text_of j = []

message_Says :
    (e : Failure)
    → Says e (
        if is_rate_limited e
        then codes "Слишком много попыток. Подождите минуту."
        else codes "Неверный логин или пароль.")
unfolding is_rate_limited
message_Says (api_error status (str t) message details) =
    elim (Bool-cases (t === codes "rate_limited")) [
      | inl same ↦
          rw same (limited (ap (λ u. some (str u)) (===_sound t (codes "rate_limited") same)))
      | inr other ↦ rw other (wrong (λ e. absurd (cc (named e, other))))
    ]
  where
    named : some (str t) ≡ some (str (codes "rate_limited")) → (t === codes "rate_limited") ≡ true
    named e =
        subst (λ u. (u === codes "rate_limited") ≡ true) (sym (ap text_of e))
          (===_refl (codes "rate_limited"))
message_Says (api_error status undefined message details) = wrong (λ e. cc)
message_Says (api_error status null message details) = wrong (λ e. cc)
message_Says (api_error status (boolean b) message details) = wrong (λ e. cc)
message_Says (api_error status (num n) message details) = wrong (λ e. cc)
message_Says (api_error status (arr is) message details) = wrong (λ e. cc)
message_Says (api_error status (obj fs) message details) = wrong (λ e. cc)
message_Says network = wrong (λ e. cc)
message_Says syntax = wrong (λ e. cc)
message_Says type_error = wrong (λ e. cc)

finish_login-SubmitEnds :
    {Net : Type 0} (fetch : Fetch Net) (before : Storage) (f : Login) (a : App) (o : Outcome Json)
    (w : World Net)
    → Leaves before (o, w)
    → SubmitEnds before f a o
        (finish_login fetch (record f { error = none; busy = true }, a) (o, w))
unfolding finish_login refused
finish_login-SubmitEnds fetch before f a (returned body) w left =
    admitted left (load_user-Settled fetch a w)
finish_login-SubmitEnds fetch before f a (threw e) w left = turned_away left (message_Says e)

-- Whatever the network does, a sign-in ends in one of two ways. If `login` returns, the form is
-- free and without an error, and the user is loaded with the token of the reply, as far as storage
-- keeps it: signed in, or anonymous with no token. If it throws, the form is free, keeps the login
-- and the password, and says that there were too many attempts if the code of the error is
-- rate_limited, and else that the login or the password is wrong; the application and the storage
-- are as they were.
pub handle_submit-SubmitEnds :
    {Net : Type 0} (fetch : Fetch Net) (f : Login) (a : App) (w : World Net)
    → SubmitEnds w.storage f a (login fetch f.email f.password w).0 (handle_submit fetch (f, a) w)
unfolding handle_submit
handle_submit-SubmitEnds fetch f a w =
    let (o, w') = login fetch f.email f.password w in
    finish_login-SubmitEnds fetch w.storage f a o w' (login-Leaves fetch f.email f.password w)
