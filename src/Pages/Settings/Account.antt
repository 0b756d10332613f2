-- ===== src/Pages/Settings/Account.antt =====
-- web/src/pages/Settings.tsx: the form that changes the password.
use mirocraft.Prelude.{Bool, not, ◌&&◌, [], Option, none, some, Text, codes, is_empty}
use mirocraft.Api.Json.{Json}
use mirocraft.Api.Http.{Outcome, returned, threw}
use mirocraft.Api.Endpoint.{Endpoint}
use mirocraft.Api.Accounts.{update_me}
use mirocraft.Pages.Report.{report}

-- `AccountSection`
pub record AccountForm : Type 0 where
  pub old_password : Text
  pub password : Text
  pub message : Option Text
  pub error : Option Json

unfoldable pub type_passwords : (old_password password : Text) → AccountForm → AccountForm
type_passwords old_password password f = record f {
  old_password = old_password;
  password = password;
}

abbrev pub can_submit : AccountForm → Bool
can_submit f = not (is_empty f.old_password) && not (is_empty f.password)

unfoldable pub submit : AccountForm → AccountForm × Endpoint
submit f = (
  record f { error = none; message = none },
  update_me (record {
    email = none;
    password = some f.password;
    old_password = some f.old_password;
    theme = none;
  }),
)

unfoldable pub submitted : Outcome Json → AccountForm → AccountForm
submitted (returned body) f = record f {
  message = some (codes "Пароль изменён");
  old_password = [];
  password = [];
}
submitted (threw e) f = record f { error = some (report e (codes "Не удалось изменить пароль")) }
