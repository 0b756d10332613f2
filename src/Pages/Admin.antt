-- ===== src/Pages/Admin.antt =====
-- web/src/pages/Admin.tsx: the accounts of the panel. Each handler is split at its calls. The
-- limits in the form are natural numbers.
pub mod View
pub mod Running
pub mod Laws
pub mod Overlaps
use mirocraft.Prelude.{
  ℕ, Bool, true, false, not, List, [], ◌∷◌, ◌++◌, Option, none, some, ◌==◌, if◌then◌else◌, Text,
  codes, is_empty, decimal, trim,
}
use mirocraft.Api.Json.{Json}
use mirocraft.Api.Types.{User, Role, admin, user}
use mirocraft.Api.Http.{Failure, Outcome, returned, threw}
use mirocraft.Api.Endpoint.{Endpoint}
use mirocraft.Api.Accounts.{NewUser, UserPatch, create_user, list_users, patch_user, delete_user}
use mirocraft.Pages.Report.{report}

pub record UserForm : Type 0 where
  pub email : Text
  pub password : Text
  pub role : Role
  pub max_servers : ℕ
  pub max_ram_mb : ℕ

abbrev pub empty_form : UserForm
empty_form = record { email = []; password = []; role = user; max_servers = 0; max_ram_mb = 0 }

pub record Admin : Type 0 where
  pub users : List User
  pub loading : Bool
  pub error : Option Json
  pub notice : Option Text
  pub busy : Option Text
  pub form : UserForm

-- The fields of the form.
pub data Field : Type 0 where
  email_typed password_typed : Text → Field
  role_picked : Role → Field
  servers_typed ram_typed : ℕ → Field

abbrev change_form : Field → UserForm → UserForm
change_form (email_typed email) f = record f { email = email }
change_form (password_typed password) f = record f { password = password }
change_form (role_picked role) f = record f { role = role }
change_form (servers_typed n) f = record f { max_servers = n }
change_form (ram_typed n) f = record f { max_ram_mb = n }

unfoldable pub change_field : Field → Admin → Admin
change_field field s = record s { form = change_form field s.form }

-- What comes behind a call: nothing, the end of an action, or that and the notice of a new password.
pub data After : Type 0 where
  shown freed : After
  announced : (email : Text) → After

pub data Job : Type 0 where
  list : After → Job
  create : (form : UserForm) → Job
  change : (id : Text) → UserPatch → After → Job
  delete : (id : Text) → Job

abbrev pub Reply : Job → Type 0
Reply (list after) = List User
Reply job = Unit

abbrev new_user : UserForm → NewUser
new_user f = record {
  email = trim f.email;
  password = f.password;
  role = f.role;
  max_servers = some f.max_servers;
  max_ram_mb = some f.max_ram_mb;
}

unfoldable pub endpoint_of : Job → Endpoint
unfolding trim
endpoint_of (list after) = list_users
endpoint_of (create form) = create_user (new_user form)
endpoint_of (change id body after) = patch_user id body
endpoint_of (delete id) = delete_user id

unfoldable pub finish : After → Admin → Admin
finish shown s = s
finish freed s = record s { busy = none }
finish (announced email) s = record s {
  busy = none;
  notice = some (codes "Пароль для " ++ email ++ codes " изменён");
}

-- `reload` up to its call.
abbrev pub reload : After → Admin → Admin × List Job
reload after s = (record s { loading = true }, list after ∷ [])

unfoldable pub handle_create : Admin → Admin × List Job
handle_create s =
    (record s { busy = some (codes "new"); error = none; notice = none }, create s.form ∷ [])

abbrev busy_with : Text → Job → Admin → Admin × List Job
busy_with id job s = (record s { busy = some id; error = none }, job ∷ [])

abbrev pub no_patch : UserPatch
no_patch = record {
  role = none;
  blocked = none;
  password = none;
  max_servers = none;
  max_ram_mb = none;
}

abbrev other_role : Role → Role
other_role admin = user
other_role user = admin

-- The buttons of a row.
pub data Action : Type 0 where
  reset_password change_role change_blocked remove : Action

-- A press, with what `window.prompt` and `window.confirm` gave.
unfoldable pub press : Action → User → Option Text → Bool → Admin → Admin × List Job
press reset_password u none sure s = (s, [])
press reset_password u (some password) sure s =
    if is_empty password
    then (s, [])
    else busy_with u.id
        (change u.id (record no_patch { password = some password }) (announced u.email)) s
press change_role u typed sure s =
    busy_with u.id (change u.id (record no_patch { role = some (other_role u.role) }) freed) s
press change_blocked u typed sure s =
    busy_with u.id (change u.id (record no_patch { blocked = some (not u.blocked) }) freed) s
press remove u typed sure s = if sure then busy_with u.id (delete u.id) s else (s, [])

abbrev created : UserForm → Admin → Admin
created form s = record s {
  notice = some (codes "Учётная запись " ++ trim form.email ++ codes " создана");
  form = empty_form;
}

unfoldable pub succeed : (job : Job) → Reply job → Admin → Admin × List Job
unfolding finish trim
succeed (list after) users s =
    (finish after (record s { users = users; error = none; loading = false }), [])
succeed (create form) reply s = reload freed (created form s)
succeed (change id body after) reply s = reload after s
succeed (delete id) reply s = reload freed s

abbrev failed : Failure → Text → Admin → Admin
failed e fallback s = record s { error = some (report e fallback) }

unfoldable pub fail : Job → Failure → Admin → Admin
unfolding finish
fail (list after) e s =
    finish after (failed e (codes "Не удалось прочитать список") (record s { loading = false }))
fail (create form) e s = finish freed (failed e (codes "Не удалось создать учётную запись") s)
fail (change id body after) e s =
    finish after (failed e (codes "Не удалось изменить учётную запись") s)
fail (delete id) e s = finish freed (failed e (codes "Не удалось удалить") s)

unfoldable pub settle : (job : Job) → Outcome (Reply job) → Admin → Admin × List Job
unfolding succeed fail
settle job (returned reply) s = succeed job reply s
settle job (threw e) s = (fail job e s, [])

-- The controls of the page, with what the dialogs gave.
pub data Event : Type 0 where
  filled : Field → Event
  create_submitted : Event
  pressed : (action : Action) → (of : User) → (typed : Option Text) → (sure : Bool) → Event

unfoldable pub handle : Event → Admin → Admin × List Job
unfolding change_field handle_create press
handle (filled field) s = (change_field field s, [])
handle create_submitted s = handle_create s
handle (pressed action u typed sure) s = press action u typed sure s

pub data Outside : Type 0 where
  opened : Outside

unfoldable pub happen : Outside → Admin → Admin × List Job
happen opened s = reload shown s

abbrev limit : ℕ → Text → List Text
limit n unit = if n == 0 then [] else (decimal n ++ unit) ∷ []

abbrev join_dots : List Text → Text
join_dots [] = codes "без лимитов"
join_dots (t ∷ []) = t
join_dots (t ∷ u ∷ ts) = t ++ codes " · " ++ join_dots (u ∷ ts)

unfoldable pub format_limits : User → Text
format_limits u =
    join_dots (limit u.max_servers (codes " серв.") ++ limit u.max_ram_mb (codes " МБ"))
