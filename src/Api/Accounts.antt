-- ===== src/Api/Accounts.antt =====
-- web/src/lib/api.ts: auth, users, administration, tokens, chat bots and linked accounts.
pub mod Laws
use mirocraft.Prelude.{Bool, ℕ, List, [], ◌∷◌, ◌++◌, Option, none, some, Text, codes}
use mirocraft.Api.Json.{Json, str, boolean, num, arr, texts, object, optional, entry}
use mirocraft.Api.Session.{set_token}
use mirocraft.Api.Http.{
  Fetch, Call, returned, ◌>>=◌, and_then, World, finally, get, post, put, patch, delete,
}
use mirocraft.Api.Endpoint.{Endpoint, perform, calls, sends, lists, member_of}
use mirocraft.Api.Types.{Role, admin, user}

-- The token of a reply, which the client takes to be a text; `setToken` of a missing one removes
-- the stored token.
abbrev pub token_of : Json → Option Text
token_of (str t) = some t
token_of other = none

abbrev pub store_token : {Net : Type 0} → Option Text → World Net → World Net
store_token t w = record w { storage = set_token t w.storage }

abbrev pub login_endpoint : Text → Text → Endpoint
login_endpoint email password =
    sends post (codes "/auth/login")
      (object ((codes "email", str email) ∷ (codes "password", str password) ∷ []))

abbrev pub logout_endpoint : Endpoint
logout_endpoint = calls post (codes "/auth/logout")

-- `setToken(body.token); return body;`, which throws if the reply has no body.
unfoldable pub keep_login : {Net : Type 0} → Json → Call Net Json
keep_login body w =
    and_then (member_of (codes "token") body, w)
      (λ token w'. (returned body, store_token (token_of token) w'))

module _ {Net : Type 0} (fetch : Fetch Net) where
  unfoldable pub login : Text → Text → Call Net Json
  login email password = perform fetch (login_endpoint email password) >>= keep_login

  unfoldable pub logout : Call Net Json
  logout = finally (perform fetch logout_endpoint) (store_token none)

unfoldable pub me : Endpoint
me = calls get (codes "/users/me")

pub record MePatch : Type 0 where
  pub email : Option Text
  pub password : Option Text
  pub old_password : Option Text
  pub theme : Option Text

unfoldable pub update_me : MePatch → Endpoint
update_me p = sends patch (codes "/users/me") (
    object (
      optional (codes "email") str p.email
      ++ optional (codes "password") str p.password
      ++ optional (codes "old_password") str p.old_password
      ++ optional (codes "theme") str p.theme))

unfoldable pub list_users : Endpoint
list_users = lists (codes "/admin/users")

abbrev role_name : Role → Json
role_name admin = str (codes "admin")
role_name user = str (codes "user")

pub record NewUser : Type 0 where
  pub email : Text
  pub password : Text
  pub role : Role
  pub max_servers : Option ℕ
  pub max_ram_mb : Option ℕ

unfoldable pub create_user : NewUser → Endpoint
create_user u = sends post (codes "/admin/users") (
    object (
      entry (codes "email") (str u.email)
      ++ entry (codes "password") (str u.password)
      ++ entry (codes "role") (role_name u.role)
      ++ optional (codes "max_servers") num u.max_servers
      ++ optional (codes "max_ram_mb") num u.max_ram_mb))

pub record UserPatch : Type 0 where
  pub role : Option Role
  pub blocked : Option Bool
  pub password : Option Text
  pub max_servers : Option ℕ
  pub max_ram_mb : Option ℕ

unfoldable pub patch_user : Text → UserPatch → Endpoint
patch_user id p = sends patch (codes "/admin/users/" ++ id) (
    object (
      optional (codes "role") role_name p.role
      ++ optional (codes "blocked") boolean p.blocked
      ++ optional (codes "password") str p.password
      ++ optional (codes "max_servers") num p.max_servers
      ++ optional (codes "max_ram_mb") num p.max_ram_mb))

unfoldable pub delete_user : Text → Endpoint
delete_user id = calls delete (codes "/admin/users/" ++ id)

unfoldable pub list_tokens : Endpoint
list_tokens = lists (codes "/auth/tokens")

unfoldable pub create_api_token : Text → List Text → Endpoint
create_api_token name scopes =
    sends post (codes "/auth/tokens")
      (object ((codes "name", str name) ∷ (codes "scopes", arr (texts scopes)) ∷ []))

unfoldable pub delete_api_token : Text → Endpoint
delete_api_token id = calls delete (codes "/auth/tokens/" ++ id)

pub data BotProvider : Type 0 where
  discord telegram : BotProvider

abbrev provider_name : BotProvider → Text
provider_name discord = codes "discord"
provider_name telegram = codes "telegram"

pub data BotStatus : Type 0 where
  off connecting connected failed : BotStatus

pub record BotSettings : Type 0 where
  pub provider : BotProvider
  pub configured : Bool
  pub token_hint : Text
  pub enabled : Bool
  pub running : Bool
  pub status : BotStatus
  pub error : Option Text
  pub account : Option Text
  pub updated_at : Text

unfoldable pub list_bots : Endpoint
list_bots = lists (codes "/admin/bots")

unfoldable pub save_bot : BotProvider → Option Text → Option Bool → Endpoint
save_bot provider token enabled =
    sends put (codes "/admin/bots/" ++ provider_name provider)
      (object (optional (codes "token") str token ++ optional (codes "enabled") boolean enabled))

unfoldable pub delete_bot : BotProvider → Endpoint
delete_bot provider = calls delete (codes "/admin/bots/" ++ provider_name provider)

pub record Integration : Type 0 where
  pub provider : BotProvider
  pub external_id : Text
  pub created_at : Text

unfoldable pub list_integrations : Endpoint
list_integrations = lists (codes "/integrations")

unfoldable pub create_link_code : BotProvider → Endpoint
create_link_code provider =
    calls post (codes "/integrations/" ++ provider_name provider ++ codes "/code")

unfoldable pub unlink_integration : BotProvider → Endpoint
unlink_integration provider = calls delete (codes "/integrations/" ++ provider_name provider)
