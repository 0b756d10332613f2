-- ===== src/Api/Endpoint.antt =====
-- web/src/lib/api.ts: the form that its functions share. Each calls `request` once, with a path and
-- an init, and returns the parsed body or a member of it; so a function is modelled by what it
-- gives to `request` and what it returns of the body.
pub mod Laws
pub mod Routes
use mirocraft.Prelude.{◌++◌, Text, codes}
use mirocraft.Api.Json.{Json, undefined, null, property}
use mirocraft.Api.Uri.{encode_uri_component}
use mirocraft.Api.Http.{
  Fetch, Call, Outcome, returned, threw, type_error, RequestInit, ◌>>=◌, request, Method, plain,
  with_body,
}

pub data Reply : Type 0 where
  whole : Reply
  item : Text → Reply

pub record Endpoint : Type 0 where
  pub path : Text
  pub init : RequestInit
  pub reply : Reply

-- `body.name` throws on null and undefined.
abbrev pub member_of : Text → Json → Outcome Json
member_of name undefined = threw type_error
member_of name null = threw type_error
member_of name body = returned (property name body)

abbrev pub read_reply : Reply → Json → Outcome Json
read_reply whole body = returned body
read_reply (item name) body = member_of name body

module _ {Net : Type 0} (fetch : Fetch Net) where
  unfoldable pub perform : Endpoint → Call Net Json
  unfolding request property
  perform e = request fetch e.path e.init >>= λ body w. (read_reply e.reply body, w)

-- How the functions are written down.
abbrev pub calls : Method → Text → Endpoint
calls m path = record { path = path; init = plain m; reply = whole }

abbrev pub sends : Method → Text → Json → Endpoint
sends m path body = record { path = path; init = with_body m body; reply = whole }

abbrev pub lists : Text → Endpoint
lists path = record { path = path; init = plain Method.get; reply = item (codes "items") }

abbrev pub server_path : Text → Text → Text
server_path id rest = codes "/servers/" ++ id ++ rest

-- `?name=${encodeURIComponent(value)}`
abbrev pub query : Text → Text → Text
query name value = codes "?" ++ name ++ codes "=" ++ encode_uri_component value
