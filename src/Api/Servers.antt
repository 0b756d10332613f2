-- ===== src/Api/Servers.antt =====
-- web/src/lib/api.ts: servers, tasks, the console, and the settings of a server.
use mirocraft.Prelude.{Bool, ℕ, List, [], ◌++◌, Option, if◌then◌else◌, ◌===◌, Text, codes, decimal}
use mirocraft.Api.Json.{str, boolean, num, obj, object, optional, entry, record_of, to_text}
use mirocraft.Api.Uri.{encode_uri_component}
use mirocraft.Api.Http.{api_base, Fetch, Call, ◌>>=◌, pure, get, post, patch, delete}
use mirocraft.Api.Endpoint.{Endpoint, perform, calls, sends, lists, member_of, server_path, query}

unfoldable pub list_servers : Bool → Endpoint
list_servers metrics = lists (codes "/servers" ++ (if metrics then codes "?metrics=1" else []))

unfoldable pub get_server : Text → Endpoint
get_server id = calls get (server_path id [])

pub record NewServer : Type 0 where
  pub name : Text
  pub core : Text
  pub version : Text
  pub ram_mb : ℕ
  pub port : Option ℕ
  pub eula_accepted : Bool

unfoldable pub create_server : NewServer → Endpoint
create_server s = sends post (codes "/servers") (
    object (
      entry (codes "name") (str s.name)
      ++ entry (codes "core") (str s.core)
      ++ entry (codes "version") (str s.version)
      ++ entry (codes "ram_mb") (num s.ram_mb)
      ++ optional (codes "port") num s.port
      ++ entry (codes "eula_accepted") (boolean s.eula_accepted)))

unfoldable pub delete_server : Text → Text → Endpoint
delete_server id name = calls delete (server_path id (query (codes "confirm") name))

pub data PowerAction : Type 0 where
  start stop restart kill : PowerAction

abbrev power_name : PowerAction → Text
power_name start = codes "start"
power_name stop = codes "stop"
power_name restart = codes "restart"
power_name kill = codes "kill"

unfoldable pub power : Text → PowerAction → Endpoint
power id action =
    sends post (server_path id (codes "/power"))
      (object (entry (codes "action") (str (power_name action))))

unfoldable pub get_task : Text → Endpoint
get_task id = calls get (codes "/tasks/" ++ id)

unfoldable pub console_history : Text → ℕ → Endpoint
console_history id lines = lists (server_path id (codes "/console/history?lines=" ++ decimal lines))

unfoldable pub send_command : Text → Text → Endpoint
send_command id command =
    sends post (server_path id (codes "/command")) (object (entry (codes "command") (str command)))

abbrev pub console_ticket : Text → Endpoint
console_ticket id = calls post (server_path id (codes "/console/ticket"))

-- `window.location`
pub record Location : Type 0 where
  pub protocol : Text
  pub host : Text

unfoldable pub socket_url : Location → Text → Text → Text
unfolding encode_uri_component
socket_url l id ticket =
    (if l.protocol === codes "https:" then codes "wss" else codes "ws")
    ++ codes "://"
    ++ l.host
    ++ api_base
    ++ codes "/servers/"
    ++ id
    ++ codes "/console?token="
    ++ encode_uri_component ticket

-- The address of the socket that is opened.
module _ {Net : Type 0} (fetch : Fetch Net) where
  unfoldable pub console_socket : Location → Text → Call Net Text
  unfolding perform socket_url to_text
  console_socket l id = do
    body ← perform fetch (console_ticket id)
    ticket ← λ w. (member_of (codes "ticket") body, w)
    pure (socket_url l id (to_text ticket))

pub data SettingKind : Type 0 where
  string int bool enum : SettingKind

pub record Setting : Type 0 where
  pub key : Text
  pub kind : SettingKind
  pub default : Option Text
  pub min : Option ℕ
  pub max : Option ℕ
  pub values : Option (List Text)
  pub note : Option Text

pub record Settings : Type 0 where
  pub values : List (Text × Text)
  pub schema : List Setting
  pub managed : List (Text × Text)
  pub restart_required : Option Bool

unfoldable pub get_settings : Text → Endpoint
get_settings id = calls get (server_path id (codes "/settings"))

unfoldable pub patch_settings : Text → List (Text × Text) → Endpoint
patch_settings id values = sends patch (server_path id (codes "/settings")) (obj (record_of values))

pub record ServerPatch : Type 0 where
  pub name : Option Text
  pub ram_mb : Option ℕ
  pub port : Option ℕ
  pub java_args : Option Text
  pub auto_start : Option Bool
  pub auto_restart : Option Bool
  pub proxy_id : Option Text
  pub crossplay : Option Bool

unfoldable pub patch_server : Text → ServerPatch → Endpoint
patch_server id p = sends patch (server_path id []) (
    object (
      optional (codes "name") str p.name
      ++ optional (codes "ram_mb") num p.ram_mb
      ++ optional (codes "port") num p.port
      ++ optional (codes "java_args") str p.java_args
      ++ optional (codes "auto_start") boolean p.auto_start
      ++ optional (codes "auto_restart") boolean p.auto_restart
      ++ optional (codes "proxy_id") str p.proxy_id
      ++ optional (codes "crossplay") boolean p.crossplay))
