-- ===== src/Pages/Options.antt =====
-- web/src/pages/ServerOptions.tsx: what the panel itself keeps of a server. The numbers of the form
-- are natural ones.
pub mod Changes
pub mod View
pub mod OneAction
use mirocraft.Prelude.{
  ℕ, Bool, true, false, not, ◌&&◌, ◌||◌, List, [], ◌∷◌, Option, none, some, get_or_else, any,
  filter, ◌==◌, ◌===◌, if◌then◌else◌, Text, codes, is_empty,
}
use mirocraft.Api.Json.{Json}
use mirocraft.Api.Types.{Server, ServerStatus, running, starting}
use mirocraft.Api.Http.{Failure, Outcome, returned, threw}
use mirocraft.Api.Servers.{ServerPatch, patch_server, list_servers}
use mirocraft.Api.Endpoint.{Endpoint}
use mirocraft.Api.Themes.{Core, list_cores}
use mirocraft.Pages.Report.{report}

pub record Draft : Type 0 where
  pub name : Text
  pub ram_mb : ℕ
  pub port : ℕ
  pub java_args : Text
  pub auto_start : Bool
  pub auto_restart : Bool
  pub proxy_id : Text
  pub crossplay : Bool

pub record Options : Type 0 where
  pub draft : Draft
  pub proxies : List Server
  pub saving : Bool
  pub error : Option Json
  pub notice : Option Text

-- The fields of the form.
pub data Field : Type 0 where
  name_typed args_typed proxy_picked : Text → Field
  ram_typed port_typed : ℕ → Field
  start_ticked restart_ticked crossplay_ticked : Bool → Field

abbrev change_draft : Field → Draft → Draft
change_draft (name_typed name) d = record d { name = name }
change_draft (args_typed args) d = record d { java_args = args }
change_draft (proxy_picked id) d = record d { proxy_id = id }
change_draft (ram_typed n) d = record d { ram_mb = n }
change_draft (port_typed n) d = record d { port = n }
change_draft (start_ticked b) d = record d { auto_start = b }
change_draft (restart_ticked b) d = record d { auto_restart = b }
change_draft (crossplay_ticked b) d = record d { crossplay = b }

unfoldable pub change_field : Field → Options → Options
change_field field o = record o { draft = change_draft field o.draft }

-- The form that shows what the server has, at first and after a reset.
unfoldable pub draft_of : Server → Draft
draft_of s = record {
  name = s.name;
  ram_mb = s.ram_mb;
  port = s.port;
  java_args = s.java_args;
  auto_start = s.auto_start;
  auto_restart = s.auto_restart;
  proxy_id = get_or_else s.proxy_id [];
  crossplay = get_or_else s.crossplay false;
}

-- `===` on Booleans
abbrev pub same_flag : Bool → Bool → Bool
same_flag true b = b
same_flag false b = not b

unfoldable pub is_changed : Draft → Server → Bool
is_changed d s =
    not (d.name === s.name)
    || not (d.ram_mb == s.ram_mb)
    || not (d.port == s.port)
    || not (d.java_args === s.java_args)
    || not (same_flag d.auto_start s.auto_start)
    || not (same_flag d.auto_restart s.auto_restart)
    || not (d.proxy_id === get_or_else s.proxy_id [])
    || not (same_flag d.crossplay (get_or_else s.crossplay false))

-- The proxies that may stand in front of the server: those of a proxy core, but not itself.
unfoldable pub proxies_for : Text → List Server → List Core → List Server
proxies_for id servers cores =
    let is_proxy : Text → Bool =
      λ core. any (λ (c : Core). c.kind === codes "proxy" && c.id === core) cores in
    filter (λ (s : Server). is_proxy s.core && not (s.id === id)) servers

-- The effect of a new name on a form whose name was cleared.
unfoldable pub name_came : Text → Options → Options
name_came name o = record o {
  draft = record o.draft { name = if is_empty o.draft.name then name else o.draft.name };
}

abbrev patch_of : Draft → ServerPatch
patch_of d = record {
  name = some d.name;
  ram_mb = some d.ram_mb;
  port = some d.port;
  java_args = some d.java_args;
  auto_start = some d.auto_start;
  auto_restart = some d.auto_restart;
  proxy_id = some d.proxy_id;
  crossplay = some d.crossplay;
}

abbrev pub runs : ServerStatus → Bool
runs running = true
runs starting = true
runs status = false

-- A save keeps whether the server ran when it was pressed.
pub data Job : Type 0 where
  save : (draft : Draft) → (server_runs : Bool) → Job
  list_all : Job
  list_kinds : List Server → Job

abbrev pub Reply : Job → Type 0
Reply (save draft server_runs) = Server
Reply list_all = List Server
Reply (list_kinds servers) = List Core

unfoldable pub endpoint_of : Text → Job → Endpoint
endpoint_of id (save draft server_runs) = patch_server id (patch_of draft)
endpoint_of id list_all = list_servers false
endpoint_of id (list_kinds servers) = list_cores

unfoldable pub handle_save : Server → Options → Options × List Job
handle_save s o =
    (record o { saving = true; error = none; notice = none }, save o.draft (runs s.status) ∷ [])

unfoldable pub reset : Server → Options → Options
unfolding draft_of
reset s o = record o { draft = draft_of s }

-- The form with the server that the page around it hands to it.
pub record Shown : Type 0 where
  pub server : Server
  pub form : Options

-- The page around the form has a newer server, after a save or a poll of its own.
unfoldable pub server_came : Server → Shown → Shown
unfolding name_came
server_came server s = record {
  server = server;
  form = if server.name === s.server.name then s.form else name_came server.name s.form;
}

abbrev saved_notice : Bool → Text
saved_notice true = codes "Сохранено. Сервер запущен — новые параметры применятся при перезапуске."
saved_notice false = codes "Сохранено."

abbrev with_form : Options → Shown → Shown
with_form o s = record s { form = o }

unfoldable pub succeed : (job : Job) → Reply job → Shown → Shown × List Job
unfolding server_came proxies_for
succeed (save draft server_runs) server s =
    let s' = server_came server s in
    (with_form (record s'.form { notice = some (saved_notice server_runs); saving = false }) s', [])
succeed list_all servers s = (s, list_kinds servers ∷ [])
succeed (list_kinds servers) cores s =
    (with_form (record s.form { proxies = proxies_for s.server.id servers cores }) s, [])

unfoldable pub fail : Job → Failure → Shown → Shown
fail (save draft server_runs) e s =
    with_form
      (record s.form { error = some (report e (codes "Не удалось сохранить")); saving = false }) s
fail list_all e s = with_form (record s.form { proxies = [] }) s
fail (list_kinds servers) e s = with_form (record s.form { proxies = [] }) s

unfoldable pub settle : (job : Job) → Outcome (Reply job) → Shown → Shown × List Job
unfolding succeed fail
settle job (returned reply) s = succeed job reply s
settle job (threw e) s = (fail job e s, [])

-- The controls of the form.
pub data Event : Type 0 where
  filled : Field → Event
  save_pressed reset_pressed : Event

unfoldable pub handle : Event → Shown → Shown × List Job
unfolding change_field handle_save reset
handle (filled field) s = (with_form (change_field field s.form) s, [])
handle save_pressed s = let (o, jobs) = handle_save s.server s.form in (with_form o s, jobs)
handle reset_pressed s = (with_form (reset s.server s.form) s, [])

-- The form is opened, and the page around it polls the server.
pub data Outside : Type 0 where
  opened : Outside
  polled : Server → Outside

unfoldable pub happen : Outside → Shown → Shown × List Job
unfolding server_came
happen opened s = (s, list_all ∷ [])
happen (polled server) s = (server_came server s, [])
