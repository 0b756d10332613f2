-- ===== src/Console.antt =====
-- web/src/pages/ServerDetail.tsx: the console of a server, its power buttons and its deletion. The
-- page of one server: what React does when the path's id changes is left out. The events of a socket
-- are those of the one that is attached; one that was detached only tells, late, that it has closed.
pub mod Bound
pub mod Keys
pub mod Laws
pub mod Sending
pub mod View
pub mod Shown
use mirocraft.Prelude.{
  trim, Bool, true, false, ℕ, suc, ◌+◌, ◌-◌, ◌==◌, List, [], ◌∷◌, ◌++◌, ◌||◌, Option, none, some,
  length, drop, ltb, ◌===◌, if◌then◌else◌, Text, codes, is_empty,
}
use mirocraft.Pages.Report.{report}
use mirocraft.Api.Types.{Server, ServerStatus, running, starting, stopping}
use mirocraft.Api.Json.{Json, str, object, entry}
use mirocraft.Api.Http.{Outcome, returned, threw, Failure, api_error}
use mirocraft.Api.Endpoint.{Endpoint}
use mirocraft.Api.Servers.{PowerAction, power, send_command, delete_server}

pub record Line : Type 0 where
  pub ts : Text
  pub stream : Text
  pub text : Text

pub record Frame : Type 0 where
  pub key : ℕ
  pub line : Line

-- `socketRef` and what is on its way to it: nothing, a socket that is asked for, or one that is
-- attached, open or not.
pub data Link : Type 0 where
  detached awaited : Link
  attached : (ready : Bool) → Link

pub record Console : Type 0 where
  pub server : Option Server
  pub error : Option Json
  pub lines : List Frame
  pub next_key : ℕ
  pub link : Link
  pub connected : Bool
  -- The sockets that were detached and have not told yet that they are closed.
  pub closing : ℕ
  pub command : Text

abbrev pub max_rendered_lines : ℕ
max_rendered_lines = 1000

abbrev with_console : ServerStatus → Bool
with_console running = true
with_console starting = true
with_console stopping = true
with_console rest = false

unfoldable pub console_available : Option Server → Bool
console_available none = false
console_available (some s) = with_console s.status

-- The last lines are kept.
unfoldable pub push : Line → Console → Console
push line c =
    let next = c.lines ++ record { key = c.next_key; line = line } ∷ [] in
    record c {
      lines =
          if ltb max_rendered_lines (length next)
          then drop (length next - max_rendered_lines) next
          else next;
      next_key = suc c.next_key;
    }

abbrev to_close : Link → ℕ
to_close (attached ready) = 1
to_close rest = 0

-- The effect on `consoleAvailable`: its clean-up, and what it does next. The socket that the
-- clean-up closes keeps its `onclose`.
unfoldable pub attach : Bool → Console → Console
attach true c = record c { lines = []; link = awaited }
attach false c = record c {
  link = detached;
  connected = false;
  closing = c.closing + to_close c.link;
}

unfoldable pub set_server : Option Server → Console → Console
unfolding attach
set_server server c =
    let before = console_available c.server in
    let after = console_available server in
    let next = record c { server = server } in
    if (if before then after else (if after then false else true)) then next else attach after next

-- `reload`, once the call has ended; every error that it throws has a message.
unfoldable pub reloaded : (Failure → Text) → Outcome Server → Console → Console
unfolding set_server
reloaded message (returned server) c = set_server (some server) c
reloaded message (threw (api_error status code text details)) c = record c { error = some text }
reloaded message (threw e) c = record c { error = some (str (message e)) }

-- The socket that was asked for comes, or does not. One that comes too late is closed.
unfoldable pub socket_came : Bool → Console → Console
socket_came came c = elim c.link [
  | detached ↦ c
  | awaited ↦ record c { link = if came then attached false else detached }
  | attached ready ↦ c
]

unfoldable pub socket_switched : Bool → Console → Console
socket_switched ready c = elim c.link [
  | detached ↦ c
  | awaited ↦ c
  | attached before ↦ record c { link = attached ready; connected = ready }
]

-- `onclose` of a socket that was detached before; it is not guarded by `closed`.
unfoldable pub old_closes : Console → Console
old_closes c = if c.closing == 0 then c else record c { connected = false; closing = c.closing - 1 }

pub data Message : Type 0 where
  line_frame : Line → Message
  status_frame : ServerStatus → Message
  error_frame : (code text : Text) → Message
  other_frame : Message

abbrev with_status : ServerStatus → Option Server → Option Server
with_status status none = none
with_status status (some s) = some (record s { status = status })

-- The end of the server is no error worth a line.
abbrev expected : Text → Bool
expected code = code === codes "server_not_found" || code === codes "server_not_running"

-- `socket.onmessage`; the time is the browser's.
unfoldable pub receive : Text → Message → Console → Console
unfolding push set_server
receive now (line_frame l) c = push l c
receive now (status_frame s) c = set_server (with_status s c.server) c
receive now (error_frame code text) c =
    let shown = push (record { ts = now; stream = codes "stderr"; text = codes "! " ++ text }) c in
    if expected code then c else shown
receive now other_frame c = c

unfoldable pub handle_power : Text → PowerAction → Console → Console × Endpoint
handle_power id action c = (record c { error = none }, power id action)

unfoldable pub power_done : Outcome Json → Console → Console
power_done (returned body) c = c
power_done (threw e) c = record c { error = some (report e (codes "Команда не выполнена")) }

-- The way that a command takes.
pub data Sent : Type 0 where
  nowhere : Sent
  by_socket : Json → Sent
  by_call : Endpoint → Sent

abbrev command_frame : Text → Json
command_frame text =
    object (entry (codes "type") (str (codes "command")) ++ entry (codes "text") (str text))

abbrev is_open : Link → Bool
is_open (attached ready) = ready
is_open rest = false

unfoldable pub handle_command : Text → Console → Console × Sent
handle_command id c =
    if is_empty (trim c.command)
    then (c, nowhere)
    else if is_open c.link
    then (record c { command = [] }, by_socket (command_frame (trim c.command)))
    else (c, by_call (send_command id (trim c.command)))

unfoldable pub command_done : Outcome Json → Console → Console
command_done (returned body) c = record c { command = [] }
command_done (threw e) c = record c { error = some (report e (codes "Команда не отправлена")) }

-- `window.prompt` gives what was typed, if it was not cancelled.
unfoldable pub ask_delete : Text → Option Text → Option Server → Option Endpoint
ask_delete id typed none = none
ask_delete id none (some server) = none
ask_delete id (some name) (some server) =
    if name === server.name then some (delete_server id server.name) else none

unfoldable pub handle_delete : Text → Option Text → Console → Option Endpoint
unfolding ask_delete
handle_delete id typed c = ask_delete id typed c.server

-- True means that the page leaves for the list of servers.
unfoldable pub delete_done : Outcome Json → Console → Console × Bool
delete_done (returned body) c = (c, true)
delete_done (threw e) c =
    (record c { error = some (report e (codes "Не удалось удалить сервер")) }, false)

-- What happens to the page.
pub data Event : Type 0 where
  polled : Outcome Server → Event
  came switched : Bool → Event
  old_closed : Event
  received : Text → Message → Event
  powered : PowerAction → Event
  power_ended command_ended delete_ended : Outcome Json → Event
  typed : Text → Event
  submitted : Event

unfoldable pub step : Text → (Failure → Text) → Event → Console → Console
unfolding reloaded socket_came socket_switched old_closes receive handle_power power_done
    handle_command command_done delete_done
step id message (polled result) c = reloaded message result c
step id message (came ok) c = socket_came ok c
step id message (switched ready) c = socket_switched ready c
step id message old_closed c = old_closes c
step id message (received now m) c = receive now m c
step id message (powered action) c = (handle_power id action c).0
step id message (power_ended result) c = power_done result c
step id message (command_ended result) c = command_done result c
step id message (delete_ended result) c = (delete_done result c).0
step id message (typed text) c = record c { command = text }
step id message submitted c = (handle_command id c).0
