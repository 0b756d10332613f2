-- ===== src/Servers.antt =====
-- web/src/pages/Servers.tsx: the list of servers with its polls, the card of a server, and the form
-- that creates one.
pub mod Chart
pub mod Form
pub mod View
pub mod Shown
pub mod Running
pub mod Creations
use mirocraft.Prelude.{
  Bool, true, false, ℕ, ◌%◌, ◌+◌, List, [], ◌∷◌, ◌++◌, Option, none, some, get_or_else, find, any,
  last_of, leb, ◌&&◌, ◌==◌, ◌===◌, if◌then◌else◌, Text, codes, is_empty, decimal,
}
use mirocraft.Prelude.Dict.{lookup, insert}
use mirocraft.Pages.Report.{report}
use mirocraft.Api.Types.{Server}
use mirocraft.Api.Json.{Json, str}
use mirocraft.Api.Http.{Outcome, returned, threw, Failure, api_error}
use mirocraft.Api.Endpoint.{Endpoint}
use mirocraft.Api.Servers.{PowerAction, power, create_server}
use mirocraft.Api.Themes.{Core, CoreVersion, release, snapshot}

-- Samples of the load of each server, in hundredths of a percent.
abbrev pub History : Type 0
History = List (Text × List ℕ)

pub record ServerList : Type 0 where
  pub servers : List Server
  pub loading : Bool
  pub error : Option Json
  pub history : History

-- `HISTORY`
abbrev pub history_length : ℕ
history_length = 24

-- `server.metrics?.cpu_percent ?? 0`
abbrev pub cpu_of : Server → ℕ
cpu_of s = elim s.metrics [ none ↦ 0 | some m ↦ m.cpu_percent ]

abbrev pub samples : Text → History → List ℕ
samples id h = get_or_else (lookup id h) []

-- The loop over the list, which builds `next` from `current`.
unfoldable pub grow : History → List Server → History → History
unfolding insert
grow current [] next = next
grow current (s ∷ list) next =
    grow current list
      (insert s.id (last_of history_length (samples s.id current ++ cpu_of s ∷ [])) next)

unfoldable pub next_history : List Server → History → History
unfolding grow
next_history list current = grow current list []

-- `reload`, once the call has ended. Every error has a message; the browser's are a parameter.
unfoldable pub list_reloaded : (Failure → Text) → Outcome (List Server) → ServerList → ServerList
unfolding next_history
list_reloaded message (returned list) p = record {
  servers = list;
  loading = false;
  error = none;
  history = next_history list p.history;
}
list_reloaded message (threw (api_error status code text details)) p = record p {
  error = some text;
  loading = false;
}
list_reloaded message (threw e) p = record p { error = some (str (message e)); loading = false }

-- The card: its buttons wait for their call.
pub record Card : Type 0 where
  pub busy : Bool
  pub error : Option Json

unfoldable pub card_power : Text → PowerAction → Card → Card × Endpoint
card_power id action c = (record { busy = true; error = none }, power id action)

-- True asks for the list again.
unfoldable pub card_done : Outcome Json → Card → Card × Bool
card_done (returned body) c = (record c { busy = false }, true)
card_done (threw e) c =
    (record { busy = false; error = some (report e (codes "Команда не выполнена")) }, false)

-- Russian counts.
unfoldable pub plural : ℕ → Text → Text → Text → Text
plural n one few many =
    let with_form : Text → Text = λ form. decimal n ++ codes " " ++ form in
    if leb 11 (n % 100) && leb (n % 100) 14
    then with_form many
    else if n % 10 == 1
    then with_form one
    else if leb 2 (n % 10) && leb (n % 10) 4
    then with_form few
    else with_form many

-- The form. A request for the versions of a core carries the number of the effect that made it: the
-- clean-up of that effect cancels it.
pub record CreateForm : Type 0 where
  pub name : Text
  pub core : Text
  pub version : Text
  pub ram : ℕ
  pub eula : Bool
  pub error : Option Json
  pub busy : Bool
  pub cores : List Core
  pub versions : List CoreVersion
  pub versions_error : Option Json
  pub effect : ℕ

-- The form as it opens, when its first effect has asked for the versions of its core.
abbrev pub opened_form : CreateForm
opened_form = record {
  name = [];
  core = codes "paper";
  version = [];
  ram = 2048;
  eula = false;
  error = none;
  busy = false;
  cores = [];
  versions = [];
  versions_error = none;
  effect = 1;
}

-- The effect on `core`, which asks for the versions of a core that is not empty.
unfoldable pub choose_core : Text → CreateForm → CreateForm × Option ℕ
choose_core core f =
    let next = f.effect + 1 in
    if core === f.core
    then (f, none)
    else if is_empty core
    then (record f { core = core; effect = next }, none)
    else (record f { core = core; versions = []; versions_error = none; effect = next }, some next)

abbrev pub same_core : Text → Core → Bool
same_core core c = c.id === core

abbrev first_unless : Bool → List Core → CreateForm → CreateForm × Option ℕ
first_unless listed [] f = (f, none)
first_unless true (c ∷ list) f = (f, none)
first_unless false (c ∷ list) f = choose_core c.id f

-- The list of cores comes once; `core` is what it was when the form was opened.
unfoldable pub cores_came : Text → Outcome (List Core) → CreateForm → CreateForm × Option ℕ
unfolding choose_core
cores_came core (returned list) f =
    first_unless (any (same_core core) list) list (record f { cores = list })
cores_came core (threw e) f = (record f { cores = [] }, none)

abbrev is_release : CoreVersion → Bool
is_release v = elim v.channel [ release ↦ true | snapshot ↦ false ]

abbrev head? : List CoreVersion → Option CoreVersion
head? [] = none
head? (v ∷ list) = some v

abbrev or_first : Option CoreVersion → List CoreVersion → Option CoreVersion
or_first (some v) list = some v
or_first none list = head? list

abbrev pick_version : Option CoreVersion → CreateForm → CreateForm
pick_version none f = f
pick_version (some v) f = record f { version = v.id }

-- The newest release, or else the first version.
unfoldable pub versions_arrive : Outcome (List CoreVersion) → CreateForm → CreateForm
versions_arrive (returned list) f =
    pick_version (or_first (find is_release list) list) (record f { versions = list })
versions_arrive (threw e) f = record f {
  versions_error = some (report e (codes "Не удалось получить список версий"));
}

unfoldable pub versions_came : ℕ → Outcome (List CoreVersion) → CreateForm → CreateForm
unfolding versions_arrive
versions_came effect result f = if effect == f.effect then versions_arrive result f else f

unfoldable pub submit : CreateForm → CreateForm × Endpoint
submit f = (
  record f { error = none; busy = true },
  create_server (record {
    name = f.name;
    core = f.core;
    version = f.version;
    ram_mb = f.ram;
    port = none;
    eula_accepted = f.eula;
  }),
)

-- True closes the form.
unfoldable pub submitted : Outcome Json → CreateForm → CreateForm × Bool
submitted (returned body) f = (record f { busy = false }, true)
submitted (threw e) f =
    (record f { busy = false; error = some (report e (codes "Не удалось создать сервер")) }, false)
