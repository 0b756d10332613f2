-- ===== src/Servers/Running.antt =====
-- web/src/pages/Servers.tsx: the page with its calls under way.
use mirocraft.Prelude.{
  ℕ, ◌+◌, Bool, true, false, List, [], ◌∷◌, Option, none, some, any, filter, ◌==◌, ◌===◌,
  if◌then◌else◌, Text, codes,
}
use mirocraft.Prelude.Dict.{insert}
use mirocraft.Api.Types.{Server}
use mirocraft.Api.Json.{Json}
use mirocraft.Api.Http.{Failure, Outcome, returned}
use mirocraft.Api.Endpoint.{Endpoint}
use mirocraft.Api.Servers.{PowerAction, list_servers}
use mirocraft.Api.Servers
use mirocraft.Api.Themes.{Core, CoreVersion, list_cores, list_core_versions}
use mirocraft.Pages.Run.{Page}
use mirocraft.Servers.{
  ServerList, Card, CreateForm, opened_form, choose_core, cores_came, versions_came, submit,
  submitted, list_reloaded, card_power, card_done,
}
use mirocraft.Servers.Shown.{
  ServersPage, Event, form_toggled, first_pressed, create_pressed, name_typed, core_picked,
  version_typed, ram_typed, eula_checked, power_pressed, card_of, view,
}

-- A call of the form has the number of its opening; the creation keeps the form as it was sent.
pub data Job : Type 0 where
  reload : Job
  cores : (opening : ℕ) → Job
  versions : (opening effect : ℕ) → (core : Text) → Job
  create : (opening : ℕ) → (sent : CreateForm) → Job
  power : (id : Text) → (action : PowerAction) → Job

abbrev pub Reply : Job → Type 0
Reply reload = List Server
Reply (cores opening) = List Core
Reply (versions opening effect core) = List CoreVersion
Reply job = Json

unfoldable pub endpoint_of : Job → Endpoint
unfolding submit
endpoint_of reload = list_servers true
endpoint_of (cores opening) = list_cores
endpoint_of (versions opening effect core) = list_core_versions core
endpoint_of (create opening sent) = (submit sent).1
endpoint_of (power id action) = Servers.power id action

-- The effects of a form that opens ask for the cores and for the versions of its core.
unfoldable pub open_form : ServersPage → ServersPage × List Job
open_form p =
    let opening = p.openings + 1 in
    (
      record p { form = some (opening, opened_form); openings = opening },
      cores opening ∷ versions opening 1 (codes "paper") ∷ [],
    )

abbrev pub request_of : ℕ → Text → Option ℕ → List Job
request_of opening core none = []
request_of opening core (some effect) = versions opening effect core ∷ []

abbrev pub asking : ℕ → ServersPage → CreateForm × Option ℕ → ServersPage × List Job
asking opening p (f, request) =
    (record p { form = some (opening, f) }, request_of opening f.core request)

abbrev filled : ℕ → ServersPage → CreateForm → ServersPage × List Job
filled opening p f = (record p { form = some (opening, f) }, [])

-- What the controls of a form do.
unfoldable pub handle_field : Event → ℕ → CreateForm → ServersPage → ServersPage × List Job
unfolding choose_core submit
handle_field (name_typed t) opening f p = filled opening p (record f { name = t })
handle_field (core_picked core) opening f p = asking opening p (choose_core core f)
handle_field (version_typed t) opening f p = filled opening p (record f { version = t })
handle_field (ram_typed n) opening f p = filled opening p (record f { ram = n })
handle_field (eula_checked b) opening f p = filled opening p (record f { eula = b })
handle_field create_pressed opening f p =
    (record p { form = some (opening, (submit f).0) }, create opening f ∷ [])
handle_field event opening f p = (p, [])

-- `setCreating((v) => !v)`, `setCreating(true)`, and the rest.
unfoldable pub handle_form : Event → Option (ℕ × CreateForm) → ServersPage → ServersPage × List Job
unfolding handle_field open_form
handle_form form_toggled none p = open_form p
handle_form form_toggled (some f) p = (record p { form = none }, [])
handle_form first_pressed none p = open_form p
handle_form first_pressed (some f) p = (p, [])
handle_form event none p = (p, [])
handle_form event (some (opening, f)) p = handle_field event opening f p

abbrev pub with_card : Text → Card → ServersPage → ServersPage
with_card id card p = record p { cards = insert id card p.cards }

unfoldable pub handle : Event → ServersPage → ServersPage × List Job
unfolding handle_form card_power insert
handle (power_pressed id action) p =
    (with_card id (card_power id action (card_of id p.cards)).0 p, power id action ∷ [])
handle event p = handle_form event p.form p

-- The page opens, or its timer fires.
pub data Outside : Type 0 where
  mounted ticked : Outside

unfoldable pub happen : Outside → ServersPage → ServersPage × List Job
happen what p = (p, reload ∷ [])

-- The page before its first list.
abbrev pub opened : ServersPage
opened = record {
  list = record { servers = []; loading = true; error = none; history = [] };
  form = none;
  openings = 0;
  cards = [];
}

-- A card whose server is gone is gone as well.
abbrev is_listed : List Server → Text → Bool
is_listed servers id = any (λ (s : Server). s.id === id) servers

abbrev with_list : ServersPage → ServerList → ServersPage
with_list p list = record p {
  list = list;
  cards = filter (λ card. is_listed list.servers card.0) p.cards;
}

-- The form that an answer is for, if it is still open.
abbrev pub same_form : ℕ → Option (ℕ × CreateForm) → Option CreateForm
same_form opening none = none
same_form opening (some (n, f)) = if n == opening then some f else none

unfoldable pub cores_answered :
    ℕ → Outcome (List Core) → Option CreateForm → ServersPage → ServersPage × List Job
unfolding cores_came
cores_answered opening answer none p = (p, [])
cores_answered opening answer (some f) p = asking opening p (cores_came (codes "paper") answer f)

unfoldable pub versions_answered :
    ℕ → ℕ → Outcome (List CoreVersion) → Option CreateForm → ServersPage → ServersPage × List Job
unfolding versions_came
versions_answered opening effect answer none p = (p, [])
versions_answered opening effect answer (some f) p =
    filled opening p (versions_came effect answer f)

-- `onCreated` closes whichever form is open then.
abbrev is_returned : Outcome Json → Bool
is_returned (returned body) = true
is_returned answer = false

unfoldable pub create_answered :
    ℕ → Outcome Json → Option CreateForm → ServersPage → ServersPage × List Job
unfolding submitted
create_answered opening answer found p =
    if is_returned answer
    then (record p { form = none }, reload ∷ [])
    else elim found [ none ↦ (p, []) | some f ↦ filled opening p (submitted answer f).0 ]

-- A card that is gone keeps nothing of an answer.
abbrev card_answered : Text → Card × Bool → ServersPage → ServersPage × List Job
card_answered id (card, again) p = (
  if is_listed p.list.servers id then with_card id card p else p,
  if again then reload ∷ [] else [],
)

module _ (message : Failure → Text) where
  unfoldable pub settle : (job : Job) → Outcome (Reply job) → ServersPage → ServersPage × List Job
  unfolding list_reloaded cores_answered versions_answered create_answered card_done insert
  settle reload answer p = (with_list p (list_reloaded message answer p.list), [])
  settle (cores opening) answer p = cores_answered opening answer (same_form opening p.form) p
  settle (versions opening effect core) answer p =
      versions_answered opening effect answer (same_form opening p.form) p
  settle (create opening sent) answer p =
      create_answered opening answer (same_form opening p.form) p
  settle (power id action) answer p = card_answered id (card_done answer (card_of id p.cards)) p

  abbrev pub page : (to_fixed : ℕ → ℕ → ℕ → Text) → (number : Text → ℕ) → Page
  page to_fixed number = record {
    State = ServersPage;
    Event = Event;
    Outside = Outside;
    Job = Job;
    Answer = λ job. Outcome (Reply job);
    view = view to_fixed number;
    handle = handle;
    happen = happen;
    settle = settle;
  }
