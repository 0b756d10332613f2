-- ===== src/Pages/Properties/Running.antt =====
-- web/src/pages/ServerSettings.tsx: the editor with its calls under way.
use mirocraft.Prelude.{Bool, List, [], ◌∷◌, Option, none, some, Text}
use mirocraft.Api.Http.{Outcome}
use mirocraft.Api.Endpoint.{Endpoint}
use mirocraft.Api.Servers.{Settings}
use mirocraft.Pages.Run.{Page}
use mirocraft.Pages.Properties.{
  Values, Editor, Event, load_started, load_ended, save_ended, save_pressed, step, handle_save,
  load_endpoint, save_endpoint,
}
use mirocraft.Pages.Properties.View.{view}

pub data Job : Type 0 where
  load : Job
  save : (changes : Values) → Job

unfoldable pub endpoint_of : Text → Job → Endpoint
endpoint_of id load = load_endpoint id
endpoint_of id (save changes) = save_endpoint id changes

abbrev pub save_jobs : Option Values → List Job
save_jobs none = []
save_jobs (some changes) = save changes ∷ []

unfoldable pub handle : Event → Editor → Editor × List Job
unfolding handle_save step
handle save_pressed e = let (e', changes) = handle_save e in (e', save_jobs changes)
handle event e = (step event e, [])

pub data Outside : Type 0 where
  mounted : Outside

unfoldable pub happen : Outside → Editor → Editor × List Job
happen mounted e = (step load_started e, load ∷ [])

unfoldable pub settle : Job → Outcome Settings → Editor → Editor × List Job
settle load outcome e = (step (load_ended outcome) e, [])
settle (save changes) outcome e = (step (save_ended outcome) e, [])

abbrev pub page : (before : Text → Text → Bool) → (lower : Text → Text) → Page
page before lower = record {
  State = Editor;
  Event = Event;
  Outside = Outside;
  Job = Job;
  Answer = λ job. Outcome Settings;
  view = view before lower;
  handle = handle;
  happen = happen;
  settle = settle;
}
