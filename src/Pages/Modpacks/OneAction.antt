-- ===== src/Pages/Modpacks/OneAction.antt =====
-- web/src/pages/ServerModpacks.tsx: the page runs one action at a time, and none while a modpack is
-- being installed or the server runs.
use mirocraft.Prelude.{
  ◌≡◌, refl, ℕ, ◌+◌, Bool, true, false, List, [], ◌∷◌, Option, none, some, Text, arith,
}
use mirocraft.Api.Types.{Task, TaskStatus, queued, running, done, failed}
use mirocraft.Api.Catalog.{CatalogProject, InstalledModpack}
use mirocraft.Api.Http.{Outcome, returned, threw}
use mirocraft.Pages.Flight.{actions, weight}
use mirocraft.Pages.Ui.{
  Only, Offers, Only-Offers, both, a_text, a_raw, a_button, an_input, Only-when, Only-when_some,
  Only-when_error, Only-each, Only-notice,
}
use mirocraft.Pages.Run.{Page, Actions, Balanced, busy_count}
use mirocraft.Pages.Search.{Request}
use mirocraft.Pages.Modpacks.{
  Modpacks, Job, preview, install, relist, poll, search, Reply, Event, install_pressed, query_typed,
  Outside, opened, search_due, poll_due, handle, happen, request_job, poll_job, poll_tick,
  handle_install, is_installing, polled, succeed, fail, settle,
}
use mirocraft.Pages.Modpacks.View.{
  is_busy, view, installed_view, hits_view, hit_view, progress_view,
}

abbrev pub is_action : Job → Bool
is_action (preview project) = true
is_action (install project version_id) = true
is_action job = false

-- When the page offers what.
pub data Open (server_runs : Bool) (s : Modpacks) : Event → Type 0 where
  installing :
      (project : CatalogProject)
      → is_busy s.busy ≡ false
      → is_installing s.task ≡ false
      → server_runs ≡ false
      → Open server_runs s (install_pressed project)
  typing : (query : Text) → Open server_runs s (query_typed query)

-- The browser's `toFixed` and dates, and whether the server runs.
module _ (to_fixed : ℕ → ℕ → ℕ → Text) (format_date : Text → Text) (server_runs : Bool) where
  abbrev pub page : Page
  page = record {
    State = Modpacks;
    Event = Event;
    Outside = Outside;
    Job = Job;
    Answer = λ job. Outcome (Reply job) × Bool;
    view = view to_fixed format_date server_runs;
    handle = handle;
    happen = happen;
    settle = λ job answer s. settle job answer.0 answer.1 s;
  }

  module _ (s : Modpacks) where
    hits-Open :
        (hits : Option (List CatalogProject))
        → Only (Open server_runs s) (hits_view to_fixed format_date server_runs s hits)
    unfolding hits_view hit_view
    hits-Open none = a_text
    hits-Open (some []) = a_text
    hits-Open (some (hit ∷ hits)) =
        Only-each (hit_view to_fixed format_date server_runs s) (hit ∷ hits) (λ project.
          both a_text (
            both a_text (
              both a_text (
                a_button
                  (λ free x. installing project (ground arith) (ground arith) (ground arith))))))

    installed-Open :
        (pack : Option InstalledModpack)
        → Only (Open server_runs s) (installed_view to_fixed format_date pack)
    unfolding installed_view
    installed-Open none = a_text
    installed-Open (some pack) = both a_text (both (Only-when _ a_text) (both a_text a_text))

    view-Open : Only (Open server_runs s) (view to_fixed format_date server_runs s)
    unfolding view progress_view
    view-Open = both (Only-when_error s.box.error _ (λ j. a_raw)) (
        both (Only-notice s.box.error s.notice) (
          both (installed-Open s.installed) (
            both (Only-when _ a_text) (
              both (Only-when _ (Only-when_some s.task _ (λ task. a_text))) (
                both a_text (
                  both (an_input (λ free t. typing t)) (
                    both (Only-when _ a_text)
                      (both a_text (both (hits-Open s.box.hits) a_text)))))))))

  abbrev busy : Modpacks → Bool
  busy s = is_busy s.busy

  abbrev Fair : Modpacks → Modpacks × List Job → Type 0
  Fair s after = Balanced page is_action busy s after

  handle-Fair : (s : Modpacks) {event : Event} → Open server_runs s event → Fair s (handle event s)
  unfolding handle handle_install actions
  handle-Fair s (installing project free idle still) = rw free (omega arith)
  handle-Fair s (typing query) = omega arith

  request-Fair :
      (request : Option Request) (n : ℕ) → actions is_action (request_job request) + n ≡ n
  unfolding actions
  request-Fair none n = omega arith
  request-Fair (some (seq, request)) n = omega arith

  poll_task-Fair :
      (task : Option Task) (s : Modpacks) → s.task ≡ task → Fair s (s, poll_job (poll_tick s))
  unfolding poll_tick is_installing actions
  poll_task-Fair none s e = ground (arith, e)
  poll_task-Fair (some task) s e = ground (arith, e)

  pub happen-Fair : (what : Outside) (s : Modpacks) → Fair s (happen what s)
  unfolding happen actions
  happen-Fair opened s = omega arith
  happen-Fair search_due s = request-Fair s.box.timer (busy_count page (busy s))
  happen-Fair poll_due s = poll_task-Fair s.task s refl

  polled-Fair :
      (latest : Task) (status : TaskStatus) (s : Modpacks) (n : ℕ)
      → n ≡ busy_count page (busy s)
      → actions is_action (polled latest status s).1 + n
        ≡ busy_count page (busy (polled latest status s).0)
  unfolding polled actions
  polled-Fair latest queued s n h = ground arith
  polled-Fair latest running s n h = ground arith
  polled-Fair latest done s n h = ground arith
  polled-Fair latest failed s n h = ground arith

  pub settle-Fair :
      (job : Job) (answer : Outcome (Reply job) × Bool) (s : Modpacks) (n : ℕ)
      → weight is_action job + n ≡ busy_count page (busy s)
      → actions is_action (settle job answer.0 answer.1 s).1 + n
        ≡ busy_count page (busy (settle job answer.0 answer.1 s).0)
  unfolding settle succeed fail actions
  settle-Fair relist (returned pack, sure) s n h = ground arith
  settle-Fair relist (threw e, sure) s n h = ground arith
  settle-Fair (preview project) (returned reply, true) s n h = ground arith
  settle-Fair (preview project) (returned reply, false) s n h = ground arith
  settle-Fair (preview project) (threw e, sure) s n h = ground arith
  settle-Fair (install project version_id) (returned id, sure) s n h = ground arith
  settle-Fair (install project version_id) (threw e, sure) s n h = ground arith
  settle-Fair (poll id) (returned latest, sure) s n h =
      polled-Fair latest latest.status s n (omega (arith, h))
  settle-Fair (poll id) (threw e, sure) s n h = ground arith
  settle-Fair (search seq request) (returned items, sure) s n h = ground arith
  settle-Fair (search seq request) (threw e, sure) s n h = ground arith

  pub offered-Fair :
      (s : Modpacks) (event : Event)
      → Offers event (view to_fixed format_date server_runs s)
      → Fair s (handle event s)
  offered-Fair s event o = handle-Fair s (Only-Offers (Open server_runs s) (view-Open s) o)

  abbrev pub page_actions : Actions page
  page_actions = record {
    is_action = is_action;
    is_busy = λ (s : Modpacks). is_busy s.busy;
    offered = offered-Fair;
    outside = happen-Fair;
    settled = settle-Fair;
  }
