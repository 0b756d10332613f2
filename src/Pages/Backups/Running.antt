-- ===== src/Pages/Backups/Running.antt =====
-- web/src/pages/ServerBackups.tsx: the page with its calls under way.
use mirocraft.Prelude.{ℕ, Bool, Text}
use mirocraft.Api.Http.{Outcome}
use mirocraft.Pages.Run.{Page}
use mirocraft.Pages.Backups.{Backups, Event, Outside, Job, Reply, handle, happen, settle}
use mirocraft.Pages.Backups.View.{view}

-- What the browser does, and whether the server runs.
pub record Setting : Type 0 where
  pub format_date : Text → Text
  pub to_fixed : ℕ → ℕ → ℕ → Text
  pub number : Text → ℕ
  pub server_runs : Bool

abbrev pub page : Setting → Page
page e = record {
  State = Backups;
  Event = Event;
  Outside = Outside;
  Job = Job;
  Answer = λ job. Outcome (Reply job);
  view = view e.format_date e.to_fixed e.number e.server_runs;
  handle = handle;
  happen = happen;
  settle = settle e.format_date e.server_runs;
}
