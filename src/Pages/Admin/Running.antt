-- ===== src/Pages/Admin/Running.antt =====
-- web/src/pages/Admin.tsx: the page with its calls under way.
use mirocraft.Prelude.{ℕ, Text}
use mirocraft.Api.Http.{Outcome}
use mirocraft.Pages.Run.{Page}
use mirocraft.Pages.Admin.{Admin, Event, Outside, Job, Reply, handle, happen, settle}
use mirocraft.Pages.Admin.View.{view}

-- What the browser does, and the id of the administrator.
pub record Setting : Type 0 where
  pub format_date : Text → Text
  pub number : Text → ℕ
  pub me : Text

abbrev pub page : Setting → Page
page e = record {
  State = Admin;
  Event = Event;
  Outside = Outside;
  Job = Job;
  Answer = λ job. Outcome (Reply job);
  view = view e.format_date e.number e.me;
  handle = handle;
  happen = happen;
  settle = settle;
}
