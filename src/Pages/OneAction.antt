-- ===== src/Pages/OneAction.antt =====
-- web/src/pages: the pages that run one action at a time.
use mirocraft.Prelude.{ℕ, Bool, Text}
use mirocraft.Pages.Run.{Page, Running, Reach, Actions, RunsOne, Reach-RunsOne}
use mirocraft.Pages.Connect
use mirocraft.Pages.Backups
use mirocraft.Pages.Catalog
use mirocraft.Pages.Modpacks
use mirocraft.Pages.Options
use mirocraft.Pages.Settings

-- What the browser does for the pages, and whether the server runs.
pub record Browser : Type 0 where
  pub format_date : Text → Text
  pub to_fixed : ℕ → ℕ → ℕ → Text
  pub number : Text → ℕ
  pub lower : Text → Text
  pub server_runs : Bool

-- The pages of a server, and the theme editor.
pub data Tab : Type 0 where
  connect backups catalog modpacks options settings : Tab

abbrev backups_setting : Browser → Backups.Running.Setting
backups_setting w = record {
  format_date = w.format_date;
  to_fixed = w.to_fixed;
  number = w.number;
  server_runs = w.server_runs;
}

abbrev pub page_of : Browser → Tab → Page
page_of w connect = Connect.OneAction.page
page_of w backups = Backups.Running.page (backups_setting w)
page_of w catalog = Catalog.OneAction.page w.to_fixed w.lower
page_of w modpacks = Modpacks.OneAction.page w.to_fixed w.format_date w.server_runs
page_of w options = Options.OneAction.page w.number
page_of w settings = Settings.OneAction.page w.number

-- The calls for which a page is busy, and when it is.
abbrev pub actions_of : (w : Browser) (tab : Tab) → Actions (page_of w tab)
actions_of w connect = Connect.OneAction.page_actions
actions_of w backups = Backups.OneAction.page_actions (backups_setting w)
actions_of w catalog = Catalog.OneAction.page_actions w.to_fixed w.lower
actions_of w modpacks = Modpacks.OneAction.page_actions w.to_fixed w.format_date w.server_runs
actions_of w options = Options.OneAction.page_actions w.number
actions_of w settings = Settings.OneAction.page_actions w.number

-- Whoever uses what one of these pages shows, whenever its timers fire, and in whatever order its
-- calls end and whatever they give: the page is busy exactly while a call of an action is under way,
-- and then one is, if that was so at first.
pub Reach-one_action :
    (w : Browser) (tab : Tab) {from to : Running (page_of w tab)}
    → RunsOne (page_of w tab) (actions_of w tab) from
    → Reach (page_of w tab) from to
    → RunsOne (page_of w tab) (actions_of w tab) to
Reach-one_action w tab h r = Reach-RunsOne (page_of w tab) (actions_of w tab) h r
