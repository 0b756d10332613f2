-- ===== src/Pages/Backups/OneAction.antt =====
-- web/src/pages/ServerBackups.tsx: the page runs one action at a time.
use mirocraft.Prelude.{◌≡◌, ℕ, ◌+◌, Bool, true, false, List, Option, none, some, Text, arith}
use mirocraft.Api.Http.{Outcome, returned, threw}
use mirocraft.Pages.Flight.{actions, weight}
use mirocraft.Pages.Ui.{Only-Offers}
use mirocraft.Pages.Run.{Actions, Balanced, busy_count}
use mirocraft.Pages.Backups.{
  Backups, Draft, Event, Outside, opened, timer, Job, list, load_schedule, create, restore, delete,
  download, save_schedule, Reply, handle, happen, settle, handle_create, handle_restore,
  handle_delete, handle_save_schedule, succeed, fail,
}
use mirocraft.Pages.Backups.Offered.{
  Open, view-Open, saving, creating, restoring, deleting, downloading, drafting,
}
use mirocraft.Pages.Backups.Running.{Setting, page}

abbrev pub is_action : Job → Bool
is_action (list awaited) = awaited
is_action load_schedule = false
is_action (download id) = false
is_action job = true

abbrev pub is_busy : Backups → Bool
is_busy s = s.busy

module _ (e : Setting) where
  abbrev Fair : Backups → Backups × List Job → Type 0
  Fair s after = Balanced (page e) is_action is_busy s after

  save-Fair :
      (draft : Option Draft) (s : Backups) → s.busy ≡ false → Fair s (handle_save_schedule draft s)
  unfolding handle_save_schedule actions
  save-Fair none s free = rw free (omega arith)
  save-Fair (some draft) s free = rw free (omega arith)

  create-Fair : (note : Option Text) (s : Backups) → s.busy ≡ false → Fair s (handle_create note s)
  unfolding handle_create actions
  create-Fair none s free = omega arith
  create-Fair (some note) s free = rw free (omega arith)

  pub handle-Fair :
      (s : Backups) {event : Event} → Open e.server_runs s event → Fair s (handle event s)
  unfolding handle handle_restore handle_delete actions
  handle-Fair s (saving changed free) = save-Fair s.draft s free
  handle-Fair s (creating note free) = create-Fair note s free
  handle-Fair s (restoring b none finished free still) = omega arith
  handle-Fair s (restoring b (some typed) finished free still) = ground arith
  handle-Fair s (deleting b true free) = ground arith
  handle-Fair s (deleting b false free) = omega arith
  handle-Fair s (downloading b finished) = omega arith
  handle-Fair s (drafting draft) = omega arith

  pub happen-Fair : (what : Outside) (s : Backups) → Fair s (happen what s)
  unfolding happen actions
  happen-Fair opened s = omega arith
  happen-Fair timer s = ground arith

  pub settle-Fair :
      (job : Job) (outcome : Outcome (Reply job)) (s : Backups) (n : ℕ)
      → weight is_action job + n ≡ busy_count (page e) s.busy
      → actions is_action (settle e.format_date e.server_runs job outcome s).1 + n
        ≡ busy_count (page e) (settle e.format_date e.server_runs job outcome s).0.busy
  unfolding settle actions succeed fail
  settle-Fair (list true) (returned reply) s n h = ground arith
  settle-Fair (list false) (returned reply) s n h = ground arith
  settle-Fair load_schedule (returned reply) s n h = ground arith
  settle-Fair (create note) (returned reply) s n h = ground arith
  settle-Fair (restore id) (returned reply) s n h = ground arith
  settle-Fair (delete id) (returned reply) s n h = ground arith
  settle-Fair (download id) (returned reply) s n h = ground arith
  settle-Fair (save_schedule draft) (returned reply) s n h = ground arith
  settle-Fair (list true) (threw failure) s n h = ground arith
  settle-Fair (list false) (threw failure) s n h = ground arith
  settle-Fair load_schedule (threw failure) s n h = ground arith
  settle-Fair (create note) (threw failure) s n h = ground arith
  settle-Fair (restore id) (threw failure) s n h = ground arith
  settle-Fair (delete id) (threw failure) s n h = ground arith
  settle-Fair (download id) (threw failure) s n h = ground arith
  settle-Fair (save_schedule draft) (threw failure) s n h = ground arith

  abbrev pub page_actions : Actions (page e)
  page_actions = record {
    is_action = is_action;
    is_busy = is_busy;
    offered = λ s event o. handle-Fair s (
        Only-Offers (Open e.server_runs s)
          (view-Open e.format_date e.to_fixed e.number e.server_runs s) o);
    outside = happen-Fair;
    settled = settle-Fair;
  }
