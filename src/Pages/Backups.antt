-- ===== src/Pages/Backups.antt =====
-- web/src/pages/ServerBackups.tsx: the backups of a server and their schedule. Each handler is
-- split at its calls; how the browser writes a date is a parameter.
pub mod View
pub mod Offered
pub mod Running
pub mod Restoring
pub mod OneAction
use mirocraft.Prelude.{
  ℕ, ◌*◌, Bool, true, false, not, ◌||◌, List, [], ◌∷◌, ◌++◌, Option, none, some, any, ltb, ◌==◌,
  ◌===◌, if◌then◌else◌, Text, codes,
}
use mirocraft.Api.Json.{Json}
use mirocraft.Api.Http.{Failure, Outcome, returned, threw}
use mirocraft.Api.Endpoint.{Endpoint}
use mirocraft.Api.Backups.{
  Backup, BackupState, pending, running, BackupSchedule, list_backups, create_backup,
  restore_backup, delete_backup, put_backup_schedule, get_backup_schedule,
}
use mirocraft.Pages.Report.{report}
use mirocraft.Pages.Ui.{given}

pub record Draft : Type 0 where
  pub cron : Text
  pub keep_last : ℕ
  pub enabled : Bool

pub record Backups : Type 0 where
  pub backups : List Backup
  pub schedule : Option BackupSchedule
  pub draft : Option Draft
  pub busy : Bool
  pub error : Option Json
  pub notice : Option Text

-- A listing that an action waits for is its last call. A download bypasses `request`.
pub data Job : Type 0 where
  list : (awaited : Bool) → Job
  load_schedule : Job
  create : (note : Text) → Job
  restore delete download : (backup_id : Text) → Job
  save_schedule : Draft → Job

abbrev pub Reply : Job → Type 0
Reply (list awaited) = List Backup
Reply load_schedule = BackupSchedule
Reply (save_schedule draft) = BackupSchedule
Reply job = Unit

unfoldable pub endpoint_of : Text → Job → Option Endpoint
endpoint_of id (list awaited) = some (list_backups id)
endpoint_of id load_schedule = some (get_backup_schedule id)
endpoint_of id (create note) = some (create_backup id (some note))
endpoint_of id (restore backup_id) = some (restore_backup id backup_id)
endpoint_of id (delete backup_id) = some (delete_backup id backup_id)
endpoint_of id (download backup_id) = none
endpoint_of id (save_schedule d) = some (put_backup_schedule id d.cron d.keep_last d.enabled)

-- The name that a backup is saved under.
unfoldable pub archive_name : Text → Text → Text
archive_name id backup_id = id ++ codes "-" ++ backup_id ++ codes ".zip"

abbrev is_pending_state : BackupState → Bool
is_pending_state pending = true
is_pending_state running = true
is_pending_state state = false

-- The list is polled while this holds.
unfoldable pub is_pending : Backups → Bool
is_pending s = any (λ (b : Backup). is_pending_state b.state) s.backups

abbrev act : Job → Backups → Backups × List Job
act job s = (record s { busy = true; error = none }, job ∷ [])

unfoldable pub handle_create : Option Text → Backups → Backups × List Job
handle_create none s = (s, [])
handle_create (some note) s = act (create note) s

unfoldable pub handle_restore : Backup → Option Text → Backups → Backups × List Job
handle_restore b none s = (s, [])
handle_restore b (some typed) s =
    if typed === codes "RESTORE" then act (restore b.id) s else (s, [])

unfoldable pub handle_delete : Backup → Bool → Backups → Backups × List Job
handle_delete b sure s = if sure then act (delete b.id) s else (s, [])

unfoldable pub handle_download : Backup → Backups → Backups × List Job
handle_download b s = (record s { error = none }, download b.id ∷ [])

unfoldable pub handle_save_schedule : Option Draft → Backups → Backups × List Job
handle_save_schedule none s = (s, [])
handle_save_schedule (some draft) s = act (save_schedule draft) s

abbrev is_changed_from : Draft → Option BackupSchedule → Bool
is_changed_from d none = true
is_changed_from d (some s) =
    not (d.cron === s.cron)
    || not (d.keep_last == s.keep_last)
    || not (if d.enabled then s.enabled else not s.enabled)

unfoldable pub schedule_changed : Backups → Bool
schedule_changed s = elim s.draft [ none ↦ false | some draft ↦ is_changed_from draft s.schedule ]

abbrev freed_if : Bool → Backups → Backups
freed_if awaited s = record s { busy = if awaited then false else s.busy }

abbrev draft_of : BackupSchedule → Draft
draft_of s = record { cron = s.cron; keep_last = s.keep_last; enabled = s.enabled }

abbrev default_draft : Draft
default_draft = record { cron = codes "0 4 * * *"; keep_last = 7; enabled = false }

abbrev created_notice : Bool → Text
created_notice true =
    codes
      "Бэкап начат. Сервер попросят сбросить мир на диск, чтобы архив не поймал его на середине записи."
created_notice false = codes "Бэкап начат."

module _ (format_date : Text → Text) where
  abbrev saved_notice : BackupSchedule → Text
  saved_notice saved = elim (if saved.enabled then given saved.next_run_at else none) [
    | none ↦ codes "Расписание сохранено."
    | some time ↦ codes "Расписание сохранено. Следующий запуск: " ++ format_date time
  ]

  -- What follows a call that has succeeded, on a page that knows whether the server runs.
  unfoldable pub succeed : Bool → (job : Job) → Reply job → Backups → Backups × List Job
  succeed server_runs (list awaited) items s = (freed_if awaited (record s { backups = items }), [])
  succeed server_runs load_schedule loaded s =
      (record s { schedule = some loaded; draft = some (draft_of loaded) }, [])
  succeed server_runs (create note) reply s =
      (record s { notice = some (created_notice server_runs) }, list true ∷ [])
  succeed server_runs (restore id) reply s =
      (record s { notice = some (codes "Восстановление запущено."); busy = false }, [])
  succeed server_runs (delete id) reply s = (s, list true ∷ [])
  succeed server_runs (download id) reply s = (s, [])
  succeed server_runs (save_schedule draft) saved s =
      (record s { schedule = some saved; notice = some (saved_notice saved); busy = false }, [])

abbrev failed_with : Failure → Text → Backups → Backups
failed_with e fallback s = record s { error = some (report e fallback) }

-- A schedule that cannot be read is taken for none.
unfoldable pub fail : Job → Failure → Backups → Backups
fail (list awaited) e s = freed_if awaited (failed_with e (codes "Не удалось прочитать бэкапы") s)
fail load_schedule e s = record s { draft = some default_draft }
fail (create note) e s = freed_if true (failed_with e (codes "Не удалось начать бэкап") s)
fail (restore id) e s = freed_if true (failed_with e (codes "Не удалось восстановить") s)
fail (delete id) e s = freed_if true (failed_with e (codes "Не удалось удалить") s)
fail (download id) e s = failed_with e (codes "Не удалось скачать") s
fail (save_schedule draft) e s =
    freed_if true (failed_with e (codes "Не удалось сохранить расписание") s)

unfoldable pub settle :
    (Text → Text) → Bool → (job : Job) → Outcome (Reply job) → Backups → Backups × List Job
unfolding succeed fail
settle format_date server_runs job (returned reply) s = succeed format_date server_runs job reply s
settle format_date server_runs job (threw e) s = (fail job e s, [])

-- The controls of the page, with what the dialogs gave.
pub data Event : Type 0 where
  save_pressed : Event
  create_pressed : (note : Option Text) → Event
  restore_pressed : (backup : Backup) → (typed : Option Text) → Event
  delete_pressed : (backup : Backup) → (sure : Bool) → Event
  download_pressed : (backup : Backup) → Event
  drafted : Draft → Event

unfoldable pub handle : Event → Backups → Backups × List Job
unfolding handle_create handle_restore handle_delete handle_download handle_save_schedule
handle save_pressed s = handle_save_schedule s.draft s
handle (create_pressed note) s = handle_create note s
handle (restore_pressed b typed) s = handle_restore b typed s
handle (delete_pressed b sure) s = handle_delete b sure s
handle (download_pressed b) s = handle_download b s
handle (drafted draft) s = (record s { draft = some draft }, [])

-- The page is opened, and a timer looks again.
pub data Outside : Type 0 where
  opened timer : Outside

unfoldable pub happen : Outside → Backups → Backups × List Job
unfolding is_pending
happen opened s = (s, list false ∷ load_schedule ∷ [])
happen timer s = (s, if is_pending s then list false ∷ [] else [])

-- `toFixed` is the browser's, as in the catalogue.
unfoldable pub format_size : (ℕ → ℕ → ℕ → Text) → ℕ → Text
format_size to_fixed bytes =
    if ltb bytes 1073741824
    then to_fixed bytes 1048576 1 ++ codes " МБ"
    else to_fixed bytes 1073741824 2 ++ codes " ГБ"
