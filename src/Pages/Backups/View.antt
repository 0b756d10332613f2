-- ===== src/Pages/Backups/View.antt =====
-- web/src/pages/ServerBackups.tsx: what the page shows.
use mirocraft.Prelude.{
  ℕ, Bool, true, false, not, ◌||◌, ◌++◌, Option, none, length, ◌==◌, if◌then◌else◌, Text, codes,
  is_empty, decimal,
}
use mirocraft.Api.Backups.{Backup, BackupState, BackupSchedule, pending, running, done, failed}
use mirocraft.Pages.Ui.{
  View, ◌⊕◌, text, raw, button, checkbox, input, when, either, when_some, when_error, each, given,
  notice_view,
}
use mirocraft.Pages.Backups.{
  Backups, Draft, Event, save_pressed, create_pressed, restore_pressed, delete_pressed,
  download_pressed, drafted, format_size, schedule_changed,
}

unfoldable pub state_label : BackupState → Text
state_label pending = codes "в очереди"
state_label running = codes "снимается…"
state_label done = codes "готов"
state_label failed = codes "не удался"

abbrev pub is_done : BackupState → Bool
is_done done = true
is_done state = false

abbrev preset : Draft → Text → Text → View Event
preset draft label cron = button label false (λ x. drafted (record draft { cron = cron }))

unfoldable pub presets_view : Draft → View Event
presets_view draft =
    preset draft (codes "Каждый день в 4:00") (codes "0 4 * * *")
    ⊕ preset draft (codes "Каждые 6 часов") (codes "0 */6 * * *")
    ⊕ preset draft (codes "Каждый понедельник в 5:00") (codes "0 5 * * 1")

-- `next_run_at && enabled && …`
abbrev next_run : BackupSchedule → Option Text
next_run schedule = if schedule.enabled then given schedule.next_run_at else none

-- The browser's: how it writes a date, how `toFixed` prints, and what `Number` makes of a field.
module _ (format_date : Text → Text) (to_fixed : ℕ → ℕ → ℕ → Text) (number : Text → ℕ) where
  -- The server runs: a restore onto it is not offered.
  unfoldable pub row_view : (server_runs busy : Bool) → Backup → View Event
  row_view server_runs busy b =
      text (format_date b.created_at)
      ⊕ text (if is_empty b.note then codes "—" else b.note)
      ⊕ text (if is_done b.state then format_size to_fixed b.size_bytes else codes "—")
      ⊕ text (state_label b.state)
      ⊕ when (is_done b.state) (
          button (codes "Скачать") false (λ x. download_pressed b)
          ⊕ button (codes "Восстановить") (busy || server_runs) (λ x. restore_pressed b x.typed))
      ⊕ button (codes "Удалить") busy (λ x. delete_pressed b x.sure)

  unfoldable pub list_view : Bool → Backups → View Event
  list_view server_runs s =
      text (codes "Бэкапы (" ++ decimal (length s.backups) ++ codes ")")
      ⊕ button (codes "Снять бэкап") s.busy (λ x. create_pressed x.typed)
      ⊕ either (length s.backups == 0) (text (codes "Бэкапов пока нет")) (
          text (codes "Когда")
          ⊕ text (codes "Пометка")
          ⊕ text (codes "Размер")
          ⊕ text (codes "Состояние")
          ⊕ each (row_view server_runs s.busy) s.backups)

  unfoldable pub runs_view : BackupSchedule → View Event
  runs_view schedule =
      when_some (next_run schedule) (λ time. text (codes "Следующий запуск: " ++ format_date time))
      ⊕ when_some (given schedule.last_run_at)
          (λ time. text (codes "Последний: " ++ format_date time))

  unfoldable pub draft_view : Backups → Draft → View Event
  draft_view s draft =
      checkbox draft.enabled false (λ on. drafted (record draft { enabled = on }))
      ⊕ text (codes "Снимать бэкапы по расписанию")
      ⊕ text (codes "Cron")
      ⊕ input draft.cron false (λ cron. drafted (record draft { cron = cron }))
      ⊕ presets_view draft
      ⊕ text (codes "Хранить последних")
      ⊕ input (decimal draft.keep_last) false
          (λ value. drafted (record draft { keep_last = number value }))
      ⊕ text (codes "старые удаляются автоматически")
      ⊕ button (codes "Сохранить расписание") (not (schedule_changed s) || s.busy)
          (λ x. save_pressed)
      ⊕ when_some s.schedule runs_view

  unfoldable pub view : Bool → Backups → View Event
  view server_runs s =
      when_error s.error (λ message. raw message)
      ⊕ notice_view s.error s.notice
      ⊕ list_view server_runs s
      ⊕ text (codes "Расписание")
      ⊕ when_some s.draft (draft_view s)
