-- ===== src/Api/Backups.antt =====
-- web/src/lib/api.ts: backups and their schedule.
use mirocraft.Prelude.{Bool, ℕ, [], ◌++◌, Option, get_or_else, Text, codes}
use mirocraft.Api.Json.{str, boolean, num, object, entry}
use mirocraft.Api.Http.{get, post, put, delete}
use mirocraft.Api.Endpoint.{Endpoint, calls, sends, lists, server_path}

pub data BackupState : Type 0 where
  pending running done failed : BackupState

pub record Backup : Type 0 where
  pub id : Text
  pub server_id : Text
  pub note : Text
  pub state : BackupState
  pub size_bytes : ℕ
  pub created_at : Text

pub record BackupSchedule : Type 0 where
  pub cron : Text
  pub keep_last : ℕ
  pub enabled : Bool
  pub last_run_at : Option Text
  pub next_run_at : Option Text

unfoldable pub list_backups : Text → Endpoint
list_backups id = lists (server_path id (codes "/backups"))

unfoldable pub create_backup : Text → Option Text → Endpoint
create_backup id note =
    sends post (server_path id (codes "/backups"))
      (object (entry (codes "note") (str (get_or_else note []))))

abbrev backup_path : Text → Text → Text → Text
backup_path id backup_id rest = server_path id (codes "/backups/" ++ backup_id ++ rest)

unfoldable pub delete_backup : Text → Text → Endpoint
delete_backup id backup_id = calls delete (backup_path id backup_id [])

unfoldable pub restore_backup : Text → Text → Endpoint
restore_backup id backup_id = calls post (backup_path id backup_id (codes "/restore"))

unfoldable pub get_backup_schedule : Text → Endpoint
get_backup_schedule id = calls get (server_path id (codes "/backups/schedule"))

unfoldable pub put_backup_schedule : Text → Text → ℕ → Bool → Endpoint
put_backup_schedule id cron keep_last enabled =
    sends put (server_path id (codes "/backups/schedule")) (
      object (
        entry (codes "cron") (str cron)
        ++ entry (codes "keep_last") (num keep_last)
        ++ entry (codes "enabled") (boolean enabled)))
