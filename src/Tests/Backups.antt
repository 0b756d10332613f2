-- ===== src/Tests/Backups.antt =====
-- The backups and the modpack of a server at concrete inputs.
use mirocraft.Prelude.{
  ◌≡◌, refl, false, [], ◌∷◌, ◌++◌, none, some, inl, inr, All, ◌===◌, codes, decimal,
}
use mirocraft.Api.Backups.{Backup, done}
use mirocraft.Pages.Backups.{Backups, restore, Event, restore_pressed, handle}
use mirocraft.Pages.Backups.View.{view, list_view, row_view}
use mirocraft.Pages.Backups.Running.{Setting}
use mirocraft.Pages.Ui.{Offers, when, when_some, when_error, either, each, notice_view}
use mirocraft.Servers.{plural}
use mirocraft.Pages.Modpacks.{plural_files}
use mirocraft.Pages.Modpacks.Counts.{plural-plural_files}
use mirocraft.Pages.Backups.Restoring.{Allowed, step-Allowed}

abbrev nightly : Backup
nightly = record {
  id = codes "b1";
  server_id = codes "s1";
  note = [];
  state = done;
  size_bytes = 1000;
  created_at = [];
}

abbrev page : Backups
page = record {
  backups = nightly ∷ [];
  schedule = none;
  draft = none;
  busy = false;
  error = none;
  notice = none;
}

abbrev press : Event
press = restore_pressed nightly (some (codes "RESTORE"))

abbrev still : Setting
still = record {
  format_date = λ date. date;
  to_fixed = λ n d k. decimal n;
  number = λ text. 0;
  server_runs = false;
}

asked : (handle press page).1 ≡ restore (codes "b1") ∷ []
unfolding handle codes ◌===◌
asked = refl

-- The row of the backup is the first of the page, and its second button the one of the restore.
press_offered : Offers press (view still.format_date still.to_fixed still.number false page)
unfolding view list_view row_view when_error when_some notice_view either when each Offers
press_offered = inr (
    inr (
      inl (
        inr (
          inr (
            inr (
              inr (
                inr (
                  inr (
                    inl (
                      inr (
                        inr (
                          inr (
                            inr (
                              inl (
                                inr (
                                  refl,
                                  record { typed = some (codes "RESTORE"); sure = false },
                                  refl,
                                ))))))))))))))))

step-Allowed_example : All (Allowed false page press) (handle press page).1
step-Allowed_example = (step-Allowed still page).0 press press_offered

counted :
    plural 22 (codes "файл") (codes "файла") (codes "файлов")
    ≡ decimal 22 ++ codes " " ++ plural_files 22
counted = plural-plural_files 22
