-- ===== src/Pages/Backups/Offered.antt =====
-- web/src/pages/ServerBackups.tsx: when the page offers what.
use mirocraft.Prelude.{◌≡◌, refl, ℕ, Bool, true, false, Option, Text, arith}
use mirocraft.Api.Backups.{Backup, BackupState, pending, running, done, failed}
use mirocraft.Pages.Ui.{
  Only, both, a_text, a_raw, a_button, a_checkbox, an_input, Only-when_true, Only-either,
  Only-when_some, Only-when_error, Only-each, Only-notice,
}
use mirocraft.Pages.Backups.{
  Backups, Draft, Event, save_pressed, create_pressed, restore_pressed, delete_pressed,
  download_pressed, drafted, schedule_changed,
}
use mirocraft.Pages.Backups.View.{
  is_done, view, presets_view, row_view, list_view, runs_view, draft_view,
}

-- The events that the page may offer, with what holds when it does.
pub data Open (server_runs : Bool) (s : Backups) : Event → Type 0 where
  saving : schedule_changed s ≡ true → s.busy ≡ false → Open server_runs s save_pressed
  creating : (note : Option Text) → s.busy ≡ false → Open server_runs s (create_pressed note)
  restoring :
      (b : Backup) (typed : Option Text)
      → b.state ≡ done
      → s.busy ≡ false
      → server_runs ≡ false
      → Open server_runs s (restore_pressed b typed)
  deleting :
      (b : Backup) (sure : Bool) → s.busy ≡ false → Open server_runs s (delete_pressed b sure)
  downloading : (b : Backup) → b.state ≡ done → Open server_runs s (download_pressed b)
  drafting : (draft : Draft) → Open server_runs s (drafted draft)

done_state : (state : BackupState) → is_done state ≡ true → state ≡ done
done_state pending h = cc
done_state running h = cc
done_state done h = refl
done_state failed h = cc

module _ (format_date : Text → Text) (to_fixed : ℕ → ℕ → ℕ → Text) (number : Text → ℕ) where
  module _ (server_runs : Bool) (s : Backups) where
    row-Open :
        (b : Backup)
        → Only (Open server_runs s) (row_view format_date to_fixed number server_runs s.busy b)
    unfolding row_view
    row-Open b = both a_text (
        both a_text (
          both a_text (
            both a_text (
              both
                (Only-when_true (is_done b.state) _ (λ finished.
                  both (a_button (λ free x. downloading b (done_state b.state finished))) (
                    a_button (λ free x.
                      restoring b x.typed (done_state b.state finished) (ground arith)
                        (ground arith)))))
                (a_button (λ free x. deleting b x.sure free))))))

    list-Open : Only (Open server_runs s) (list_view format_date to_fixed number server_runs s)
    unfolding list_view
    list-Open = both a_text (
        both (a_button (λ free x. creating x.typed free)) (
          Only-either _ a_text (
            both a_text (
              both a_text (
                both a_text (
                  both a_text (
                    Only-each (row_view format_date to_fixed number server_runs s.busy) s.backups
                      row-Open)))))))

    presets-Open : (draft : Draft) → Only (Open server_runs s) (presets_view draft)
    unfolding presets_view
    presets-Open draft =
        both (a_button (λ free x. drafting _))
          (both (a_button (λ free x. drafting _)) (a_button (λ free x. drafting _)))

    draft-Open :
        (draft : Draft) → Only (Open server_runs s) (draft_view format_date to_fixed number s draft)
    unfolding draft_view runs_view
    draft-Open draft = both (a_checkbox (λ free on. drafting _)) (
        both a_text (
          both a_text (
            both (an_input (λ free t. drafting _)) (
              both (presets-Open draft) (
                both a_text (
                  both (an_input (λ free t. drafting _)) (
                    both a_text (
                      both (a_button (λ free x. saving (ground arith) (ground arith))) (
                        Only-when_some s.schedule _ (λ schedule.
                          both (Only-when_some _ _ (λ time. a_text))
                            (Only-when_some _ _ (λ time. a_text))))))))))))

    pub view-Open : Only (Open server_runs s) (view format_date to_fixed number server_runs s)
    unfolding view
    view-Open = both (Only-when_error s.error _ (λ j. a_raw)) (
        both (Only-notice s.error s.notice)
          (both list-Open (both a_text (Only-when_some s.draft _ draft-Open))))
