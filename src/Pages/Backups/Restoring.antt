-- ===== src/Pages/Backups/Restoring.antt =====
-- web/src/pages/ServerBackups.tsx: when a restore is asked for.
use mirocraft.Prelude.{
  ◌≡◌, refl, sym, subst, inl, inr, Bool, true, false, [], ◌∷◌, Option, none, some, All, ◌===◌,
  ===_sound, if◌then◌else◌, Bool-cases, Text, codes,
}
use mirocraft.Api.Http.{Outcome, returned, threw}
use mirocraft.Api.Backups.{Backup, done}
use mirocraft.Pages.Ui.{Offers, Only-Offers}
use mirocraft.Pages.Backups.{
  Backups, Job, list, load_schedule, create, restore, delete, download, save_schedule, Reply, Draft,
  Event, save_pressed, restore_pressed, Outside, opened, timer, happen, handle, settle, succeed,
  handle_create, handle_restore, handle_delete, handle_download, handle_save_schedule, is_pending,
}
use mirocraft.Pages.Backups.View.{view}
use mirocraft.Pages.Backups.Running.{Setting}
use mirocraft.Pages.Backups.Offered.{
  Open, view-Open, saving, creating, restoring, deleting, downloading, drafting,
}

abbrev is_restore : Job → Bool
is_restore (restore id) = true
is_restore job = false

-- A restore overwrites the files of a server: it is asked for a backup that is done, while the
-- server stands still and the page is not busy, by who has typed RESTORE. Any other call may go
-- out.
pub data Allowed (server_runs : Bool) (s : Backups) : Event → Job → Type 0 where
  confirmed :
      {b : Backup}
      → b.state ≡ done
      → s.busy ≡ false
      → server_runs ≡ false
      → Allowed server_runs s (restore_pressed b (some (codes "RESTORE"))) (restore b.id)
  harmless : {event : Event} {job : Job} → is_restore job ≡ false → Allowed server_runs s event job

restore-Allowed :
    (server_runs : Bool) (b : Backup) (typed : Option Text) (s : Backups)
    → b.state ≡ done
    → s.busy ≡ false
    → server_runs ≡ false
    → All (Allowed server_runs s (restore_pressed b typed)) (handle_restore b typed s).1
unfolding handle_restore
restore-Allowed server_runs b none s finished free still = tt
restore-Allowed server_runs b (some typed) s finished free still =
    elim (Bool-cases (typed === codes "RESTORE")) [
      | inl same ↦
          let confirmation = sym (===_sound typed (codes "RESTORE") same) in
          rw same (
            subst (λ t. Allowed server_runs s (restore_pressed b (some t)) (restore b.id))
                confirmation (confirmed finished free still),
            tt,
          )
      | inr other ↦ rw other tt
    ]

module _ (e : Setting) where
  settle-harmless :
      (job : Job) (outcome : Outcome (Reply job)) (s : Backups)
      → All (λ next. is_restore next ≡ false) (settle e.format_date e.server_runs job outcome s).1
  unfolding settle succeed
  settle-harmless (list awaited) (returned items) s = tt
  settle-harmless load_schedule (returned loaded) s = tt
  settle-harmless (create note) (returned reply) s = (refl, tt)
  settle-harmless (restore id) (returned reply) s = tt
  settle-harmless (delete id) (returned reply) s = (refl, tt)
  settle-harmless (download id) (returned reply) s = tt
  settle-harmless (save_schedule draft) (returned saved) s = tt
  settle-harmless job (threw failure) s = tt

  poll-harmless :
      (due : Bool) → All (λ next. is_restore next ≡ false) (if due then list false ∷ [] else [])
  poll-harmless true = (refl, tt)
  poll-harmless false = tt

  happen-harmless :
      (what : Outside) (s : Backups) → All (λ next. is_restore next ≡ false) (happen what s).1
  unfolding happen
  happen-harmless opened s = (refl, (refl, tt))
  happen-harmless timer s = poll-harmless (is_pending s)

  save-Allowed :
      (draft : Option Draft) (s : Backups)
      → All (Allowed e.server_runs s save_pressed) (handle_save_schedule draft s).1
  unfolding handle_save_schedule
  save-Allowed none s = tt
  save-Allowed (some draft) s = (harmless refl, tt)

  handle-Allowed :
      (s : Backups) {event : Event}
      → Open e.server_runs s event
      → All (Allowed e.server_runs s event) (handle event s).1
  unfolding handle handle_create handle_delete handle_download
  handle-Allowed s (saving changed free) = save-Allowed s.draft s
  handle-Allowed s (creating none free) = tt
  handle-Allowed s (creating (some note) free) = (harmless refl, tt)
  handle-Allowed s (restoring b typed finished free still) =
      restore-Allowed e.server_runs b typed s finished free still
  handle-Allowed s (deleting b true free) = (harmless refl, tt)
  handle-Allowed s (deleting b false free) = tt
  handle-Allowed s (downloading b finished) = (harmless refl, tt)
  handle-Allowed s (drafting draft) = tt

  -- Whatever the page shows and whatever the calls give: a restore is asked for only where the
  -- button of a backup that is done was pressed, while the page is not busy and the server does not
  -- run, and RESTORE was typed, and then for that backup; no timer and no end of a call asks for
  -- one.
  pub step-Allowed :
      (s : Backups)
      → ((event : Event)
          → Offers event (view e.format_date e.to_fixed e.number e.server_runs s)
          → All (Allowed e.server_runs s event) (handle event s).1)
        × ((what : Outside) → All (λ next. is_restore next ≡ false) (happen what s).1)
        × ((job : Job) (outcome : Outcome (Reply job))
            → All
                (λ next. is_restore next ≡ false)
                (settle e.format_date e.server_runs job outcome s).1)
  step-Allowed s = (
    λ event o. handle-Allowed s (
        Only-Offers (Open e.server_runs s)
          (view-Open e.format_date e.to_fixed e.number e.server_runs s) o),
    λ what. happen-harmless what s,
    λ job outcome. settle-harmless job outcome s,
  )
