-- ===== src/Pages/Properties/Managed.antt =====
-- web/src/pages/ServerSettings.tsx: the keys that the panel itself manages are left alone.
use mirocraft.Prelude.{
  ◌≡◌, refl, sym, subst, ◌∙◌, inl, inr, Bool, false, List, [], ◌∷◌, map, Option, none, some, filter,
  All, ◌===◌, Bool-cases, Text,
}
use mirocraft.Prelude.Dict.{insert}
use mirocraft.Api.Http.{Outcome, returned, threw}
use mirocraft.Api.Servers.{Settings}
use mirocraft.Pages.Ui.{
  Only, Offers, Only-Offers, both, a_text, a_raw, a_button, a_checkbox, an_input, a_select,
  Only-when, Only-when_some, Only-when_error, Only-each_All, Only-notice,
}
use mirocraft.Pages.Run.{Running, Step, acts, happens, ends, Reach, here, next}
use mirocraft.Pages.Properties.{
  Values, Editor, Row, Event, typed, filtered, reset, save_pressed, step, set_value, contains,
  row_of, rows_of, changes_of, save_changes, save_from, handle_save, loaded, saved,
}
use mirocraft.Pages.Properties.Saving.{opened, save_changes-draft}
use mirocraft.Pages.Properties.Controls.{Control, control, text_box, number_box}
use mirocraft.Pages.Properties.View.{view, editor_view, settings_view, row_view, control_view}
use mirocraft.Pages.Properties.Running.{
  Job, mounted, load, save, handle, happen, settle, page, save_jobs,
}

-- None of the keys is managed by the panel, once the file was read.
abbrev pub Unmanaged : Option Settings → Values → Type 0
Unmanaged none values = Unit
Unmanaged (some settings) values = All (λ kv. contains kv.0 settings.managed ≡ false) values

-- When the editor offers what.
data Open (settings : Settings) : Event → Type 0 where
  typing :
      (key value : Text) → contains key settings.managed ≡ false → Open settings (typed key value)
  filtering : (t : Text) → Open settings (filtered t)
  resetting : Open settings reset
  saving : Open settings save_pressed

-- A row is managed as its key is.
abbrev Fits : Settings → Row → Type 0
Fits settings row = row.managed ≡ contains row.key settings.managed

rows-Fit :
    (settings : Settings) (draft : Values) (keys : List Text)
    → All (Fits settings) (map (row_of settings draft) keys)
unfolding row_of
rows-Fit settings draft [] = tt
rows-Fit settings draft (key ∷ keys) = (refl, rows-Fit settings draft keys)

module _ (settings : Settings) where
  control-Open :
      (c : Control) (shown : Text) (row : Row)
      → Fits settings row
      → Only (Open settings) (control_view c shown row.managed (λ t. typed row.key t))
  unfolding control_view
  control-Open (text_box value) shown row fits =
      an_input (λ free t. typing row.key t (sym fits ∙ free))
  control-Open (Control.checkbox checked) shown row fits =
      both (a_checkbox (λ free b. typing row.key _ (sym fits ∙ free))) a_text
  control-Open (Control.select options value) shown row fits =
      a_select (λ free t. typing row.key t (sym fits ∙ free))
  control-Open (number_box value min max) shown row fits =
      an_input (λ free t. typing row.key t (sym fits ∙ free))

  row-Open : (row : Row) → Fits settings row → Only (Open settings) (row_view row)
  unfolding row_view
  row-Open row fits = both a_text (
      both (Only-when_some _ _ (λ note. a_text)) (
        both (Only-when _ a_text) (
          both (Only-when _ a_text) (
            both (control-Open (control row.setting row.value) row.value row fits) (
              both (Only-when _ a_text) (
                Only-when_some _ _ (λ default.
                  Only-when _ (a_button (λ free x. typing row.key default (sym fits ∙ free))))))))))

module _ (before : Text → Text → Bool) (lower : Text → Text) where
  settings-Open :
      (e : Editor) (settings : Settings)
      → Only (Open settings) (settings_view before lower e settings)
  unfolding settings_view rows_of
  settings-Open e settings = both a_text (
      both (an_input (λ free t. filtering t)) (
        both (Only-when _ a_text) (
          both (a_button (λ free x. resetting)) (
            both (a_button (λ free x. saving)) (
              both (Only-when_error e.error _ (λ j. a_raw)) (
                both (Only-notice e.error e.notice) (
                  both (Only-when _ a_text) (
                    Only-each_All row_view _ (rows-Fit settings e.draft _)
                      (λ row fits. row-Open settings row fits)))))))))

  abbrev OpenIn : Option Settings → Event → Type 0
  OpenIn none event = ⊥
  OpenIn (some settings) event = Open settings event

  view-Open :
      (e : Editor) (o : Option Settings) (event : Event)
      → Offers event (editor_view before lower e o)
      → OpenIn o event
  unfolding editor_view
  view-Open e none event offer = Only-Offers (λ event. ⊥) a_raw offer
  view-Open e (some settings) event offer =
      Only-Offers (Open settings) (settings-Open e settings) offer

insert-Unmanaged :
    (P : Text → Type 0) (key value : Text) (dict : Values)
    → P key
    → All (λ kv. P kv.0) dict
    → All (λ kv. P kv.0) (insert key value dict)
unfolding insert
insert-Unmanaged P key value [] p h = (p, tt)
insert-Unmanaged P key value ((j, w) ∷ dict) p (q, h) = elim (Bool-cases (j === key)) [
  | inl same ↦ rw same (p, h)
  | inr other ↦ rw other (q, insert-Unmanaged P key value dict p h)
]

All-filter :
    (P : Text × Text → Type 0) (test : Text × Text → Bool) (dict : Values)
    → All P dict
    → All P (filter test dict)
All-filter P test [] h = tt
All-filter P test (kv ∷ dict) (p, h) = elim (Bool-cases (test kv)) [
  | inl kept ↦ rw kept (p, All-filter P test dict h)
  | inr dropped ↦ rw dropped (All-filter P test dict h)
]

-- A save leaves alone what the panel manages.
abbrev pub Spares : Option Settings → Job → Type 0
Spares o load = Unit
Spares o (save changes) = Unmanaged o changes

save_changes-Spares :
    (settings : Settings) (changes : Values) (e : Editor)
    → Unmanaged (some settings) changes
    → ((save_changes changes e).0.settings ≡ e.settings)
      × All (Spares (some settings)) (save_jobs (save_changes changes e).1)
unfolding save_changes
save_changes-Spares settings [] e h = (refl, tt)
save_changes-Spares settings (change ∷ changes) e h = (refl, (h, tt))

-- What an event does where the file was read.
abbrev Safe : Settings → Editor × List Job → Type 0
Safe settings (e, jobs) =
    (e.settings ≡ some settings)
    × Unmanaged (some settings) e.draft
    × All (Spares (some settings)) jobs

save-Safe :
    (settings : Settings) (o : Option Settings) (e : Editor)
    → e.settings ≡ some settings
    → o ≡ some settings
    → Unmanaged (some settings) e.draft
    → Safe settings ((save_from o e).0, save_jobs (save_from o e).1)
unfolding save_from changes_of
save-Safe settings o e read same h =
    let changes = changes_of settings.values e.draft in
    let (kept, spared) =
      save_changes-Spares settings changes e
        (All-filter (λ kv. contains kv.0 settings.managed ≡ false) _ e.draft h) in
    rw same (
      kept ∙ read,
      subst (Unmanaged (some settings)) (sym (save_changes-draft changes e)) h,
      spared,
    )

handle-Safe :
    (settings : Settings) (e : Editor) {event : Event}
    → e.settings ≡ some settings
    → Unmanaged (some settings) e.draft
    → Open settings event
    → Safe settings (handle event e)
unfolding handle step set_value handle_save
handle-Safe settings e read h (typing key value free) =
    (read, insert-Unmanaged (λ k. contains k settings.managed ≡ false) key value e.draft free h, tt)
handle-Safe settings e read h (filtering t) = (read, h, tt)
handle-Safe settings e read h resetting = (read, tt, tt)
handle-Safe settings e read h saving = save-Safe settings e.settings e read read h

abbrev Sound : Editor → Type 0
Sound e = Unmanaged e.settings e.draft

settle-Sound :
    (job : Job) (outcome : Outcome Settings) (e : Editor) → Sound e → Sound (settle job outcome e).0
unfolding settle step loaded saved
settle-Sound load (returned settings) e h = tt
settle-Sound load (threw f) e h = h
settle-Sound (save changes) (returned settings) e h = tt
settle-Sound (save changes) (threw f) e h = h

module _ (before : Text → Text → Bool) (lower : Text → Text) where
  handle-Sound :
      (o : Option Settings) (e : Editor) (event : Event)
      → e.settings ≡ o
      → OpenIn before lower o event
      → Unmanaged o e.draft
      → Sound (handle event e).0 × All (Spares o) (handle event e).1
  handle-Sound none e event read offer h = absurd offer
  handle-Sound (some settings) e event read offer h =
      let (read', free, spared) = handle-Safe settings e read h offer in
      (subst (λ o. Unmanaged o (handle event e).0.draft) (sym read') free, spared)

  offered-Sound :
      (e : Editor) (event : Event)
      → Offers event (view before lower e)
      → Sound e
      → Sound (handle event e).0 × All (Spares e.settings) (handle event e).1
  unfolding view
  offered-Sound e event o h =
      handle-Sound e.settings e event refl (view-Open before lower e e.settings event o) h

  Step-Sound :
      {b c : Running (page before lower)} → Step (page before lower) b c → Sound b.0 → Sound c.0
  unfolding happen step
  Step-Sound (acts {s = e} event o) h = (offered-Sound e event o h).0
  Step-Sound (happens mounted) h = h
  Step-Sound (ends {s = e} place job left answer found) h = settle-Sound job answer e h

  Reach-Sound :
      {b : Running (page before lower)} → Reach (page before lower) (opened, []) b → Sound b.0
  Reach-Sound here = tt
  Reach-Sound (next r step) = Step-Sound step (Reach-Sound r)

  -- From the opened editor on, whatever is done with what it shows and whatever the calls give: no
  -- control that it offers sends a key that the panel manages, by the file as it was read.
  pub Reach-Spares :
      {b : Running (page before lower)} (event : Event)
      → Reach (page before lower) (opened, []) b
      → Offers event (view before lower b.0)
      → All (Spares b.0.settings) (handle event b.0).1
  Reach-Spares {b = b} event r o = (offered-Sound b.0 event o (Reach-Sound r)).1
