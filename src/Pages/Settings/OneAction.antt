-- ===== src/Pages/Settings/OneAction.antt =====
-- web/src/pages/Settings.tsx: the theme editor saves one theme at a time.
use mirocraft.Prelude.{
  ◌≡◌, refl, ℕ, ◌+◌, Bool, true, false, List, [], Option, none, some, Text, arith,
}
use mirocraft.Api.Json.{Json, undefined, null, boolean, num, str, arr, obj}
use mirocraft.Api.Types.{CustomTheme}
use mirocraft.Api.Http.{Outcome, returned, threw}
use mirocraft.Theme.Registry.{builtin_themes}
use mirocraft.Pages.Flight.{actions, weight}
use mirocraft.Pages.Ui.{
  Only, Offers, Only-Offers, both, a_text, a_raw, a_button, an_input, a_select, View, ◌⊕◌,
  Only-when, Only-when_error, Only-each,
}
use mirocraft.Pages.Run.{Page, Actions, Balanced, busy_count}
use mirocraft.Pages.Settings.{
  ThemeEditor, Field, change_field, Job, send, reload_saved, choose_saved, remove, choose_base,
  reload_left, Reply, handle_save, handle_delete, settle, succeed, fail,
}
use mirocraft.Pages.Settings.Document.{handle_import, read_doc, fill, edit}
use mirocraft.Pages.Settings.View.{
  Event, chosen, filled, save_pressed, export_pressed, import_pressed, edit_pressed, delete_pressed,
  picker_view, theme_card, editor_view, saved_theme_view,
}

-- The editor with what the theme provider hands to it.
pub record Editing : Type 0 where
  pub editor : ThemeEditor
  pub choice : Text
  pub themes : List CustomTheme

abbrev pub with_editor : Editing → ThemeEditor × List Job → Editing × List Job
with_editor s (e, jobs) = (record s { editor = e }, jobs)

-- A choice of the picker is the provider's, and an export changes nothing of the page; the button of
-- an import opens the browser's dialog.
unfoldable pub handle : Event → Editing → Editing × List Job
unfolding change_field handle_save handle_delete edit
handle (chosen choice) s = (s, [])
handle (filled field) s = with_editor s (change_field field s.editor, [])
handle save_pressed s = with_editor s (handle_save s.editor)
handle export_pressed s = (s, [])
handle import_pressed s = (s, [])
handle (edit_pressed theme) s = with_editor s (edit theme s.editor, [])
handle (delete_pressed id) s = with_editor s (handle_delete id s.choice s.editor)

-- The file of an import was read, or the provider has another choice or other themes.
pub data Outside : Type 0 where
  file_read : Option Json → Outside
  provided : (choice : Text) → (themes : List CustomTheme) → Outside

unfoldable pub happen : Outside → Editing → Editing × List Job
unfolding handle_import
happen (file_read doc) s = with_editor s (handle_import doc s.editor, [])
happen (provided choice themes) s = (record s { choice = choice; themes = themes }, [])

abbrev pub is_action : Job → Bool
is_action (send edited input) = true
is_action (reload_saved id) = true
is_action (choose_saved id) = true
is_action job = false

-- When the page offers what.
data Open (s : Editing) : Event → Type 0 where
  saving : s.editor.busy ≡ false → Open s save_pressed
  choosing : (choice : Text) → Open s (chosen choice)
  filling : (field : Field) → Open s (filled field)
  exporting : Open s export_pressed
  importing : Open s import_pressed
  editing : (theme : CustomTheme) → Open s (edit_pressed theme)
  deleting : (id : Text) → Open s (delete_pressed id)

-- What `Number` makes of a field is the browser's.
module _ (number : Text → ℕ) where
  abbrev view : Editing → View Event
  view s = picker_view s.themes ⊕ editor_view number s.themes s.editor

  abbrev pub page : Page
  page = record {
    State = Editing;
    Event = Event;
    Outside = Outside;
    Job = Job;
    Answer = λ job. Outcome (Reply job);
    view = λ s. picker_view s.themes ⊕ editor_view number s.themes s.editor;
    handle = handle;
    happen = happen;
    settle = λ job answer s. with_editor s (settle job answer s.editor);
  }

  module _ (s : Editing) where
    card-Open : (name choice : Text) (custom : Bool) → Only (Open s) (theme_card name choice custom)
    unfolding theme_card
    card-Open name choice custom = a_button (λ free x. choosing choice)

    picker-Open : (themes : List CustomTheme) → Only (Open s) (picker_view themes)
    unfolding picker_view
    picker-Open themes = both a_text (
        both a_text (
          both (card-Open _ _ _) (
            both (Only-each _ builtin_themes (λ t. card-Open t.name t.id false))
              (Only-each _ themes (λ t. card-Open t.name _ true)))))

    saved-Open : (theme : CustomTheme) → Only (Open s) (saved_theme_view theme)
    unfolding saved_theme_view
    saved-Open theme = both a_text (
        both a_text
          (both (a_button (λ free x. editing theme)) (a_button (λ free x. deleting theme.id))))

    editor-Open : (themes : List CustomTheme) → Only (Open s) (editor_view number themes s.editor)
    unfolding editor_view
    editor-Open themes = both a_text (
        both a_text (
          both a_text (
            both (an_input (λ free t. filling _)) (
              both a_text (
                both (a_select (λ free t. filling _)) (
                  both a_text (
                    both (an_input (λ free t. filling _)) (
                      both a_raw (
                        both a_text (
                          both (an_input (λ free t. filling _)) (
                            both (Only-when_error s.editor.error _ (λ j. a_raw)) (
                              both (a_button (λ free x. saving free)) (
                                both (a_button (λ free x. exporting)) (
                                  both (a_button (λ free x. importing)) (
                                    Only-when _
                                      (Only-each saved_theme_view themes saved-Open))))))))))))))))

  abbrev busy : Editing → Bool
  busy s = s.editor.busy

  abbrev Fair : Editing → Editing × List Job → Type 0
  Fair s after = Balanced page is_action busy s after

  field-busy : (field : Field) (e : ThemeEditor) → (change_field field e).busy ≡ e.busy
  unfolding change_field
  field-busy (Field.name_typed name) e = refl
  field-busy (Field.base_picked base) e = refl
  field-busy (Field.accent_picked accent) e = refl
  field-busy (Field.radius_moved radius) e = refl

  handle-Fair : (s : Editing) {event : Event} → Open s event → Fair s (handle event s)
  unfolding handle handle_save handle_delete edit actions
  handle-Fair s (saving free) = rw free (omega arith)
  handle-Fair s (choosing choice) = omega arith
  handle-Fair s (filling field) = rw (field-busy field s.editor) (omega arith)
  handle-Fair s exporting = omega arith
  handle-Fair s importing = omega arith
  handle-Fair s (editing theme) = omega arith
  handle-Fair s (deleting id) = omega arith

  pub offered-Fair :
      (s : Editing) (event : Event)
      → Offers event (picker_view s.themes ⊕ editor_view number s.themes s.editor)
      → Fair s (handle event s)
  offered-Fair s event o =
      handle-Fair s
        (Only-Offers (Open s) (both (picker-Open s s.themes) (editor-Open s s.themes)) o)

  doc-busy : (doc : Json) (e : ThemeEditor) → (read_doc doc e).busy ≡ e.busy
  unfolding read_doc fill
  doc-busy null e = refl
  doc-busy undefined e = ground arith
  doc-busy (boolean b) e = ground arith
  doc-busy (num n) e = ground arith
  doc-busy (str t) e = ground arith
  doc-busy (arr items) e = ground arith
  doc-busy (obj members) e = ground arith

  import-busy : (doc : Option Json) (e : ThemeEditor) → (handle_import doc e).busy ≡ e.busy
  unfolding handle_import
  import-busy none e = refl
  import-busy (some doc) e = doc-busy doc (record e { error = none })

  pub happen-Fair : (what : Outside) (s : Editing) → Fair s (happen what s)
  unfolding happen actions
  happen-Fair (file_read doc) s = rw (import-busy doc s.editor) (omega arith)
  happen-Fair (provided choice themes) s = omega arith

  pub settle-Fair :
      (job : Job) (outcome : Outcome (Reply job)) (s : Editing) (n : ℕ)
      → weight is_action job + n ≡ busy_count page (busy s)
      → actions is_action (settle job outcome s.editor).1 + n
        ≡ busy_count page (settle job outcome s.editor).0.busy
  unfolding settle succeed fail actions
  settle-Fair (send edited input) (returned id) s n h = ground arith
  settle-Fair (send edited input) (threw e) s n h = ground arith
  settle-Fair (reload_saved id) (returned reply) s n h = ground arith
  settle-Fair (reload_saved id) (threw e) s n h = ground arith
  settle-Fair (choose_saved id) (returned reply) s n h = ground arith
  settle-Fair (choose_saved id) (threw e) s n h = ground arith
  settle-Fair (remove id base choice edited) (returned reply) s n h = ground arith
  settle-Fair (remove id base choice edited) (threw e) s n h = ground arith
  settle-Fair (choose_base id base edited) (returned reply) s n h = ground arith
  settle-Fair (choose_base id base edited) (threw e) s n h = ground arith
  settle-Fair reload_left (returned reply) s n h = ground arith
  settle-Fair reload_left (threw e) s n h = ground arith

  abbrev pub page_actions : Actions page
  page_actions = record {
    is_action = is_action;
    is_busy = λ (s : Editing). s.editor.busy;
    offered = offered-Fair;
    outside = happen-Fair;
    settled = settle-Fair;
  }
