-- ===== src/Pages/Options/OneAction.antt =====
-- web/src/pages/ServerOptions.tsx: the form saves once at a time.
use mirocraft.Prelude.{◌≡◌, ℕ, ◌+◌, Bool, true, false, List, Text, arith}
use mirocraft.Api.Types.{Server}
use mirocraft.Api.Http.{Outcome, returned, threw}
use mirocraft.Pages.Flight.{actions, weight}
use mirocraft.Pages.Ui.{
  Only, Offers, Only-Offers, both, a_text, a_raw, a_button, a_checkbox, an_input, a_select,
  Only-when, Only-when_error, Only-notice,
}
use mirocraft.Pages.Run.{Page, Actions, Balanced, busy_count}
use mirocraft.Pages.Options.{
  Shown, Draft, Field, Event, filled, save_pressed, reset_pressed, Outside, opened, polled, Job,
  save, list_all, list_kinds, Reply, handle, happen, settle, succeed, fail, change_field,
  handle_save, reset, server_came, name_came, is_changed,
}
use mirocraft.Pages.Options.View.{view, fields_view, proxy_view}

abbrev pub is_action : Job → Bool
is_action (save draft server_runs) = true
is_action job = false

-- When the form offers what.
pub data Open (s : Shown) : Event → Type 0 where
  filling : (field : Field) → Open s (filled field)
  saving : is_changed s.form.draft s.server ≡ true → s.form.saving ≡ false → Open s save_pressed
  resetting : is_changed s.form.draft s.server ≡ true → s.form.saving ≡ false → Open s reset_pressed

-- What `Number` makes of a field is the browser's.
module _ (number : Text → ℕ) where
  abbrev pub page : Page
  page = record {
    State = Shown;
    Event = Event;
    Outside = Outside;
    Job = Job;
    Answer = λ job. Outcome (Reply job);
    view = view number;
    handle = handle;
    happen = happen;
    settle = settle;
  }

  module _ (s : Shown) where
    fields-Open : (d : Draft) → Only (Open s) (fields_view number d)
    unfolding fields_view
    fields-Open d = both (both a_text (an_input (λ free t. filling _))) (
        both (both a_text (both a_text (an_input (λ free t. filling _)))) (
          both (both a_text (both a_text (an_input (λ free t. filling _)))) (
            both (both a_text (both a_text (an_input (λ free t. filling _)))) (
              both (a_checkbox (λ free b. filling _)) (
                both a_text (
                  both (a_checkbox (λ free b. filling _))
                    (both a_text (both (a_checkbox (λ free b. filling _)) a_text))))))))

    view-Open : Only (Open s) (view number s)
    unfolding view proxy_view
    view-Open = both (Only-when_error s.form.error _ (λ j. a_raw)) (
        both (Only-notice s.form.error s.form.notice) (
          both (fields-Open s.form.draft) (
            both a_text (
              both (Only-when _ (both a_text (both (a_select (λ free t. filling _)) a_text))) (
                both (a_button (λ free x. saving (ground arith) (ground arith)))
                  (a_button (λ free x. resetting (ground arith) (ground arith))))))))

  abbrev busy : Shown → Bool
  busy s = s.form.saving

  abbrev Fair : Shown → Shown × List Job → Type 0
  Fair s after = Balanced page is_action busy s after

  handle-Fair : (s : Shown) {event : Event} → Open s event → Fair s (handle event s)
  unfolding handle change_field handle_save reset actions
  handle-Fair s (filling field) = omega arith
  handle-Fair s (saving changed free) = rw free (omega arith)
  handle-Fair s (resetting changed free) = omega arith

  server_came-saving :
      (server : Server) (s : Shown) → (server_came server s).form.saving ≡ s.form.saving
  unfolding server_came name_came
  server_came-saving server s = ground arith

  pub happen-Fair : (what : Outside) (s : Shown) → Fair s (happen what s)
  unfolding happen actions
  happen-Fair opened s = omega arith
  happen-Fair (polled server) s = rw (server_came-saving server s) (omega arith)

  pub settle-Fair :
      (job : Job) (outcome : Outcome (Reply job)) (s : Shown) (n : ℕ)
      → weight is_action job + n ≡ busy_count page (busy s)
      → actions is_action (settle job outcome s).1 + n
        ≡ busy_count page (busy (settle job outcome s).0)
  unfolding settle succeed fail actions
  settle-Fair (save draft server_runs) (returned server) s n h = ground arith
  settle-Fair (save draft server_runs) (threw e) s n h = ground arith
  settle-Fair list_all (returned servers) s n h = ground arith
  settle-Fair list_all (threw e) s n h = ground arith
  settle-Fair (list_kinds servers) (returned cores) s n h = ground arith
  settle-Fair (list_kinds servers) (threw e) s n h = ground arith

  pub offered-Fair :
      (s : Shown) (event : Event) → Offers event (view number s) → Fair s (handle event s)
  offered-Fair s event o = handle-Fair s (Only-Offers (Open s) (view-Open s) o)

  abbrev pub page_actions : Actions page
  page_actions = record {
    is_action = is_action;
    is_busy = λ (s : Shown). s.form.saving;
    offered = offered-Fair;
    outside = happen-Fair;
    settled = settle-Fair;
  }
