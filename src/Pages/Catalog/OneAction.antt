-- ===== src/Pages/Catalog/OneAction.antt =====
-- web/src/pages/ServerCatalog.tsx: the page runs one action at a time.
use mirocraft.Prelude.{
  ◌≡◌, ℕ, ◌+◌, Bool, true, false, List, [], ◌∷◌, Option, none, some, Text, arith,
}
use mirocraft.Api.Catalog.{CatalogProject, PlannedFile, InstalledAddon}
use mirocraft.Api.Http.{Outcome, returned, threw}
use mirocraft.Pages.Flight.{actions, weight}
use mirocraft.Pages.Ui.{
  Offers, Only, Only-Offers, both, a_text, a_raw, a_button, an_input, Only-when, Only-either,
  Only-when_some, Only-when_error, Only-each, Only-notice,
}
use mirocraft.Pages.Run.{Page, Actions, Balanced, busy_count}
use mirocraft.Pages.Search.{Request}
use mirocraft.Pages.Catalog.{
  Catalog, Job, preview, install, toggle, delete, relist, describe, search, Reply, Event,
  install_pressed, toggle_pressed, delete_pressed, query_typed, Outside, opened, search_due, handle,
  happen, request_job, handle_install, handle_toggle, handle_delete, previewed, extra_of, succeed,
  fail, settle, searched,
}
use mirocraft.Pages.Catalog.View.{
  is_busy, view, lists_view, hits_view, hit_view, addon_view, content_view,
}

abbrev pub is_action : Job → Bool
is_action (relist awaited) = awaited
is_action describe = false
is_action (search seq request) = false
is_action job = true

-- When the page offers what.
data Open (s : Catalog) : Event → Type 0 where
  installing :
      (project : CatalogProject) → is_busy s.busy ≡ false → Open s (install_pressed project)
  toggling : (addon : InstalledAddon) → is_busy s.busy ≡ false → Open s (toggle_pressed addon)
  deleting :
      (addon : InstalledAddon) (sure : Bool)
      → is_busy s.busy ≡ false
      → Open s (delete_pressed addon sure)
  typing : (query : Text) → Open s (query_typed query)

-- The browser's `toFixed`, and how it lowers letters.
module _ (to_fixed : ℕ → ℕ → ℕ → Text) (lower : Text → Text) where
  -- A call may ask at its end whether to go on.
  abbrev pub page : Page
  page = record {
    State = Catalog;
    Event = Event;
    Outside = Outside;
    Job = Job;
    Answer = λ job. Outcome (Reply job) × Bool;
    view = view to_fixed lower;
    handle = handle;
    happen = happen;
    settle = λ job answer s. settle job answer.0 answer.1 s;
  }

  module _ (s : Catalog) where
    hits-Open :
        (hits : Option (List CatalogProject)) → Only (Open s) (hits_view to_fixed lower s hits)
    unfolding hits_view hit_view
    hits-Open none = a_text
    hits-Open (some []) = a_text
    hits-Open (some (hit ∷ hits)) = Only-each (hit_view to_fixed lower s) (hit ∷ hits) (λ project.
        both a_text (
          both a_text (
            both (Only-when_some _ _ (λ license. a_text))
              (both a_text (a_button (λ free x. installing project free))))))

    addon-Open : (addon : InstalledAddon) → Only (Open s) (addon_view to_fixed lower s.busy addon)
    unfolding addon_view
    addon-Open addon = both a_text (
        both (Only-when _ a_text) (
          both a_text (
            both (a_button (λ free x. toggling addon free))
              (a_button (λ free x. deleting addon x.sure free)))))

    lists-Open : Only (Open s) (lists_view to_fixed lower s)
    unfolding lists_view content_view
    lists-Open = both (Only-when_error s.box.error _ (λ j. a_raw)) (
        both (Only-notice s.box.error s.notice) (
          both a_text (
            both (an_input (λ free t. typing t)) (
              both (Only-when_some s.content _ (λ content. a_text)) (
                both (Only-when _ a_text) (
                  both (hits-Open s.box.hits) (
                    both a_text (
                      Only-either _ a_text (
                        Only-each (addon_view to_fixed lower s.busy) s.installed addon-Open)))))))))

    view-Open : Only (Open s) (view to_fixed lower s)
    unfolding view
    view-Open = Only-either _ a_text lists-Open

  abbrev busy : Catalog → Bool
  busy s = is_busy s.busy

  abbrev Fair : Catalog → Catalog × List Job → Type 0
  Fair s after = Balanced page is_action busy s after

  handle-Fair : (s : Catalog) {event : Event} → Open s event → Fair s (handle event s)
  unfolding handle handle_install handle_toggle handle_delete actions searched
  handle-Fair s (installing project free) = rw free (omega arith)
  handle-Fair s (toggling addon free) = rw free (omega arith)
  handle-Fair s (deleting addon true free) = rw free (omega arith)
  handle-Fair s (deleting addon false free) = omega arith
  handle-Fair s (typing query) = omega arith

  request-Fair :
      (request : Option Request) (n : ℕ) → actions is_action (request_job request) + n ≡ n
  unfolding actions
  request-Fair none n = omega arith
  request-Fair (some (seq, request)) n = omega arith

  pub happen-Fair : (what : Outside) (s : Catalog) → Fair s (happen what s)
  unfolding happen actions
  happen-Fair opened s = omega arith
  happen-Fair search_due s = request-Fair s.box.timer (busy_count page (busy s))

  previewed-Fair :
      (project : CatalogProject) (extra : List PlannedFile) (sure : Bool) (s : Catalog) (n : ℕ)
      → 1 + n ≡ busy_count page (busy s)
      → actions is_action (previewed project extra sure s).1 + n
        ≡ busy_count page (busy (previewed project extra sure s).0)
  unfolding previewed actions
  previewed-Fair project [] sure s n h = ground arith
  previewed-Fair project (f ∷ extra) true s n h = ground arith
  previewed-Fair project (f ∷ extra) false s n h = ground arith

  pub settle-Fair :
      (job : Job) (answer : Outcome (Reply job) × Bool) (s : Catalog) (n : ℕ)
      → weight is_action job + n ≡ busy_count page (busy s)
      → actions is_action (settle job answer.0 answer.1 s).1 + n
        ≡ busy_count page (busy (settle job answer.0 answer.1 s).0)
  unfolding settle succeed fail actions searched
  settle-Fair (preview project) (returned reply, sure) s n h =
      previewed-Fair project (extra_of reply) sure s n h
  settle-Fair (preview project) (threw e, sure) s n h = ground arith
  settle-Fair (install project extra) (returned reply, sure) s n h = ground arith
  settle-Fair (install project extra) (threw e, sure) s n h = ground arith
  settle-Fair (toggle addon) (returned result, sure) s n h = ground arith
  settle-Fair (toggle addon) (threw e, sure) s n h = ground arith
  settle-Fair (delete addon) (returned reply, sure) s n h = ground arith
  settle-Fair (delete addon) (threw e, sure) s n h = ground arith
  settle-Fair (relist true) (returned items, sure) s n h = ground arith
  settle-Fair (relist false) (returned items, sure) s n h = ground arith
  settle-Fair (relist true) (threw e, sure) s n h = ground arith
  settle-Fair (relist false) (threw e, sure) s n h = ground arith
  settle-Fair describe (returned info, sure) s n h = ground arith
  settle-Fair describe (threw e, sure) s n h = ground arith
  settle-Fair (search seq request) (returned items, sure) s n h = ground arith
  settle-Fair (search seq request) (threw e, sure) s n h = ground arith

  pub offered-Fair :
      (s : Catalog) (event : Event) → Offers event (view to_fixed lower s) → Fair s (handle event s)
  offered-Fair s event o = handle-Fair s (Only-Offers (Open s) (view-Open s) o)

  abbrev pub page_actions : Actions page
  page_actions = record {
    is_action = is_action;
    is_busy = λ (s : Catalog). is_busy s.busy;
    offered = offered-Fair;
    outside = happen-Fair;
    settled = settle-Fair;
  }
