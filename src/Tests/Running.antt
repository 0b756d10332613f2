-- ===== src/Tests/Running.antt =====
-- Pages that run, at concrete inputs.
use mirocraft.Prelude.{refl, inl, inr, false, [], ◌∷◌, none, some, codes, decimal}
use mirocraft.Api.Http.{returned}
use mirocraft.Pages.Flight.{actions, take_out}
use mirocraft.Pages.Run.{acts, ends, Reach, here, next, RunsOne}
use mirocraft.Pages.Ui.{Offers, Dialogs, when, when_some, when_error, either, each, notice_view}
use mirocraft.Pages.Search.{new_box}
use mirocraft.Pages.Catalog.{Catalog, Event, install_pressed, preview, handle, settle}
use mirocraft.Pages.Catalog.View.{view, lists_view, hits_view, hit_view, has_no_loader}
use mirocraft.Pages.OneAction.{Browser, catalog, page_of, actions_of, Reach-one_action}
use mirocraft.Tests.Catalog.{essentials, library}

abbrev browser : Browser
browser = record {
  format_date = λ date. date;
  to_fixed = λ n d k. decimal n;
  number = λ text. 0;
  lower = λ text. text;
  server_runs = false;
}

abbrev found : Catalog
found = record {
  content = none;
  query = codes "ess";
  installed = [];
  busy = none;
  notice = none;
  box = record new_box { hits = some (essentials ∷ []) };
}

abbrev install : Event
install = install_pressed essentials

abbrev closed : Dialogs
closed = record { typed = none; sure = false }

install_offered : Offers install (view browser.to_fixed browser.lower found)
unfolding view lists_view hits_view hit_view has_no_loader Offers when when_some when_error either
    each notice_view
install_offered =
    inr (inr (inr (inr (inr (inr (inl (inl (inr (inr (inr (inr (refl, closed, refl))))))))))))

abbrev asking : Catalog
asking = (handle install found).0

asked : Reach (page_of browser catalog) (found, []) (asking, preview essentials ∷ [])
unfolding handle
asked = next here (acts install install_offered)

-- The button of the hit was pressed, and whoever was asked about a dependency has refused it.
refused :
    Reach
      (page_of browser catalog)
      (found, [])
      (
        (settle
            (preview essentials)
            (returned (record { files = some (library ∷ []); plan = none }))
            false
            asking).0,
        [],
      )
unfolding settle take_out
refused = next asked (
    ends 0 (preview essentials) []
      (returned (record { files = some (library ∷ []); plan = none }), false) refl)

Reach-one_action_example : RunsOne (page_of browser catalog) (actions_of browser catalog) (
  (settle
      (preview essentials)
      (returned (record { files = some (library ∷ []); plan = none }))
      false
      asking).0,
  [],
)
unfolding actions
Reach-one_action_example = Reach-one_action browser catalog refl refused
