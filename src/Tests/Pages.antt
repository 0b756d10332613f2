-- ===== src/Tests/Pages.antt =====
-- The settings and the shell around the pages at concrete inputs.
use mirocraft.Prelude.{true, [], ◌∷◌, some, codes}
use mirocraft.Api.Json.{str, object}
use mirocraft.Api.Session.{token_key}
use mirocraft.Api.Http.{World, HttpRequest, Fetched, unreachable}
use mirocraft.Api.Endpoint.Laws.{Log, recorder}
use mirocraft.Api.Accounts.{logout}
use mirocraft.App.{App, authenticated}
use mirocraft.Pages.Layout.{Ends, handle_logout, handle_logout-Ends}
use mirocraft.Pages.Settings.{ThemeEditor, new_editor}
use mirocraft.Pages.Settings.Document.{handle_import, handle_export}
use mirocraft.Pages.Settings.Laws.{Restores, handle_import-export}
use mirocraft.Pages.Settings.Radius.{pos}

abbrev world : World Log
world = record {
  storage = record { available = true; items = (token_key, codes "s3cret") ∷ [] };
  net = [];
}

abbrev failing : HttpRequest → Log → Fetched
failing req log = unreachable

abbrev player : App
player = record {
  state = authenticated;
  user = some (object ((codes "role", str (codes "user")) ∷ []));
}

handle_logout-Ends_example :
    Ends player (logout (recorder failing) world).0 (handle_logout (recorder failing) player world)
handle_logout-Ends_example = handle_logout-Ends (recorder failing) player world

abbrev round_theme : ThemeEditor
round_theme = record new_editor { name = str (codes "Ночь"); radius = pos 0 }

handle_import-export_example :
    Restores round_theme new_editor (handle_import (some (handle_export round_theme)) new_editor)
unfolding new_editor
handle_import-export_example = handle_import-export round_theme new_editor tt tt
