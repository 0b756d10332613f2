-- ===== src/Tests/Network.antt =====
-- The sign-in form and the smaller pages at concrete inputs.
use mirocraft.Prelude.{◌≡◌, refl, true, false, [], none, ◌===◌, codes}
use mirocraft.Api.Http.{World, HttpRequest, Fetched, unreachable}
use mirocraft.Api.Endpoint.Laws.{Log, recorder}
use mirocraft.Api.Accounts.{login}
use mirocraft.App.{opened}
use mirocraft.Pages.Options.{draft_of, is_changed}
use mirocraft.Pages.Login.{Login, handle_submit}
use mirocraft.Pages.Login.Ends.{SubmitEnds, handle_submit-SubmitEnds}
use mirocraft.Tests.Data.{lobby}

abbrev empty_world : World Log
empty_world = record { storage = record { available = true; items = [] }; net = [] }

abbrev failing : HttpRequest → Log → Fetched
failing req log = unreachable

abbrev form : Login
form = record { email = codes "admin"; password = codes "pw"; error = none; busy = false }

handle_submit-SubmitEnds_example :
    SubmitEnds empty_world.storage form opened
      (login (recorder failing) (codes "admin") (codes "pw") empty_world).0
      (handle_submit (recorder failing) (form, opened) empty_world)
handle_submit-SubmitEnds_example =
    handle_submit-SubmitEnds (recorder failing) form opened empty_world

unchanged : is_changed (draft_of lobby) lobby ≡ false
unfolding is_changed draft_of codes ◌===◌
unchanged = refl
