-- ===== src/Tests/App.antt =====
-- The shell of the application at concrete inputs.
use mirocraft.Prelude.{◌≡◌, refl, List, [], ◌∷◌, true, Option, some, Text, codes, ◌===◌}
use mirocraft.Prelude.Dict.{lookup}
use mirocraft.Api.Json.{Json, str, object, property, fields}
use mirocraft.Api.Session.{Storage, token_key}
use mirocraft.Api.Http.{World, HttpRequest, Fetched, unreachable}
use mirocraft.Api.Endpoint.Laws.{Log, recorder}
use mirocraft.App.{App, opened, authenticated, load_user, shown_user, route, redirect, user_routes}
use mirocraft.App.Laws.{Settled, load_user-Settled, Allowed, route-Allowed}

abbrev signed_in : Storage
signed_in = record { available = true; items = (token_key, codes "s3cret") ∷ [] }

abbrev world : World Log
world = record { storage = signed_in; net = [] }

abbrev failing : HttpRequest → Log → Fetched
failing req log = unreachable

load_user-Settled_example :
    Settled signed_in
      (load_user (recorder failing) opened world).0
      (load_user (recorder failing) opened world).1.storage
load_user-Settled_example = load_user-Settled (recorder failing) opened world

-- A router that takes the last pattern, which is the one for everything.
abbrev pick : List Text → Text → Option (Text × Text)
pick patterns path = some (codes "*", path)

abbrev player : Json
player = object ((codes "role", str (codes "user")) ∷ [])

abbrev running : App
running = record { state = authenticated; user = some player }

route_at_admin : route pick running (codes "/admin") ≡ redirect (codes "/")
unfolding route codes ◌===◌ lookup user_routes property fields
route_at_admin = refl

route-Allowed_example : Allowed (shown_user running) (route pick running (codes "/admin"))
route-Allowed_example = route-Allowed pick running (codes "/admin")
