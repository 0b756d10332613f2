-- ===== src/Tests/Session.antt =====
-- The request plumbing and the session at concrete inputs.
use mirocraft.Prelude.{refl, [], ◌∷◌, true, none, codes}
use mirocraft.Prelude.Dict.{lookup}
use mirocraft.Api.Json.{Json, str, object}
use mirocraft.Api.Session.{Storage, token_key}
use mirocraft.Api.Http.{
  World, HttpRequest, Fetched, answered, unreachable, Response, empty, json, read_response,
}
use mirocraft.Api.Http.Laws.{Explains, read_response-Explains}
use mirocraft.Api.Endpoint.{Endpoint, perform}
use mirocraft.Api.Endpoint.Laws.{Log, recorder, SendsOne, perform-SendsOne}
use mirocraft.Api.Accounts.{logout}
use mirocraft.Api.Accounts.Laws.{LastCarries, logout-LastCarries}
use mirocraft.Api.Servers.{send_command}

abbrev signed_in : Storage
signed_in = record { available = true; items = (token_key, codes "s3cret") ∷ [] }

abbrev world : World Log
world = record { storage = signed_in; net = [] }

abbrev granted : Json
granted = object ((codes "token", str (codes "fresh")) ∷ [])

abbrev replies : HttpRequest → Log → Fetched
replies req log =
    answered (record { status = 200; status_text = codes "OK"; payload = json granted })

abbrev failing : HttpRequest → Log → Fetched
failing req log = unreachable

abbrev refusal : Response
refusal = record { status = 403; status_text = codes "Forbidden"; payload = empty }

read_response-Explains_example : Explains refusal (read_response refusal)
read_response-Explains_example = read_response-Explains refusal

abbrev command : Endpoint
command = send_command (codes "srv1") (codes "say hi")

perform-SendsOne_example : SendsOne command world (perform (recorder replies) command world).1
unfolding send_command lookup
perform-SendsOne_example = perform-SendsOne replies command world (refl, refl, refl)

logout-LastCarries_example :
    LastCarries none (perform (recorder failing) command (logout (recorder failing) world).1).1.net
unfolding send_command lookup
logout-LastCarries_example = logout-LastCarries failing command world (refl, refl, refl)
