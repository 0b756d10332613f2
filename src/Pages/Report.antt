-- ===== src/Pages/Report.antt =====
-- How the pages word what a call throws: `err instanceof ApiError ? err.message : fallback`.
use mirocraft.Prelude.{Text}
use mirocraft.Api.Json.{Json, str}
use mirocraft.Api.Http.{Failure, api_error}

abbrev pub report : Failure → Text → Json
report (api_error status code message details) fallback = message
report e fallback = str fallback

-- `err instanceof Error`: every error has a message; those of the browser are a parameter.
abbrev pub load_error : (Failure → Text) → Failure → Json
load_error message (api_error status code text details) = text
load_error message e = str (message e)
