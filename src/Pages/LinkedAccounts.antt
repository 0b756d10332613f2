-- ===== src/Pages/LinkedAccounts.antt =====
-- web/src/components/LinkedAccounts.tsx: the chat accounts that are linked, and the code that links
-- one. Times are milliseconds; how the browser reads a date is part of the reply.
pub mod Countdown
pub mod View
use mirocraft.Prelude.{
  ℕ, ◌+◌, ◌-◌, ◌/◌, ◌%◌, Bool, true, false, List, [], ◌∷◌, ◌++◌, Option, none, some, ◌==◌,
  if◌then◌else◌, Text, codes, decimal,
}
use mirocraft.Api.Json.{Json}
use mirocraft.Api.Http.{Failure, Outcome, returned, threw}
use mirocraft.Api.Endpoint.{Endpoint}
use mirocraft.Api.Accounts.{
  BotProvider, Integration, list_integrations, create_link_code, unlink_integration,
}
use mirocraft.Pages.Report.{report}

pub record Issued : Type 0 where
  pub provider : BotProvider
  pub code : Text
  pub expires_at : ℕ

pub record LinkedAccounts : Type 0 where
  pub links : List Integration
  pub error : Option Json
  pub busy : Option BotProvider
  pub issued : Option Issued
  pub remaining : ℕ

-- A listing that `unlink` waits for frees the buttons.
pub data Job : Type 0 where
  list : (awaited : Bool) → Job
  request_code unlink : (provider : BotProvider) → Job

-- The code, and when it expires.
abbrev pub Reply : Job → Type 0
Reply (list awaited) = List Integration
Reply (request_code provider) = Text × ℕ
Reply (unlink provider) = Unit

unfoldable pub endpoint_of : Job → Endpoint
endpoint_of (list awaited) = list_integrations
endpoint_of (request_code provider) = create_link_code provider
endpoint_of (unlink provider) = unlink_integration provider

-- `Math.max(0, Math.round((expiresAt - now) / 1000))`
unfoldable pub seconds_left : ℕ → ℕ → ℕ
seconds_left expires_at now = (expires_at - now + 500) / 1000

-- `tick`
unfoldable pub tick_issued : ℕ → Option Issued → LinkedAccounts → LinkedAccounts
unfolding seconds_left
tick_issued now none s = s
tick_issued now (some i) s =
    let left = seconds_left i.expires_at now in
    record s { remaining = left; issued = if left == 0 then none else s.issued }

unfoldable pub tick : ℕ → LinkedAccounts → LinkedAccounts
unfolding tick_issued
tick now s = tick_issued now s.issued s

-- `requestCode` and `unlink` up to their calls.
unfoldable pub start : Job → BotProvider → LinkedAccounts → LinkedAccounts × List Job
start job provider s = (record s { busy = some provider; error = none }, job ∷ [])

abbrev freed_if : Bool → LinkedAccounts → LinkedAccounts
freed_if awaited s = record s { busy = if awaited then none else s.busy }

-- The effect of a new code ticks at once.
unfoldable pub succeed : (job : Job) → Reply job → ℕ → LinkedAccounts → LinkedAccounts × List Job
unfolding tick
succeed (list awaited) links now s =
    (freed_if awaited (record s { links = links; error = none }), [])
succeed (request_code provider) (code, expires_at) now s = (
  tick now (record s {
    issued = some (record { provider = provider; code = code; expires_at = expires_at });
    busy = none;
  }),
  [],
)
succeed (unlink provider) reply now s = (s, list true ∷ [])

unfoldable pub fail : Job → Failure → LinkedAccounts → LinkedAccounts
fail (list awaited) e s =
    freed_if awaited (record s { error = some (report e (codes "Не удалось прочитать привязки")) })
fail (request_code provider) e s = record s {
  error = some (report e (codes "Не удалось получить код"));
  busy = none;
}
fail (unlink provider) e s = record s {
  error = some (report e (codes "Не удалось отвязать"));
  busy = none;
}

unfoldable pub settle :
    (job : Job) → Outcome (Reply job) → ℕ → LinkedAccounts → LinkedAccounts × List Job
unfolding succeed fail
settle job (returned reply) now s = succeed job reply now s
settle job (threw e) now s = (fail job e s, [])

-- `padStart(2, "0")`
abbrev pad_two : Text → Text
pad_two [] = codes "00"
pad_two (c ∷ []) = b'0' ∷ c ∷ []
pad_two (c ∷ d ∷ s) = c ∷ d ∷ s

unfoldable pub format_remaining : ℕ → Text
format_remaining seconds =
    if seconds / 60 == 0
    then decimal (seconds % 60) ++ codes " с"
    else decimal (seconds / 60) ++ codes ":" ++ pad_two (decimal (seconds % 60))

-- The two buttons of a row.
pub data Event : Type 0 where
  code_pressed unlink_pressed : (provider : BotProvider) → Event

unfoldable pub handle : Event → LinkedAccounts → LinkedAccounts × List Job
unfolding start
handle (code_pressed provider) s = start (request_code provider) provider s
handle (unlink_pressed provider) s = start (unlink provider) provider s

-- The list is read at first, and the timer of the code fires.
pub data Outside : Type 0 where
  opened : Outside
  ticked : (now : ℕ) → Outside

unfoldable pub happen : Outside → LinkedAccounts → LinkedAccounts × List Job
unfolding tick
happen opened s = (s, list false ∷ [])
happen (ticked now) s = (tick now s, [])
