-- ===== src/Pages/Connect.antt =====
-- web/src/pages/ServerConnect.tsx: how to reach a server, its forwarded port and its relay.
pub mod View
pub mod OneAction
use mirocraft.Prelude.{
  Bool, true, false, List, [], ◌∷◌, Option, none, some, if◌then◌else◌, Text, codes,
}
use mirocraft.Api.Json.{Json}
use mirocraft.Api.Http.{Failure, Outcome, returned, threw}
use mirocraft.Api.Endpoint.{Endpoint}
use mirocraft.Api.Network.{
  ConnectInfo, server_connect, enable_relay, disable_relay, forward_port, unforward_port,
}
use mirocraft.Pages.Report.{report}

pub record Connect : Type 0 where
  pub info : Option ConnectInfo
  pub error : Option Json
  pub busy : Bool
  pub copied : Option Text

-- A listing that an action waits for is its last call. The clipboard is the browser's.
pub data Job : Type 0 where
  look : (awaited : Bool) → Job
  forward unforward join_relay leave_relay : Job
  write : (address : Text) → Job

abbrev pub Reply : Job → Type 0
Reply unforward = Unit
Reply leave_relay = Unit
Reply (write address) = Unit
Reply job = ConnectInfo

unfoldable pub endpoint_of : Text → Job → Option Endpoint
endpoint_of id (look awaited) = some (server_connect id)
endpoint_of id forward = some (forward_port id)
endpoint_of id unforward = some (unforward_port id)
endpoint_of id join_relay = some (enable_relay id)
endpoint_of id (write address) = none
endpoint_of id leave_relay = some (disable_relay id)

-- The four actions up to their calls.
unfoldable pub start : Job → Connect → Connect × List Job
start job s = (record s { busy = true; error = none }, job ∷ [])

abbrev freed_if : Bool → Connect → Connect
freed_if awaited s = record s { busy = if awaited then false else s.busy }

unfoldable pub succeed : (job : Job) → Reply job → Connect → Connect × List Job
succeed (look awaited) info s = (freed_if awaited (record s { info = some info; error = none }), [])
succeed forward info s = (record s { info = some info; busy = false }, [])
succeed unforward reply s = (s, look true ∷ [])
succeed join_relay info s = (record s { info = some info; busy = false }, [])
succeed leave_relay reply s = (s, look true ∷ [])
succeed (write address) reply s = (record s { copied = some address }, [])

abbrev failed : Failure → Text → Connect → Connect
failed e fallback s = record s { error = some (report e fallback) }

unfoldable pub fail : Job → Failure → Connect → Connect
fail (look awaited) e s = freed_if awaited (failed e (codes "Не удалось получить адреса") s)
fail forward e s = freed_if true (failed e (codes "Роутер не ответил") s)
fail unforward e s = freed_if true (failed e (codes "Роутер не ответил") s)
fail join_relay e s = freed_if true (failed e (codes "Релей не ответил") s)
fail (write address) e s = s
fail leave_relay e s = freed_if true (failed e (codes "Релей не ответил") s)

unfoldable pub settle : (job : Job) → Outcome (Reply job) → Connect → Connect × List Job
unfolding succeed fail
settle job (returned reply) s = succeed job reply s
settle job (threw e) s = (fail job e s, [])

-- A timer takes the mark of a copied address away again.
unfoldable pub copy_timer : Connect → Connect
copy_timer s = record s { copied = none }

-- The buttons of the page.
pub data Event : Type 0 where
  forward_pressed unforward_pressed enable_pressed disable_pressed : Event
  copy_pressed : (address : Text) → Event

unfoldable pub handle : Event → Connect → Connect × List Job
unfolding start
handle forward_pressed s = start forward s
handle unforward_pressed s = start unforward s
handle enable_pressed s = start join_relay s
handle disable_pressed s = start leave_relay s
handle (copy_pressed address) s = (s, write address ∷ [])
