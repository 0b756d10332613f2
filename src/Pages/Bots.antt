-- ===== src/Pages/Bots.antt =====
-- web/src/components/BotSettings.tsx: the chat bots of the panel, whose tokens go up and never come
-- back.
pub mod View
use mirocraft.Prelude.{
  Bool, true, false, not, ◌&&◌, List, [], ◌∷◌, ◌++◌, Option, none, some, any, if◌then◌else◌, Text,
  codes, is_empty, trim,
}
use mirocraft.Api.Json.{Json}
use mirocraft.Api.Http.{Failure, Outcome, returned, threw}
use mirocraft.Api.Endpoint.{Endpoint}
use mirocraft.Api.Accounts.{
  BotProvider, discord, telegram, BotStatus, failed, BotSettings, list_bots, save_bot, delete_bot,
}
use mirocraft.Pages.Report.{report}

abbrev pub bot_name : BotProvider → Text
bot_name discord = codes "Discord"
bot_name telegram = codes "Telegram"

-- What was typed for each bot; a token that is missing shows as the empty text.
pub record Tokens : Type 0 where
  pub for_discord : Text
  pub for_telegram : Text

abbrev pub token_for : BotProvider → Tokens → Text
token_for discord t = t.for_discord
token_for telegram t = t.for_telegram

abbrev pub set_token_for : BotProvider → Text → Tokens → Tokens
set_token_for discord token t = record t { for_discord = token }
set_token_for telegram token t = record t { for_telegram = token }

pub record Bots : Type 0 where
  pub bots : List BotSettings
  pub loading : Bool
  pub error : Option Json
  pub notice : Option Text
  pub busy : Option BotProvider
  pub tokens : Tokens

-- A listing that an action waits for is its last call.
pub data Job : Type 0 where
  list : (awaited : Bool) → Job
  save : (provider : BotProvider) → (token : Option Text) → (enabled : Option Bool) → Job
  forget : (provider : BotProvider) → Job

abbrev pub Reply : Job → Type 0
Reply (list awaited) = List BotSettings
Reply job = Unit

unfoldable pub endpoint_of : Job → Endpoint
endpoint_of (list awaited) = list_bots
endpoint_of (save provider token enabled) = save_bot provider token enabled
endpoint_of (forget provider) = delete_bot provider

abbrev is_failed : BotStatus → Bool
is_failed failed = true
is_failed status = false

-- The effect of a list that came asks for another one, two seconds later, while this holds.
unfoldable pub is_pending : List BotSettings → Bool
is_pending bots =
    any (λ (b : BotSettings). b.enabled && not b.running && not (is_failed b.status)) bots

unfoldable pub handle_save : BotProvider → Option Text → Option Bool → Bots → Bots × List Job
handle_save provider token enabled s = (
  record s { busy = some provider; error = none; notice = none },
  save provider token enabled ∷ [],
)

-- The check box, and the button.
unfoldable pub handle_toggle : BotProvider → Bool → Bots → Bots × List Job
unfolding handle_save
handle_toggle provider checked s = handle_save provider none (some checked) s

unfoldable pub handle_token : BotProvider → Bots → Bots × List Job
unfolding handle_save trim
handle_token provider s =
    handle_save provider (some (trim (token_for provider s.tokens))) (some true) s

unfoldable pub handle_forget : BotProvider → Bool → Bots → Bots × List Job
handle_forget provider sure s =
    if sure
    then (record s { busy = some provider; error = none }, forget provider ∷ [])
    else (s, [])

unfoldable pub type_token : BotProvider → Text → Bots → Bots
type_token provider token s = record s { tokens = set_token_for provider token s.tokens }

abbrev freed_if : Bool → Bots → Bots
freed_if awaited s = record s { busy = if awaited then none else s.busy }

unfoldable pub succeed : (job : Job) → Reply job → Bots → Bots × List Job
succeed (list awaited) bots s =
    (freed_if awaited (record s { bots = bots; error = none; loading = false }), [])
succeed (save provider token enabled) reply s = (
  record s {
    tokens = set_token_for provider [] s.tokens;
    notice = some (bot_name provider ++ codes ": настройки сохранены");
  },
  list true ∷ [],
)
succeed (forget provider) reply s =
    (record s { notice = some (bot_name provider ++ codes ": токен удалён") }, list true ∷ [])

abbrev failed_with : Failure → Text → Bots → Bots
failed_with e fallback s = record s { error = some (report e fallback) }

unfoldable pub fail : Job → Failure → Bots → Bots
fail (list awaited) e s =
    freed_if awaited
      (failed_with e (codes "Не удалось прочитать настройки ботов") (record s { loading = false }))
fail (save provider token enabled) e s =
    freed_if true (failed_with e (codes "Не удалось сохранить") s)
fail (forget provider) e s = freed_if true (failed_with e (codes "Не удалось удалить") s)

unfoldable pub settle : (job : Job) → Outcome (Reply job) → Bots → Bots × List Job
unfolding succeed fail
settle job (returned reply) s = succeed job reply s
settle job (threw e) s = (fail job e s, [])

abbrev as_account : Option Text → Text
as_account none = []
as_account (some account) = if is_empty account then [] else codes " как " ++ account

-- `StatusLine`
unfoldable pub status_line : BotSettings → Text
status_line b =
    if not b.configured
    then codes "токен не сохранён"
    else if not b.enabled
    then codes "выключен"
    else if b.running
    then codes "подключён" ++ as_account b.account
    else if is_failed b.status
    then codes "не подключился"
    else codes "подключается…"

-- The controls of a bot, with what `confirm` gave.
pub data Event : Type 0 where
  toggled : (provider : BotProvider) → (checked : Bool) → Event
  token_typed : (provider : BotProvider) → Text → Event
  token_saved : (provider : BotProvider) → Event
  forget_pressed : (provider : BotProvider) → (sure : Bool) → Event

unfoldable pub handle : Event → Bots → Bots × List Job
unfolding handle_toggle handle_token handle_forget type_token
handle (toggled provider checked) s = handle_toggle provider checked s
handle (token_typed provider token) s = (type_token provider token s, [])
handle (token_saved provider) s = handle_token provider s
handle (forget_pressed provider sure) s = handle_forget provider sure s

-- The list is read at first, and two seconds after a list with a bot that is connecting.
pub data Outside : Type 0 where
  opened timer : Outside

unfoldable pub happen : Outside → Bots → Bots × List Job
unfolding is_pending
happen opened s = (s, list false ∷ [])
happen timer s = (s, if is_pending s.bots then list false ∷ [] else [])
