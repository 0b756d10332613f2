-- ===== src/Pages/LinkedAccounts/View.antt =====
-- web/src/components/LinkedAccounts.tsx: what the section shows.
use mirocraft.Prelude.{
  Bool, true, false, List, [], ◌∷◌, ◌++◌, Option, none, some, filter, if◌then◌else◌, Text, codes,
  last?,
}
use mirocraft.Api.Accounts.{BotProvider, discord, telegram, Integration}
use mirocraft.Pages.Ui.{View, ◌⊕◌, text, raw, button, when_some, when_error, each}
use mirocraft.Pages.LinkedAccounts.{
  LinkedAccounts, Issued, Event, code_pressed, unlink_pressed, format_remaining,
}

abbrev label : BotProvider → Text
label discord = codes "Discord"
label telegram = codes "Telegram"

abbrev pub same_provider : BotProvider → BotProvider → Bool
same_provider discord discord = true
same_provider telegram telegram = true
same_provider a b = false

-- `new Map(links.map(…)).get(provider)`: a later link replaces an earlier one.
unfoldable pub link_of : BotProvider → List Integration → Option Integration
link_of provider links =
    last? (filter (λ (l : Integration). same_provider l.provider provider) links)

abbrev is_busy_with : Option BotProvider → BotProvider → Bool
is_busy_with none provider = false
is_busy_with (some busy) provider = same_provider busy provider

abbrev issued_for : BotProvider → Option Issued → Option Issued
issued_for provider none = none
issued_for provider (some i) = if same_provider i.provider provider then some i else none

unfoldable pub link_view : Bool → BotProvider → Option Integration → View Event
link_view busy provider none =
    text (codes "не привязан") ⊕ button (codes "Получить код") busy (λ x. code_pressed provider)
link_view busy provider (some link) =
    text (codes "привязан: " ++ link.external_id)
    ⊕ button (codes "отвязать") busy (λ x. unlink_pressed provider)

unfoldable pub provider_view : LinkedAccounts → BotProvider → View Event
unfolding link_of
provider_view s provider =
    text (label provider)
    ⊕ link_view (is_busy_with s.busy provider) provider (link_of provider s.links)
    ⊕ when_some (issued_for provider s.issued) (λ i.
      text (codes "Отправьте боту ")
      ⊕ text (codes "/link " ++ i.code)
      ⊕ text
          (codes "Код сработает один раз, осталось " ++ format_remaining s.remaining ++ codes "."))

unfoldable pub view : LinkedAccounts → View Event
view s =
    text (codes "Discord и Telegram")
    ⊕ text (
        codes
          "Привяжите чат-аккаунт, чтобы управлять своими серверами командами бота. Бот получит ровно ваши права и только на ваши серверы.")
    ⊕ when_error s.error (λ message. raw message)
    ⊕ each (provider_view s) (discord ∷ telegram ∷ [])
