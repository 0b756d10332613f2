-- ===== src/Pages/Bots/View.antt =====
-- web/src/components/BotSettings.tsx: what the page shows.
use mirocraft.Prelude.{
  Bool, false, not, ◌||◌, ◌++◌, Option, none, some, Text, codes, is_empty, trim,
}
use mirocraft.Api.Accounts.{BotProvider, discord, telegram, BotSettings}
use mirocraft.Pages.Ui.{
  View, ◌⊕◌, text, raw, link, button, checkbox, input, when, when_some, when_error, each, given,
  notice_view,
}
use mirocraft.Pages.LinkedAccounts.View.{same_provider}
use mirocraft.Pages.Bots.{
  Bots, Tokens, token_for, bot_name, status_line, Event, toggled, token_typed, token_saved,
  forget_pressed,
}

abbrev help : BotProvider → Text
help discord =
    codes
      "Создайте приложение, добавьте бота и скопируйте его токен. Приглашая бота на сервер, дайте право applications.commands."
help telegram = codes "Напишите @BotFather команду /newbot и скопируйте выданный токен."

abbrev where_to : BotProvider → Text
where_to discord = codes "https://discord.com/developers/applications"
where_to telegram = codes "https://t.me/BotFather"

abbrev pub is_busy_with : Option BotProvider → BotProvider → Bool
is_busy_with none provider = false
is_busy_with (some busy) provider = same_provider busy provider

unfoldable pub bot_view : (pending : Bool) → Tokens → BotSettings → View Event
bot_view pending tokens bot =
    text (bot_name bot.provider)
    ⊕ text (status_line bot)
    ⊕ checkbox bot.enabled (pending || not bot.configured) (λ on. toggled bot.provider on)
    ⊕ text (codes "Включён")
    ⊕ when_some (given bot.error) (λ error. text error)
    ⊕ text (codes "Токен бота")
    ⊕ when bot.configured (text (codes "сохранён, оканчивается на " ++ bot.token_hint))
    ⊕ input (token_for bot.provider tokens) false (λ t. token_typed bot.provider t)
    ⊕ button (codes "Сохранить и включить")
        (pending || is_empty (trim (token_for bot.provider tokens))) (λ x. token_saved bot.provider)
    ⊕ when bot.configured
        (button (codes "забыть токен") pending (λ x. forget_pressed bot.provider x.sure))
    ⊕ text (help bot.provider)
    ⊕ link (where_to bot.provider) (where_to bot.provider)

unfoldable pub view : Bots → View Event
view s =
    text (codes "Боты")
    ⊕ text (
        codes
          "Бот показывает игрокам их серверы и умеет их запускать. Права он берёт у того, кто привязал свой аккаунт: чужие серверы через бота не видны.")
    ⊕ when_error s.error (λ message. raw message)
    ⊕ notice_view s.error s.notice
    ⊕ when s.loading (text (codes "Загружаю…"))
    ⊕ each (λ (bot : BotSettings). bot_view (is_busy_with s.busy bot.provider) s.tokens bot) s.bots
