-- ===== src/Pages/Options/View.antt =====
-- web/src/pages/ServerOptions.tsx: what the form shows.
use mirocraft.Prelude.{
  ℕ, false, not, ◌||◌, List, [], ◌∷◌, ◌++◌, map, Option, none, some, length, ltb, ◌==◌,
  if◌then◌else◌, Text, codes, decimal,
}
use mirocraft.Api.Types.{Server}
use mirocraft.Pages.Ui.{
  View, ◌⊕◌, text, raw, button, checkbox, input, select, when, when_error, notice_view,
}
use mirocraft.Pages.Options.{
  Shown, Draft, name_typed, args_typed, proxy_picked, ram_typed, port_typed, start_ticked,
  restart_ticked, crossplay_ticked, Event, filled, save_pressed, reset_pressed, is_changed,
}

-- `Field`, whose hint is text as well.
abbrev field : Text → View Event → View Event
field label control = text label ⊕ control

abbrev hinted : Text → Text → View Event → View Event
hinted label hint control = text label ⊕ text hint ⊕ control

-- A port of 0 counts as none.
abbrev bedrock_port : Option ℕ → Text
bedrock_port none = []
bedrock_port (some n) = if n == 0 then [] else codes " " ++ decimal n

abbrev proxy_options : List Server → List (Text × Text)
proxy_options proxies =
    (codes "", codes "напрямую, без прокси") ∷ map (λ (p : Server). (p.id, p.name)) proxies

unfoldable pub proxy_view : Text → List Server → View Event
proxy_view proxy_id proxies =
    text (codes "За каким прокси")
    ⊕ select proxy_id (proxy_options proxies) false (λ t. filled (proxy_picked t))
    ⊕ text (
        codes
          "Панель сама пропишет сервер в конфигурацию прокси и выключит здесь online-mode: игрока проверяет прокси, и вторая проверка не проходит.")

-- What `Number` makes of a field is the browser's.
module _ (number : Text → ℕ) where
  unfoldable pub fields_view : Draft → View Event
  fields_view d =
      field (codes "Название") (input d.name false (λ t. filled (name_typed t)))
      ⊕ hinted (codes "Память, МБ") (codes "Столько получит JVM: -Xms и -Xmx")
          (input (decimal d.ram_mb) false (λ t. filled (ram_typed (number t))))
      ⊕ hinted (codes "Порт") (codes "Панель следит, чтобы он не совпал с чужим")
          (input (decimal d.port) false (λ t. filled (port_typed (number t))))
      ⊕ hinted (codes "Флаги JVM")
          (codes "Через пробел. Кодировку и -Xmx панель ставит сама — дублировать не нужно")
          (input d.java_args false (λ t. filled (args_typed t)))
      ⊕ checkbox d.auto_start false (λ b. filled (start_ticked b))
      ⊕ text (codes "Запускать вместе с панелью")
      ⊕ checkbox d.auto_restart false (λ b. filled (restart_ticked b))
      ⊕ text (codes "Поднимать после падения")
      ⊕ checkbox d.crossplay false (λ b. filled (crossplay_ticked b))
      ⊕ text (codes "Пускать игроков с Bedrock")

  unfoldable pub view : Shown → View Event
  view s =
      when_error s.form.error (λ message. raw message)
      ⊕ notice_view s.form.error s.form.notice
      ⊕ fields_view s.form.draft
      ⊕ text (
          codes "Панель поставит Geyser и Floodgate и откроет UDP-порт"
          ++ bedrock_port s.server.bedrock_port
          ++ codes ". Java-игроки продолжат заходить как обычно, на тот же порт, что и раньше.")
      ⊕ when (ltb 0 (length s.form.proxies)) (proxy_view s.form.draft.proxy_id s.form.proxies)
      ⊕ button (if s.form.saving then codes "Сохранение…" else codes "Сохранить")
          (not (is_changed s.form.draft s.server) || s.form.saving) (λ x. save_pressed)
      ⊕ button (codes "Сбросить") (not (is_changed s.form.draft s.server) || s.form.saving)
          (λ x. reset_pressed)
