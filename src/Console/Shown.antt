-- ===== src/Console/Shown.antt =====
-- web/src/pages/ServerDetail.tsx: what the page of a server shows. The page of a tab stands beside
-- the console, whose section is hidden then.
use mirocraft.Prelude.{
  ℕ, Bool, true, false, not, List, [], ◌∷◌, ◌++◌, Option, none, some, length, ◌==◌, if◌then◌else◌,
  Text, codes, is_empty, decimal, trim,
}
use mirocraft.Api.Json.{Json, truthy}
use mirocraft.Api.Types.{Server, ServerMetrics}
use mirocraft.Api.Servers.{PowerAction, start, stop, restart, kill}
use mirocraft.Pages.Ui.{
  View, ◌⊕◌, blank, text, raw, link, button, input, when, either, when_some, when_error, each,
}
use mirocraft.Pages.Layout.View.{page_header}
use mirocraft.Servers.View.{status_label, players_text}
use mirocraft.Console.{Console, Frame, console_available}
use mirocraft.Console.View.{
  Tab, console, connect, files, settings, catalog, modpacks, backups, options, is_running,
  ram_limit, format_uptime, connection_label,
}

-- The controls of the page, with what `prompt` gave.
pub data Event : Type 0 where
  powered : PowerAction → Event
  deleted : Option Text → Event
  tab_picked : Tab → Event
  typed : Text → Event
  submitted : Event

-- `DetailSkeleton`
unfoldable pub skeleton_view : Option Json → View Event
skeleton_view none = blank
skeleton_view (some message) = when (truthy message) (raw message)

unfoldable pub tab_label : Tab → Text
tab_label console = codes "Консоль"
tab_label connect = codes "Подключение"
tab_label files = codes "Файлы"
tab_label settings = codes "server.properties"
tab_label catalog = codes "Дополнения"
tab_label modpacks = codes "Модпаки"
tab_label backups = codes "Бэкапы"
tab_label options = codes "Параметры"

abbrev tabs : List Tab
tabs = console ∷ connect ∷ files ∷ settings ∷ catalog ∷ modpacks ∷ backups ∷ options ∷ []

abbrev is_console : Tab → Bool
is_console console = true
is_console tab = false

-- `Metric`; its bar is a picture.
unfoldable pub metric_view : (label value : Text) → (hint : Option Text) → View Event
metric_view label value hint = text label ⊕ text value ⊕ when_some hint (λ t. text t)

unfoldable pub actions_view : (runs : Bool) → View Event
actions_view runs =
    either runs
      (button (codes "Рестарт") false (λ x. powered restart)
        ⊕ button (codes "Остановить") false (λ x. powered stop))
      (button (codes "Запустить") false (λ x. powered start))
    ⊕ button [] (not runs) (λ x. powered kill)
    ⊕ button [] false (λ x. deleted x.typed)

-- How the browser prints a quotient and writes a time, and the pages of the tabs.
module _ (to_fixed : ℕ → ℕ → ℕ → Text) (format_time : Text → Text)
    (page_of : Tab → View Event) where
  unfoldable pub metrics_view : Server → ServerMetrics → View Event
  unfolding metric_view
  metrics_view s m =
      metric_view (codes "Память") (decimal m.ram_used_mb ++ codes " МБ")
        (some (codes "из " ++ decimal (ram_limit m s) ++ codes " МБ"))
      ⊕ metric_view (codes "CPU") (to_fixed m.cpu_percent 100 1 ++ codes " %") none
      ⊕ metric_view (codes "Аптайм") (format_uptime m.uptime_seconds) none
      ⊕ metric_view (codes "Игроки") (players_text to_fixed (some m)) none

  -- `ConsoleLine`
  unfoldable pub line_view : Frame → View Event
  line_view f = text (format_time f.line.ts ++ codes " ") ⊕ text f.line.text

  unfoldable pub console_view : Console → View Event
  unfolding line_view
  console_view c =
      text (connection_label c.connected (console_available c.server))
      ⊕ either (length c.lines == 0)
          (text (
            if console_available c.server
            then codes "Ждём вывод сервера…"
            else codes "Сервер остановлен. Запустите его, чтобы увидеть лог."))
          (each line_view c.lines)
      ⊕ input c.command false (λ t. typed t)
      ⊕ button (codes "Отправить") (is_empty (trim c.command)) (λ x. submitted)

  unfoldable pub server_view : Tab → Console → Server → View Event
  unfolding metrics_view console_view actions_view
  server_view tab c s =
      page_header (text s.name ⊕ text (status_label s.status))
        (some (text (s.core ++ codes " " ++ s.version ++ codes " · порт " ++ decimal s.port)))
        (some (actions_view (is_running s.status))) (some (link (codes "/") (codes "Все серверы")))
      ⊕ when_error c.error (λ message. raw message)
      ⊕ when_some s.metrics (metrics_view s)
      ⊕ each (λ tab. button (tab_label tab) false (λ x. tab_picked tab)) tabs
      ⊕ either (is_console tab) (console_view c) (page_of tab)

  unfoldable pub found_view : Tab → Console → Option Server → View Event
  unfolding server_view skeleton_view
  found_view tab c none = skeleton_view c.error
  found_view tab c (some s) = server_view tab c s

  unfoldable pub view : Tab → Console → View Event
  view tab c = found_view tab c c.server
