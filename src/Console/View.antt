-- ===== src/Console/View.antt =====
-- web/src/pages/ServerDetail.tsx: what the page shows of a server and of a line of its log.
use mirocraft.Prelude.{
  ℕ, ◌*◌, ◌/◌, ◌%◌, Bool, true, false, not, ◌&&◌, ◌||◌, List, [], ◌∷◌, ◌++◌, Option, none, some,
  get_or_else, length, drop, ltb, ◌==◌, ◌===◌, if◌then◌else◌, Text, codes, starts_with, is_word,
  decimal,
}
use mirocraft.Api.Types.{Server, ServerStatus, running, starting, ServerMetrics}
use mirocraft.Api.Servers.{PowerAction, start, stop, restart, kill}
use mirocraft.Console.{Line}

abbrev begins_word : ℕ → Bool
begins_word prev = not (is_word prev)

abbrev ends_word : Text → Bool
ends_word [] = true
ends_word (c ∷ s) = not (is_word c)

-- `/\bword\b/`, with the character before the text.
unfoldable pub has_word : Text → ℕ → Text → Bool
unfolding starts_with
has_word w prev [] = false
has_word w prev (c ∷ s) =
    (begins_word prev && starts_with (c ∷ s) w && ends_word (drop (length w) (c ∷ s)))
    || has_word w c s

abbrev mentions : Text → Text → Bool
mentions text w = has_word w b' ' text

pub data Level : Type 0 where
  error warn debug info plain : Level

unfoldable pub level_class : Line → Level
unfolding has_word
level_class line =
    if line.stream === codes "stderr"
      || mentions line.text (codes "ERROR")
      || mentions line.text (codes "SEVERE")
      || mentions line.text (codes "FATAL")
    then error
    else if mentions line.text (codes "WARN") || mentions line.text (codes "WARNING")
    then warn
    else if mentions line.text (codes "DEBUG")
    then debug
    else if mentions line.text (codes "INFO")
    then info
    else plain

unfoldable pub is_running : ServerStatus → Bool
is_running running = true
is_running starting = true
is_running status = false

-- The power buttons that can be pressed.
unfoldable pub power_buttons : ServerStatus → List PowerAction
unfolding is_running
power_buttons status = if is_running status then restart ∷ stop ∷ kill ∷ [] else start ∷ []

-- `limit || fallback`
unfoldable pub ram_limit : ServerMetrics → Server → ℕ
ram_limit m s = if get_or_else m.ram_limit_mb 0 == 0 then s.ram_mb else get_or_else m.ram_limit_mb 0

-- The bar of a metric as a fraction, which is at most 1.
unfoldable pub filled : ℕ → ℕ → ℕ × ℕ
filled value ceiling = (if ltb ceiling value then ceiling else value, ceiling)

unfoldable pub ram_bar : ServerMetrics → Server → ℕ × ℕ
unfolding filled ram_limit
ram_bar m s = let limit = ram_limit m s in filled m.ram_used_mb (if limit == 0 then 1 else limit)

-- A load is given in hundredths of a percent.
unfoldable pub cpu_bar : ServerMetrics → ℕ × ℕ
unfolding filled
cpu_bar m = filled m.cpu_percent 10000

unfoldable pub players_bar : ServerMetrics → Option (ℕ × ℕ)
unfolding filled
players_bar m = elim m.players_online [
  | none ↦ none
  | some online ↦
      if get_or_else m.players_max 0 == 0
      then none
      else some (filled online (get_or_else m.players_max 0))
]

-- `filled > 0.9`
unfoldable pub is_full : ℕ × ℕ → Bool
is_full (value, ceiling) = ltb (9 * ceiling) (10 * value)

unfoldable pub format_uptime : ℕ → Text
format_uptime seconds =
    let minutes = seconds / 60 in
    let hours = minutes / 60 in
    if ltb seconds 60
    then decimal seconds ++ codes " с"
    else if ltb minutes 60
    then decimal minutes ++ codes " мин"
    else if ltb hours 24
    then decimal hours ++ codes " ч " ++ decimal (minutes % 60) ++ codes " мин"
    else decimal (hours / 24) ++ codes " д " ++ decimal (hours % 24) ++ codes " ч"

-- The tabs besides the console, which stays mounted under all of them.
pub data Tab : Type 0 where
  console connect files settings catalog modpacks backups options : Tab

pub data Shown : Type 0 where
  console_only : Shown
  beside : (tab : Tab) → (server_runs : Bool) → Shown

unfoldable pub tab_content : Tab → Server → Shown
unfolding is_running
tab_content console s = console_only
tab_content tab s = beside tab (is_running s.status)

unfoldable pub connection_label : (connected available : Bool) → Text
connection_label connected available =
    if connected
    then codes "подключено"
    else if available
    then codes "подключение…"
    else codes "сервер остановлен"
