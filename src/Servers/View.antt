-- ===== src/Servers/View.antt =====
-- web/src/pages/Servers.tsx: what a card shows of a server. Loads are hundredths of a percent; how
-- the browser prints `n / d` with `k` decimals is the parameter `to_fixed n d k`.
use mirocraft.Prelude.{
  ℕ, zero, suc, ◌-◌, Bool, true, false, not, ◌||◌, List, [], ◌∷◌, ◌++◌, Option, none, some, length,
  ltb, if◌then◌else◌, Text, codes, decimal,
}
use mirocraft.Api.Types.{
  Server, ServerStatus, creating, stopped, starting, running, stopping, crashed, ServerMetrics,
}
use mirocraft.Api.Servers.{PowerAction, start, stop, restart}

unfoldable pub status_label : ServerStatus → Text
status_label running = codes "работает"
status_label starting = codes "запускается"
status_label stopping = codes "останавливается"
status_label stopped = codes "остановлен"
status_label crashed = codes "упал"
status_label creating = codes "создаётся"

abbrev pub is_running : ServerStatus → Bool
is_running running = true
is_running status = false

-- The points of the sparkline, each as its place and its height in hundredths of a percent below
-- the top; with fewer than two samples nothing is drawn.
abbrev height_below : ℕ → ℕ
height_below load = if ltb 10000 load then 0 else 10000 - load

unfoldable pub points_from : ℕ → List ℕ → List (ℕ × ℕ)
points_from i [] = []
points_from i (load ∷ loads) = (i, height_below load) ∷ points_from (suc i) loads

unfoldable pub sparkline : List ℕ → List (ℕ × ℕ)
unfolding points_from
sparkline loads = if ltb (length loads) 2 then [] else points_from 0 loads

module _ (to_fixed : ℕ → ℕ → ℕ → Text) where
  unfoldable pub format_gb : ℕ → Text
  format_gb mb = to_fixed mb 1024 1

  abbrev number_or_null : Option ℕ → Text
  number_or_null none = codes "null"
  number_or_null (some n) = decimal n

  unfoldable pub players_text : Option ServerMetrics → Text
  players_text none = codes "—"
  players_text (some m) = elim m.players_online [
    | none ↦ codes "—"
    | some online ↦ decimal online ++ codes "/" ++ number_or_null m.players_max
  ]

  unfoldable pub cpu_text : Option ServerMetrics → Text
  cpu_text none = codes "—"
  cpu_text (some m) = to_fixed m.cpu_percent 100 0 ++ codes "%"

  -- `limit || ram_mb`
  abbrev limit_or : Option ℕ → ℕ → ℕ
  limit_or none ram = ram
  limit_or (some zero) ram = ram
  limit_or (some (suc n)) ram = suc n

  abbrev memory_of : Option ServerMetrics → Server → Text
  memory_of none s = format_gb s.ram_mb ++ codes " ГБ"
  memory_of (some m) s =
      format_gb m.ram_used_mb
      ++ codes "/"
      ++ format_gb (limit_or m.ram_limit_mb s.ram_mb)
      ++ codes " ГБ"

  unfoldable pub memory_text : Server → Text
  memory_text s = memory_of (if is_running s.status then s.metrics else none) s

abbrev is_moving : ServerStatus → Bool
is_moving starting = true
is_moving stopping = true
is_moving status = false

-- The buttons of a card, each with whether it can be pressed.
unfoldable pub card_buttons : ServerStatus → (busy : Bool) → List (PowerAction × Bool)
card_buttons status busy =
    if is_running status || is_moving status
    then (restart, not (busy || is_moving status)) ∷ (stop, not (busy || is_moving status)) ∷ []
    else (start, not busy) ∷ []
