-- ===== src/Tests/Views.antt =====
-- What the server pages show at concrete inputs.
use mirocraft.Prelude.{◌≡◌, refl, false, [], ◌∷◌, ◌===◌, Text, codes, starts_with, decimal}
use mirocraft.Api.Types.{starting}
use mirocraft.Api.Servers.{restart, stop}
use mirocraft.Console.{Line}
use mirocraft.Console.View.{level_class, warn, plain, format_uptime}
use mirocraft.Servers.View.{card_buttons, sparkline}

abbrev line_of : Text → Line
line_of text = record { ts = []; stream = codes "stdout"; text = text }

warning : level_class (line_of (codes "[12:00:00] [Server/WARN]: low tps")) ≡ warn
unfolding level_class codes ◌===◌ starts_with
warning = refl

no_level : level_class (line_of (codes "INFORMATION")) ≡ plain
unfolding level_class codes ◌===◌ starts_with
no_level = refl

uptime : format_uptime 93784 ≡ codes "1 д 2 ч"
unfolding format_uptime codes decimal
uptime = refl

buttons : card_buttons starting false ≡ (restart, false) ∷ (stop, false) ∷ []
unfolding card_buttons
buttons = refl

chart : sparkline (0 ∷ 12000 ∷ []) ≡ (0, 10000) ∷ (1, 0) ∷ []
unfolding sparkline
chart = refl
