-- ===== src/Tests/Console.antt =====
-- The console at concrete inputs.
use mirocraft.Prelude.{
  trim, is_space, last_of, ◌≡◌, refl, List, [], ◌∷◌, ◌++◌, true, false, none, some, Text, codes,
  arith, ◌===◌,
}
use mirocraft.Api.Http.{Failure}
use mirocraft.Api.Endpoint.{Endpoint}
use mirocraft.Api.Servers.{delete_server}
use mirocraft.Tests.Data.{lobby}
use mirocraft.Console.{
  Console, console_available, Line, attached, max_rendered_lines, handle_command, handle_delete,
  step, received, old_closed, old_closes, line_frame,
}
use mirocraft.Console.Bound.{shown, push_all, push_all-shown}
use mirocraft.Console.Laws.{IsSound, step-IsSound}
use mirocraft.Console.Sending.{Sends, handle_command-Sends, IsConfirmed, handle_delete-IsConfirmed}

abbrev line : Text → Line
line text = record { ts = codes "12:00"; stream = codes "stdout"; text = text }

abbrev console : Console
console = record {
  server = some lobby;
  error = none;
  lines = record { key = 0; line = line (codes "Done") } ∷ [];
  next_key = 1;
  link = attached true;
  connected = true;
  closing = 0;
  command = codes "  say hi ";
}

console-IsSound : IsSound false console
unfolding console_available
console-IsSound = record {
  bounded = omega arith;
  keyed = omega arith;
  truthful = refl;
  quiet = λ off. absurd (available off);
}
  where
    available : true ≡ false → ⊥
    available e = cc

abbrev messages : Failure → Text
messages e = codes "Failed to fetch"

step-IsSound_example : IsSound false (
    step
      (codes "s1")
      messages
      (received (codes "12:01") (line_frame (line (codes "joined"))))
      console)
step-IsSound_example =
    step-IsSound false (codes "s1") messages
      (received (codes "12:01") (line_frame (line (codes "joined")))) console console-IsSound

-- A socket that was replaced tells late that it is closed: the page says that it is not connected
-- while the socket that replaced it is open.
closed_late :
    (step (codes "s1") messages old_closed (record console { closing = 1 })).connected ≡ false
unfolding step old_closes
closed_late = refl

abbrev joined : List Line
joined = line (codes "a") ∷ line (codes "b") ∷ []

push_all-shown_example :
    shown (push_all joined console) ≡ last_of max_rendered_lines (shown console ++ joined)
push_all-shown_example = push_all-shown joined console (omega arith)

trim_at_command : trim (codes "  say hi ") ≡ codes "say hi"
unfolding trim is_space codes
trim_at_command = refl

handle_command-Sends_example : Sends (codes "s1") console (handle_command (codes "s1") console)
handle_command-Sends_example = handle_command-Sends (codes "s1") console

abbrev deletion : Endpoint
deletion = delete_server (codes "s1") (codes "Lobby")

asked : handle_delete (codes "s1") (some (codes "Lobby")) console ≡ some deletion
unfolding handle_delete codes ◌===◌
asked = refl

lobby_deletion : IsConfirmed (codes "s1") (some (codes "Lobby")) console deletion
lobby_deletion =
    handle_delete-IsConfirmed (codes "s1") (some (codes "Lobby")) console deletion asked
