-- ===== src/Tests/Properties.antt =====
-- The editor of server.properties at concrete inputs.
use mirocraft.Prelude.{
  ◌≡◌, refl, inl, inr, All, Bool, true, false, ◌&&◌, List, [], ◌∷◌, none, some, ◌===◌, Text, codes,
}
use mirocraft.Prelude.Dict.{lookup}
use mirocraft.Api.Http.{returned}
use mirocraft.Api.Servers.{Settings, string}
use mirocraft.Pages.Properties.{
  Editor, Event, save_pressed, changed_count, step, load_ended, typed, handle_save, rows_of,
  contains, matches,
}
use mirocraft.Pages.Flight.{take_out}
use mirocraft.Pages.Ui.{Offers, each}
use mirocraft.Pages.Run.{acts, happens, ends, Reach, here, next}
use mirocraft.Pages.Properties.Controls
use mirocraft.Pages.Properties.View.{view, editor_view, settings_view, row_view, control_view}
use mirocraft.Pages.Properties.Running.{mounted, load, handle, happen, settle, page}
use mirocraft.Pages.Properties.Managed.{Spares, Reach-Spares}
use mirocraft.Pages.Properties.Rows.{keyed, rows_of-keyed}
use mirocraft.Pages.Properties.Saving.{opened, run, Saves, handle_save-Saves}

abbrev file : Settings
file = record {
  values = (codes "motd", codes "Hello") ∷ (codes "mod-key", codes "x") ∷ [];
  schema =
      record {
        key = codes "motd";
        kind = string;
        default = none;
        min = none;
        max = none;
        values = none;
        note = none;
      }
      ∷ [];
  managed = [];
  restart_required = none;
}

-- One value is changed, the other is typed in as it is.
abbrev edits : List Event
edits =
    load_ended (returned file)
    ∷ typed (codes "motd") (codes "Welcome")
    ∷ typed (codes "mod-key") (codes "x")
    ∷ []

sent : (handle_save (run edits opened)).1 ≡ some ((codes "motd", codes "Welcome") ∷ [])
unfolding handle_save run codes ◌===◌ lookup
sent = refl

handle_save-Saves_example : Saves file (run edits opened).draft (handle_save (run edits opened)).1
unfolding run
handle_save-Saves_example = handle_save-Saves edits file refl

abbrev before : Text → Text → Bool
before a b = true

abbrev lower : Text → Text
lower t = t

mod_key_row :
    keyed (codes "mod-key") (rows_of before lower file [] (codes "mod"))
    ≡ contains (codes "mod-key") file.values && matches lower (codes "mod") (codes "mod-key")
mod_key_row = rows_of-keyed before lower file [] (codes "mod") (codes "mod-key")

abbrev managed_file : Settings
managed_file = record file { managed = (codes "mod-key", codes "x") ∷ [] }

abbrev read : Editor
read = (settle load (returned managed_file) (happen mounted opened).0).0

abbrev welcome : Event
welcome = typed (codes "motd") (codes "Welcome")

welcome_offered : Offers welcome (view before lower read)
unfolding view editor_view settings_view row_view control_view Controls.control each Offers settle
    happen rows_of codes ◌===◌ lookup step
welcome_offered = inr (
    inr (
      inr (
        inr (
          inr
            (inr (inr (inr (inl (inr (inr (inr (inr (inl (refl, codes "Welcome", refl))))))))))))))

save_offered : Offers save_pressed (view before lower (handle welcome read).0)
unfolding view editor_view settings_view Offers settle happen codes ◌===◌ lookup step handle
    changed_count
save_offered = inr (inr (inr (inr (inl (refl, record { typed = none; sure = false }, refl)))))

-- The file was read, and a value was typed.
edited : Reach (page before lower) (opened, []) ((handle welcome read).0, [])
unfolding settle happen handle take_out
edited =
    next (next (next here (happens mounted)) (ends 0 load [] (returned managed_file) refl))
      (acts welcome welcome_offered)

Reach-Spares_example :
    All (Spares (some managed_file)) (handle save_pressed (handle welcome read).0).1
unfolding settle happen handle step
Reach-Spares_example = Reach-Spares before lower save_pressed edited save_offered
