-- ===== src/Theme/Provider.antt =====
-- web/src/ThemeProvider.tsx: the state of the provider and what each event does to it. The calls
-- that go to the server are returned; the effects that React runs after a change are part of the
-- step that makes the change.
pub mod Laws
use mirocraft.Prelude.{
  Bool, List, [], ◌∷◌, ◌||◌, Option, some, none, Text, ◌===◌, is_empty, if◌then◌else◌,
}
use mirocraft.Api.Types.{ThemeBase, dark, light, CustomTheme}
use mirocraft.Api.Endpoint.{Endpoint}
use mirocraft.Api.Accounts.{update_me}
use mirocraft.Theme.Registry.{base_name, system}
use mirocraft.Theme.Apply.{
  Vars, Page, apply, base_of, cached_choice, on_system_change, clear_overrides, set_properties,
}

pub record Provider : Type 0 where
  pub authenticated : Bool
  pub prefers_light : Bool
  pub choice : Text
  pub custom_themes : List CustomTheme
  pub page : Page

-- The first render starts from the cached choice, and the effects paint it.
unfoldable pub repaint : Provider → Provider
repaint s = record s { page = apply s.prefers_light s.choice s.custom_themes s.page }

unfoldable pub mount : Bool → Bool → Page → Provider
unfolding repaint
mount authenticated prefers_light page = repaint (record {
  authenticated = authenticated;
  prefers_light = prefers_light;
  choice = cached_choice page.cache;
  custom_themes = [];
  page = page;
})

-- What a closure of a render paints: it knows the custom themes of that render, which may be old.
unfoldable pub paint_by : List CustomTheme → Provider → Provider
paint_by seen s = record s { page = apply s.prefers_light s.choice seen s.page }

-- `setChoice` of the render that saw these themes: the choice is painted, and painted again by the
-- effect, which sees the current themes, if it is a new one. A failed save changes nothing.
unfoldable pub set_choice : (seen : List CustomTheme) → Text → Provider → Provider × List Endpoint
unfolding repaint paint_by
set_choice seen next s =
    let s' = paint_by seen (record s { choice = next }) in
    (
      if next === s.choice then s' else repaint s',
      if s.authenticated
          then update_me
              (record { email = none; password = none; old_password = none; theme = some next })
            ∷ []
          else [],
    )

abbrev pub other_base : ThemeBase → ThemeBase
other_base dark = light
other_base light = dark

unfoldable pub toggle_light_dark : (seen : List CustomTheme) → Provider → Provider × List Endpoint
unfolding set_choice
toggle_light_dark seen s =
    set_choice seen (base_name (other_base (base_of s.prefers_light s.choice seen))) s

unfoldable pub preview : Vars → ThemeBase → Provider → Provider
unfolding clear_overrides set_properties
preview vars base s = record s {
  page = record s.page {
    root = record {
      data_theme = base_name base;
      style = set_properties vars (clear_overrides s.page.root).style;
    };
  };
}

-- The profile's choice, once it is known, wins over the cached one.
unfoldable pub reconcile : Option Text → Provider → Provider
unfolding repaint
reconcile none s = s
reconcile (some choice) s =
    if is_empty choice || choice === s.choice then s else repaint (record s { choice = choice })

-- The themes that `reloadCustomThemes` receives; none if the call fails.
unfoldable pub receive_themes : Option (List CustomTheme) → Provider → Provider
unfolding repaint
receive_themes none s = s
receive_themes (some themes) s =
    if s.authenticated then repaint (record s { custom_themes = themes }) else s

-- The preference of the operating system changes.
unfoldable pub system_changed : Bool → Provider → Provider
unfolding on_system_change
system_changed prefers_light s =
    on_system_change s.choice
      (λ (t : Provider). record t { page = apply t.prefers_light system t.custom_themes t.page })
      (record s { prefers_light = prefers_light })

-- A handler and a clean-up run with the closure of an earlier render: `seen` are the custom themes
-- of that one.
pub data Event : Type 0 where
  chosen : (seen : List CustomTheme) → Text → Event
  toggled : (seen : List CustomTheme) → Event
  profile : Option Text → Event
  themes : Option (List CustomTheme) → Event
  preference : Bool → Event
  previewed : Vars → ThemeBase → Event
  preview_ended : (seen : List CustomTheme) → Event

unfoldable pub step : Event → Provider → Provider
unfolding set_choice toggle_light_dark reconcile receive_themes system_changed preview paint_by
step (chosen seen next) s = (set_choice seen next s).0
step (toggled seen) s = (toggle_light_dark seen s).0
step (profile choice) s = reconcile choice s
step (themes list) s = receive_themes list s
step (preference prefers_light) s = system_changed prefers_light s
step (previewed vars base) s = preview vars base s
step (preview_ended seen) s = paint_by seen s
