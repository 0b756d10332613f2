-- ===== src/Tests/Themes.antt =====
-- Themes at concrete inputs.
use mirocraft.Prelude.{◌≡◌, refl, List, [], ◌∷◌, true, false, none, Text, codes, All, ◌===◌}
use mirocraft.Api.Types.{light, CustomTheme}
use mirocraft.Theme.Apply.{theme_tokens, Page, apply, base_of, is_custom, custom_id, find_custom}
use mirocraft.Theme.Apply.Base.{Holds, apply-Holds}
use mirocraft.Theme.Apply.Paint.{PaintsSame, SetsTokens, []-Whitelisted, apply-PaintsSame}
use mirocraft.Theme.Prerender.Laws.{Agrees, apply-Agrees}
use mirocraft.Theme.Provider.{Provider, preference, step, repaint}
use mirocraft.Theme.Provider.Laws.{Good, After, repaint-Good, step-After}

abbrev purple : CustomTheme
purple = record {
  id = codes "t1";
  schema = codes "mirocraft-theme/1";
  name = codes "Purple";
  base = light;
  vars = (codes "--accent", codes "#7c5cff") ∷ (codes "--bg", codes "#101014") ∷ [];
}

abbrev custom_themes : List CustomTheme
custom_themes = purple ∷ []

abbrev choice : Text
choice = codes "custom:t1"

abbrev page_of : Text → Page
page_of data_theme = record {
  root = record { data_theme = data_theme; style = [] };
  cache = record { available = true; choice = none; base = none; vars = none };
}

abbrev page : Page
page = page_of (codes "dark")

custom_themes-All : All SetsTokens custom_themes
unfolding codes ◌===◌ theme_tokens
custom_themes-All = ((refl, (refl, tt)), tt)

apply_at_choice : (apply false choice custom_themes page).root.style ≡ purple.vars
unfolding apply codes ◌===◌ is_custom custom_id find_custom theme_tokens
apply_at_choice = refl

apply-PaintsSame_example :
    PaintsSame
      (apply false choice custom_themes page).root
      (apply false choice custom_themes (page_of (codes "grass"))).root
apply-PaintsSame_example =
    apply-PaintsSame false choice custom_themes page (page_of (codes "grass")) []-Whitelisted
      []-Whitelisted

apply-Holds_example :
    Holds (apply false choice custom_themes page).cache (base_of false choice custom_themes)
apply-Holds_example = apply-Holds false choice custom_themes page refl

apply-Agrees_example : Agrees true (apply true choice custom_themes page)
apply-Agrees_example = apply-Agrees true choice custom_themes page refl []-Whitelisted

abbrev mounted : Provider
mounted = record {
  authenticated = true;
  prefers_light = false;
  choice = codes "system";
  custom_themes = custom_themes;
  page = page;
}

abbrev shown : Provider
shown = repaint mounted

shown-Good : Good shown
shown-Good = repaint-Good mounted (record { white = []-Whitelisted; known = custom_themes-All })

step-After_example : After (preference true) (step (preference true) shown)
step-After_example = step-After (preference true) shown tt tt shown-Good.0 shown-Good.1
