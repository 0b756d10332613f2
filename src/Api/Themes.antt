-- ===== src/Api/Themes.antt =====
-- web/src/lib/api.ts: the themes and the cores.
use mirocraft.Prelude.{ℕ, Bool, List, [], ◌∷◌, ◌++◌, Option, Text, codes}
use mirocraft.Api.Json.{Json, str, object}
use mirocraft.Api.Http.{post, patch, delete}
use mirocraft.Api.Endpoint.{Endpoint, calls, sends, lists}

unfoldable pub list_builtin_themes : Endpoint
list_builtin_themes = lists (codes "/themes")

unfoldable pub list_custom_themes : Endpoint
list_custom_themes = lists (codes "/users/me/themes")

-- A name or a variable that an imported file brought may be any value.
pub record ThemeInput : Type 0 where
  pub schema : Text
  pub name : Json
  pub base : Text
  pub vars : List (Text × Json)

abbrev theme_fields : ThemeInput → List (Text × Json)
theme_fields t =
    (codes "schema", str t.schema)
    ∷ (codes "name", t.name)
    ∷ (codes "base", str t.base)
    ∷ (codes "vars", object t.vars)
    ∷ []

unfoldable pub create_custom_theme : ThemeInput → Endpoint
create_custom_theme t = sends post (codes "/users/me/themes") (object (theme_fields t))

unfoldable pub update_custom_theme : Text → ThemeInput → Endpoint
update_custom_theme id t = sends patch (codes "/users/me/themes/" ++ id) (object (theme_fields t))

unfoldable pub delete_custom_theme : Text → Endpoint
delete_custom_theme id = calls delete (codes "/users/me/themes/" ++ id)

pub record Core : Type 0 where
  pub id : Text
  pub name : Text
  pub kind : Text
  pub runtime : Text
  pub loader : Option Text
  pub content_dir : Option Text
  pub builds_locally : Option Bool

pub data Channel : Type 0 where
  release snapshot : Channel

pub record CoreVersion : Type 0 where
  pub id : Text
  pub channel : Channel
  pub java_major : ℕ

unfoldable pub list_cores : Endpoint
list_cores = lists (codes "/cores")

unfoldable pub list_core_versions : Text → Endpoint
list_core_versions core = lists (codes "/cores/" ++ core ++ codes "/versions")
