-- ===== src/Api/Session.antt =====
-- web/src/lib/api.ts, token storage: the bearer token in the browser's localStorage.
pub mod Laws
use mirocraft.Prelude.{Bool, List, Option, none, some, if◌then◌else◌, Text, codes, is_empty}
use mirocraft.Prelude.Dict.{lookup, insert, erase}

-- localStorage. Each call throws where the browser denies it, as in private mode.
pub record Storage : Type 0 where
  pub available : Bool
  pub items : List (Text × Text)

-- `getItem`, `setItem` and `removeItem` inside a `try` whose `catch` does nothing.
unfoldable pub get_item : Text → Storage → Option Text
unfolding lookup
get_item key s = if s.available then lookup key s.items else none

unfoldable pub set_item : Text → Text → Storage → Storage
unfolding insert
set_item key value s = if s.available then record s { items = insert key value s.items } else s

unfoldable pub remove_item : Text → Storage → Storage
unfolding erase
remove_item key s = if s.available then record s { items = erase key s.items } else s

abbrev pub token_key : Text
token_key = codes "mirocraft.token"

unfoldable pub get_token : Storage → Option Text
unfolding get_item
get_token s = get_item token_key s

-- An empty token is falsy, and is removed like null.
unfoldable pub set_token : Option Text → Storage → Storage
unfolding set_item remove_item
set_token none s = remove_item token_key s
set_token (some token) s =
    if is_empty token then remove_item token_key s else set_item token_key token s
