-- ===== src/Api/Session/Laws.antt =====
-- `getToken` and `setToken` of web/src/lib/api.ts, one after the other.
use mirocraft.Prelude.{
  Bool, true, false, Option, none, some, ◌≡◌, Text, is_empty, arith, if◌then◌else◌,
}
use mirocraft.Prelude.Dict.{lookup-insert_self, lookup-erase_self}
use mirocraft.Api.Session.{
  Storage, get_item, set_item, remove_item, token_key, get_token, set_token,
}

-- The token that is read, as far as the storage and the last write allow it.
abbrev pub kept : Bool → Option Text → Option Text
kept false t = none
kept true none = none
kept true (some t) = if is_empty t then none else some t

-- A token that is stored is the one that is read afterwards; storing none, or the empty text, leaves
-- none. Where the browser denies its storage none is read.
pub get_token-set_token :
    (t : Option Text) (s : Storage) → get_token (set_token t s) ≡ kept s.available t
unfolding get_token set_token get_item set_item remove_item
get_token-set_token none s = ground (arith, lookup-erase_self {V = Text} token_key s.items)
get_token-set_token (some t) s = ground (
  arith,
  lookup-erase_self {V = Text} token_key s.items,
  lookup-insert_self {V = Text} token_key t s.items,
)
