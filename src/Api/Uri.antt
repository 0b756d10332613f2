-- ===== src/Api/Uri.antt =====
-- `encodeURIComponent`, which web/src/lib/api.ts puts names and paths into URLs with. A text is a
-- list of code points, so the lone surrogates on which the function throws do not occur.
pub mod Decode
pub mod Form
pub mod Laws
use mirocraft.Prelude.{
  Bool, ℕ, ◌+◌, ◌/◌, ◌%◌, List, [], ◌∷◌, ◌++◌, ◌||◌, ◌&&◌, ltb, leb, ◌==◌, if◌then◌else◌, Text,
}

-- A-Z a-z 0-9 - _ . ! ~ * ' ( )
unfoldable pub is_unreserved : ℕ → Bool
is_unreserved c =
    (leb b'A' c && leb c b'Z')
    || (leb b'a' c && leb c b'z')
    || (leb b'0' c && leb c b'9')
    || c == b'-'
    || c == b'_'
    || c == b'.'
    || c == b'!'
    || c == b'~'
    || c == b'*'
    || c == 39
    || c == b'('
    || c == b')'

unfoldable pub utf8 : ℕ → List ℕ
utf8 c =
    if ltb c 0x80
    then c ∷ []
    else if ltb c 0x800
    then (0xC0 + c / 64) ∷ (0x80 + c % 64) ∷ []
    else if ltb c 0x10000
    then (0xE0 + c / 4096) ∷ (0x80 + c / 64 % 64) ∷ (0x80 + c % 64) ∷ []
    else (0xF0 + c / 262144) ∷ (0x80 + c / 4096 % 64) ∷ (0x80 + c / 64 % 64) ∷ (0x80 + c % 64) ∷ []

unfoldable pub hex_digit : ℕ → ℕ
hex_digit d = if ltb d 10 then 48 + d else 55 + d

unfoldable pub percent : List ℕ → Text
unfolding hex_digit
percent [] = []
percent (b ∷ bs) = b'%' ∷ hex_digit (b / 16) ∷ hex_digit (b % 16) ∷ percent bs

unfoldable pub encode_char : ℕ → Text
unfolding percent utf8 is_unreserved
encode_char c = if is_unreserved c then c ∷ [] else percent (utf8 c)

unfoldable pub encode_uri_component : Text → Text
unfolding encode_char
encode_uri_component [] = []
encode_uri_component (c ∷ s) = encode_char c ++ encode_uri_component s
