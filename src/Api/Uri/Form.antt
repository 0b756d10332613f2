-- ===== src/Api/Uri/Form.antt =====
-- `URLSearchParams.prototype.toString`: pairs in the form encoding, in which a space is a `+` and
-- only letters, digits, `*`, `-`, `.` and `_` stand for themselves.
use mirocraft.Prelude.{Bool, ℕ, List, [], ◌∷◌, ◌++◌, ◌||◌, ◌&&◌, leb, ◌==◌, if◌then◌else◌, Text}
use mirocraft.Api.Uri.{utf8, percent}

is_form_plain : ℕ → Bool
is_form_plain c =
    (leb b'A' c && leb c b'Z')
    || (leb b'a' c && leb c b'z')
    || (leb b'0' c && leb c b'9')
    || c == b'*'
    || c == b'-'
    || c == b'.'
    || c == b'_'

form_char : ℕ → Text
unfolding is_form_plain
form_char c = if is_form_plain c then c ∷ [] else if c == 32 then b'+' ∷ [] else percent (utf8 c)

form_encode : Text → Text
unfolding form_char
form_encode [] = []
form_encode (c ∷ s) = form_char c ++ form_encode s

form_tail : List (Text × Text) → Text
unfolding form_encode
form_tail [] = []
form_tail ((k, v) ∷ q) = b'&' ∷ form_encode k ++ (b'=' ∷ form_encode v) ++ form_tail q

unfoldable pub form_text : List (Text × Text) → Text
unfolding form_tail form_encode
form_text [] = []
form_text ((k, v) ∷ q) = form_encode k ++ (b'=' ∷ form_encode v) ++ form_tail q
