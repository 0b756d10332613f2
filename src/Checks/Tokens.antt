-- ===== src/Checks/Tokens.antt =====
-- web/src/themes/contrast.test.mjs: how the tokens are read from the text of a theme.
use mirocraft.Prelude.{
  ℕ, zero, suc, ◌+◌, ◌-◌, Bool, not, ◌&&◌, ◌||◌, [], ◌∷◌, Option, none, some, length, leb, ◌==◌,
  if◌then◌else◌, Text, codes, starts_with, trim,
}
use mirocraft.Prelude.Dict.{insert}
use mirocraft.Prelude.{is_space}
use mirocraft.Checks.Contrast.{Css}

-- `[a-z0-9-]`, in either case
abbrev is_name : ℕ → Bool
is_name c =
    (leb b'a' c && leb c b'z')
    || (leb b'A' c && leb c b'Z')
    || (leb b'0' c && leb c b'9')
    || c == b'-'

-- What begins the text and passes the test.
unfoldable while_passes : (ℕ → Bool) → Text → Text
while_passes test [] = []
while_passes test (c ∷ s) = let rest = while_passes test s in if test c then c ∷ rest else []

-- A match: the name, the value and how many characters they stand on.
abbrev Match : Type 0
Match = (Text × Text) × ℕ

-- The text behind its beginning `before`.
abbrev past : Text → Text → Text
past [] s = s
past (b ∷ before) [] = []
past (b ∷ before) (c ∷ s) = past before s

-- `([^;]+);`, with the white space before it; `before` counts what was matched already.
abbrev ended : (before : ℕ) → (name value after : Text) → Option Match
ended before name [] after = none
ended before name (c ∷ value) [] = none
ended before name (c ∷ value) (semicolon ∷ after) =
    some ((name, trim (c ∷ value)), before + length (c ∷ value) + 1)

abbrev value_of : (before : ℕ) → (name s : Text) → Option Match
value_of before name s =
    let value = while_passes (λ c. not (c == b';')) s in ended before name value (past value s)

-- `\s*:`
abbrev colon : (before : ℕ) → (name s : Text) → Option Match
colon before name [] = none
colon before name (c ∷ s) = if c == b':' then value_of (before + 1) name s else none

abbrev spaces : (before : ℕ) → (name s : Text) → Option Match
spaces before name s =
    let blank = while_passes is_space s in colon (before + length blank) name (past blank s)

-- `--[a-z0-9-]+`
abbrev named : (name s : Text) → Option Match
named (d ∷ e ∷ f ∷ name) s =
    if starts_with (d ∷ e ∷ f ∷ name) (codes "--")
    then spaces (length (d ∷ e ∷ f ∷ name)) (d ∷ e ∷ f ∷ name) s
    else none
named name s = none

unfoldable token_at : Text → Option Match
unfolding while_passes trim starts_with
token_at s = let name = while_passes is_name s in named name (past name s)

-- `skip` counts the rest of what was just matched; a later token replaces an earlier one.
unfoldable tokens_from : ℕ → Css → Text → Css
unfolding token_at insert
tokens_from skip tokens [] = tokens
tokens_from (suc skip) tokens (c ∷ s) = tokens_from skip tokens s
tokens_from zero tokens (c ∷ s) = elim (token_at (c ∷ s)) [
  | none ↦ tokens_from 0 tokens s
  | some ((name, value), n) ↦ tokens_from (n - 1) (insert name value tokens) s
]

unfoldable pub parse_tokens : Text → Css
unfolding tokens_from
parse_tokens css = tokens_from 0 [] css
