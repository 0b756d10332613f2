-- ===== src/Checks/Literals.antt =====
-- web/scripts/check-color-literals.mjs: which lines of the panel's sources may name a colour. The
-- patterns that find a colour are a parameter: each gives what it matched.
use mirocraft.Prelude.{
  ℕ, suc, Bool, true, false, ◌||◌, List, [], ◌∷◌, ◌++◌, Option, none, some, includes, length, drop,
  ◌==◌, ◌===◌, if◌then◌else◌, Text, codes, starts_with, split, trim,
}

-- A line that reaches a token, or a comment.
unfoldable pub is_skipped : Text → Bool
unfolding includes trim starts_with
is_skipped line =
    includes line (codes "var(--")
    || starts_with (trim line) (codes "//")
    || starts_with (trim line) (codes "*")
    || starts_with (trim line) (codes "/*")

-- `/^src[\\/]themes[\\/]/` and `/^src[\\/]index\.css$/`
abbrev is_slash : ℕ → Bool
is_slash c = c == b'/' || c == b'\\'

abbrev below : Text → Option Text
below [] = none
below (c ∷ s) = if is_slash c then some s else none

abbrev after : Text → Text → Option Text
after name path = if starts_with path name then below (drop (length name) path) else none

abbrev holds_colors : Option Text → Bool
holds_colors none = false
holds_colors (some rest) =
    rest === codes "index.css"
    || (elim (after (codes "themes") rest) [ none ↦ false | some file ↦ true ])

unfoldable pub is_allowed : Text → Bool
unfolding starts_with
is_allowed path = holds_colors (after (codes "src") path)

pub record Violation : Type 0 where
  pub line : ℕ
  pub check : Text
  pub found : Text

pub record Check : Type 0 where
  pub name : Text
  pub pattern : Text → Option Text

module _ (checks : List Check) where
  abbrev violation : ℕ → Check → Text → List Violation
  violation number check line = elim (check.pattern line) [
    | none ↦ []
    | some found ↦ record { line = number; check = check.name; found = found } ∷ []
  ]

  unfoldable pub check_line : ℕ → Text → List Check → List Violation
  check_line number line [] = []
  check_line number line (check ∷ rest) = violation number check line ++ check_line number line rest

  unfoldable pub check_lines : ℕ → List Text → List Violation
  unfolding is_skipped check_line
  check_lines number [] = []
  check_lines number (line ∷ lines) =
      (if is_skipped line then [] else check_line number line checks)
      ++ check_lines (suc number) lines

  -- A file with its path from the root of the panel; lines count from 1.
  unfoldable pub check_file : Text → Text → List Violation
  unfolding is_allowed split check_lines
  check_file path source = if is_allowed path then [] else check_lines 1 (split b'\n' source)
