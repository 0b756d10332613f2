-- ===== src/Checks/Contrast.antt =====
-- web/src/themes/contrast.test.mjs: every theme must keep its pairs of colours legible. The floating
-- point numbers are a parameter, with NaN.
pub mod Wcag
pub mod Gate
use mirocraft.Prelude.{
  ℕ, ◌+◌, ◌-◌, ◌*◌, Bool, true, false, not, ◌&&◌, ◌||◌, List, [], ◌∷◌, ◌++◌, Option, none, some,
  get_or_else, any, leb, ◌==◌, if◌then◌else◌, Text, codes, is_empty, trim,
}
use mirocraft.Prelude.Dict.{lookup, insert}

pub record Pair : Type 0 where
  pub fg : Text
  pub bg : Text
  pub is_large : Bool

abbrev body : Text → Text → Pair
body fg bg = record { fg = codes "--" ++ fg; bg = codes "--" ++ bg; is_large = false }

abbrev large : Text → Text → Pair
large fg bg = record { fg = codes "--" ++ fg; bg = codes "--" ++ bg; is_large = true }

unfoldable pub pairs : List Pair
pairs =
    body (codes "text") (codes "bg")
    ∷ body (codes "text") (codes "bg-elevated")
    ∷ body (codes "text") (codes "bg-inset")
    ∷ body (codes "text") (codes "bg-sunken")
    ∷ body (codes "text") (codes "bg-hover")
    ∷ body (codes "text") (codes "bg-active")
    ∷ body (codes "text-muted") (codes "bg")
    ∷ body (codes "text-muted") (codes "bg-elevated")
    ∷ body (codes "text-muted") (codes "bg-sunken")
    ∷ body (codes "text-muted") (codes "bg-hover")
    ∷ large (codes "text-faint") (codes "bg")
    ∷ body (codes "accent-fg") (codes "accent")
    ∷ body (codes "accent") (codes "accent-bg")
    ∷ large (codes "accent") (codes "bg")
    ∷ large (codes "success") (codes "bg")
    ∷ body (codes "success") (codes "success-bg")
    ∷ large (codes "warning") (codes "bg")
    ∷ body (codes "warning") (codes "warning-bg")
    ∷ large (codes "danger") (codes "bg")
    ∷ body (codes "danger") (codes "danger-bg")
    ∷ large (codes "info") (codes "bg")
    ∷ body (codes "info") (codes "info-bg")
    ∷ large (codes "border-strong") (codes "bg")
    ∷ body (codes "console-text") (codes "console-bg")
    ∷ body (codes "console-error") (codes "console-bg")
    ∷ body (codes "console-warn") (codes "console-bg")
    ∷ body (codes "console-info") (codes "console-bg")
    ∷ body (codes "console-debug") (codes "console-bg")
    ∷ large (codes "console-timestamp") (codes "console-bg")
    ∷ []

-- A digit of `parseInt(text, 16)`; a text that begins with none is NaN.
unfoldable pub hex_digit : ℕ → Option ℕ
hex_digit c =
    if leb b'0' c && leb c b'9'
    then some (c - b'0')
    else if leb b'a' c && leb c b'f'
    then some (c - b'a' + 10)
    else if leb b'A' c && leb c b'F'
    then some (c - b'A' + 10)
    else none

abbrev pub Rgb : Type 0
Rgb = Option ℕ × Option ℕ × Option ℕ

abbrev second : Option ℕ → ℕ → Option ℕ
second none high = some high
second (some low) high = some (high * 16 + low)

abbrev pub both : Option ℕ → Option ℕ → Option ℕ
both none low = none
both (some high) low = second low high

-- Two digits; a second character that is no digit ends the number.
unfoldable pub channel : ℕ → ℕ → Option ℕ
unfolding hex_digit
channel c d = both (hex_digit c) (hex_digit d)

abbrev pub without_hash : Text → Text
without_hash [] = []
without_hash (c ∷ s) = if c == b'#' then s else c ∷ s

-- Three or four digits, six or eight; whatever else is thrown out. The transparency is not read.
unfoldable pub digits_rgb : Text → Option Rgb
unfolding channel
digits_rgb (r ∷ g ∷ b ∷ []) = some (channel r r, channel g g, channel b b)
digits_rgb (r ∷ g ∷ b ∷ a ∷ []) = some (channel r r, channel g g, channel b b)
digits_rgb (r ∷ s ∷ g ∷ h ∷ b ∷ c ∷ []) = some (channel r s, channel g h, channel b c)
digits_rgb (r ∷ s ∷ g ∷ h ∷ b ∷ c ∷ a ∷ d ∷ []) = some (channel r s, channel g h, channel b c)
digits_rgb other = none

unfoldable pub parse_hex : Text → Option Rgb
unfolding digits_rgb trim
parse_hex value = digits_rgb (without_hash (trim value))

abbrev pub Css : Type 0
Css = List (Text × Text)

-- A theme inherits what it does not set: `{ ...defaults, ...theme }`.
unfoldable pub inherit : Css → Css → Css
unfolding insert
inherit defaults [] = defaults
inherit defaults ((name, value) ∷ theme) = inherit (insert name value defaults) theme

-- `!tokens[name]`
abbrev pub is_missing : Css → Text → Bool
is_missing tokens name = is_empty (get_or_else (lookup name tokens) [])

pub data Verdict : Type 0 where
  ok missing_tokens thrown : Verdict
  illegible : List Pair → Verdict

abbrev pub value_of : Css → Text → Text
value_of tokens name = get_or_else (lookup name tokens) []

-- The pairs that are not legible; nothing if a colour cannot be parsed.
abbrev pub gather : Pair → Option Bool → Option (List Pair) → Option (List Pair)
gather pair none rest = none
gather pair (some good) none = none
gather pair (some good) (some rest) = some (if good then rest else pair ∷ rest)

abbrev pub verdict_of : Option (List Pair) → Verdict
verdict_of none = thrown
verdict_of (some []) = ok
verdict_of (some (pair ∷ problems)) = illegible (pair ∷ problems)

-- The numbers of the language and what the check does with them; `constant n k` is the literal of
-- `n` with `k` decimals.
pub record Floats (F : Type 0) : Type 0 where
  pub constant : ℕ → ℕ → F
  pub nan : F
  pub add : F → F → F
  pub mul : F → F → F
  pub div : F → F → F
  pub pow : F → F → F
  pub lt : F → F → Bool
  pub le : F → F → Bool

module _ {F : Type 0} (m : Floats F) where
  abbrev pub number : Option ℕ → F
  number none = m.nan
  number (some n) = m.constant n 0

  unfoldable pub channel_luminance : F → F
  channel_luminance v =
      let s = m.div v (m.constant 255 0) in
      if m.le s (m.constant 3928 5)
      then m.div s (m.constant 1292 2)
      else m.pow (m.div (m.add s (m.constant 55 3)) (m.constant 1055 3)) (m.constant 24 1)

  unfoldable pub relative_luminance : Rgb → F
  unfolding channel_luminance
  relative_luminance (r, g, b) =
      m.add
        (m.add (m.mul (m.constant 2126 4) (channel_luminance (number r)))
          (m.mul (m.constant 7152 4) (channel_luminance (number g))))
        (m.mul (m.constant 722 4) (channel_luminance (number b)))

  abbrev over : F → F → F
  over light dark = m.div (m.add light (m.constant 5 2)) (m.add dark (m.constant 5 2))

  unfoldable pub contrast_ratio : Rgb → Rgb → F
  unfolding relative_luminance
  contrast_ratio a b =
      let la = relative_luminance a in
      let lb = relative_luminance b in if m.lt lb la then over la lb else over lb la

  -- `AA_LARGE` and `AA_TEXT`
  abbrev pub threshold : Bool → F
  threshold is_large = if is_large then m.constant 3 0 else m.constant 45 1

  -- `ratio < threshold`
  unfoldable pub is_below : Bool → Rgb → Rgb → Bool
  unfolding contrast_ratio
  is_below is_large fg bg = m.lt (contrast_ratio fg bg) (threshold is_large)

  abbrev pub judge : Pair → Option Rgb → Option Rgb → Option Bool
  judge pair none bg = none
  judge pair (some fg) none = none
  judge pair (some fg) (some bg) = some (not (is_below pair.is_large fg bg))

  unfoldable pub check_pair : Css → Pair → Option Bool
  unfolding parse_hex lookup is_below
  check_pair tokens pair =
      judge pair (parse_hex (value_of tokens pair.fg)) (parse_hex (value_of tokens pair.bg))

  unfoldable pub illegible_pairs : Css → List Pair → Option (List Pair)
  unfolding check_pair
  illegible_pairs tokens [] = some []
  illegible_pairs tokens (pair ∷ rest) =
      gather pair (check_pair tokens pair) (illegible_pairs tokens rest)

  unfoldable pub check_tokens : List Pair → Css → Verdict
  unfolding lookup illegible_pairs
  check_tokens list tokens =
      if any (λ (p : Pair). is_missing tokens p.fg || is_missing tokens p.bg) list
      then missing_tokens
      else verdict_of (illegible_pairs tokens list)

  unfoldable pub check_theme : (defaults theme : Css) → Verdict
  unfolding check_tokens pairs inherit
  check_theme defaults theme = check_tokens pairs (inherit defaults theme)
