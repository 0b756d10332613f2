-- ===== src/Tests/Checks.antt =====
-- The checks of the build at concrete inputs.
use mirocraft.Prelude.{
  ◌≡◌, refl, ℕ, ◌+◌, ◌*◌, Bool, true, false, [], ◌∷◌, Option, none, some, ltb, leb, ◌===◌,
  if◌then◌else◌, codes, is_empty, is_space,
}
use mirocraft.Checks.Contrast.{
  Floats, Css, ok, illegible, missing_tokens, parse_hex, check_theme, check_tokens, inherit, Pair,
}
use mirocraft.Checks.Tokens.{parse_tokens}
use mirocraft.Checks.Literals.{is_allowed, check_file, Check}

-- Numbers that forget their decimals, with NaN.
abbrev lift : (ℕ → ℕ → ℕ) → Option ℕ → Option ℕ → Option ℕ
lift f (some a) (some b) = some (f a b)
lift f a b = none

abbrev compare_by : (ℕ → ℕ → Bool) → Option ℕ → Option ℕ → Bool
compare_by f (some a) (some b) = f a b
compare_by f a b = false

abbrev rough : Floats (Option ℕ)
rough = record {
  constant = λ n k. some n;
  nan = none;
  add = lift (λ a b. a + b);
  mul = lift (λ a b. a * b);
  div = lift (λ a b. a);
  pow = lift (λ a b. a);
  lt = compare_by ltb;
  le = compare_by leb;
}

abbrev white_on_black : Css
white_on_black = (codes "--text", codes "#fff") ∷ (codes "--bg", codes " #0b0b12 ") ∷ []

abbrev text_pair : Pair
text_pair = record { fg = codes "--text"; bg = codes "--bg"; is_large = false }

short_colour : parse_hex (codes "#0f8") ≡ some (some 0, some 255, some 136)
unfolding parse_hex codes is_space
short_colour = refl

legible : check_tokens rough (text_pair ∷ []) white_on_black ≡ ok
unfolding check_tokens codes ◌===◌ is_space
legible = refl

black_on_black :
    check_tokens rough
      (text_pair ∷ [])
      ((codes "--text", codes "#000") ∷ (codes "--bg", codes "#000") ∷ [])
    ≡ illegible (text_pair ∷ [])
unfolding check_tokens codes ◌===◌ is_space
black_on_black = refl

-- A colour without a digit is NaN, and passes on its own colour.
no_colour :
    check_tokens rough
      (text_pair ∷ [])
      ((codes "--text", codes "#zzz") ∷ (codes "--bg", codes "#zzz") ∷ [])
    ≡ ok
unfolding check_tokens codes ◌===◌ is_space
no_colour = refl

-- A theme without the other tokens, and without defaults.
lacking : check_theme rough [] white_on_black ≡ missing_tokens
unfolding check_theme codes ◌===◌
lacking = refl

-- What a theme sets stands in place of the default.
inherits :
    inherit white_on_black ((codes "--bg", codes "#fff") ∷ [])
    ≡ (codes "--text", codes "#fff") ∷ (codes "--bg", codes "#fff") ∷ []
unfolding inherit codes ◌===◌
inherits = refl

themes_may : is_allowed (codes "src/themes/index.ts") ≡ true
unfolding is_allowed codes ◌===◌
themes_may = refl

abbrev finds_red : Check
finds_red = record {
  name = codes "red";
  pattern = λ line. if is_empty line then none else some (codes "red");
}

comments_may : check_file (finds_red ∷ []) (codes "src/App.tsx") (codes "  // red\n") ≡ []
unfolding check_file codes ◌===◌ is_space
comments_may = refl

-- The name in the comment is followed by no colon; a later token replaces an earlier one.
tokens_read :
    parse_tokens (codes "/* --bg is */ :root { --bg: #fff; --Text :  red ;--bg:#000; --x: }")
    ≡ (codes "--bg", codes "#000") ∷ (codes "--Text", codes "red") ∷ []
unfolding parse_tokens codes ◌===◌ is_space
tokens_read = refl
