-- ===== src/Pages/Settings/Radius.antt =====
-- web/src/pages/Settings.tsx: the corner radius of the theme editor, the three variables that it
-- sets, and `parseInt`, which reads one of them back. Radii below 2^53, where numbers are exact.
use mirocraft.Prelude.{
  ◌≡◌, refl, ap, ◌∙◌, inl, inr, ℕ, zero, suc, ◌+◌, ◌-◌, ◌*◌, ◌/◌, ◌%◌, ◌<◌, Bool, true, false, ◌&&◌,
  [], ◌∷◌, ◌++◌, Option, none, some, ltb, leb, ◌==◌, if◌then◌else◌, Bool-cases, Text, codes,
  decimal, trim_left, is_space, decimal_from, ltb→lt, ltb-false→le, arith,
}

-- A radius of a file may be negative. The integers stand on the native numbers.
pub data ℤ : Type 0 where
  pos negsuc : ℕ → ℤ

abbrev pub int_text : ℤ → Text
int_text (pos n) = decimal n
int_text (negsuc n) = codes "-" ++ decimal (suc n)

abbrev pub px : ℤ → Text
px z = int_text z ++ codes "px"

-- The number `-n`.
abbrev pub negate : ℕ → ℤ
negate zero = pos zero
negate (suc n) = negsuc n

-- `Math.max(2, Math.round(radius * 0.6))`
unfoldable pub small_radius : ℤ → ℤ
small_radius (pos n) = let rounded = (6 * n + 5) / 10 in pos (if ltb rounded 2 then 2 else rounded)
small_radius (negsuc n) = pos 2

-- `Math.round(radius * 1.6)`
unfoldable pub large_radius : ℤ → ℤ
large_radius (pos n) = pos ((16 * n + 5) / 10)
large_radius (negsuc n) = negate ((16 * suc n + 4) / 10)

abbrev pub is_digit : ℕ → Bool
is_digit c = leb b'0' c && leb c b'9'

-- The digits that a text begins with, behind those that gave `n`.
unfoldable pub read_digits : ℕ → Text → ℕ
read_digits n [] = n
read_digits n (c ∷ s) =
    let rest = read_digits (n * 10 + (c - b'0')) s in if is_digit c then rest else n

abbrev pub begins_digit : Text → Bool
begins_digit [] = false
begins_digit (c ∷ s) = is_digit c

unfoldable pub read_natural : (ℕ → ℤ) → Text → Option ℤ
read_natural sign s = if begins_digit s then some (sign (read_digits 0 s)) else none

unfoldable pub read_signed : Text → Option ℤ
unfolding read_natural
read_signed [] = none
read_signed (c ∷ s) =
    if c == b'-'
    then read_natural negate s
    else if c == b'+'
    then read_natural pos s
    else read_natural pos (c ∷ s)

-- `parseInt(text, 10)`, which gives nothing for NaN.
unfoldable pub parse_int : Text → Option ℤ
unfolding read_signed
parse_int s = read_signed (trim_left s)

decimal_from-append :
    (f n : ℕ) (out rest : Text) → decimal_from f n out ++ rest ≡ decimal_from f n (out ++ rest)
unfolding decimal_from
decimal_from-append zero n out rest = refl
decimal_from-append (suc f) n out rest = elim (Bool-cases (ltb n 10)) [
  | inl last ↦ rw last refl
  | inr more ↦ rw more (decimal_from-append f (n / 10) ((b'0' + n % 10) ∷ out) rest)
]

decimal_from-begins_digit :
    (f n : ℕ) (out : Text) → n < f → begins_digit (decimal_from f n out) ≡ true
unfolding decimal_from
decimal_from-begins_digit zero n out h = absurd (omega arith)
decimal_from-begins_digit (suc f) n out h = elim (Bool-cases (ltb n 10)) [
  | inl last ↦ rw last (ground arith)
  | inr more ↦ rw more (
      decimal_from-begins_digit f (n / 10) ((b'0' + n % 10) ∷ out)
        (omega (arith, ltb-false→le n 10 more)))
]

-- A digit in front is read first.
read_digits-cons :
    (n d : ℕ) (s : Text) → d < 10 → read_digits n ((b'0' + d) ∷ s) ≡ read_digits (n * 10 + d) s
unfolding read_digits
read_digits-cons n d s h =
    let digit : is_digit (b'0' + d) ≡ true = ground arith in
    rw digit (ap (λ m. read_digits m s) (omega arith))

read_digits-decimal_from :
    (f n : ℕ) (out : Text) → n < f → read_digits 0 (decimal_from f n out) ≡ read_digits n out
unfolding decimal_from
read_digits-decimal_from zero n out h = absurd (omega arith)
read_digits-decimal_from (suc f) n out h = elim (Bool-cases (ltb n 10)) [
  | inl last ↦ rw last (
      read_digits-cons 0 (n % 10) out (omega arith)
      ∙ ap (λ m. read_digits m out) (omega (arith, ltb→lt n 10 last)))
  | inr more ↦ rw more (
      read_digits-decimal_from f (n / 10) ((b'0' + n % 10) ∷ out)
        (omega (arith, ltb-false→le n 10 more))
      ∙ read_digits-cons (n / 10) (n % 10) out (omega arith)
      ∙ ap (λ m. read_digits m out) (omega arith))
]

decimal-begins_digit : (n : ℕ) → begins_digit (decimal n ++ codes "px") ≡ true
unfolding decimal
decimal-begins_digit n =
    rw (decimal_from-append (suc n) n [] (codes "px"))
      (decimal_from-begins_digit (suc n) n (codes "px") (omega arith))

read_digits-decimal : (n : ℕ) → read_digits 0 (decimal n ++ codes "px") ≡ n
unfolding decimal codes read_digits
read_digits-decimal n =
    rw (decimal_from-append (suc n) n [] (codes "px"))
      (read_digits-decimal_from (suc n) n (codes "px") (omega arith))

read_natural-decimal :
    (sign : ℕ → ℤ) (n : ℕ) → read_natural sign (decimal n ++ codes "px") ≡ some (sign n)
unfolding read_natural
read_natural-decimal sign n =
    rw (decimal-begins_digit n) (ap (λ m. some (sign m)) (read_digits-decimal n))

-- What begins with a digit is read as a number without a sign.
parse_int-digit : (s : Text) → begins_digit s ≡ true → parse_int s ≡ read_natural pos s
unfolding parse_int read_signed trim_left is_space
parse_int-digit [] h = cc
parse_int-digit (c ∷ s) h = ground arith

pub parse_int-px : (z : ℤ) → parse_int (px z) ≡ some z
unfolding parse_int read_signed trim_left is_space codes
parse_int-px (pos n) =
    parse_int-digit (px (pos n)) (decimal-begins_digit n) ∙ read_natural-decimal pos n
parse_int-px (negsuc n) = read_natural-decimal negate (suc n)
