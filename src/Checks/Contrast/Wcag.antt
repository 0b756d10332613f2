-- ===== src/Checks/Contrast/Wcag.antt =====
-- web/src/themes/contrast.test.mjs: colours and their contrast, described apart from the check.
use mirocraft.Prelude.{
  ◌≡◌, ◌≢◌, refl, sym, ap, ap₂, subst, ◌∙◌, inl, inr, ℕ, ◌+◌, ◌-◌, ◌*◌, ◌≤◌, Bool, true, false,
  ◌&&◌, [], ◌∷◌, Option, none, some, some-injective, leb, ◌==◌, if◌then◌else◌, Bool-cases, Text,
  trim, arith,
}
use mirocraft.Checks.Contrast.{
  Rgb, Floats, hex_digit, both, without_hash, number, channel, digits_rgb, parse_hex,
  channel_luminance, relative_luminance, contrast_ratio, is_below, threshold,
}

-- The value of a hexadecimal digit, if the character is one.
pub data DigitOf (c : ℕ) : Option ℕ → Type 0 where
  decimal_digit : (n : ℕ) → n ≤ 9 → c ≡ b'0' + n → DigitOf c (some n)
  small_digit : (n : ℕ) → n ≤ 5 → c ≡ b'a' + n → DigitOf c (some (10 + n))
  capital_digit : (n : ℕ) → n ≤ 5 → c ≡ b'A' + n → DigitOf c (some (10 + n))
  no_digit :
      ((n : ℕ) → n ≤ 9 → c ≢ b'0' + n)
      → ((n : ℕ) → n ≤ 5 → c ≢ b'a' + n)
      → ((n : ℕ) → n ≤ 5 → c ≢ b'A' + n)
      → DigitOf c none

hex_digit-DigitOf : (c : ℕ) → DigitOf c (hex_digit c)
unfolding hex_digit
hex_digit-DigitOf c = elim (Bool-cases (leb b'0' c && leb c b'9')) [
  | inl ten ↦ rw ten (decimal_digit (c - b'0') (ground arith) (ground arith))
  | inr other ↦ rw other (elim (Bool-cases (leb b'a' c && leb c b'f')) [
    | inl small ↦ rw small (
        subst (λ n. DigitOf c (some n)) (omega arith)
          (small_digit (c - b'a') (ground arith) (ground arith)))
    | inr other2 ↦ rw other2 (elim (Bool-cases (leb b'A' c && leb c b'F')) [
      | inl capital ↦ rw capital (
          subst (λ n. DigitOf c (some n)) (omega arith)
            (capital_digit (c - b'A') (ground arith) (ground arith)))
      | inr nothing ↦
          rw nothing
            (no_digit (λ n h e. ground arith) (λ n h e. ground arith) (λ n h e. ground arith))
    ])
  ])
]

DigitOf-unique : (c : ℕ) (v : Option ℕ) → DigitOf c v → hex_digit c ≡ v
unfolding hex_digit
DigitOf-unique c v (decimal_digit n h e) = ground arith
DigitOf-unique c v (small_digit n h e) = ground arith
DigitOf-unique c v (capital_digit n h e) = ground arith
DigitOf-unique c v (no_digit a b d) = elim (Bool-cases (leb b'0' c && leb c b'9')) [
  | inl ten ↦ absurd (a (c - b'0') (ground arith) (ground arith))
  | inr other ↦ elim (Bool-cases (leb b'a' c && leb c b'f')) [
    | inl small ↦ absurd (b (c - b'a') (ground arith) (ground arith))
    | inr others ↦ elim (Bool-cases (leb b'A' c && leb c b'F')) [
      | inl capital ↦ absurd (d (c - b'A') (ground arith) (ground arith))
      | inr nothing ↦ rw (other, others, nothing) refl
    ]
  ]
]

-- `parseInt` of two characters: a second one that is no digit ends the number.
abbrev pub two_digits : Option ℕ → Option ℕ → Option ℕ
two_digits none low = none
two_digits (some high) none = some high
two_digits (some high) (some low) = some (high * 16 + low)

channel-two_digits : (c d : ℕ) → channel c d ≡ two_digits (hex_digit c) (hex_digit d)
unfolding channel
channel-two_digits c d = by_digits (hex_digit c) (hex_digit d)
  where
    by_digits : (x y : Option ℕ) → both x y ≡ two_digits x y
    by_digits none y = refl
    by_digits (some x) none = refl
    by_digits (some x) (some y) = refl

read : {c d : ℕ} {x y : Option ℕ} → DigitOf c x → DigitOf d y → channel c d ≡ two_digits x y
read {c = c} {d = d} {x = x} {y = y} h k =
    channel-two_digits c d ∙ ap₂ two_digits (DigitOf-unique c x h) (DigitOf-unique d y k)

-- Three or four digits, or six or eight, of which the last of four and the last two of eight are the
-- transparency.
pub data Digits : Text → Rgb → Type 0 where
  three :
      {r g b : ℕ} {x y z : Option ℕ}
      → DigitOf r x
      → DigitOf g y
      → DigitOf b z
      → Digits (r ∷ g ∷ b ∷ []) (two_digits x x, two_digits y y, two_digits z z)
  four :
      {r g b a : ℕ} {x y z : Option ℕ}
      → DigitOf r x
      → DigitOf g y
      → DigitOf b z
      → Digits (r ∷ g ∷ b ∷ a ∷ []) (two_digits x x, two_digits y y, two_digits z z)
  six :
      {r s g h b c : ℕ} {x u y v z w : Option ℕ}
      → DigitOf r x
      → DigitOf s u
      → DigitOf g y
      → DigitOf h v
      → DigitOf b z
      → DigitOf c w
      → Digits (r ∷ s ∷ g ∷ h ∷ b ∷ c ∷ []) (two_digits x u, two_digits y v, two_digits z w)
  eight :
      {r s g h b c a d : ℕ} {x u y v z w : Option ℕ}
      → DigitOf r x
      → DigitOf s u
      → DigitOf g y
      → DigitOf h v
      → DigitOf b z
      → DigitOf c w
      → Digits (r ∷ s ∷ g ∷ h ∷ b ∷ c ∷ a ∷ d ∷ []) (two_digits x u, two_digits y v, two_digits z w)

abbrev rgb_of : Option ℕ → Option ℕ → Option ℕ → Rgb
rgb_of r g b = (r, g, b)

three_of :
    {a b c d e f : Option ℕ} → a ≡ d → b ≡ e → c ≡ f → some (rgb_of a b c) ≡ some (rgb_of d e f)
three_of {a = a} {b = b} {c = c} p q r = rw (p, q, r) refl

Digits-rgb : {hex : Text} {rgb : Rgb} → Digits hex rgb → digits_rgb hex ≡ some rgb
unfolding digits_rgb
Digits-rgb (three h k l) = three_of (read h h) (read k k) (read l l)
Digits-rgb (four h k l) = three_of (read h h) (read k k) (read l l)
Digits-rgb (six h i k l m n) = three_of (read h i) (read k l) (read m n)
Digits-rgb (eight h i k l m n) = three_of (read h i) (read k l) (read m n)

from_three :
    (r g b : ℕ) (rgb : Rgb) → digits_rgb (r ∷ g ∷ b ∷ []) ≡ some rgb → Digits (r ∷ g ∷ b ∷ []) rgb
from_three r g b rgb e =
    let d = three (hex_digit-DigitOf r) (hex_digit-DigitOf g) (hex_digit-DigitOf b) in
    subst (Digits _) (some-injective (sym (Digits-rgb d) ∙ e)) d

from_four :
    (r g b a : ℕ) (rgb : Rgb)
    → digits_rgb (r ∷ g ∷ b ∷ a ∷ []) ≡ some rgb
    → Digits (r ∷ g ∷ b ∷ a ∷ []) rgb
from_four r g b a rgb e =
    let d = four {a = a} (hex_digit-DigitOf r) (hex_digit-DigitOf g) (hex_digit-DigitOf b) in
    subst (Digits _) (some-injective (sym (Digits-rgb d) ∙ e)) d

from_six :
    (r s g h b c : ℕ) (rgb : Rgb)
    → digits_rgb (r ∷ s ∷ g ∷ h ∷ b ∷ c ∷ []) ≡ some rgb
    → Digits (r ∷ s ∷ g ∷ h ∷ b ∷ c ∷ []) rgb
from_six r s g h b c rgb e =
    let d =
      six (hex_digit-DigitOf r) (hex_digit-DigitOf s) (hex_digit-DigitOf g) (hex_digit-DigitOf h)
        (hex_digit-DigitOf b) (hex_digit-DigitOf c) in
    subst (Digits _) (some-injective (sym (Digits-rgb d) ∙ e)) d

from_eight :
    (r s g h b c a t : ℕ) (rgb : Rgb)
    → digits_rgb (r ∷ s ∷ g ∷ h ∷ b ∷ c ∷ a ∷ t ∷ []) ≡ some rgb
    → Digits (r ∷ s ∷ g ∷ h ∷ b ∷ c ∷ a ∷ t ∷ []) rgb
from_eight r s g h b c a t rgb e =
    let d =
      eight {a = a} {d = t} (hex_digit-DigitOf r) (hex_digit-DigitOf s) (hex_digit-DigitOf g)
        (hex_digit-DigitOf h) (hex_digit-DigitOf b) (hex_digit-DigitOf c) in
    subst (Digits _) (some-injective (sym (Digits-rgb d) ∙ e)) d

rgb-Digits : (hex : Text) (rgb : Rgb) → digits_rgb hex ≡ some rgb → Digits hex rgb
unfolding digits_rgb
rgb-Digits [] rgb e = cc
rgb-Digits (r ∷ []) rgb e = cc
rgb-Digits (r ∷ g ∷ []) rgb e = cc
rgb-Digits (r ∷ g ∷ b ∷ []) rgb e = from_three r g b rgb e
rgb-Digits (r ∷ g ∷ b ∷ a ∷ []) rgb e = from_four r g b a rgb e
rgb-Digits (r ∷ s ∷ g ∷ h ∷ b ∷ []) rgb e = cc
rgb-Digits (r ∷ s ∷ g ∷ h ∷ b ∷ c ∷ []) rgb e = from_six r s g h b c rgb e
rgb-Digits (r ∷ s ∷ g ∷ h ∷ b ∷ c ∷ a ∷ []) rgb e = cc
rgb-Digits (r ∷ s ∷ g ∷ h ∷ b ∷ c ∷ a ∷ t ∷ []) rgb e = from_eight r s g h b c a t rgb e
rgb-Digits (r ∷ s ∷ g ∷ h ∷ b ∷ c ∷ a ∷ t ∷ u ∷ rest) rgb e = cc

abbrev bare : Text → Text
bare [] = []
bare (c ∷ hex) = if c == b'#' then hex else c ∷ hex

-- The text is a colour: after a number sign, if it has one, and without white space at its ends.
abbrev pub ColourOf : Text → Rgb → Type 0
ColourOf value rgb = Digits (bare (trim value)) rgb

bare-without_hash : (s : Text) → without_hash s ≡ bare s
bare-without_hash [] = refl
bare-without_hash (c ∷ s) = refl

pub parse-ColourOf : (value : Text) (rgb : Rgb) → parse_hex value ≡ some rgb → ColourOf value rgb
unfolding parse_hex
parse-ColourOf value rgb e =
    rgb-Digits (bare (trim value)) rgb (ap digits_rgb (sym (bare-without_hash (trim value))) ∙ e)

pub ColourOf-parse : (value : Text) (rgb : Rgb) → ColourOf value rgb → parse_hex value ≡ some rgb
unfolding parse_hex
ColourOf-parse value rgb h = ap digits_rgb (bare-without_hash (trim value)) ∙ Digits-rgb h

module _ {F : Type 0} (m : Floats F) where
  -- The relative luminance of the WCAG, of channels from 0 to 255; one that is no number is NaN.
  abbrev level : Option ℕ → F
  level none = m.nan
  level (some n) = m.constant n 0

  abbrev linear : F → F
  linear s =
      if m.le s (m.constant 3928 5)
      then m.div s (m.constant 1292 2)
      else m.pow (m.div (m.add s (m.constant 55 3)) (m.constant 1055 3)) (m.constant 24 1)

  abbrev part : ℕ → Option ℕ → F
  part weight x = m.mul (m.constant weight 4) (linear (m.div (level x) (m.constant 255 0)))

  abbrev pub luminance : Rgb → F
  luminance (r, g, b) = m.add (m.add (part 2126 r) (part 7152 g)) (part 722 b)

  abbrev lifted : F → F
  lifted l = m.add l (m.constant 5 2)

  -- The lighter one of two colours over the darker one.
  pub data Contrast (a b : Rgb) : F → Type 0 where
    lighter :
        m.lt (luminance b) (luminance a) ≡ true
        → Contrast a b (m.div (lifted (luminance a)) (lifted (luminance b)))
    not_lighter :
        m.lt (luminance b) (luminance a) ≡ false
        → Contrast a b (m.div (lifted (luminance b)) (lifted (luminance a)))

  -- It does not compare as below 3 for large text, 4.5 for other text.
  pub record Legible (is_large : Bool) (a b : Rgb) : Type 0 where
    pub ratio : F
    pub contrast : Contrast a b ratio
    pub reached : m.lt ratio (if is_large then m.constant 3 0 else m.constant 45 1) ≡ false

  part_lem :
      (weight : ℕ) (x : Option ℕ)
      → m.mul (m.constant weight 4) (channel_luminance m (number m x)) ≡ part weight x
  unfolding channel_luminance
  part_lem weight none = refl
  part_lem weight (some n) = refl

  luminance_lem : (c : Rgb) → relative_luminance m c ≡ luminance c
  unfolding relative_luminance
  luminance_lem (r, g, b) =
      ap₂ m.add (ap₂ m.add (part_lem 2126 r) (part_lem 7152 g)) (part_lem 722 b)

  contrast_ratio-Contrast : (a b : Rgb) → Contrast a b (contrast_ratio m a b)
  unfolding contrast_ratio
  contrast_ratio-Contrast a b = elim (Bool-cases (m.lt (luminance b) (luminance a))) [
    | inl light ↦ rw (luminance_lem a, luminance_lem b, light) (lighter light)
    | inr dark ↦ rw (luminance_lem a, luminance_lem b, dark) (not_lighter dark)
  ]

  Contrast-unique : (a b : Rgb) (ratio : F) → Contrast a b ratio → contrast_ratio m a b ≡ ratio
  unfolding contrast_ratio
  Contrast-unique a b ratio (lighter light) = rw (luminance_lem a, luminance_lem b, light) refl
  Contrast-unique a b ratio (not_lighter dark) = rw (luminance_lem a, luminance_lem b, dark) refl

  pub is_below-Legible :
      (is_large : Bool) (a b : Rgb) → is_below m is_large a b ≡ false → Legible is_large a b
  unfolding is_below
  is_below-Legible is_large a b h = record {
    ratio = contrast_ratio m a b;
    contrast = contrast_ratio-Contrast a b;
    reached = h;
  }

  pub Legible-is_below :
      (is_large : Bool) (a b : Rgb) → Legible is_large a b → is_below m is_large a b ≡ false
  unfolding is_below
  Legible-is_below is_large a b h =
      ap (λ ratio. m.lt ratio (threshold m is_large)) (Contrast-unique a b h.ratio h.contrast)
      ∙ h.reached
