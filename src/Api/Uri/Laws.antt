-- ===== src/Api/Uri/Laws.antt =====
-- The characters of an encoded component, and its decoding.
use mirocraft.Prelude.{
  ℕ, ◌+◌, ◌*◌, ◌/◌, ◌%◌, ◌<◌, ◌≡◌, refl, inl, inr, ◌≢◌, true, List, [], ◌∷◌, ◌++◌, Text, All,
  All-append, arith, Bool-cases, ap, ◌∙◌,
}
use mirocraft.Api.Uri.{is_unreserved, utf8, hex_digit, percent, encode_char, encode_uri_component}
use mirocraft.Api.Uri.Decode.{hex_value, percent_decode, utf8_step, utf8_from, decode_uri_component}

-- Neither `/`, `?`, `#`, `&`, `=`, `+` nor a space.
abbrev pub IsInert : ℕ → Type 0
IsInert c = (c ≢ b'/') × (c ≢ b'?') × (c ≢ b'#') × (c ≢ b'&') × (c ≢ b'=') × (c ≢ b'+') × (c ≢ 32)

is_unreserved-IsInert : (c : ℕ) → is_unreserved c ≡ true → IsInert c
unfolding is_unreserved
is_unreserved-IsInert c h = ground arith

hex_digit-IsInert : (d : ℕ) → d < 16 → IsInert (hex_digit d)
unfolding hex_digit
hex_digit-IsInert d h = ground arith

abbrev IsByte : ℕ → Type 0
IsByte b = b < 256

abbrev pub IsCodePoint : ℕ → Type 0
IsCodePoint c = c < 0x110000

utf8-IsByte : (c : ℕ) → IsCodePoint c → All IsByte (utf8 c)
unfolding utf8
utf8-IsByte c h = ground arith

percent-IsInert : (bs : List ℕ) → All IsByte bs → All IsInert (percent bs)
unfolding percent
percent-IsInert [] h = tt
percent-IsInert (b ∷ bs) (h, k) = (
  omega arith,
  (
    hex_digit-IsInert (b / 16) (omega arith),
    (hex_digit-IsInert (b % 16) (omega arith), percent-IsInert bs k),
  ),
)

encode_char-IsInert : (c : ℕ) → IsCodePoint c → All IsInert (encode_char c)
unfolding encode_char
encode_char-IsInert c h = elim (Bool-cases (is_unreserved c)) [
  | inl plain ↦ rw plain (is_unreserved-IsInert c plain, tt)
  | inr other ↦ rw other (percent-IsInert (utf8 c) (utf8-IsByte c h))
]

-- The encoding of code points holds no character that separates the parts of a URL or is read
-- otherwise in a query: no `/`, `?`, `#`, `&`, `=` or `+` and no space.
pub encode_uri_component-IsInert :
    (s : Text) → All IsCodePoint s → All IsInert (encode_uri_component s)
unfolding encode_uri_component
encode_uri_component-IsInert [] h = tt
encode_uri_component-IsInert (c ∷ s) (h, k) =
    All-append IsInert (encode_char c) _ (encode_char-IsInert c h)
      (encode_uri_component-IsInert s k)

hex_value-hex_digit : (d : ℕ) → d < 16 → hex_value (hex_digit d) ≡ d
unfolding hex_value hex_digit
hex_value-hex_digit d h = ground arith

hex_pair :
    (b : ℕ) → IsByte b → hex_value (hex_digit (b / 16)) * 16 + hex_value (hex_digit (b % 16)) ≡ b
hex_pair b h =
    omega (
      arith,
      hex_value-hex_digit (b / 16) (omega arith),
      hex_value-hex_digit (b % 16) (omega arith),
    )

-- Escaped bytes are read back, whatever follows.
percent_decode-percent :
    (bs : List ℕ) (rest : Text)
    → All IsByte bs
    → percent_decode (percent bs ++ rest) ≡ bs ++ percent_decode rest
unfolding percent percent_decode
percent_decode-percent [] rest h = refl
percent_decode-percent (b ∷ bs) rest (h, k) = rw (hex_pair b h, percent_decode-percent bs rest k)

-- A character that stands for itself is no `%`.
percent_decode-plain :
    (c : ℕ) (rest : Text)
    → is_unreserved c ≡ true
    → percent_decode (c ∷ rest) ≡ c ∷ percent_decode rest
unfolding percent_decode is_unreserved
percent_decode-plain c [] h = refl
percent_decode-plain c (h ∷ []) p = refl
percent_decode-plain c (h ∷ l ∷ s) p = ground arith

utf8_of_unreserved : (c : ℕ) → is_unreserved c ≡ true → utf8 c ≡ c ∷ []
unfolding utf8 is_unreserved
utf8_of_unreserved c h = ground arith

percent_decode-encode_char :
    (c : ℕ) (rest : Text)
    → IsCodePoint c
    → percent_decode (encode_char c ++ rest) ≡ utf8 c ++ percent_decode rest
unfolding encode_char
percent_decode-encode_char c rest h = elim (Bool-cases (is_unreserved c)) [
  | inl plain ↦ rw (plain, utf8_of_unreserved c plain) (percent_decode-plain c rest plain)
  | inr other ↦ rw other (percent_decode-percent (utf8 c) rest (utf8-IsByte c h))
]

utf8_from-utf8 :
    (c : ℕ) (bs : List ℕ) → IsCodePoint c → utf8_from 0 0 (utf8 c ++ bs) ≡ c ∷ utf8_from 0 0 bs
unfolding utf8 utf8_from utf8_step
utf8_from-utf8 c bs h = ground arith

-- Decoding the encoding of code points gives them back.
pub decode-encode_uri_component :
    (s : Text) → All IsCodePoint s → decode_uri_component (encode_uri_component s) ≡ s
unfolding decode_uri_component encode_uri_component
decode-encode_uri_component [] h = refl
decode-encode_uri_component (c ∷ s) (h, k) =
    rw (percent_decode-encode_char c (encode_uri_component s) h)
      (utf8_from-utf8 c _ h ∙ ap (λ t. c ∷ t) (decode-encode_uri_component s k))
