-- ===== src/Docs/Slug/Shape.antt =====
-- web/scripts/docs-site.mjs: the characters of an anchor.
use mirocraft.Prelude.{
  ℕ, zero, suc, ◌+◌, ◌/◌, ◌%◌, ◌≡◌, ◌≢◌, refl, ◌⊎◌, inl, inr, subst, Bool, true, false, List, [],
  ◌∷◌, ◌++◌, ◌&&◌, some, All, All-append, ltb, ◌==◌, if◌then◌else◌, Text, codes, decimal,
  decimal_from, is_empty, Bool-cases, arith,
}
use mirocraft.Docs.Slug.{
  is_slug_char, dash_runs, trim_start, trim_end, slug_base, slug, numbered, each_char, latin_char,
  lower_char,
}
use mirocraft.Docs.Slug.Free.{slug-IsNewId}

-- a-z, 0-9 or a dash.
abbrev pub IsAnchorChar : ℕ → Type 0
IsAnchorChar c = (is_slug_char c ≡ true) ⊎ (c ≡ b'-')

-- Neither empty nor begun by a dash.
abbrev pub BeginsPlain : Text → Type 0
BeginsPlain [] = ⊥
BeginsPlain (c ∷ s) = is_slug_char c ≡ true

abbrev pub IsAnchor : Text → Type 0
IsAnchor id = All IsAnchorChar id × BeginsPlain id

if_run-All :
    (within : Bool) (rest : Text)
    → All IsAnchorChar rest
    → All IsAnchorChar (if within then rest else b'-' ∷ rest)
if_run-All true rest h = h
if_run-All false rest h = (inr refl, h)

dash_runs-All : (within : Bool) (s : Text) → All IsAnchorChar (dash_runs within s)
unfolding dash_runs
dash_runs-All within [] = tt
dash_runs-All within (c ∷ s) = elim (Bool-cases (is_slug_char c)) [
  | inl plain ↦ rw plain (inl plain, dash_runs-All false s)
  | inr other ↦ rw other (if_run-All within (dash_runs true s) (dash_runs-All true s))
]

trim_start-All : (s : Text) → All IsAnchorChar s → All IsAnchorChar (trim_start s)
unfolding trim_start
trim_start-All [] h = tt
trim_start-All (c ∷ s) (h, k) = elim (Bool-cases (c == b'-')) [
  | inl dash ↦ rw dash (trim_start-All s k)
  | inr plain ↦ rw plain (h, k)
]

-- Trimmed at the start, a text is empty or begins with no dash.
trim_start-cases :
    (s : Text) → (trim_start s ≡ []) ⊎ ((c : ℕ) × (t : Text) × (trim_start s ≡ c ∷ t) × (c ≢ b'-'))
unfolding trim_start
trim_start-cases [] = inl refl
trim_start-cases (c ∷ s) = elim (Bool-cases (c == b'-')) [
  | inl dash ↦ rw dash (trim_start-cases s)
  | inr plain ↦ rw plain (inr (c, s, refl, ground arith))
]

trim_end-All : (s : Text) → All IsAnchorChar s → All IsAnchorChar (trim_end s)
unfolding trim_end
trim_end-All [] h = tt
trim_end-All (c ∷ s) (h, k) = elim (Bool-cases (is_empty (trim_end s) && c == b'-')) [
  | inl drop ↦ rw drop tt
  | inr keep ↦ rw keep (h, trim_end-All s k)
]

trim_end-cons : (c : ℕ) (s : Text) → c ≢ b'-' → trim_end (c ∷ s) ≡ c ∷ trim_end s
unfolding trim_end
trim_end-cons c s ne = ground arith

begins : (c : ℕ) → IsAnchorChar c → c ≢ b'-' → is_slug_char c ≡ true
begins c (inl plain) ne = plain
begins c (inr dash) ne = absurd (ne dash)

-- What the trimming leaves, or the word that stands in for nothing.
abbrev or_section : Text → Text
or_section base = if is_empty base then codes "section" else base

section-IsAnchor : IsAnchor (codes "section")
unfolding codes
section-IsAnchor =
    ((inl refl, (inl refl, (inl refl, (inl refl, (inl refl, (inl refl, (inl refl, tt))))))), refl)

trimmed-IsAnchor : (s : Text) → All IsAnchorChar s → IsAnchor (or_section (trim_end (trim_start s)))
unfolding trim_end
trimmed-IsAnchor s h = elim (trim_start-cases s) [
  | inl nothing ↦ rw nothing section-IsAnchor
  | inr (c, t, e, ne) ↦
      let chars : All IsAnchorChar (c ∷ t) = subst (All IsAnchorChar) e (trim_start-All s h) in
      rw (e, trim_end-cons c t ne) ((chars.0, trim_end-All t chars.1), begins c chars.0 ne)
]

slug_base-IsAnchor : (text : Text) → IsAnchor (slug_base text)
unfolding slug_base
slug_base-IsAnchor text =
    let letters = each_char latin_char (each_char lower_char text) in
    trimmed-IsAnchor (dash_runs false letters) (dash_runs-All false letters)

decimal_from-All :
    (f n : ℕ) (out : Text) → All IsAnchorChar out → All IsAnchorChar (decimal_from f n out)
unfolding decimal_from
decimal_from-All zero n out h = h
decimal_from-All (suc f) n out h =
    let digit : IsAnchorChar (b'0' + n % 10) = inl (ground arith) in
    elim (Bool-cases (ltb n 10)) [
      | inl last ↦ rw last (digit, h)
      | inr more ↦ rw more (decimal_from-All f (n / 10) _ (digit, h))
    ]

BeginsPlain-append : (s t : Text) → BeginsPlain s → BeginsPlain (s ++ t)
BeginsPlain-append [] t h = absurd h
BeginsPlain-append (c ∷ s) t h = h

numbered-IsAnchor : (base : Text) (n : ℕ) → IsAnchor base → IsAnchor (numbered base n)
unfolding decimal
numbered-IsAnchor base n (chars, plain) = (
  All-append IsAnchorChar base _ chars (inr refl, decimal_from-All (suc n) n [] tt),
  BeginsPlain-append base _ plain,
)

IsNewId-IsAnchor :
    (base : Text) (seen : List Text) (id : Text)
    → ((id ≡ base) ⊎ ((n : ℕ) × (id ≡ numbered base n)))
    → IsAnchor base
    → IsAnchor id
IsNewId-IsAnchor base seen id (inl e) h = rw e h
IsNewId-IsAnchor base seen id (inr (n, e)) h = rw e (numbered-IsAnchor base n h)

-- Whatever the heading, the anchor that `slug` gives it consists of small Latin letters, digits and
-- dashes, is not empty and begins with no dash.
pub slug-IsAnchor :
    (text : Text) (seen : List Text)
    → (id : Text) × (slug text seen ≡ some (id, id ∷ seen)) × IsAnchor id
slug-IsAnchor text seen =
    let (id, found, new) = slug-IsNewId text seen in
    (id, found, IsNewId-IsAnchor (slug_base text) seen id new.named (slug_base-IsAnchor text))
