-- ===== src/Prelude/Trim.antt =====
-- `trim`, which takes white space off both ends of a text.
use Prim.Native.Nat.{ℕ}
use mathlib.Core.Path.{◌≡◌, refl, sym, ap, subst, ◌∙◌}
use mathlib.Core.Logic.{◌⊎◌, inl, inr}
use mathlib.Core.Bool.{Bool, true, false, ◌&&◌, ◌||◌}
use mathlib.Core.List.{[], ◌∷◌, ◌++◌}
use native.Mathlib.Omega.{arith}
use mirocraft.Prelude.Lists.{All, All-append}
use mirocraft.Prelude.Tests.{Bool-cases, ◌==◌, leb, if◌then◌else◌}
use mirocraft.Prelude.Texts.{Text, is_empty}

unfoldable pub is_space : ℕ → Bool
is_space c =
    (leb 9 c && leb c 13)
    || c == 32
    || c == 160
    || c == 0x1680
    || (leb 0x2000 c && leb c 0x200A)
    || c == 0x2028
    || c == 0x2029
    || c == 0x202F
    || c == 0x205F
    || c == 0x3000
    || c == 0xFEFF

unfoldable pub trim_left : Text → Text
trim_left [] = []
trim_left (c ∷ s) = let rest = trim_left s in if is_space c then rest else c ∷ s

unfoldable pub trim_right : Text → Text
trim_right [] = []
trim_right (c ∷ s) = let rest = trim_right s in if is_empty rest && is_space c then [] else c ∷ rest

unfoldable pub trim : Text → Text
unfolding trim_left trim_right
trim s = trim_right (trim_left s)

-- The text begins and ends with a character that is no white space.
abbrev BeginsPlain : Text → Type 0
BeginsPlain [] = ⊥
BeginsPlain (c ∷ s) = is_space c ≡ false

abbrev EndsPlain : Text → Type 0
EndsPlain [] = ⊥
EndsPlain (c ∷ []) = is_space c ≡ false
EndsPlain (c ∷ d ∷ s) = EndsPlain (d ∷ s)

abbrev pub IsTrimmed : Text → Type 0
IsTrimmed s = BeginsPlain s × EndsPlain s

trim_left-cases : (s : Text) → (trim_left s ≡ []) ⊎ BeginsPlain (trim_left s)
unfolding trim_left
trim_left-cases [] = inl refl
trim_left-cases (c ∷ s) = elim (Bool-cases (is_space c)) [
  | inl space ↦ rw space (trim_left-cases s)
  | inr plain ↦ rw plain (inr plain)
]

trim_right-BeginsPlain : (s : Text) → BeginsPlain s → BeginsPlain (trim_right s)
unfolding trim_right
trim_right-BeginsPlain [] h = h
trim_right-BeginsPlain (c ∷ s) h = elim (Bool-cases (is_empty (trim_right s))) [
  | inl last ↦ rw (last, h) h
  | inr more ↦ rw more h
]

cons-EndsPlain : (c : ℕ) (s : Text) → EndsPlain s → EndsPlain (c ∷ s)
cons-EndsPlain c [] h = absurd h
cons-EndsPlain c (d ∷ s) h = h

EndsPlain-nonempty : (s : Text) → EndsPlain s → is_empty s ≡ false
EndsPlain-nonempty [] h = absurd h
EndsPlain-nonempty (c ∷ s) h = refl

trim_right-cases : (s : Text) → (trim_right s ≡ []) ⊎ EndsPlain (trim_right s)
unfolding trim_right
trim_right-cases [] = inl refl
trim_right-cases (c ∷ s) = elim (trim_right-cases s) [
  | inl blank ↦ elim (Bool-cases (is_space c)) [
    | inl space ↦ rw (blank, space) (inl refl)
    | inr plain ↦ rw (blank, plain) (inr plain)
  ]
  | inr ends ↦
      rw (EndsPlain-nonempty (trim_right s) ends) (inr (cons-EndsPlain c (trim_right s) ends))
]

pub trim-IsTrimmed : (s : Text) → is_empty (trim s) ≡ false → IsTrimmed (trim s)
unfolding trim trim_right
trim-IsTrimmed s h = elim (trim_left-cases s) [
  | inl blank ↦ let nothing : is_empty (trim_right (trim_left s)) ≡ true = rw blank refl in cc
  | inr begins ↦ elim (trim_right-cases (trim_left s)) [
    | inl blank ↦ let nothing : is_empty (trim_right (trim_left s)) ≡ true = rw blank refl in cc
    | inr ends ↦ (trim_right-BeginsPlain (trim_left s) begins, ends)
  ]
]

abbrev Blank : Text → Type 0
Blank s = All (λ c. is_space c ≡ true) s

is_empty-nil : (s : Text) → is_empty s ≡ true → s ≡ []
is_empty-nil [] h = refl
is_empty-nil (c ∷ s) h = cc

trim_left-splits : (s : Text) → (before : Text) × (s ≡ before ++ trim_left s) × Blank before
unfolding trim_left
trim_left-splits [] = ([], refl, tt)
trim_left-splits (c ∷ s) = elim (Bool-cases (is_space c)) [
  | inl space ↦
      let (before, e, h) = trim_left-splits s in
      rw space (c ∷ before, ap (λ t. c ∷ t) e, (space, h))
  | inr plain ↦ rw plain ([], refl, tt)
]

trim_right-splits : (s : Text) → (after : Text) × (s ≡ trim_right s ++ after) × Blank after
unfolding trim_right
trim_right-splits [] = ([], refl, tt)
trim_right-splits (c ∷ s) =
    let (after, e, h) = trim_right-splits s in
    elim (Bool-cases (is_empty (trim_right s) && is_space c)) [
      | inl gone ↦
          let blank : trim_right s ≡ [] = is_empty-nil (trim_right s) (ground arith) in
          rw gone (c ∷ after, ap (λ t. c ∷ t) (e ∙ ap (λ t. t ++ after) blank), (ground arith, h))
      | inr stays ↦ rw stays (after, ap (λ t. c ∷ t) e, h)
    ]

-- What `trim` takes off is white space.
pub trim-splits :
    (s : Text)
    → (before after : Text) × (s ≡ before ++ (trim s ++ after)) × Blank before × Blank after
unfolding trim
trim-splits s =
    let (before, e, h) = trim_left-splits s in
    let (after, d, k) = trim_right-splits (trim_left s) in
    (before, after, e ∙ ap (λ t. before ++ t) d, h, k)

-- What is nothing but white space is trimmed to nothing, and nothing else.
pub trim-Blank : (s : Text) → is_empty (trim s) ≡ true → All (λ c. is_space c ≡ true) s
trim-Blank s empty =
    let (before, after, e, h, k) = trim-splits s in
    let whole : s ≡ before ++ after =
      e ∙ ap (λ t. before ++ (t ++ after)) (is_empty-nil (trim s) empty) in
    subst Blank (sym whole) (All-append (λ c. is_space c ≡ true) before after h k)
