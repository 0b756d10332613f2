-- ===== src/FileManager/Navigation.antt =====
-- web/src/pages/ServerFiles.tsx: `parentOf` and the breadcrumbs.
use mirocraft.Prelude.{
  ◌≡◌, ◌≢◌, refl, sym, ap, ◌∙◌, inl, inr, ℕ, false, List, [], ◌∷◌, ◌++◌, map, none, some, Text,
  is_empty, ◌==◌, Bool-cases, Lacks, split, cons_head, last?, arith,
}
use mirocraft.FileManager.Paths.{
  clean, join, cut_last, parent_of, join_parts, prefixes, breadcrumbs,
}

cut_last_of_Lacks : (d : ℕ) (s : Text) → Lacks d s → cut_last d s ≡ none
unfolding cut_last
cut_last_of_Lacks d [] h = refl
cut_last_of_Lacks d (c ∷ s) (h, k) = rw (cut_last_of_Lacks d s k) (ground arith)

cut_last-append :
    (d : ℕ) (s name : Text) → Lacks d name → cut_last d (s ++ d ∷ name) ≡ some (s, name)
unfolding cut_last
cut_last-append d [] name h = rw (cut_last_of_Lacks d name h) (ground arith)
cut_last-append d (c ∷ s) name h = rw (cut_last-append d s name h)

-- No slash at the front.
abbrev pub IsClean : Text → Type 0
IsClean [] = Unit
IsClean (c ∷ s) = c ≢ b'/'

pub clean-IsClean : (s : Text) → IsClean (clean s)
unfolding clean
clean-IsClean [] = tt
clean-IsClean (c ∷ s) = elim (Bool-cases (c == b'/')) [
  | inl slash ↦ rw slash (clean-IsClean s)
  | inr plain ↦ rw plain (ground arith)
]

pub clean_of_IsClean : (s : Text) → IsClean s → clean s ≡ s
unfolding clean
clean_of_IsClean [] h = refl
clean_of_IsClean (c ∷ s) h = ground arith

pub Lacks-IsClean : (s : Text) → Lacks b'/' s → IsClean s
Lacks-IsClean [] h = tt
Lacks-IsClean (c ∷ s) (h, k) = h

pub parent_of_clean :
    (dir name : Text) → IsClean dir → Lacks b'/' name → parent_of (join dir name) ≡ dir
unfolding parent_of join
parent_of_clean [] name h lacks =
    rw (clean_of_IsClean name (Lacks-IsClean name lacks), cut_last_of_Lacks b'/' name lacks)
parent_of_clean (c ∷ s) name h lacks =
    rw (clean_of_IsClean (c ∷ s ++ b'/' ∷ name) h, cut_last-append b'/' (c ∷ s) name lacks)

-- Whatever directory the page is at, going into one of its directories, whose name holds no slash,
-- and then up leads back to it.
pub parent_of-join :
    (dir name : Text) → Lacks b'/' name → parent_of (join (clean dir) name) ≡ clean dir
parent_of-join dir name lacks = parent_of_clean (clean dir) name (clean-IsClean dir) lacks

join_parts-cons_head :
    (c : ℕ) (p : Text) (ps : List Text)
    → join_parts (cons_head c (p ∷ ps)) ≡ c ∷ join_parts (p ∷ ps)
unfolding join_parts
join_parts-cons_head c p [] = refl
join_parts-cons_head c p (q ∷ ps) = refl

split-nonempty : (d : ℕ) (s : Text) → (p : Text) × (ps : List Text) × (split d s ≡ p ∷ ps)
unfolding split
split-nonempty d [] = ([], [], refl)
split-nonempty d (c ∷ s) =
    let (p, ps, e) = split-nonempty d s in
    elim (Bool-cases (c == d)) [
      | inl here ↦ ([], split d s, rw here)
      | inr other ↦ (c ∷ p, ps, rw (other, e))
    ]

join_parts-split : (s : Text) → join_parts (split b'/' s) ≡ s
unfolding join_parts split
join_parts-split [] = refl
join_parts-split (c ∷ s) =
    let (p, ps, e) = split-nonempty b'/' s in
    let rest : join_parts (p ∷ ps) ≡ s = ap join_parts (sym e) ∙ join_parts-split s in
    elim (Bool-cases (c == b'/')) [
      | inl slash ↦ let same : c ≡ b'/' = ground arith in rw (slash, e, rest, same)
      | inr other ↦ rw (other, e) (join_parts-cons_head c p ps ∙ ap (λ t. c ∷ t) rest)
    ]

module _ {ℓ} {A : Type ℓ} where
  last?-cons : (x : A) (xs : List A) (y : A) → last? xs ≡ some y → last? (x ∷ xs) ≡ some y
  unfolding last?
  last?-cons x [] y e = cc
  last?-cons x (z ∷ zs) y e = e

  last?-map {κ} :
      {B : Type κ} (f : A → B) (xs : List A) (y : A)
      → last? xs ≡ some y
      → last? (map f xs) ≡ some (f y)
  unfolding last?
  last?-map f [] y e = cc
  last?-map f (x ∷ []) y e = ground arith
  last?-map f (x ∷ z ∷ zs) y e = last?-map f (z ∷ zs) y e

last?-prefixes : (p : Text) (ps : List Text) → last? (prefixes (p ∷ ps)) ≡ some (p ∷ ps)
unfolding prefixes last?
last?-prefixes p [] = refl
last?-prefixes p (q ∷ ps) =
    last?-cons (p ∷ []) (map (λ before. p ∷ before) (prefixes (q ∷ ps))) (p ∷ q ∷ ps)
      (last?-map (λ before. p ∷ before) (prefixes (q ∷ ps)) (q ∷ ps) (last?-prefixes q ps))

-- Below the root, the last of the breadcrumbs leads to the directory that the page is at.
pub last?-breadcrumbs :
    (dir : Text) → is_empty (clean dir) ≡ false → last? (breadcrumbs dir) ≡ some (clean dir)
unfolding breadcrumbs
last?-breadcrumbs dir below =
    let (p, ps, e) = split-nonempty b'/' (clean dir) in
    rw (below, e)
      (last?-map join_parts (prefixes (p ∷ ps)) (p ∷ ps) (last?-prefixes p ps)
        ∙ ap some (ap join_parts (sym e) ∙ join_parts-split (clean dir)))
