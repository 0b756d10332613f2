-- ===== src/Docs/Escape/Laws.antt =====
-- web/scripts/docs-site.mjs: `escapeHtml` against an escaping of all characters at once.
use mirocraft.Prelude.{
  ℕ, ◌≡◌, ◌≢◌, refl, ◌∙◌, ap, sym, inl, inr, [], ◌∷◌, ◌++◌, append_assoc, ◌==◌, if◌then◌else◌, Text,
  codes, All, All-append, Bool-cases, arith, subst,
}
use mirocraft.Docs.Escape.{replace_all, escape_html}

-- A reader's view of it: each of the four characters stands as its entity, all at once.
abbrev pub entity : ℕ → Text
entity c =
    if c == b'&'
    then codes "&amp;"
    else if c == b'<'
    then codes "&lt;"
    else if c == b'>'
    then codes "&gt;"
    else if c == 34
    then codes "&quot;"
    else c ∷ []

unfoldable pub escape_once : Text → Text
escape_once [] = []
escape_once (c ∷ s) = entity c ++ escape_once s

replace_all-append :
    (d : ℕ) (by s t : Text) → replace_all d by (s ++ t) ≡ replace_all d by s ++ replace_all d by t
unfolding replace_all
replace_all-append d by [] t = refl
replace_all-append d by (c ∷ s) t = elim (Bool-cases (c == d)) [
  | inl here ↦ rw (here, replace_all-append d by s t) (sym (append_assoc by _ _))
  | inr other ↦ rw (other, replace_all-append d by s t)
]

escape_html-append : (s t : Text) → escape_html (s ++ t) ≡ escape_html s ++ escape_html t
unfolding escape_html
escape_html-append s t = unfold escape_html in simp replace_all-append

escape_html-char : (c : ℕ) → escape_html (c ∷ []) ≡ entity c
unfolding escape_html codes replace_all
escape_html-char c = ground arith

-- The four replacements, one after the other, do what replacing all at once does: no entity
-- that one of them brings in is escaped by a later one.
pub escape_html-eq-once : (s : Text) → escape_html s ≡ escape_once s
unfolding escape_once
escape_html-eq-once [] = unfold escape_html in refl
escape_html-eq-once (c ∷ s) =
    escape_html-append (c ∷ []) s
    ∙ ap (λ t. t ++ escape_html s) (escape_html-char c)
    ∙ ap (λ t. entity c ++ t) (escape_html-eq-once s)

abbrev pub IsInert : ℕ → Type 0
IsInert c = (c ≢ b'<') × (c ≢ b'>') × (c ≢ 34)

entity-All : (c : ℕ) → All IsInert (entity c)
unfolding codes
entity-All c = ground arith

escape_once-All : (s : Text) → All IsInert (escape_once s)
unfolding escape_once
escape_once-All [] = tt
escape_once-All (c ∷ s) = All-append IsInert (entity c) _ (entity-All c) (escape_once-All s)

-- Escaped text holds no angle bracket and no double quote, whatever text was escaped.
pub escape_html-IsInert : (s : Text) → All IsInert (escape_html s)
escape_html-IsInert s = subst (All IsInert) (sym (escape_html-eq-once s)) (escape_once-All s)
