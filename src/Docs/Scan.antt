-- ===== src/Docs/Scan.antt =====
-- web/scripts/docs-site.mjs: how its patterns run over a text. A pattern is an opening, a body that
-- is as short as it can be, and a closing; each of the two is a test that gives the length of what
-- it matched.
use mirocraft.Prelude.{
  ℕ, zero, suc, ◌-◌, List, [], ◌∷◌, ◌++◌, Option, none, some, length, if◌then◌else◌, Text,
  starts_with,
}

abbrev pub Opening : Type 0
Opening = ℕ → Text → Option ℕ

abbrev pub Closing : Type 0
Closing = Text → Option ℕ

-- A fixed text.
abbrev pub literal : Text → Text → Option ℕ
literal p s = if starts_with s p then some (length p) else none

abbrev onto : Text → Text → Text
onto [] out = out
onto (c ∷ s) out = onto s (c ∷ out)

module _ (opens : Opening) (closes : Closing) where
  -- The bodies of all matches. `prev` is the character before, `skip` counts the rest of what was
  -- just matched, and `body` holds the characters of a match that is open, the last one first.
  unfoldable pub bodies_from : (prev skip : ℕ) → (body : Option Text) → Text → List Text
  bodies_from prev skip body [] = []
  bodies_from prev (suc skip) body (c ∷ s) = bodies_from c skip body s
  bodies_from prev zero none (c ∷ s) = elim (opens prev (c ∷ s)) [
    | none ↦ bodies_from c 0 none s
    | some n ↦ bodies_from c (n - 1) (some []) s
  ]
  bodies_from prev zero (some body) (c ∷ s) = elim (closes (c ∷ s)) [
    | none ↦ bodies_from c 0 (some (c ∷ body)) s
    | some n ↦ onto body [] ∷ bodies_from c (n - 1) none s
  ]

  -- `matchAll`; no text begins behind a character.
  unfoldable pub bodies : Text → List Text
  unfolding bodies_from
  bodies s = bodies_from b' ' 0 none s

-- `replace(/open[\s\S]*?close/g, f)` for two fixed texts; a match that is never closed stays.
module _ (open_tag close_tag : Text) (f : Text → Text) where
  unfoldable pub replace_from : (skip : ℕ) → (body : Option Text) → Text → Text
  unfolding starts_with
  replace_from skip none [] = []
  replace_from skip (some body) [] = open_tag ++ onto body []
  replace_from (suc skip) body (c ∷ s) = replace_from skip body s
  replace_from zero none (c ∷ s) = elim (literal open_tag (c ∷ s)) [
    | none ↦ c ∷ replace_from 0 none s
    | some n ↦ replace_from (n - 1) (some []) s
  ]
  replace_from zero (some body) (c ∷ s) = elim (literal close_tag (c ∷ s)) [
    | none ↦ replace_from 0 (some (c ∷ body)) s
    | some n ↦ f (open_tag ++ onto body [] ++ close_tag) ++ replace_from (n - 1) none s
  ]

  unfoldable pub replace_all_between : Text → Text
  unfolding replace_from
  replace_all_between s = replace_from 0 none s

-- `join`
unfoldable pub join_with : Text → List Text → Text
join_with sep [] = []
join_with sep (t ∷ []) = t
join_with sep (t ∷ u ∷ ts) = t ++ sep ++ join_with sep (u ∷ ts)
