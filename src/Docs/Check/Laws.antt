-- ===== src/Docs/Check/Laws.antt =====
-- web/scripts/docs-site.mjs: what a build without broken links means.
use mirocraft.Prelude.{
  ℕ, sym, subst, ◌∙◌, any, length, drop, get_or_else, Bool, ◌==◌, ◌===◌, starts_with, is_word,
  codes, if◌then◌else◌, ◌≡◌, refl, ◌⊎◌, ◌↔◌, inl, inr, true, false, not, ◌&&◌, List, [], ◌∷◌,
  Option, none, some, All, Bool-cases, Option-cases, Text, is_empty, arith,
}
use mirocraft.Docs.Links.{DocPage, path_of, hash_of, pages}
use mirocraft.Docs.Scan.{literal, bodies}
use mirocraft.Docs.Check.Fine.{
  no_problem, Fine, away_fine, inside, found, PageFine, check_pages_sound, check_pages_complete,
}
use mirocraft.Docs.Check.{
  ids_of, leads_away, is_among, links_of, content, exists, target_ids, check_pages, exit_status,
}

-- The values of the attributes with these names, each name with the equals sign and the quote behind
-- it: not empty and up to the next quote, as `matchAll` finds them.
abbrev unquoted : Text → Bool
unquoted [] = false
unquoted (c ∷ s) = not (c == b'"')

abbrev value_after : Text → Text → Option ℕ
value_after name s =
    if starts_with s name && unquoted (drop (length name) s) then some (length name) else none

abbrev this_or : Option ℕ → Option ℕ → Option ℕ
this_or none b = b
this_or (some n) b = some n

abbrev pub links_in : Text → List Text
links_in html =
    bodies (λ prev s. this_or (value_after (codes "href=\"") s) (value_after (codes "src=\"") s))
      (literal (codes "\"")) html

-- An id does not begin within a word.
abbrev pub ids_in : Text → List Text
ids_in html =
    bodies (λ prev s. if is_word prev then none else value_after (codes "id=\"") s)
      (literal (codes "\"")) html

abbrev pub has_id : Text → Text → Bool
has_id html id = any (λ i. i === id) (ids_in html)

abbrev pub goes_away : Text → Bool
goes_away raw =
    any (λ p. starts_with raw p)
      (codes "http:" ∷ codes "https:" ∷ codes "mailto:" ∷ codes "data:" ∷ [])

-- No anchor, or one of the ids.
abbrev pub AnchorIn : Text → Text → Type 0
AnchorIn html hash = (hash ≡ []) ⊎ (has_id html hash ≡ true)

-- The text of a file, with nothing for one that is missing.
abbrev pub text_of : (Text → Option Text) → Text → Text
text_of site file = get_or_else (site file) []

module _ (site : Text → Option Text) where
  -- Where a link of a page leads.
  pub data Resolves (html raw : Text) : Type 0 where
    away : goes_away raw ≡ true → Resolves html raw
    own_page : path_of raw ≡ [] → AnchorIn html (hash_of raw) → Resolves html raw
    other_page :
        (target : Text)
        → is_empty (path_of raw) ≡ false
        → site (path_of raw) ≡ some target
        → AnchorIn target (hash_of raw)
        → Resolves html raw

  links_of-links_in : (html : Text) → links_of html ≡ links_in html
  unfolding links_of
  links_of-links_in html = refl

  ids_of-ids_in : (html : Text) → ids_of html ≡ ids_in html
  unfolding ids_of
  ids_of-ids_in html = refl

  leads_away-goes_away : (raw : Text) → leads_away raw ≡ goes_away raw
  unfolding leads_away
  leads_away-goes_away raw = ground arith

  in_own : (html path : Text) → path ≡ [] → target_ids site html path ≡ ids_in html
  unfolding target_ids
  in_own html path own = rw own (ids_of-ids_in html)

  in_other :
      (html path target : Text)
      → is_empty path ≡ false
      → site path ≡ some target
      → target_ids site html path ≡ ids_in target
  unfolding target_ids
  in_other html path target named there = rw (named, there) (ids_of-ids_in target)

  anchored :
      (raw : Text) (ids : List Text) (html : Text)
      → ids ≡ ids_in html
      → (hash_of raw ≡ []) ⊎ (is_among (hash_of raw) ids ≡ true)
      → AnchorIn html (hash_of raw)
  anchored raw ids html e (inl bare) = inl bare
  anchored raw ids html e (inr known) =
      inr (subst (λ ids. is_among (hash_of raw) ids ≡ true) e known)

  unanchored :
      (raw : Text) (ids : List Text) (html : Text)
      → ids ≡ ids_in html
      → AnchorIn html (hash_of raw)
      → (hash_of raw ≡ []) ⊎ (is_among (hash_of raw) ids ≡ true)
  unanchored raw ids html e (inl bare) = inl bare
  unanchored raw ids html e (inr known) =
      inr (subst (λ ids. is_among (hash_of raw) ids ≡ true) (sym e) known)

  exists-some :
      (path : Text) → exists site path ≡ true → (target : Text) × (site path ≡ some target)
  unfolding exists
  exists-some path there = elim (Option-cases (site path)) [
    | inl gone ↦ let bad : false ≡ true = rw (exists, gone) at there in cc
    | inr (target, e) ↦ (target, e)
  ]

  Fine-Resolves : (html raw : Text) → Fine site html raw → Resolves html raw
  Fine-Resolves html raw (away_fine gone) = away (sym (leads_away-goes_away raw) ∙ gone)
  Fine-Resolves html raw (inside (inl own) anchor) =
      own_page own (anchored raw _ html (in_own html (path_of raw) own) anchor)
  Fine-Resolves html raw (inside (inr there) anchor) = elim (Bool-cases (is_empty (path_of raw))) [
    | inl bare ↦
        let own = found site (path_of raw) bare in
        own_page own (anchored raw _ html (in_own html (path_of raw) own) anchor)
    | inr named ↦
        let (target, e) = exists-some (path_of raw) there in
        other_page target named e
          (anchored raw _ target (in_other html (path_of raw) target named e) anchor)
  ]

  some-exists : (path target : Text) → site path ≡ some target → exists site path ≡ true
  unfolding exists
  some-exists path target e = rw (exists, e) refl

  Resolves-Fine : (html raw : Text) → Resolves html raw → Fine site html raw
  Resolves-Fine html raw (away gone) = away_fine (leads_away-goes_away raw ∙ gone)
  Resolves-Fine html raw (own_page own anchor) =
      inside (inl own) (unanchored raw _ html (in_own html (path_of raw) own) anchor)
  Resolves-Fine html raw (other_page target named e anchor) =
      inside (inr (some-exists (path_of raw) target e))
        (unanchored raw _ target (in_other html (path_of raw) target named e) anchor)

  -- All links of a page resolve.
  abbrev pub PageResolves : DocPage → Type 0
  PageResolves p = All (Resolves (text_of site p.out)) (links_in (text_of site p.out))

  All-implied :
      {A : Type 0} {P Q : A → Type 0}
      → ((a : A) → P a → Q a)
      → (list : List A) → All P list
      → All Q list
  All-implied f [] h = tt
  All-implied f (a ∷ list) (h, k) = (f a h, All-implied f list k)

  page_resolves : (p : DocPage) → PageFine site p → PageResolves p
  page_resolves p h =
      All-implied (Fine-Resolves (content site p.out)) (links_in (content site p.out))
        (subst (All (Fine site (content site p.out))) (links_of-links_in (content site p.out)) h)

  page_fine : (p : DocPage) → PageResolves p → PageFine site p
  page_fine p h =
      subst (All (Fine site (content site p.out))) (sym (links_of-links_in (content site p.out)))
        (All-implied (Resolves-Fine (content site p.out)) (links_in (content site p.out)) h)

  -- The build ends with the status 0 exactly if every link of every page leads away, or else to its
  -- own page or a file of the site that exists, and there to an id of that very text if it has an
  -- anchor. A link is what stands in a `href` or `src`, an id in an `id`.
  pub exit_status-Resolves : (exit_status site ≡ 0) ↔ All PageResolves pages
  unfolding exit_status
  exit_status-Resolves = (
    λ h.
        All-implied page_resolves pages
          (check_pages_sound site pages (no_problem (check_pages site pages) h)),
    λ h. rw (check_pages_complete site pages (All-implied page_fine pages h)) refl,
  )
