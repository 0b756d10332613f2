-- ===== src/Docs/Check.antt =====
-- web/scripts/docs-site.mjs: the check of the links of the site that was written. The files of the
-- site are a parameter: the text of each one that exists.
pub mod Fine
pub mod Laws
use mirocraft.Prelude.{
  ℕ, Bool, true, false, not, ◌&&◌, ◌||◌, List, [], ◌∷◌, ◌++◌, Option, none, some, get_or_else, any,
  length, drop, ◌==◌, ◌===◌, if◌then◌else◌, Text, codes, starts_with, is_word, is_empty,
}
use mirocraft.Docs.Links.{DocPage, path_of, hash_of, pages}
use mirocraft.Docs.Scan.{literal, bodies}

-- `name="` with at least one more character that is no quote.
abbrev begins_value : Text → Bool
begins_value [] = false
begins_value (c ∷ s) = not (c == b'"')

abbrev opens_attribute : Text → Text → Option ℕ
opens_attribute name s =
    if starts_with s name && begins_value (drop (length name) s) then some (length name) else none

abbrev or_else : Option ℕ → Option ℕ → Option ℕ
or_else none b = b
or_else (some n) b = some n

-- `/\bid="([^"]+)"/g`
unfoldable pub ids_of : Text → List Text
unfolding bodies
ids_of html =
    bodies (λ prev s. if is_word prev then none else opens_attribute (codes "id=\"") s)
      (literal (codes "\"")) html

-- `/(?:href|src)="([^"]+)"/g`
unfoldable pub links_of : Text → List Text
unfolding bodies
links_of html =
    bodies
      (λ prev s. or_else (opens_attribute (codes "href=\"") s) (opens_attribute (codes "src=\"") s))
      (literal (codes "\"")) html

-- `/^(https?:|mailto:|data:)/`
unfoldable pub leads_away : Text → Bool
leads_away raw =
    starts_with raw (codes "http:")
    || starts_with raw (codes "https:")
    || starts_with raw (codes "mailto:")
    || starts_with raw (codes "data:")

pub data Problem : Type 0 where
  no_file no_heading : (page raw : Text) → Problem

abbrev pub is_among : Text → List Text → Bool
is_among id ids = any (λ i. i === id) ids

abbrev pub status_for : List Problem → ℕ
status_for problems = if length problems == 0 then 0 else 1

module _ (site : Text → Option Text) where
  abbrev pub content : Text → Text
  content file = get_or_else (site file) []

  unfoldable pub exists : Text → Bool
  exists file = elim (site file) [ none ↦ false | some html ↦ true ]

  -- The ids of the page that the link leads to.
  unfoldable pub target_ids : (html path : Text) → List Text
  unfolding ids_of
  target_ids html path = if is_empty path then ids_of html else ids_of (content path)

  unfoldable pub check_link : (page html raw : Text) → Option Problem
  unfolding leads_away exists target_ids
  check_link page html raw =
      if leads_away raw
      then none
      else if not (is_empty (path_of raw)) && not (exists (path_of raw))
      then some (no_file page raw)
      else if is_empty (hash_of raw)
      then none
      else if is_among (hash_of raw) (target_ids html (path_of raw))
      then none
      else some (no_heading page raw)

  abbrev add : Option Problem → List Problem → List Problem
  add none problems = problems
  add (some problem) problems = problem ∷ problems

  unfoldable pub check_links : (page html : Text) → List Text → List Problem
  unfolding check_link
  check_links page html [] = []
  check_links page html (raw ∷ raws) = add (check_link page html raw) (check_links page html raws)

  unfoldable pub check_pages : List DocPage → List Problem
  unfolding check_links links_of
  check_pages [] = []
  check_pages (p ∷ ps) =
      check_links p.out (content p.out) (links_of (content p.out)) ++ check_pages ps

  -- The exit status of the build.
  unfoldable pub exit_status : ℕ
  unfolding check_pages pages
  exit_status = status_for (check_pages pages)
