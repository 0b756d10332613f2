-- ===== src/Docs/Html.antt =====
-- web/scripts/docs-site.mjs: the HTML that the generator writes itself. The package marked parses
-- the Markdown, so the text of a heading or a link comes as it rendered it.
use mirocraft.Prelude.{
  ℕ, Bool, ◌||◌, List, [], ◌∷◌, ◌++◌, map, Option, none, some, get_or_else, length, ltb, ◌==◌,
  ◌===◌, if◌then◌else◌, Text, codes, starts_with, is_empty, decimal,
}
use mirocraft.Docs.Slug.{slug}
use mirocraft.Docs.Escape.{escape_html}
use mirocraft.Docs.Links.{DocPage, pages, rewrite_link}
use mirocraft.Docs.Scan.{join_with}

pub record TocEntry : Type 0 where
  pub id : Text
  pub depth : ℕ
  pub text : Text

-- What the generator gathers while it renders a page.
pub record Gathered : Type 0 where
  pub headings : List TocEntry
  pub seen_ids : List Text

abbrev heading_html : ℕ → Text → Text → Text
heading_html depth id text =
    codes "<h"
    ++ decimal depth
    ++ codes " id=\""
    ++ id
    ++ codes "\"><a class=\"anchor\" href=\"#"
    ++ id
    ++ codes "\">"
    ++ text
    ++ codes "</a></h"
    ++ decimal depth
    ++ codes ">\n"

-- The contents list takes the headings of two depths.
abbrev listed : TocEntry → List TocEntry → List TocEntry
listed h hs = if h.depth == 2 || h.depth == 3 then hs ++ h ∷ [] else hs

unfoldable pub heading : ℕ → (text plain : Text) → Gathered → Option (Text × Gathered)
unfolding slug
heading depth text plain g = elim (slug plain g.seen_ids) [
  | none ↦ none
  | some (id, seen) ↦ some (
    heading_html depth id text,
    record {
      headings = listed (record { id = id; depth = depth; text = text }) g.headings;
      seen_ids = seen;
    },
  )
]

abbrev title_attribute : Option Text → List Text
title_attribute none = []
title_attribute (some title) =
    if is_empty title then [] else (codes "title=\"" ++ escape_html title ++ codes "\"") ∷ []

-- `/^https?:/`
abbrev is_external : Text → Bool
is_external target = starts_with target (codes "http:") || starts_with target (codes "https:")

unfoldable pub link_html : Text → Option Text → Text → Text
unfolding rewrite_link escape_html join_with
link_html href title text =
    let target = rewrite_link href in
    codes "<a "
    ++ join_with (codes " ") (
        (codes "href=\"" ++ escape_html target ++ codes "\"") ∷ title_attribute title
        ++ (if is_external target
            then codes "target=\"_blank\" rel=\"noreferrer noopener\"" ∷ []
            else []))
    ++ codes ">"
    ++ text
    ++ codes "</a>"

abbrev title_part : List Text → Text
title_part [] = []
title_part (t ∷ ts) = codes " " ++ t

unfoldable pub image_html : Text → Option Text → Option Text → Text
unfolding rewrite_link escape_html
image_html href title text =
    codes "<img src=\""
    ++ escape_html (rewrite_link href)
    ++ codes "\" alt=\""
    ++ escape_html (get_or_else text [])
    ++ codes "\""
    ++ title_part (title_attribute title)
    ++ codes " loading=\"lazy\">"

abbrev nav_item : Text → DocPage → Text
nav_item current page =
    codes "<a href=\""
    ++ page.out
    ++ codes "\""
    ++ (if page.out === current then codes " class=\"active\"" else [])
    ++ codes ">"
    ++ page.nav
    ++ codes "</a>"

unfoldable pub nav_html : Text → Text
unfolding pages join_with
nav_html current =
    codes "      <nav class=\"pages\">\n        "
    ++ join_with (codes "\n        ") (map (nav_item current) pages)
    ++ codes "\n      </nav>"

abbrev toc_item : TocEntry → Text
toc_item h =
    codes "<a class=\"d"
    ++ decimal h.depth
    ++ codes "\" href=\"#"
    ++ h.id
    ++ codes "\">"
    ++ h.text
    ++ codes "</a>"

unfoldable pub toc_html : List TocEntry → Text
unfolding join_with
toc_html headings =
    if ltb (length headings) 3
    then []
    else codes
        "      <nav class=\"toc\">\n        <p class=\"toc-title\">На этой странице</p>\n        "
      ++ join_with (codes "\n        ") (map toc_item headings)
      ++ codes "\n      </nav>"

-- The title of a page's head.
unfoldable pub head_title : Text → Text
unfolding escape_html
head_title title =
    escape_html (if title === codes "Mirocraft" then title else title ++ codes " — Mirocraft")
