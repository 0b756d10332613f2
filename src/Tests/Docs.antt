-- ===== src/Tests/Docs.antt =====
-- The documentation site's build at concrete inputs.
use mirocraft.Prelude.{All, ◌≡◌, refl, List, [], ◌∷◌, length, some, Text, codes, ◌===◌, decimal}
use mirocraft.Prelude.Dict.{lookup}
use mirocraft.Docs.Slug.{slug, slug_base, page_ids}
use mirocraft.Docs.Slug.Free.{IsNewId, AllNew, slug-IsNewId, page_ids-AllNew}
use mirocraft.Docs.Escape.{escape_html}
use mirocraft.Docs.Escape.Laws.{escape_once, escape_html-eq-once}
use mirocraft.Docs.Links.{DocPage, pages, link_map, rewrite_link}
use mirocraft.Docs.Links.Laws.{Leads, rewrite_link-Leads}

abbrev heading : Text
heading = codes "Ёжик & порты!"

abbrev given : List Text
given = codes "ezhik-porty" ∷ codes "ezhik-porty-2" ∷ []

slug_at_heading : slug heading given ≡ some (codes "ezhik-porty-3", codes "ezhik-porty-3" ∷ given)
unfolding slug codes ◌===◌ decimal
slug_at_heading = refl

slug_at_dashes : slug (codes "—") [] ≡ some (codes "section", codes "section" ∷ [])
unfolding slug codes ◌===◌ decimal
slug_at_dashes = refl

slug-IsNewId_example :
    (id : Text) × (slug heading given ≡ some (id, id ∷ given))
    × IsNewId (slug_base heading) given id
slug-IsNewId_example = slug-IsNewId heading given

abbrev headings : List Text
headings = codes "API" ∷ codes "api" ∷ codes "API 2" ∷ []

page_ids-AllNew_example :
    (ids : List Text) × (after : List Text) × (page_ids headings given ≡ some (ids, after))
    × (length ids ≡ length headings)
    × AllNew given ids
page_ids-AllNew_example = page_ids-AllNew headings given

abbrev markup : Text
markup = codes "<a href=\"x&amp;y\">"

escape_at_markup : escape_html markup ≡ codes "&lt;a href=&quot;x&amp;amp;y&quot;&gt;"
unfolding escape_html codes
escape_at_markup = refl

escaped_markup : escape_html markup ≡ escape_once markup
escaped_markup = escape_html-eq-once markup

rewrite_at_page : rewrite_link (codes "./docs/API.md#auth") ≡ codes "api.html#auth"
unfolding rewrite_link link_map lookup codes ◌===◌
rewrite_at_page = refl

rewrite_at_file :
    rewrite_link (codes "mirocraft.example.yaml")
    ≡ codes "https://github.com/collybia/mirocraft/blob/master/mirocraft.example.yaml"
unfolding rewrite_link link_map lookup codes ◌===◌
rewrite_at_file = refl

rewrite_link-Leads_example :
    Leads
      (codes "docs/screenshots/console.png")
      (rewrite_link (codes "docs/screenshots/console.png"))
    × All (λ (p : DocPage). rewrite_link p.file ≡ p.out) pages
rewrite_link-Leads_example = rewrite_link-Leads (codes "docs/screenshots/console.png")
