-- ===== src/Tests/Site.antt =====
-- The generator of the documentation site at concrete inputs.
use mirocraft.Prelude.{
  ◌≡◌, refl, ◌↔◌, [], ◌∷◌, Option, some, All, ◌===◌, Text, codes, is_space, starts_with, split,
}
use mirocraft.Docs.Links.{pages}
use mirocraft.Docs.Grid.{screenshot_grid}
use mirocraft.Docs.Check.{ids_of, links_of, exit_status}
use mirocraft.Docs.Check.Laws.{PageResolves, exit_status-Resolves}

-- A site whose pages are all the same.
abbrev html : Text
html = codes "<a href=\"index.html#x\">x</a><h2 id=\"x\">X</h2><a data-id=\"no\" href=\"\">"

abbrev site : Text → Option Text
site file = some html

ids : ids_of html ≡ codes "x" ∷ codes "no" ∷ []
unfolding ids_of codes starts_with
ids = refl

links : links_of html ≡ codes "index.html#x" ∷ []
unfolding links_of codes starts_with
links = refl

no_broken_link : exit_status site ≡ 0
unfolding exit_status codes ◌===◌ starts_with split
no_broken_link = refl

exit_status-Resolves_example : (exit_status site ≡ 0) ↔ All (PageResolves site) pages
exit_status-Resolves_example = exit_status-Resolves site

abbrev table : Text
table =
    codes "<table><tr><td><img a></td><td><img b></td></tr><tr><td> A </td><td>B</td></tr></table>!"

grid :
    screenshot_grid table
    ≡ codes
        "<div class=\"shots\">\n<figure><img a><figcaption>A</figcaption></figure>\n<figure><img b><figcaption>B</figcaption></figure>\n</div>!"
unfolding screenshot_grid codes is_space
grid = refl
