-- ===== src/Docs/Grid.antt =====
-- web/scripts/docs-site.mjs: `screenshotGrid`, which turns a table of images into figures.
use mirocraft.Prelude.{
  ℕ, suc, ◌+◌, Bool, ◌||◌, List, [], ◌∷◌, ◌++◌, map, Option, none, some, get_or_else, any, includes,
  drop, ◌==◌, if◌then◌else◌, Text, codes, starts_with, trim, get_elem?,
}
use mirocraft.Docs.Scan.{literal, bodies, replace_all_between, join_with}

abbrev cell_tag : Text → Option Text
cell_tag s =
    if starts_with s (codes "<td") || starts_with s (codes "<th") then some (drop 3 s) else none

-- The place behind the first `>`.
unfoldable pub tag_end : Text → Option ℕ
tag_end [] = none
tag_end (c ∷ s) =
    let rest = tag_end s in
    if c == b'>' then some 1 else elim rest [ none ↦ none | some n ↦ some (suc n) ]

abbrev plus_three : Option ℕ → Option ℕ
plus_three none = none
plus_three (some n) = some (3 + n)

-- `<t[dh][^>]*>` and `<\/t[dh]>`
unfoldable pub opens_cell : ℕ → Text → Option ℕ
unfolding tag_end
opens_cell prev s = elim (cell_tag s) [ none ↦ none | some rest ↦ plus_three (tag_end rest) ]

unfoldable pub closes_cell : Text → Option ℕ
closes_cell s =
    if starts_with s (codes "</td>") || starts_with s (codes "</th>") then some 5 else none

unfoldable pub cells_of : Text → List Text
unfolding bodies opens_cell closes_cell trim
cells_of row = map trim (bodies opens_cell closes_cell row)

unfoldable pub rows_of : Text → List (List Text)
unfolding bodies cells_of
rows_of table =
    map cells_of (bodies (λ prev. literal (codes "<tr>")) (literal (codes "</tr>")) table)

abbrev pub is_picture : Text → Bool
is_picture cell = includes cell (codes "<img")

-- `captions[column] ?? ""`, with the captions from this column on.
abbrev caption_html : Text → Text
caption_html [] = []
caption_html (c ∷ s) = codes "<figcaption>" ++ (c ∷ s) ++ codes "</figcaption>"

abbrev figure : Text → Text → Text
figure cell caption = codes "<figure>" ++ cell ++ caption_html caption ++ codes "</figure>"

unfoldable pub row_figures : List Text → List Text → List Text
unfolding includes
row_figures [] captions = []
row_figures (cell ∷ row) captions =
    let rest = row_figures row (drop 1 captions) in
    if is_picture cell then figure cell (get_or_else (get_elem? captions 0) []) ∷ rest else rest

-- The row below, if it shows no picture.
abbrev pub captions_below : List (List Text) → List Text
captions_below [] = []
captions_below (below ∷ rows) = if any is_picture below then [] else below

unfoldable pub figures : List (List Text) → List Text
unfolding row_figures includes
figures [] = []
figures (row ∷ rows) = row_figures row (captions_below rows) ++ figures rows

abbrev shots : Text → List Text → Text
shots table [] = table
shots table (f ∷ fs) =
    codes "<div class=\"shots\">\n" ++ join_with (codes "\n") (f ∷ fs) ++ codes "\n</div>"

unfoldable pub grid_table : Text → Text
unfolding includes figures rows_of join_with
grid_table table =
    if includes table (codes "<img") then shots table (figures (rows_of table)) else table

unfoldable pub screenshot_grid : Text → Text
unfolding grid_table replace_all_between
screenshot_grid html = replace_all_between (codes "<table>") (codes "</table>") grid_table html
