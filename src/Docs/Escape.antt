-- ===== src/Docs/Escape.antt =====
-- web/scripts/docs-site.mjs: `escapeHtml`.
pub mod Laws
use mirocraft.Prelude.{ℕ, [], ◌∷◌, ◌++◌, ◌==◌, if◌then◌else◌, Text, codes}

-- `text.replace(/c/g, by)` for one character.
unfoldable pub replace_all : ℕ → Text → Text → Text
replace_all d by [] = []
replace_all d by (c ∷ s) = let rest = replace_all d by s in if c == d then by ++ rest else c ∷ rest

unfoldable pub escape_html : Text → Text
unfolding replace_all
escape_html text = replace_all 34 (codes "&quot;") (
    replace_all b'>' (codes "&gt;")
      (replace_all b'<' (codes "&lt;") (replace_all b'&' (codes "&amp;") text)))
