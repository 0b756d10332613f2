-- ===== src/Docs/Slug.antt =====
-- web/scripts/docs-site.mjs: `slug`, which makes the anchors of headings.
pub mod Decimal
pub mod Free
pub mod Shape
use mirocraft.Prelude.{
  ℕ, zero, suc, ◌+◌, ◌-◌, Bool, true, false, List, [], ◌∷◌, ◌++◌, ◌||◌, ◌&&◌, Option, none, some,
  get_or_else, get_elem?, length, any, leb, ◌==◌, ◌===◌, if◌then◌else◌, Text, codes, decimal,
  is_empty,
}

-- `toLowerCase`, as far as the result shows it: a capital that is not listed becomes no letter of
-- a-z, а-я or ё, and is replaced like its small letter.
unfoldable pub lower_char : ℕ → Text
lower_char c =
    if (leb b'A' c && leb c b'Z') || (leb 0x410 c && leb c 0x42F)
    then (c + 32) ∷ []
    else if c == 0x401
    then 0x451 ∷ []
    else if c == 0x212A
    then b'k' ∷ []
    else if c == 0x130
    then b'i' ∷ 0x307 ∷ []
    else c ∷ []

-- The letters from а to я; ъ and ь are dropped.
abbrev letters : List Text
letters =
    codes "a"
    ∷ codes "b"
    ∷ codes "v"
    ∷ codes "g"
    ∷ codes "d"
    ∷ codes "e"
    ∷ codes "zh"
    ∷ codes "z"
    ∷ codes "i"
    ∷ codes "y"
    ∷ codes "k"
    ∷ codes "l"
    ∷ codes "m"
    ∷ codes "n"
    ∷ codes "o"
    ∷ codes "p"
    ∷ codes "r"
    ∷ codes "s"
    ∷ codes "t"
    ∷ codes "u"
    ∷ codes "f"
    ∷ codes "h"
    ∷ codes "c"
    ∷ codes "ch"
    ∷ codes "sh"
    ∷ codes "sch"
    ∷ []
    ∷ codes "y"
    ∷ []
    ∷ codes "e"
    ∷ codes "yu"
    ∷ codes "ya"
    ∷ []

-- `.replace(/[а-яё]/g, (ch) => map[ch] ?? "")`
unfoldable pub latin_char : ℕ → Text
latin_char c =
    if c == 0x451
    then codes "e"
    else if leb 0x430 c && leb c 0x44F
    then get_or_else (get_elem? letters (c - 0x430)) []
    else c ∷ []

unfoldable pub each_char : (ℕ → Text) → Text → Text
each_char f [] = []
each_char f (c ∷ s) = f c ++ each_char f s

abbrev pub is_slug_char : ℕ → Bool
is_slug_char c = (leb b'a' c && leb c b'z') || (leb b'0' c && leb c b'9')

-- `.replace(/[^a-z0-9]+/g, "-")`; the flag says that a run of other characters is being read.
unfoldable pub dash_runs : Bool → Text → Text
dash_runs within [] = []
dash_runs within (c ∷ s) =
    let rest = dash_runs (if is_slug_char c then false else true) s in
    if is_slug_char c then c ∷ rest else if within then rest else b'-' ∷ rest

-- `.replace(/^-+|-+$/g, "")`
unfoldable pub trim_start : Text → Text
trim_start [] = []
trim_start (c ∷ s) = let rest = trim_start s in if c == b'-' then rest else c ∷ s

unfoldable pub trim_end : Text → Text
trim_end [] = []
trim_end (c ∷ s) = let rest = trim_end s in if is_empty rest && c == b'-' then [] else c ∷ rest

unfoldable pub slug_base : Text → Text
unfolding lower_char latin_char each_char dash_runs trim_start trim_end
slug_base text =
    let base =
      trim_end (trim_start (dash_runs false (each_char latin_char (each_char lower_char text)))) in
    if is_empty base then codes "section" else base

abbrev pub contains : List Text → Text → Bool
contains ids id = any (λ seen. seen === id) ids

abbrev pub numbered : Text → ℕ → Text
numbered base n = base ++ b'-' ∷ decimal n

-- The loop `for (let n = 2; seenIds.has(id); n++)`, from its first increment; none means that the
-- fuel ran out.
unfoldable pub free_from : ℕ → Text → ℕ → List Text → Option Text
free_from zero base n seen = none
free_from (suc fuel) base n seen =
    let next = free_from fuel base (suc n) seen in
    if contains seen (numbered base n) then next else some (numbered base n)

-- One round for each id that is taken, and one more.
unfoldable pub free_id : Text → List Text → Option Text
unfolding free_from
free_id base seen =
    if contains seen base then free_from (suc (length seen)) base 2 seen else some base

-- The id and the set with the id added.
abbrev add_id : List Text → Option Text → Option (Text × List Text)
add_id seen none = none
add_id seen (some id) = some (id, id ∷ seen)

unfoldable pub slug : Text → List Text → Option (Text × List Text)
unfolding slug_base free_id
slug text seen = add_id seen (free_id (slug_base text) seen)

-- The ids of a page's headings, in their order.
abbrev next_ids : Text → Option (List Text × List Text) → Option (List Text × List Text)
next_ids id none = none
next_ids id (some (ids, seen)) = some (id ∷ ids, seen)

unfoldable pub page_ids : List Text → List Text → Option (List Text × List Text)
page_ids [] seen = some ([], seen)
page_ids (text ∷ texts) seen = elim (slug text seen) [
  | none ↦ none
  | some (id, seen') ↦ next_ids id (page_ids texts seen')
]
