-- ===== src/Docs/Links/Laws.antt =====
-- web/scripts/docs-site.mjs: where a rewritten link leads.
use mirocraft.Prelude.{
  All, split, any, subst, ◌≡◌, refl, inl, inr, Bool, true, false, List, [], ◌∷◌, ◌++◌, Option, none,
  some, Bool-cases, Text, codes, starts_with, is_empty, drop, ◌===◌, ◌||◌, if◌then◌else◌, arith,
}
use mirocraft.Prelude.Dict.{lookup}
use mirocraft.Docs.Links.{
  DocPage, path_of, hash_of, pages, link_map, repo_url, is_outside, link_file, link_path, link_to,
  with_hash, rewrite_link,
}

-- The text is the name that a page of the site is written to.
unfoldable pub is_page_of : List DocPage → Text → Bool
is_page_of [] t = false
is_page_of (p ∷ ps) t = if t === p.out then true else is_page_of ps t

unfoldable pub all_pages : List (Text × Text) → Bool
all_pages [] = true
all_pages ((k, v) ∷ rest) = if is_page_of pages v then all_pages rest else false

link_map-all_pages : all_pages link_map ≡ true
unfolding all_pages is_page_of pages link_map codes ◌===◌
link_map-all_pages = refl

lookup-all_pages :
    (k v : Text) (m : List (Text × Text))
    → all_pages m ≡ true
    → lookup k m ≡ some v
    → is_page_of pages v ≡ true
unfolding lookup all_pages
lookup-all_pages k v [] ok found = ground arith
lookup-all_pages k v ((j, w) ∷ m) ok found = grind (arith, lookup-all_pages k v m)

-- A link that the site keeps: it is empty, or leads outside or within its page.
abbrev pub keeps : Text → Bool
keeps href =
    is_empty href
    || any (λ p. starts_with href p)
        (codes "http:" ∷ codes "https:" ∷ codes "mailto:" ∷ codes "#" ∷ [])

-- The page of the site that a path names, with or without the dot in front.
abbrev pub mapped : Text → Option Text
mapped path = lookup (if starts_with path (codes "./") then drop 2 path else path) link_map

abbrev pub is_shot : Text → Bool
is_shot path = starts_with path (codes "docs/screenshots/")

-- What becomes of a link; no two of these hold of one link.
pub data Leads (href : Text) : Text → Type 0 where
  stays : keeps href ≡ true → Leads href href
  page_top :
      (to : Text)
      → keeps href ≡ false
      → mapped (path_of href) ≡ some to
      → is_page_of pages to ≡ true
      → hash_of href ≡ []
      → Leads href to
  page_anchor :
      (to hash : Text)
      → keeps href ≡ false
      → mapped (path_of href) ≡ some to
      → is_page_of pages to ≡ true
      → hash_of href ≡ hash
      → is_empty hash ≡ false
      → Leads href (to ++ b'#' ∷ hash)
  screenshot :
      keeps href ≡ false
      → mapped (path_of href) ≡ none
      → is_shot (path_of href) ≡ true
      → Leads href (drop 5 (path_of href))
  file :
      keeps href ≡ false
      → mapped (path_of href) ≡ none
      → is_shot (path_of href) ≡ false
      → Leads href (codes "https://github.com/collybia/mirocraft/blob/master/" ++ path_of href)

with_hash-Leads :
    (href to hash : Text)
    → keeps href ≡ false
    → mapped (path_of href) ≡ some to
    → hash_of href ≡ hash
    → Leads href (with_hash to hash)
with_hash-Leads href to [] inner e h =
    page_top to inner e (lookup-all_pages _ to link_map link_map-all_pages e) h
with_hash-Leads href to (c ∷ hash) inner e h =
    page_anchor to (c ∷ hash) inner e (lookup-all_pages _ to link_map link_map-all_pages e) h refl

file_url :
    (path : Text)
    → codes "https://github.com/collybia/mirocraft/blob/master/" ++ path
      ≡ repo_url ++ codes "/blob/master/" ++ path
unfolding codes
file_url path = refl

link_file-Leads :
    (href : Text)
    → keeps href ≡ false
    → mapped (path_of href) ≡ none
    → Leads href (link_file (path_of href))
unfolding link_file
link_file-Leads href inner e = elim (Bool-cases (is_shot (path_of href))) [
  | inl shot ↦ rw shot (screenshot inner e shot)
  | inr other ↦ rw other (subst (Leads href) (file_url (path_of href)) (file inner e other))
]

link_to-Leads :
    (href : Text) (found : Option Text)
    → keeps href ≡ false
    → mapped (path_of href) ≡ found
    → Leads href (link_to found (path_of href) (hash_of href))
unfolding link_to
link_to-Leads href none inner e = link_file-Leads href inner e
link_to-Leads href (some to) inner e = with_hash-Leads href to (hash_of href) inner e refl

is_outside-keeps : (href : Text) → (is_empty href || is_outside href) ≡ keeps href
unfolding is_outside
is_outside-keeps href = ground arith

-- A link to the document of a page names the page.
page_files : All (λ (p : DocPage). rewrite_link p.file ≡ p.out) pages
unfolding rewrite_link link_path link_to is_outside pages link_map lookup codes ◌===◌ starts_with
    split
page_files = (refl, (refl, (refl, (refl, (refl, (refl, (refl, tt)))))))

link-Leads : (href : Text) → Leads href (rewrite_link href)
unfolding rewrite_link link_path
link-Leads href = elim (Bool-cases (keeps href)) [
  | inl stay ↦ rw (is_outside-keeps href, stay) (stays stay)
  | inr inner ↦ rw (is_outside-keeps href, inner) (link_to-Leads href _ inner refl)
]

-- A link of a document becomes one of five things. It stays as it is exactly when it is empty, leads
-- outside or within its page. Else, if the map of the links has its path, it names that page, which
-- the site has, with its anchor if it has one. Else it names a screenshot that travels with the
-- site, exactly when its path is in the directory of these, or the file in the repository. And the
-- document of every page of the site is linked to as that page.
pub rewrite_link-Leads :
    (href : Text)
    → Leads href (rewrite_link href) × All (λ (p : DocPage). rewrite_link p.file ≡ p.out) pages
rewrite_link-Leads href = (link-Leads href, page_files)
