-- ===== src/Docs/Links.antt =====
-- web/scripts/docs-site.mjs: the pages of the site, and `rewriteLink`.
pub mod Laws
use mirocraft.Prelude.{
  Bool, List, [], ◌∷◌, ◌++◌, ◌||◌, Option, none, some, get_or_else, if◌then◌else◌, Text, codes,
  starts_with, is_empty, split, drop, get_elem?,
}
use mirocraft.Prelude.Dict.{lookup}

-- An entry of `PAGES`, without its description, which only the layout shows.
pub record DocPage : Type 0 where
  pub file : Text
  pub out : Text
  pub title : Text
  pub nav : Text

abbrev doc_page : Text → Text → Text → Text → DocPage
doc_page file out title nav = record { file = file; out = out; title = title; nav = nav }

unfoldable pub pages : List DocPage
pages =
    doc_page (codes "README.md") (codes "index.html") (codes "Mirocraft") (codes "Обзор")
    ∷ doc_page (codes "docs/API_GUIDE.md") (codes "api-guide.html") (codes "API — гайд")
        (codes "API: гайд")
    ∷ doc_page (codes "docs/API.md") (codes "api.html") (codes "API — справочник")
        (codes "API: справочник")
    ∷ doc_page (codes "docs/ARCHITECTURE.md") (codes "architecture.html") (codes "Архитектура")
        (codes "Архитектура")
    ∷ doc_page (codes "docs/SECURITY.md") (codes "security.html") (codes "Безопасность")
        (codes "Безопасность")
    ∷ doc_page (codes "docs/ROADMAP.md") (codes "roadmap.html") (codes "Что сделано")
        (codes "Что сделано")
    ∷ doc_page (codes "README.en.md") (codes "en.html") (codes "Mirocraft in English")
        (codes "English")
    ∷ []

unfoldable pub link_map : List (Text × Text)
link_map =
    (codes "README.md", codes "index.html")
    ∷ (codes "README.en.md", codes "en.html")
    ∷ (codes "docs/API.md", codes "api.html")
    ∷ (codes "docs/API_GUIDE.md", codes "api-guide.html")
    ∷ (codes "docs/ARCHITECTURE.md", codes "architecture.html")
    ∷ (codes "docs/SECURITY.md", codes "security.html")
    ∷ (codes "docs/ROADMAP.md", codes "roadmap.html")
    ∷ (codes "API.md", codes "api.html")
    ∷ (codes "API_GUIDE.md", codes "api-guide.html")
    ∷ (codes "ARCHITECTURE.md", codes "architecture.html")
    ∷ (codes "SECURITY.md", codes "security.html")
    ∷ (codes "ROADMAP.md", codes "roadmap.html")
    ∷ []

abbrev pub repo_url : Text
repo_url = codes "https://github.com/collybia/mirocraft"

-- `/^(https?:|mailto:|#)/`
unfoldable pub is_outside : Text → Bool
unfolding starts_with
is_outside href =
    starts_with href (codes "http:")
    || starts_with href (codes "https:")
    || starts_with href (codes "mailto:")
    || starts_with href (codes "#")

-- `path.replace(/^\.\//, "")`
abbrev without_dot : Text → Text
without_dot path = if starts_with path (codes "./") then drop 2 path else path

abbrev with_hash : Text → Text → Text
with_hash mapped hash = if is_empty hash then mapped else mapped ++ b'#' ∷ hash

-- What a path becomes that is no page: a screenshot of the site, or a file of the repository.
unfoldable pub link_file : Text → Text
link_file path =
    if starts_with path (codes "docs/screenshots/")
    then drop 5 path
    else repo_url ++ codes "/blob/master/" ++ path

-- `if (mapped) return …` and what follows; no target in the map is the empty text.
unfoldable pub link_to : Option Text → Text → Text → Text
unfolding link_file
link_to (some mapped) path hash = with_hash mapped hash
link_to none path hash = link_file path

unfoldable pub link_path : Text → Text → Text
unfolding link_to
link_path path hash = link_to (lookup (without_dot path) link_map) path hash

-- `const [path, hash = ""] = href.split("#")`
abbrev pub path_of : Text → Text
path_of href = get_or_else (get_elem? (split b'#' href) 0) []

abbrev pub hash_of : Text → Text
hash_of href = get_or_else (get_elem? (split b'#' href) 1) []

-- An empty or missing link stays.
unfoldable pub rewrite_link : Text → Text
unfolding is_outside link_path split
rewrite_link href =
    if is_empty href || is_outside href then href else link_path (path_of href) (hash_of href)
