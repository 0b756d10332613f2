-- ===== src/Pages/Search.antt =====
-- The search box that web/src/pages/ServerCatalog.tsx and web/src/pages/ServerModpacks.tsx both
-- write out: the effect that runs when the query changes, its timer, and the answers, which may be
-- late.
pub mod Late
use mirocraft.Prelude.{
  ℕ, ◌+◌, Bool, true, false, ◌||◌, List, [], ◌∷◌, Option, none, some, get_or_else, ltb, ◌==◌,
  if◌then◌else◌, Text, codes, is_empty, trim,
}
use mirocraft.Api.Json.{Json}
use mirocraft.Api.Http.{Outcome, returned, threw}
use mirocraft.Api.Catalog.{CatalogProject, CatalogSearch, ServerContent}
use mirocraft.Pages.Report.{report}

-- `length` of a string: a code point beyond the first plane counts twice.
unfoldable pub utf16_length : Text → ℕ
utf16_length [] = 0
utf16_length (c ∷ s) = (if ltb c 0x10000 then 1 else 2) + utf16_length s

abbrev pub is_short : Text → Bool
is_short query = ltb (utf16_length (trim query)) 2

-- What the effect of the add-on page searches for, if it searches.
unfoldable pub catalog_search : Option ServerContent → Text → Option CatalogSearch
unfolding utf16_length trim
catalog_search none query = none
catalog_search (some content) query =
    if is_empty content.loader || is_short query
    then none
    else some (record {
      q = trim query;
      loader = some content.loader;
      mc = some content.version;
      type = none;
      limit = some 20;
      offset = none;
    })

-- The same for the modpack page.
unfoldable pub modpack_search : Text → Option CatalogSearch
unfolding utf16_length trim
modpack_search query =
    if is_short query
    then none
    else some (record {
      q = trim query;
      loader = none;
      mc = none;
      type = some (codes "modpack");
      limit = some 20;
      offset = none;
    })

-- A search keeps the number that the effect gave to it.
abbrev pub Request : Type 0
Request = ℕ × CatalogSearch

pub record SearchBox : Type 0 where
  pub seq : ℕ
  pub timer : Option Request
  pub hits : Option (List CatalogProject)
  pub searching : Bool
  pub error : Option Json

abbrev pub new_box : SearchBox
new_box = record { seq = 0; timer = none; hits = none; searching = false; error = none }

-- The effect: the timer of the run before is cleared in any case.
unfoldable pub search_changed : Option CatalogSearch → SearchBox → SearchBox
search_changed none s = record s { timer = none; hits = none }
search_changed (some search) s = record s {
  seq = s.seq + 1;
  timer = some (s.seq + 1, search);
  searching = true;
}

-- The timer fires: its request goes out.
unfoldable pub timer_fired : SearchBox → SearchBox × Option Request
timer_fired s = (record s { timer = none }, s.timer)

abbrev pub show_answer : Outcome (Option (List CatalogProject)) → SearchBox → SearchBox
show_answer (returned items) s = record s { hits = some (get_or_else items []); searching = false }
show_answer (threw e) s = record s {
  error = some (report e (codes "Поиск не удался"));
  hits = some [];
  searching = false;
}

-- `if (seq === searchSeq.current)`
unfoldable pub answered : ℕ → Outcome (Option (List CatalogProject)) → SearchBox → SearchBox
answered seq outcome s = if seq == s.seq then show_answer outcome s else s
