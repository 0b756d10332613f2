-- ===== src/Tests/Catalog.antt =====
-- The search box and the add-on page at concrete inputs.
use mirocraft.Prelude.{
  ◌≡◌, refl, true, false, List, [], ◌∷◌, none, some, Text, codes, is_space, arith,
}
use mirocraft.Api.Catalog.{CatalogProject, CatalogSearch, PlannedFile}
use mirocraft.Pages.Search.{modpack_search}
use mirocraft.Pages.Search.Late
use mirocraft.Pages.Search.Late.{Board, came, IsTimely, board_step, board_step-IsTimely}

abbrev search_for : Text → CatalogSearch
search_for q = record {
  q = q;
  loader = none;
  mc = none;
  type = none;
  limit = some 20;
  offset = none;
}

short_query : modpack_search (codes " a ") ≡ none
unfolding modpack_search codes is_space
short_query = refl

abbrev pub essentials : CatalogProject
essentials = record {
  id = codes "p1";
  slug = codes "essentials";
  title = codes "Essentials";
  description = [];
  type = codes "plugin";
  downloads = 10;
  icon_url = none;
  categories = none;
  loaders = none;
  license = none;
  server_side = none;
  client_side = none;
  body = none;
}

abbrev found : CatalogSearch → List CatalogProject
found search = essentials ∷ []

-- Two searches were begun, and the older one is answered last.
abbrev board : Board
board = record {
  box = record {
    seq = 2;
    timer = none;
    hits = some (found (search_for (codes "ess")));
    searching = false;
    error = none;
  };
  requests = (1, search_for (codes "es")) ∷ [];
  begun = some (search_for (codes "ess"));
}

abbrev board_timely : IsTimely found board
board_timely = record {
  current = ((omega arith, λ same. absurd (omega arith)), tt);
  timer = tt;
  fits = λ idle. Late.hits_of refl;
}

board_step-IsTimely_example : IsTimely found (board_step found (came 0 none) board)
board_step-IsTimely_example = board_step-IsTimely found (came 0 none) board board_timely

abbrev pub library : PlannedFile
library = record {
  project_id = codes "p2";
  project_title = codes "Vault";
  version_id = codes "v1";
  version_name = codes "1.7";
  file_name = codes "Vault.jar";
  size_bytes = 1000;
  dependency = true;
}
