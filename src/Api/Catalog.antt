-- ===== src/Api/Catalog.antt =====
-- web/src/lib/api.ts: the add-on catalogue, the installed add-ons and the modpacks.
use mirocraft.Prelude.{
  Bool, ℕ, zero, suc, List, [], ◌∷◌, ◌++◌, Option, none, some, Text, codes, decimal, is_empty,
  if◌then◌else◌,
}
use mirocraft.Prelude.Dict.{insert}
use mirocraft.Api.Json.{str, boolean, object, optional, entry}
use mirocraft.Api.Uri.{encode_uri_component}
use mirocraft.Api.Uri.Form.{form_text}
use mirocraft.Api.Http.{get, post, delete, plain}
use mirocraft.Api.Endpoint.{Endpoint, item, calls, sends, lists, server_path}

pub record CatalogProject : Type 0 where
  pub id : Text
  pub slug : Text
  pub title : Text
  pub description : Text
  pub type : Text
  pub downloads : ℕ
  pub icon_url : Option Text
  pub categories : Option (List Text)
  pub loaders : Option (List Text)
  pub license : Option Text
  pub server_side : Option Text
  pub client_side : Option Text
  pub body : Option Text

pub data VersionChannel : Type 0 where
  release beta alpha : VersionChannel

pub record CatalogVersion : Type 0 where
  pub id : Text
  pub project_id : Text
  pub name : Text
  pub number : Text
  pub channel : VersionChannel
  pub loaders : List Text
  pub game_versions : List Text
  pub published_at : Option Text

pub record ServerContent : Type 0 where
  pub loader : Text
  pub dir : Text
  pub version : Text

pub record PlannedFile : Type 0 where
  pub project_id : Text
  pub project_title : Text
  pub version_id : Text
  pub version_name : Text
  pub file_name : Text
  pub size_bytes : ℕ
  pub dependency : Bool

pub record SkippedProject : Type 0 where
  pub project_id : Text
  pub reason : Text

pub record InstallPlan : Type 0 where
  pub files : List PlannedFile
  pub skipped : Option (List SkippedProject)

pub record InstalledAddon : Type 0 where
  pub file : Text
  pub name : Text
  pub size_bytes : ℕ
  pub enabled : Bool
  pub modified_at : Text

unfoldable pub server_content : Text → Endpoint
server_content id = calls get (server_path id (codes "/catalog"))

pub record CatalogSearch : Type 0 where
  pub q : Text
  pub loader : Option Text
  pub mc : Option Text
  pub type : Option Text
  pub limit : Option ℕ
  pub offset : Option ℕ

-- `if (value) query.set(name, value)`: a missing or empty text and a missing number or 0 set
-- nothing.
abbrev set_text : Text → Option Text → List (Text × Text) → List (Text × Text)
set_text name none q = q
set_text name (some v) q = if is_empty v then q else insert name v q

abbrev set_num : Text → Option ℕ → List (Text × Text) → List (Text × Text)
set_num name none q = q
set_num name (some zero) q = q
set_num name (some (suc n)) q = insert name (decimal (suc n)) q

unfoldable pub search_query : CatalogSearch → List (Text × Text)
unfolding insert
search_query p = set_num (codes "offset") p.offset (
    set_num (codes "limit") p.limit (
      set_text (codes "type") p.type
        (set_text (codes "mc") p.mc (set_text (codes "loader") p.loader ((codes "q", p.q) ∷ [])))))

unfoldable pub search_catalog : CatalogSearch → Endpoint
unfolding search_query
search_catalog p = calls get (codes "/catalog/search?" ++ form_text (search_query p))

unfoldable pub catalog_project : Text → Option Text → Option Text → Endpoint
catalog_project pid loader mc = calls get (
    codes "/catalog/projects/"
    ++ encode_uri_component pid
    ++ codes "?"
    ++ form_text (set_text (codes "mc") mc (set_text (codes "loader") loader [])))

pub record InstallInput : Type 0 where
  pub project_id : Text
  pub version_id : Option Text
  pub dry_run : Option Bool

abbrev install_body : InstallInput → mirocraft.Api.Json.Json
install_body i = object (
    entry (codes "project_id") (str i.project_id)
    ++ optional (codes "version_id") str i.version_id
    ++ optional (codes "dry_run") boolean i.dry_run)

unfoldable pub install_addon : Text → InstallInput → Endpoint
install_addon id i = sends post (server_path id (codes "/catalog/install")) (install_body i)

unfoldable pub list_installed : Text → Endpoint
list_installed id = lists (server_path id (codes "/installed"))

pub record ModpackPlan : Type 0 where
  pub project_id : Text
  pub version_id : Text
  pub name : Text
  pub version : Text
  pub file : Text
  pub size_bytes : ℕ
  pub core : Text
  pub minecraft : Text
  pub changes_core : Bool
  pub replaces_dir : Text

pub record InstalledModpack : Type 0 where
  pub project_id : Text
  pub version_id : Text
  pub name : Text
  pub version : Text
  pub core : Text
  pub minecraft : Text
  pub files : ℕ
  pub installed_at : Text

unfoldable pub server_modpack : Text → Endpoint
server_modpack id = record {
  path = server_path id (codes "/modpack");
  init = plain get;
  reply = item (codes "installed");
}

unfoldable pub install_modpack : Text → InstallInput → Endpoint
install_modpack id i = sends post (server_path id (codes "/modpack")) (install_body i)

abbrev installed_path : Text → Text → Text → Text
installed_path id file rest =
    server_path id (codes "/installed/" ++ encode_uri_component file ++ rest)

unfoldable pub toggle_installed : Text → Text → Endpoint
toggle_installed id file = calls post (installed_path id file (codes "/toggle"))

unfoldable pub delete_installed : Text → Text → Endpoint
delete_installed id file = calls delete (installed_path id file [])
