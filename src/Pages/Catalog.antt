-- ===== src/Pages/Catalog.antt =====
-- web/src/pages/ServerCatalog.tsx: the add-ons of a server. Each handler is split at its calls. The
-- search is that of `Pages.Search`, whose error is the one that the page shows.
pub mod View
pub mod OneAction
use mirocraft.Prelude.{
  ℕ, Bool, true, false, List, [], ◌∷◌, ◌++◌, Option, none, some, get_or_else, filter, length, ltb,
  ◌==◌, if◌then◌else◌, Text, codes, decimal,
}
use mirocraft.Api.Json.{Json}
use mirocraft.Api.Http.{Failure, Outcome, returned, threw}
use mirocraft.Api.Endpoint.{Endpoint}
use mirocraft.Api.Catalog.{
  CatalogProject, CatalogSearch, search_catalog, server_content, PlannedFile, InstallPlan,
  InstalledAddon, ServerContent, install_addon, list_installed, toggle_installed, delete_installed,
}
use mirocraft.Pages.Report.{report}
use mirocraft.Pages.Search.{
  SearchBox, Request, search_changed, catalog_search, timer_fired, answered,
}

pub record Catalog : Type 0 where
  pub content : Option ServerContent
  pub query : Text
  pub installed : List InstalledAddon
  pub busy : Option Text
  pub notice : Option Text
  pub box : SearchBox

-- What a call for an installation answers, as far as the page reads it.
pub record Preview : Type 0 where
  pub files : Option (List PlannedFile)
  pub plan : Option InstallPlan

pub record Toggled : Type 0 where
  pub enabled : Bool
  pub restart_required : Bool

-- A listing that an action waits for is its last call.
pub data Job : Type 0 where
  preview : (project : CatalogProject) → Job
  install : (project : CatalogProject) → (extra : List PlannedFile) → Job
  toggle delete : (addon : InstalledAddon) → Job
  relist : (awaited : Bool) → Job
  describe : Job
  search : (seq : ℕ) → CatalogSearch → Job

abbrev pub Reply : Job → Type 0
Reply (preview project) = Preview
Reply (toggle addon) = Toggled
Reply (relist awaited) = List InstalledAddon
Reply describe = ServerContent
Reply (search seq request) = Option (List CatalogProject)
Reply job = Unit

unfoldable pub endpoint_of : Text → Job → Endpoint
endpoint_of id (preview project) =
    install_addon id (record { project_id = project.id; version_id = none; dry_run = some true })
endpoint_of id (install project extra) =
    install_addon id (record { project_id = project.id; version_id = none; dry_run = none })
endpoint_of id (toggle addon) = toggle_installed id addon.file
endpoint_of id (delete addon) = delete_installed id addon.file
endpoint_of id (relist awaited) = list_installed id
endpoint_of id describe = server_content id
endpoint_of id (search seq request) = search_catalog request

abbrev with_error : Option Json → Catalog → Catalog
with_error error s = record s { box = record s.box { error = error } }

abbrev failed : Failure → Text → Catalog → Catalog
failed e fallback s = with_error (some (report e fallback)) s

abbrev freed : Catalog → Catalog
freed s = record s { busy = none }

unfoldable pub handle_install : CatalogProject → Catalog → Catalog × List Job
handle_install project s =
    (with_error none (record s { busy = some project.id; notice = none }), preview project ∷ [])

unfoldable pub handle_toggle : InstalledAddon → Catalog → Catalog × List Job
handle_toggle addon s = (with_error none (record s { busy = some addon.file }), toggle addon ∷ [])

-- `window.confirm`
unfoldable pub handle_delete : InstalledAddon → Bool → Catalog → Catalog × List Job
handle_delete addon sure s =
    if sure
    then (with_error none (record s { busy = some addon.file }), delete addon ∷ [])
    else (s, [])

abbrev plan_files : Option InstallPlan → List PlannedFile
plan_files none = []
plan_files (some plan) = plan.files

-- The dependencies among the files of a preview.
unfoldable pub extra_of : Preview → List PlannedFile
extra_of p = filter (λ (f : PlannedFile). f.dependency) (get_or_else p.files (plan_files p.plan))

unfoldable pub install_notice : CatalogProject → List PlannedFile → Text
install_notice project [] = project.title ++ codes " устанавливается…"
install_notice project (f ∷ extra) =
    project.title
    ++ codes " и "
    ++ decimal (length (f ∷ extra))
    ++ codes " зависимост"
    ++ (if length (f ∷ extra) == 1 then codes "ь" else codes "и")
    ++ codes " устанавливаются…"

unfoldable pub toggle_notice : InstalledAddon → Toggled → Text
toggle_notice addon result =
    addon.name
    ++ (if result.enabled then codes " включён" else codes " выключен")
    ++ (if result.restart_required then codes "; сервер запущен — нужен перезапуск" else [])

-- Whoever is asked about dependencies may refuse them.
unfoldable pub previewed : CatalogProject → List PlannedFile → Bool → Catalog → Catalog × List Job
previewed project [] sure s = (s, install project [] ∷ [])
previewed project (f ∷ extra) sure s =
    if sure then (s, install project (f ∷ extra) ∷ []) else (freed s, [])

-- The effect of the search runs after a change of the query and of the loader.
unfoldable pub searched : Catalog → Catalog
unfolding search_changed catalog_search
searched s = record s { box = search_changed (catalog_search s.content s.query) s.box }

-- What follows a call that has succeeded. The two listings after an installation are for the timers.
unfoldable pub succeed : (job : Job) → Reply job → Bool → Catalog → Catalog × List Job
unfolding extra_of previewed install_notice toggle_notice searched answered
succeed (preview project) reply sure s = previewed project (extra_of reply) sure s
succeed (install project extra) reply sure s = (
  freed (record s { notice = some (install_notice project extra) }),
  relist false ∷ relist false ∷ [],
)
succeed (toggle addon) result sure s =
    (record s { notice = some (toggle_notice addon result) }, relist true ∷ [])
succeed (delete addon) reply sure s = (s, relist true ∷ [])
succeed (relist awaited) items sure s =
    (record s { installed = items; busy = if awaited then none else s.busy }, [])
succeed describe info sure s = (searched (record s { content = some info }), [])
succeed (search seq request) items sure s =
    (record s { box = answered seq (returned items) s.box }, [])

unfoldable pub fail : Job → Failure → Catalog → Catalog
unfolding answered
fail (preview project) e s = freed (failed e (codes "Установка не удалась") s)
fail (install project extra) e s = freed (failed e (codes "Установка не удалась") s)
fail (toggle addon) e s = freed (failed e (codes "Не удалось переключить") s)
fail (delete addon) e s = freed (failed e (codes "Не удалось удалить") s)
fail (relist awaited) e s =
    failed e (codes "Не удалось прочитать установленное")
      (record s { busy = if awaited then none else s.busy })
fail describe e s = failed e (codes "Не удалось определить загрузчик") s
fail (search seq request) e s = record s { box = answered seq (threw e) s.box }

unfoldable pub settle : (job : Job) → Outcome (Reply job) → Bool → Catalog → Catalog × List Job
unfolding succeed fail
settle job (returned reply) sure s = succeed job reply sure s
settle job (threw e) sure s = (fail job e s, [])

-- The controls of the page.
pub data Event : Type 0 where
  install_pressed : (project : CatalogProject) → Event
  toggle_pressed : (addon : InstalledAddon) → Event
  delete_pressed : (addon : InstalledAddon) → (sure : Bool) → Event
  query_typed : Text → Event

unfoldable pub handle : Event → Catalog → Catalog × List Job
unfolding handle_install handle_toggle handle_delete searched
handle (install_pressed project) s = handle_install project s
handle (toggle_pressed addon) s = handle_toggle addon s
handle (delete_pressed addon sure) s = handle_delete addon sure s
handle (query_typed query) s = (searched (record s { query = query }), [])

pub data Outside : Type 0 where
  opened search_due : Outside

abbrev pub request_job : Option Request → List Job
request_job none = []
request_job (some (seq, request)) = search seq request ∷ []

-- The loader is asked for once; the timer of a search lets its request go out.
unfoldable pub happen : Outside → Catalog → Catalog × List Job
unfolding timer_fired
happen opened s = (s, describe ∷ relist false ∷ [])
happen search_due s =
    let (box, request) = timer_fired s.box in (record s { box = box }, request_job request)

-- The texts of the lists; `to_fixed n d k` is how the browser prints `n / d` with `k` decimals.
module _ (to_fixed : ℕ → ℕ → ℕ → Text) where
  unfoldable pub format_downloads : ℕ → Text
  format_downloads count =
      if ltb count 1000
      then decimal count
      else if ltb count 1000000
      then to_fixed count 1000 0 ++ codes " тыс."
      else to_fixed count 1000000 1 ++ codes " млн"

  -- A tenth of a megabyte is a little less than 104858 bytes.
  unfoldable pub format_size_mb : ℕ → Text
  format_size_mb bytes =
      if ltb bytes 104858
      then to_fixed bytes 1024 0 ++ codes " КБ"
      else to_fixed bytes 1048576 1 ++ codes " МБ"
