-- ===== src/Pages/Modpacks.antt =====
-- web/src/pages/ServerModpacks.tsx: the modpack of a server. Each handler is split at its calls.
-- The search is that of `Pages.Search`, whose error is the one that the page shows.
pub mod Counts
pub mod View
pub mod OneAction
use mirocraft.Prelude.{
  ℕ, ◌%◌, Bool, true, false, not, ◌&&◌, ◌||◌, List, [], ◌∷◌, ◌++◌, Option, none, some, get_or_else,
  ltb, leb, ◌==◌, if◌then◌else◌, Text, codes, is_empty, trim,
}
use mirocraft.Api.Json.{Json, str}
use mirocraft.Api.Types.{Task, TaskStatus, queued, running, done, failed}
use mirocraft.Api.Http.{Failure, Outcome, returned, threw}
use mirocraft.Api.Endpoint.{Endpoint}
use mirocraft.Api.Servers.{get_task}
use mirocraft.Api.Catalog.{
  CatalogProject, CatalogSearch, search_catalog, InstalledModpack, server_modpack, install_modpack,
}
use mirocraft.Pages.Report.{report}
use mirocraft.Pages.Search.{
  SearchBox, Request, search_changed, modpack_search, timer_fired, answered,
}

pub record Modpacks : Type 0 where
  pub installed : Option InstalledModpack
  pub query : Text
  pub busy : Option Text
  pub task : Option Task
  pub notice : Option Text
  pub box : SearchBox

-- `Partial<ModpackPlan>`, as far as the page reads it.
pub record PartialPlan : Type 0 where
  pub version_id : Option Text
  pub version : Option Text
  pub core : Option Text
  pub minecraft : Option Text
  pub replaces_dir : Option Text
  pub changes_core : Option Bool

-- What a dry run answers: a plan in a field of its own, or in the body itself.
pub record Preview : Type 0 where
  pub plan : Option PartialPlan
  pub body : PartialPlan

pub data Job : Type 0 where
  relist : Job
  preview : (project : CatalogProject) → Job
  install : (project : CatalogProject) → (version_id : Option Text) → Job
  poll : (task_id : Text) → Job
  search : (seq : ℕ) → CatalogSearch → Job

-- An installation answers with the id of its task, if it has one.
abbrev pub Reply : Job → Type 0
Reply relist = Option InstalledModpack
Reply (preview project) = Preview
Reply (install project version_id) = Option Text
Reply (poll id) = Task
Reply (search seq request) = Option (List CatalogProject)

unfoldable pub endpoint_of : Text → Job → Endpoint
endpoint_of id relist = server_modpack id
endpoint_of id (preview project) =
    install_modpack id (record { project_id = project.id; version_id = none; dry_run = some true })
endpoint_of id (install project version_id) =
    install_modpack id (record { project_id = project.id; version_id = version_id; dry_run = none })
endpoint_of id (poll task_id) = get_task task_id
endpoint_of id (search seq request) = search_catalog request

abbrev is_under_way : TaskStatus → Bool
is_under_way queued = true
is_under_way running = true
is_under_way status = false

unfoldable pub is_installing : Option Task → Bool
is_installing none = false
is_installing (some task) = is_under_way task.status

abbrev with_error : Option Json → Modpacks → Modpacks
with_error error s = record s { box = record s.box { error = error } }

unfoldable pub handle_install : CatalogProject → Modpacks → Modpacks × List Job
handle_install project s =
    (with_error none (record s { busy = some project.id; notice = none }), preview project ∷ [])

-- A missing part is written out as `undefined`.
abbrev written : Option Text → Text
written part = get_or_else part (codes "undefined")

abbrev plan_of : Preview → PartialPlan
plan_of p = get_or_else p.plan p.body

-- The question that `window.confirm` asks, line by line.
unfoldable pub question : CatalogProject → PartialPlan → List Text
unfolding trim
question project plan =
    trim (project.title ++ codes " " ++ get_or_else plan.version [])
    ∷ ((if get_or_else plan.changes_core false
          then codes "Сервер переедет на "
          else codes "Ядро останется ")
        ++ written plan.core
        ++ codes " "
        ++ written plan.minecraft
        ++ codes ".")
    ∷ (codes "Каталог "
        ++ written plan.replaces_dir
        ++ codes "/ будет очищен полностью — моды пака это весь список модов.")
    ∷ codes
        "Мир и настройки останутся. Отменить установку нельзя; если сомневаетесь, сделайте бэкап."
    ∷ []
    ∷ codes "Устанавливаем?"
    ∷ []

abbrev started_task : Text → Task
started_task id = record {
  id = id;
  kind = codes "modpack.install";
  server_id = none;
  status = running;
  progress = 0;
  error = none;
}

-- `if (started.task_id)`
unfoldable pub take_task : Option Text → Option Task → Option Task
take_task none task = task
take_task (some id) task = if is_empty id then task else some (started_task id)

unfoldable pub polled : Task → TaskStatus → Modpacks → Modpacks × List Job
polled latest done s = (
  record s {
    task = some latest;
    notice = some (codes "Модпак установлен. Можно запускать сервер.");
  },
  relist ∷ [],
)
polled latest failed s = (
  with_error (some (str (get_or_else latest.error (codes "Установка не удалась"))))
      (record s { task = some latest }),
  [],
)
polled latest status s = (record s { task = some latest }, [])

-- What follows a call that has succeeded; a confirmation is asked for behind a preview.
unfoldable pub succeed : (job : Job) → Reply job → Bool → Modpacks → Modpacks × List Job
unfolding take_task polled answered
succeed relist pack sure s = (record s { installed = pack }, [])
succeed (preview project) reply sure s =
    if sure
    then (s, install project (plan_of reply).version_id ∷ [])
    else (record s { busy = none }, [])
succeed (install project version_id) id sure s = (
  record s {
    task = take_task id s.task;
    notice = some (project.title ++ codes " устанавливается…");
    busy = none;
  },
  [],
)
succeed (poll id) latest sure s = polled latest latest.status s
succeed (search seq request) items sure s =
    (record s { box = answered seq (returned items) s.box }, [])

abbrev not_installed : Failure → Modpacks → Modpacks
not_installed e s = record (with_error (some (report e (codes "Установка не удалась"))) s) {
  busy = none;
}

-- A poll that fails changes nothing.
unfoldable pub fail : Job → Failure → Modpacks → Modpacks
unfolding answered
fail relist e s = with_error (some (report e (codes "Не удалось прочитать модпак"))) s
fail (preview project) e s = not_installed e s
fail (install project version_id) e s = not_installed e s
fail (poll id) e s = s
fail (search seq request) e s = record s { box = answered seq (threw e) s.box }

unfoldable pub settle : (job : Job) → Outcome (Reply job) → Bool → Modpacks → Modpacks × List Job
unfolding succeed fail
settle job (returned reply) sure s = succeed job reply sure s
settle job (threw e) sure s = (fail job e s, [])

-- The interval, which runs while a task is under way.
unfoldable pub poll_tick : Modpacks → Option Job
unfolding is_installing
poll_tick s = elim s.task [
  | none ↦ none
  | some task ↦ if is_installing (some task) then some (poll task.id) else none
]

-- The controls of the page.
pub data Event : Type 0 where
  install_pressed : (project : CatalogProject) → Event
  query_typed : Text → Event

unfoldable pub handle : Event → Modpacks → Modpacks × List Job
unfolding handle_install search_changed modpack_search
handle (install_pressed project) s = handle_install project s
handle (query_typed query) s =
    (record s { query = query; box = search_changed (modpack_search query) s.box }, [])

pub data Outside : Type 0 where
  opened search_due poll_due : Outside

abbrev pub request_job : Option Request → List Job
request_job none = []
request_job (some (seq, request)) = search seq request ∷ []

abbrev pub poll_job : Option Job → List Job
poll_job none = []
poll_job (some job) = job ∷ []

unfoldable pub happen : Outside → Modpacks → Modpacks × List Job
unfolding timer_fired poll_tick
happen opened s = (s, relist ∷ [])
happen search_due s =
    let (box, request) = timer_fired s.box in (record s { box = box }, request_job request)
happen poll_due s = (s, poll_job (poll_tick s))

unfoldable pub plural_files : ℕ → Text
plural_files count =
    if (count % 10) == 1 && not ((count % 100) == 11)
    then codes "файл"
    else if leb 2 (count % 10)
        && leb (count % 10) 4
        && (ltb (count % 100) 12 || ltb 14 (count % 100))
    then codes "файла"
    else codes "файлов"
