-- ===== src/FileManager.antt =====
-- web/src/pages/ServerFiles.tsx: the file manager of a server. Each handler is split at its calls:
-- what it does at once, with the calls that it starts, and what it does when a call has ended.
pub mod Paths
pub mod Navigation
pub mod Laws
pub mod View
pub mod Touched
pub mod Upward
use mirocraft.Prelude.{
  Bool, true, false, ℕ, List, [], ◌∷◌, ◌++◌, Option, none, some, not, length, ◌==◌, ◌===◌,
  if◌then◌else◌, Text, codes, is_empty, decimal,
}
use mirocraft.Pages.Report.{report, load_error}
use mirocraft.Api.Types.{FileEntry}
use mirocraft.Api.Json.{Json}
use mirocraft.Api.Http.{Outcome, returned, threw, Failure, UploadFile}
use mirocraft.Api.Endpoint.{Endpoint}
use mirocraft.Api.Files.{list_files, read_file, write_file, delete_file, move_path, make_directory}
use mirocraft.Api.Files
use mirocraft.FileManager.Paths.{clean, join, is_directory, is_editable}

pub record Editing : Type 0 where
  pub path : Text
  pub content : Text

pub record FileManager : Type 0 where
  pub dir : Text
  pub entries : List FileEntry
  pub loading : Bool
  pub error : Option Json
  pub notice : Option Text
  pub editing : Option Editing
  pub saving : Bool

-- A call of the API that the page waits for, with what the handler still needs. The directory is the
-- one that was shown when the handler ran.
pub data Job : Type 0 where
  load : (target : Text) → Job
  read : (path : Text) → Job
  write : (dir path content : Text) → Job
  download : (path : Text) → Job
  delete : (dir path : Text) → Job
  move : (dir path to : Text) → Job
  mkdir : (dir path : Text) → Job
  upload : (dir : Text) → (total : ℕ) → (file : UploadFile) → (left : List UploadFile) → Job
  unarchive : (dir path name destination : Text) → Job

-- The function of the client that a job calls; an upload and a download are calls of their own,
-- `upload_file` and `download_file`.
unfoldable pub endpoint_of : Text → Job → Option Endpoint
endpoint_of id (load target) = some (list_files id target)
endpoint_of id (read path) = some (read_file id path)
endpoint_of id (write dir path content) = some (write_file id path content)
endpoint_of id (delete dir path) = some (delete_file id path)
endpoint_of id (move dir path to) = some (move_path id path to)
endpoint_of id (mkdir dir path) = some (make_directory id path)
endpoint_of id (unarchive dir path name destination) = some (Files.unarchive id path destination)
endpoint_of id other = none

-- What the call of a job gives: entries for a listing, a text for a file, nothing of use for the
-- rest.
abbrev pub Reply : Job → Type 0
Reply (load target) = List FileEntry
Reply (read path) = Text
Reply job = Unit

-- Directories come first, then names in their Russian order, which is the browser's.
module _ (collate : Text → Text → Bool) where
  abbrev pub precedes : FileEntry → FileEntry → Bool
  precedes a b =
      if is_directory a
      then (if is_directory b then collate a.name b.name else true)
      else (if is_directory b then false else collate a.name b.name)

  -- `sort` keeps the order of what compares equal.
  unfoldable pub put_in : FileEntry → List FileEntry → List FileEntry
  put_in x [] = x ∷ []
  put_in x (y ∷ ys) = let rest = put_in x ys in if precedes x y then x ∷ y ∷ ys else y ∷ rest

  unfoldable pub sort_entries : List FileEntry → List FileEntry
  unfolding put_in
  sort_entries [] = []
  sort_entries (x ∷ xs) = put_in x (sort_entries xs)

-- `load` up to its call.
unfoldable pub start_load : Text → FileManager → FileManager × List Job
unfolding clean
start_load target s = (record s { loading = true; error = none }, load (clean target) ∷ [])

abbrev start : Job → FileManager → FileManager × List Job
start job s = (record s { error = none }, job ∷ [])

abbrev idle : FileManager → FileManager × List Job
idle s = (s, [])

unfoldable pub handle_download : FileEntry → FileManager → FileManager × List Job
handle_download e s = start (download e.path) s

unfoldable pub open_entry : FileEntry → FileManager → FileManager × List Job
unfolding start_load handle_download
open_entry e s =
    if is_directory e
    then start_load e.path s
    else if not (is_editable e)
    then handle_download e s
    else start (read e.path) s

unfoldable pub save : Option Editing → FileManager → FileManager × List Job
save none s = idle s
save (some e) s = (record s { saving = true; error = none }, write s.dir e.path e.content ∷ [])

unfoldable pub handle_save : FileManager → FileManager × List Job
unfolding save
handle_save s = save s.editing s

-- `window.confirm`
unfoldable pub handle_delete : FileEntry → Bool → FileManager → FileManager × List Job
handle_delete e sure s = if sure then start (delete s.dir e.path) s else idle s

-- `window.prompt`, which gives nothing when it is cancelled.
unfoldable pub handle_rename : FileEntry → Option Text → FileManager → FileManager × List Job
unfolding join
handle_rename e none s = idle s
handle_rename e (some name) s =
    if is_empty name
    then idle s
    else if name === e.name
    then idle s
    else start (move s.dir e.path (join s.dir name)) s

unfoldable pub handle_mkdir : Option Text → FileManager → FileManager × List Job
unfolding join
handle_mkdir none s = idle s
handle_mkdir (some name) s =
    if is_empty name then idle s else start (mkdir s.dir (join s.dir name)) s

unfoldable pub handle_upload : List UploadFile → FileManager → FileManager × List Job
handle_upload [] s = idle s
handle_upload (file ∷ left) s =
    (record s { error = none; notice = none }, upload s.dir (length (file ∷ left)) file left ∷ [])

unfoldable pub handle_unarchive : FileEntry → Option Text → FileManager → FileManager × List Job
handle_unarchive e none s = idle s
handle_unarchive e (some destination) s = start (unarchive s.dir e.path e.name destination) s

abbrev uploaded : ℕ → Text
uploaded total =
    if total == 1 then codes "Файл загружен" else codes "Загружено файлов: " ++ decimal total

abbrev noted : Text → Text → FileManager → FileManager × List Job
noted dir notice s = start_load dir (record s { notice = some notice })

-- What follows a call that has succeeded.
unfoldable pub succeed :
    (Text → Text → Bool) → (job : Job) → Reply job → FileManager → FileManager × List Job
unfolding sort_entries start_load
succeed collate (load target) items s =
    idle (record s { entries = sort_entries collate items; dir = target; loading = false })
succeed collate (read path) text s =
    idle (record s { editing = some (record { path = path; content = text }) })
succeed collate (write dir path text) reply s =
    start_load dir
      (record s { notice = some (path ++ codes " сохранён"); editing = none; saving = false })
succeed collate (download path) reply s = idle s
succeed collate (delete dir path) reply s = start_load dir s
succeed collate (move dir path to) reply s = start_load dir s
succeed collate (mkdir dir path) reply s = start_load dir s
succeed collate (upload dir total file []) reply s = noted dir (uploaded total) s
succeed collate (upload dir total file (next ∷ left)) reply s = (s, upload dir total next left ∷ [])
succeed collate (unarchive dir path name to) reply s = noted dir (name ++ codes " распакован") s

-- What follows a call that has failed.
unfoldable pub fail : (Failure → Text) → Job → Failure → FileManager → FileManager
fail message (load target) e s = record s { error = some (load_error message e); loading = false }
fail message (read path) e s = record s {
  error = some (report e (codes "Не удалось открыть файл"));
}
fail message (write dir path text) e s = record s {
  error = some (report e (codes "Не удалось сохранить файл"));
  saving = false;
}
fail message (download path) e s = record s {
  error = some (report e (codes "Не удалось скачать файл"));
}
fail message (delete dir path) e s = record s {
  error = some (report e (codes "Не удалось удалить"));
}
fail message (move dir path to) e s = record s {
  error = some (report e (codes "Не удалось переименовать"));
}
fail message (mkdir dir path) e s = record s {
  error = some (report e (codes "Не удалось создать каталог"));
}
fail message (upload dir total file left) e s = record s {
  error = some (report e (codes "Не удалось загрузить"));
}
fail message (unarchive dir path name to) e s = record s {
  error = some (report e (codes "Не удалось распаковать"));
}

unfoldable pub settle :
    (Text → Text → Bool)
    → (Failure → Text)
    → (job : Job) → Outcome (Reply job)
    → FileManager
    → FileManager × List Job
unfolding succeed fail
settle collate message job (returned reply) s = succeed collate job reply s
settle collate message job (threw e) s = (fail message job e s, [])

-- What the user does on the page, and the calls that end, in any order.
pub data Event : Type 0 where
  navigated : (target : Text) → Event
  opened downloaded : FileEntry → Event
  edited : (content : Text) → Event
  cancelled saved : Event
  deleted : FileEntry → (sure : Bool) → Event
  renamed unpacked : FileEntry → Option Text → Event
  made : Option Text → Event
  picked : List UploadFile → Event
  ended : (job : Job) → Outcome (Reply job) → Event

abbrev retype : Text → Option Editing → Option Editing
retype text none = none
retype text (some e) = some (record e { content = text })

module _ (collate : Text → Text → Bool) (message : Failure → Text) where
  unfoldable pub step : Event → FileManager → FileManager × List Job
  unfolding start_load open_entry handle_download handle_save handle_delete handle_rename
      handle_mkdir handle_upload handle_unarchive settle
  step (navigated target) s = start_load target s
  step (opened e) s = open_entry e s
  step (downloaded e) s = handle_download e s
  step (edited text) s = idle (record s { editing = retype text s.editing })
  step cancelled s = idle (record s { editing = none })
  step saved s = handle_save s
  step (deleted e sure) s = handle_delete e sure s
  step (renamed e name) s = handle_rename e name s
  step (unpacked e destination) s = handle_unarchive e destination s
  step (made name) s = handle_mkdir name s
  step (picked files) s = handle_upload files s
  step (ended job outcome) s = settle collate message job outcome s
