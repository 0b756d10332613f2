-- ===== src/FileManager/Laws.antt =====
-- web/src/pages/ServerFiles.tsx: the entries on the page and the directory that it names.
pub mod Order
pub mod Uploads
use mirocraft.Prelude.{
  ◌≡◌, ap, inl, inr, Bool, true, false, List, [], ◌∷◌, Option, none, some, Text, is_empty, ◌===◌,
  Bool-cases,
}
use mirocraft.Api.Types.{FileEntry}
use mirocraft.Api.Http.{Failure, returned, threw, UploadFile}
use mirocraft.FileManager.Paths.{is_directory, is_editable}
use mirocraft.FileManager.{
  FileManager, Editing, Job, load, read, write, download, delete, move, mkdir, upload, unarchive,
  Reply, sort_entries, start_load, handle_download, open_entry, handle_save, save, handle_delete,
  handle_rename, handle_mkdir, handle_upload, handle_unarchive, succeed, fail, settle, Event,
  navigated, opened, downloaded, edited, cancelled, saved, deleted, renamed, unpacked, made, picked,
  ended, step,
}

module _ (collate : Text → Text → Bool) (served : Text → List FileEntry) where
  -- The entries are those of the directory that is named above them.
  abbrev pub Shows : FileManager → Type 0
  Shows s = s.entries ≡ sort_entries collate (served s.dir)

  -- The server lists a directory as it is.
  abbrev pub Serves : Event → Type 0
  Serves (ended (load target) (returned items)) = items ≡ served target
  Serves other = Unit

  start_load-Shows : (target : Text) (s : FileManager) → Shows s → Shows (start_load target s).0
  unfolding start_load
  start_load-Shows target s shows = shows

  open_entry-Shows : (e : FileEntry) (s : FileManager) → Shows s → Shows (open_entry e s).0
  unfolding open_entry start_load handle_download
  open_entry-Shows e s shows = elim (Bool-cases (is_directory e)) [
    | inl dir ↦ rw dir shows
    | inr file ↦ rw file (elim (Bool-cases (is_editable e)) [
      | inl text ↦ rw text shows
      | inr other ↦ rw other shows
    ])
  ]

  save-Shows : (e : Option Editing) (s : FileManager) → Shows s → Shows (save e s).0
  unfolding save
  save-Shows none s shows = shows
  save-Shows (some e) s shows = shows

  handle_delete-Shows :
      (e : FileEntry) (sure : Bool) (s : FileManager) → Shows s → Shows (handle_delete e sure s).0
  unfolding handle_delete
  handle_delete-Shows e true s shows = shows
  handle_delete-Shows e false s shows = shows

  handle_rename-Shows :
      (e : FileEntry) (name : Option Text) (s : FileManager)
      → Shows s
      → Shows (handle_rename e name s).0
  unfolding handle_rename
  handle_rename-Shows e none s shows = shows
  handle_rename-Shows e (some name) s shows = elim (Bool-cases (is_empty name)) [
    | inl blank ↦ rw blank shows
    | inr given ↦
        rw given (elim (Bool-cases (name === e.name)) [
          | inl same ↦ rw same shows
          | inr new ↦ rw new shows
        ])
  ]

  handle_mkdir-Shows :
      (name : Option Text) (s : FileManager) → Shows s → Shows (handle_mkdir name s).0
  unfolding handle_mkdir
  handle_mkdir-Shows none s shows = shows
  handle_mkdir-Shows (some name) s shows = elim (Bool-cases (is_empty name)) [
    | inl blank ↦ rw blank shows
    | inr given ↦ rw given shows
  ]

  handle_upload-Shows :
      (files : List UploadFile) (s : FileManager) → Shows s → Shows (handle_upload files s).0
  unfolding handle_upload
  handle_upload-Shows [] s shows = shows
  handle_upload-Shows (file ∷ left) s shows = shows

  handle_unarchive-Shows :
      (e : FileEntry) (to : Option Text) (s : FileManager)
      → Shows s
      → Shows (handle_unarchive e to s).0
  unfolding handle_unarchive
  handle_unarchive-Shows e none s shows = shows
  handle_unarchive-Shows e (some to) s shows = shows

  module _ (message : Failure → Text) where
    fail-Shows :
        (job : Job) (e : Failure) (s : FileManager) → Shows s → Shows (fail message job e s)
    unfolding fail
    fail-Shows (load target) e s shows = shows
    fail-Shows (read path) e s shows = shows
    fail-Shows (write dir path text) e s shows = shows
    fail-Shows (download path) e s shows = shows
    fail-Shows (delete dir path) e s shows = shows
    fail-Shows (move dir path to) e s shows = shows
    fail-Shows (mkdir dir path) e s shows = shows
    fail-Shows (upload dir total file left) e s shows = shows
    fail-Shows (unarchive dir path name to) e s shows = shows

    succeed-Shows :
        (job : Job) (reply : Reply job) (s : FileManager)
        → Serves (ended job (returned reply))
        → Shows s
        → Shows (succeed collate job reply s).0
    unfolding succeed start_load
    succeed-Shows (load target) items s serves shows = ap (sort_entries collate) serves
    succeed-Shows (read path) text s serves shows = shows
    succeed-Shows (write dir path text) reply s serves shows = shows
    succeed-Shows (download path) reply s serves shows = shows
    succeed-Shows (delete dir path) reply s serves shows = shows
    succeed-Shows (move dir path to) reply s serves shows = shows
    succeed-Shows (mkdir dir path) reply s serves shows = shows
    succeed-Shows (upload dir total file []) reply s serves shows = shows
    succeed-Shows (upload dir total file (next ∷ left)) reply s serves shows = shows
    succeed-Shows (unarchive dir path name to) reply s serves shows = shows

    -- If the entries on the page are the sorted listing of the directory that the page names, they
    -- are so after any event, whatever the user does and in whatever order the calls end, as long
    -- as the server answers a listing with what the directory holds.
    pub step-Shows :
        (event : Event) (s : FileManager)
        → Serves event
        → Shows s
        → Shows (step collate message event s).0
    unfolding step start_load handle_download handle_save settle
    step-Shows (navigated target) s serves shows = shows
    step-Shows (opened e) s serves shows = open_entry-Shows e s shows
    step-Shows (downloaded e) s serves shows = shows
    step-Shows (edited text) s serves shows = shows
    step-Shows cancelled s serves shows = shows
    step-Shows saved s serves shows = save-Shows s.editing s shows
    step-Shows (deleted e sure) s serves shows = handle_delete-Shows e sure s shows
    step-Shows (renamed e name) s serves shows = handle_rename-Shows e name s shows
    step-Shows (unpacked e to) s serves shows = handle_unarchive-Shows e to s shows
    step-Shows (made name) s serves shows = handle_mkdir-Shows name s shows
    step-Shows (picked files) s serves shows = handle_upload-Shows files s shows
    step-Shows (ended job (returned reply)) s serves shows = succeed-Shows job reply s serves shows
    step-Shows (ended job (threw e)) s serves shows = fail-Shows job e s shows
