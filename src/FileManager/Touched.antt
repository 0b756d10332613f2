-- ===== src/FileManager/Touched.antt =====
-- web/src/pages/ServerFiles.tsx: what the calls that the page starts are about.
use mirocraft.Prelude.{
  ◌++◌, ◌≡◌, refl, inl, inr, Bool, true, false, List, [], ◌∷◌, Option, none, some, any, All, ◌===◌,
  ===_refl, Bool-cases, Text, is_empty, arith,
}
use mirocraft.Api.Types.{FileEntry}
use mirocraft.Api.Http.{Failure, UploadFile}
use mirocraft.Pages.Ui.{
  Offers, Only, Only-Offers, both, a_text, a_raw, a_button, an_input, a_picker, Only-when,
  Only-when_error, Only-each, Only-each_All, Only-notice,
}
use mirocraft.FileManager.Paths.{join, is_directory, is_editable, parent_of, join_parts}
use mirocraft.FileManager.{
  downloaded, saved, FileManager, Editing, Job, load, read, write, download, delete, move, mkdir,
  upload, unarchive, Event, navigated, opened, deleted, renamed, unpacked, made, picked, start_load,
  handle_download, open_entry, handle_save, save, handle_delete, handle_rename, handle_mkdir,
  handle_upload, handle_unarchive, step,
}
use mirocraft.FileManager.View.{
  crumb_view, breadcrumbs_view, editor_view, entry_view, table_view, main_view, view,
}

-- One of the entries has the path.
abbrev pub Listed : List FileEntry → Text → Type 0
Listed entries path = any (λ (e : FileEntry). e.path === path) entries ≡ true

-- The path of a name in a directory, without a slash in front.
abbrev pub child : Text → Text → Text
child [] name = name
child (c ∷ dir) name = (c ∷ dir) ++ b'/' ∷ name

pub join-child : (dir name : Text) → join dir name ≡ child dir name
unfolding join
join-child [] name = refl
join-child (c ∷ dir) name = refl

-- The path of the entry whose button was pressed, what was typed into the dialog, whether the
-- question was answered with yes, and the files that were picked.
abbrev pub path_in : Event → Text
path_in (opened e) = e.path
path_in (downloaded e) = e.path
path_in (deleted e sure) = e.path
path_in (renamed e name) = e.path
path_in (unpacked e destination) = e.path
path_in event = []

abbrev pub answer_in : Event → Option Text
answer_in (renamed e name) = name
answer_in (unpacked e destination) = destination
answer_in (made name) = name
answer_in event = none

abbrev pub is_sure : Event → Bool
is_sure (deleted e sure) = sure
is_sure event = false

abbrev pub files_in : Event → List UploadFile
files_in (picked files) = files
files_in event = []

abbrev pub IsOf : FileManager → Event → Text → Type 0
IsOf s event path = (path ≡ path_in event) × Listed s.entries path

-- What may be touched: the listed entry whose button was pressed, a new name in the directory that
-- is shown, and the file that is edited, with the content that is shown. The page then lists the
-- directory that is shown.
abbrev pub Touches : FileManager → Event → Job → Type 0
Touches s event (load target) = Unit
Touches s event (read path) = IsOf s event path
Touches s event (download path) = IsOf s event path
Touches s event (write dir path content) =
    (dir ≡ s.dir) × (s.editing ≡ some (record { path = path; content = content }))
Touches s event (delete dir path) = (dir ≡ s.dir) × IsOf s event path × (is_sure event ≡ true)
Touches s event (move dir path to) =
    (dir ≡ s.dir)
    × IsOf s event path
    × (name : Text) × (answer_in event ≡ some name)
    × (to ≡ child s.dir name)
Touches s event (mkdir dir path) =
    (dir ≡ s.dir) × (name : Text) × (answer_in event ≡ some name) × (path ≡ child s.dir name)
Touches s event (upload dir total file left) = (dir ≡ s.dir) × (files_in event ≡ file ∷ left)
Touches s event (unarchive dir path name destination) =
    (dir ≡ s.dir) × IsOf s event path × (answer_in event ≡ some destination)

Listed-later :
    (x : FileEntry) (entries es : List FileEntry)
    → All (λ e. Listed entries e.path) es
    → All (λ e. Listed (x ∷ entries) e.path) es
Listed-later x entries [] h = tt
Listed-later x entries (e ∷ es) (h, k) = (ground arith, Listed-later x entries es k)

Listed-self : (entries : List FileEntry) → All (λ e. Listed entries e.path) entries
Listed-self [] = tt
Listed-self (e ∷ es) = (rw (===_refl e.path) refl, Listed-later e es es (Listed-self es))

module _ (collate : Text → Text → Bool) (message : Failure → Text) (s : FileManager) where
  abbrev Spared : Event → Type 0
  Spared event = All (Touches s event) (step collate message event s).1

  opened-Spared : (e : FileEntry) → Listed s.entries e.path → Spared (opened e)
  unfolding step open_entry start_load handle_download
  opened-Spared e listed = elim (Bool-cases (is_directory e)) [
    | inl dir ↦ rw dir (tt, tt)
    | inr file ↦ rw file (elim (Bool-cases (is_editable e)) [
      | inl plain ↦ rw plain ((refl, listed), tt)
      | inr other ↦ rw other ((refl, listed), tt)
    ])
  ]

  unpacked-Spared :
      (e : FileEntry) (to : Option Text) → Listed s.entries e.path → Spared (unpacked e to)
  unfolding step handle_unarchive
  unpacked-Spared e none listed = tt
  unpacked-Spared e (some to) listed = ((refl, (refl, listed), refl), tt)

  renamed-Spared :
      (e : FileEntry) (name : Option Text) → Listed s.entries e.path → Spared (renamed e name)
  unfolding step handle_rename
  renamed-Spared e none listed = tt
  renamed-Spared e (some name) listed = elim (Bool-cases (is_empty name)) [
    | inl blank ↦ rw blank tt
    | inr given ↦ rw given (elim (Bool-cases (name === e.name)) [
      | inl same ↦ rw same tt
      | inr new ↦ rw new ((refl, (refl, listed), name, refl, join-child s.dir name), tt)
    ])
  ]

  deleted-Spared : (e : FileEntry) (sure : Bool) → Listed s.entries e.path → Spared (deleted e sure)
  unfolding step handle_delete
  deleted-Spared e true listed = ((refl, (refl, listed), refl), tt)
  deleted-Spared e false listed = tt

  made-Spared : (name : Option Text) → Spared (made name)
  unfolding step handle_mkdir
  made-Spared none = tt
  made-Spared (some name) = elim (Bool-cases (is_empty name)) [
    | inl blank ↦ rw blank tt
    | inr given ↦ rw given ((refl, name, refl, join-child s.dir name), tt)
  ]

  picked-Spared : (list : List UploadFile) → Spared (picked list)
  unfolding step handle_upload
  picked-Spared [] = tt
  picked-Spared (file ∷ left) = ((refl, refl), tt)

  saved-Spared : (o : Option Editing) → s.editing ≡ o → All (Touches s saved) (save o s).1
  unfolding save
  saved-Spared none e = tt
  saved-Spared (some editing) e = ((refl, e), tt)

  navigated-Spared : (target : Text) → Spared (navigated target)
  unfolding step start_load
  navigated-Spared target = (tt, tt)

  module _ (format_date : Text → Text) where
    entry-Spared :
        (e : FileEntry) → Listed s.entries e.path → Only Spared (entry_view format_date e)
    unfolding entry_view step handle_download
    entry-Spared e listed = both (a_button (λ free x. opened-Spared e listed)) (
        both a_text (
          both a_text (
            both (Only-when _ (a_button (λ free x. unpacked-Spared e x.typed listed))) (
              both (Only-when _ (a_button (λ free x. ((refl, listed), tt)))) (
                both (a_button (λ free x. renamed-Spared e x.typed listed))
                  (a_button (λ free x. deleted-Spared e x.sure listed)))))))

    main-Spared : (o : Option Editing) → s.editing ≡ o → Only Spared (main_view format_date s o)
    unfolding main_view table_view editor_view step handle_save
    main-Spared none e = both a_text (
        both a_text (
          both a_text (
            both (Only-when _ (a_button (λ free x. navigated-Spared (parent_of s.dir)))) (
              both (Only-when _ a_text) (
                both (Only-when _ a_text) (
                  Only-when _ (
                    Only-each_All (entry_view format_date) s.entries (Listed-self s.entries)
                      entry-Spared)))))))
    main-Spared (some editing) e = both a_text (
        both (a_button (λ free x. tt))
          (both (a_button (λ free x. saved-Spared s.editing refl)) (an_input (λ free t. tt))))

    view-Spared : Only Spared (view format_date s)
    unfolding view breadcrumbs_view crumb_view
    view-Spared =
        both
          (both (a_button (λ free x. navigated-Spared [])) (
            Only-each _ _ (λ parts.
              both (a_button (λ free x. navigated-Spared (join_parts parts)))
                (Only-when _ a_text))))
          (both (a_button (λ free x. made-Spared x.typed)) (
            both (a_picker picked-Spared) (
              both (Only-when_error s.error _ (λ j. a_raw))
                (both (Only-notice s.error s.notice) (main-Spared s.editing refl)))))

    -- In any state, what the page offers starts only calls that read, download, delete, rename or
    -- unpack the listed entry whose button was pressed, that make a directory or give a new name, as
    -- it was typed and in the directory that is shown, that send the first of the files that were
    -- picked, with the others to follow, to that directory, or that write the file that is edited,
    -- with its content; or that list a directory. An entry is deleted only after a yes.
    pub offered-Touches :
        (event : Event)
        → Offers event (view format_date s)
        → All (Touches s event) (step collate message event s).1
    offered-Touches event offer = Only-Offers Spared view-Spared offer
