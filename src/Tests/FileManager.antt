-- ===== src/Tests/FileManager.antt =====
-- The file manager at concrete inputs.
use mirocraft.Prelude.{
  ◌≡◌, refl, inl, inr, All, ℕ, Bool, true, false, List, [], ◌∷◌, length, none, Text, codes, Lacks,
  is_empty, ltb, arith, decimal, ◌===◌, if◌then◌else◌,
}
use mirocraft.Api.Types.{FileType, FileEntry, file, directory}
use mirocraft.Api.Http.{Failure, returned, UploadFile}
use mirocraft.FileManager.Paths.{clean, join, parent_of, format_size, is_editable, is_archive}
use mirocraft.Pages.Ui.{Offers, when, when_error, each, notice_view}
use mirocraft.FileManager.View.{view, breadcrumbs_view, main_view, table_view, entry_view}
use mirocraft.FileManager.Touched.{Touches, offered-Touches}
use mirocraft.FileManager.{
  deleted, FileManager, load, Event, ended, step, sort_entries, handle_upload,
}
use mirocraft.FileManager.Laws.{Shows, step-Shows}
use mirocraft.FileManager.Laws.Order.{IsSortOf, sort_entries-IsSortOf}
use mirocraft.FileManager.Laws.Uploads.{follow, follow-handle_upload}
use mirocraft.FileManager.Upward.{LeadsBack, opened-LeadsBack}
use mirocraft.FileManager.Navigation.{parent_of-join}

abbrev entry : Text → FileType → ℕ → FileEntry
entry name type size = record {
  name = name;
  path = name;
  type = type;
  size = size;
  mode = codes "0644";
  modified_at = codes "2025-01-01";
}

abbrev items : List FileEntry
items = entry (codes "eula.txt") file 158 ∷ entry (codes "plugins") directory 0 ∷ []

-- An order by length, which compares any two names.
abbrev collate : Text → Text → Bool
collate a b = if ltb (length b) (length a) then false else true

collate-total : (a b : Text) → collate a b ≡ false → collate b a ≡ true
collate-total a b h = ground arith

abbrev messages : Failure → Text
messages e = codes "Failed to fetch"

abbrev served : Text → List FileEntry
served target = items

abbrev page : FileManager
page = record {
  dir = [];
  entries = sort_entries collate items;
  loading = true;
  error = none;
  notice = none;
  editing = none;
  saving = false;
}

abbrev arrival : Event
arrival = ended (load (codes "world")) (returned items)

step-Shows_example : Shows collate served (step collate messages arrival page).0
step-Shows_example = step-Shows collate served messages arrival page refl refl

sort_entries-IsSortOf_example : IsSortOf collate items (sort_entries collate items)
sort_entries-IsSortOf_example = sort_entries-IsSortOf collate collate-total items

abbrev jar : Text → UploadFile
jar name = record { name = name; content = [] }

follow-handle_upload_example :
    follow
      (length (jar (codes "a.jar") ∷ jar (codes "b.jar") ∷ []))
      collate
      (handle_upload (jar (codes "a.jar") ∷ jar (codes "b.jar") ∷ []) page).1
      (handle_upload (jar (codes "a.jar") ∷ jar (codes "b.jar") ∷ []) page).0
    ≡ (jar (codes "a.jar") ∷ jar (codes "b.jar") ∷ [], load (clean []) ∷ [])
follow-handle_upload_example =
    follow-handle_upload collate (jar (codes "a.jar")) (jar (codes "b.jar") ∷ []) page

name-Lacks : Lacks b'/' (codes "region")
unfolding codes
name-Lacks = omega arith

up_from_region : parent_of (join (clean (codes "/world")) (codes "region")) ≡ clean (codes "/world")
up_from_region = parent_of-join (codes "/world") (codes "region") name-Lacks

abbrev at_world : FileManager
at_world = record page { dir = codes "world"; loading = false; entries = [] }

abbrev region : FileEntry
region = record (entry (codes "region") directory 0) { path = codes "/world/region" }

opened-LeadsBack_example :
    LeadsBack collate messages (λ date. date) at_world region (codes "region") items
unfolding codes clean
opened-LeadsBack_example =
    opened-LeadsBack collate messages (λ date. date) at_world region (codes "region") items refl
      refl refl refl name-Lacks refl

below : is_empty (clean (codes "/world/region")) ≡ false
unfolding clean codes
below = refl

format_size_at_megabytes : format_size 1572864 ≡ codes "1.5 МБ"
unfolding format_size decimal codes
format_size_at_megabytes = refl

is_editable_at_dotless : is_editable (entry (codes "ops") file 12) ≡ true
unfolding is_editable codes
is_editable_at_dotless = refl

is_archive_at_tgz : is_archive (entry (codes "World.TGZ") file 12) ≡ true
unfolding is_archive codes ◌===◌
is_archive_at_tgz = refl

abbrev shown : FileManager
shown = record page { loading = false; entries = items }

abbrev eula : FileEntry
eula = entry (codes "eula.txt") file 158

abbrev deletion : Event
deletion = deleted eula true

deletion_offered : Offers deletion (view (λ date. date) shown)
unfolding view breadcrumbs_view main_view table_view entry_view Offers when when_error each
    notice_view
deletion_offered = inr (
    inr (
      inr (
        inr (
          inr (
            inr (
              inr (
                inr (
                  inr (
                    inr (
                      inr (
                        inl (
                          inr (
                            inr (
                              inr (
                                inr (
                                  inr (
                                    inr (
                                      refl,
                                      record { typed = none; sure = true },
                                      refl,
                                    ))))))))))))))))))

offered-Touches_example : All (Touches shown deletion) (step collate messages deletion shown).1
offered-Touches_example =
    offered-Touches collate messages shown (λ date. date) deletion deletion_offered
