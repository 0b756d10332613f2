-- ===== src/FileManager/View.antt =====
-- web/src/pages/ServerFiles.tsx: what the file manager shows.
use mirocraft.Prelude.{
  ℕ, Bool, false, not, ◌&&◌, List, [], ◌++◌, Option, none, some, get_or_else, length, ◌==◌,
  if◌then◌else◌, Text, codes, is_empty, split, last?,
}
use mirocraft.Api.Types.{FileEntry}
use mirocraft.Pages.Ui.{
  View, ◌⊕◌, text, raw, button, input, files, when, when_error, each, notice_view,
}
use mirocraft.FileManager.Paths.{
  clean, parent_of, is_directory, is_archive, format_size, join_parts, prefixes,
}
use mirocraft.FileManager.{
  FileManager, Editing, Event, navigated, opened, downloaded, edited, cancelled, saved, deleted,
  renamed, unpacked, made, picked,
}

-- The button of a breadcrumb, for the parts up to it.
unfoldable pub crumb_view : (count : ℕ) → List Text → View Event
unfolding join_parts last?
crumb_view count parts =
    button (get_or_else (last? parts) []) false (λ x. navigated (join_parts parts))
    ⊕ when (not (length parts == count)) (text (codes "/"))

-- `Breadcrumbs`
abbrev parts_of : Text → List Text
parts_of dir = if is_empty (clean dir) then [] else split b'/' (clean dir)

unfoldable pub breadcrumbs_view : Text → View Event
unfolding prefixes
breadcrumbs_view dir =
    button (codes "/") false (λ x. navigated [])
    ⊕ each (crumb_view (length (parts_of dir))) (prefixes (parts_of dir))

-- `Editor`
unfoldable pub editor_view : (saving : Bool) → Editing → View Event
editor_view saving e =
    text e.path
    ⊕ button (codes "Отмена") saving (λ x. cancelled)
    ⊕ button (if saving then codes "Сохранение…" else codes "Сохранить") saving (λ x. saved)
    ⊕ input e.content false (λ t. edited t)

-- How the browser writes a date is a parameter.
module _ (format_date : Text → Text) where
  unfoldable pub entry_view : FileEntry → View Event
  entry_view e =
      button ((if is_directory e then codes "📁 " else codes "📄 ") ++ e.name) false (λ x. opened e)
      ⊕ text (if is_directory e then codes "—" else format_size e.size)
      ⊕ text (format_date e.modified_at)
      ⊕ when (is_archive e) (button (codes "Распаковать") false (λ x. unpacked e x.typed))
      ⊕ when (not (is_directory e)) (button (codes "Скачать") false (λ x. downloaded e))
      ⊕ button (codes "Переименовать") false (λ x. renamed e x.typed)
      ⊕ button (codes "Удалить") false (λ x. deleted e x.sure)

  unfoldable pub table_view : FileManager → View Event
  table_view s =
      text (codes "Имя")
      ⊕ text (codes "Размер")
      ⊕ text (codes "Изменён")
      ⊕ when (not (is_empty s.dir))
          (button (codes "↑ наверх") false (λ x. navigated (parent_of s.dir)))
      ⊕ when s.loading (text (codes "Загрузка…"))
      ⊕ when (not s.loading && length s.entries == 0) (text (codes "Каталог пуст"))
      ⊕ when (not s.loading) (each entry_view s.entries)

  unfoldable pub main_view : FileManager → Option Editing → View Event
  main_view s none = table_view s
  main_view s (some e) = editor_view s.saving e

  unfoldable pub view : FileManager → View Event
  view s =
      breadcrumbs_view s.dir
      ⊕ button (codes "Новый каталог") false (λ x. made x.typed)
      ⊕ files (codes "Загрузить") (λ list. picked list)
      ⊕ when_error s.error (λ message. raw message)
      ⊕ notice_view s.error s.notice
      ⊕ main_view s s.editing
