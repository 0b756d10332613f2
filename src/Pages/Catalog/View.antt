-- ===== src/Pages/Catalog/View.antt =====
-- web/src/pages/ServerCatalog.tsx: what the page shows.
use mirocraft.Prelude.{
  ℕ, Bool, true, false, not, List, [], ◌∷◌, ◌++◌, Option, none, some, any, length, ◌==◌, ◌===◌,
  if◌then◌else◌, Text, codes, is_empty, decimal,
}
use mirocraft.Api.Catalog.{CatalogProject, InstalledAddon, ServerContent}
use mirocraft.Pages.Ui.{
  View, ◌⊕◌, text, raw, button, input, when, either, when_some, when_error, each, given,
  notice_view,
}
use mirocraft.Pages.Catalog.{
  Catalog, Event, install_pressed, toggle_pressed, delete_pressed, query_typed, format_downloads,
  format_size_mb,
}

abbrev pub is_busy : Option Text → Bool
is_busy none = false
is_busy (some what) = true

-- `busy === name`
abbrev is_busy_with : Option Text → Text → Bool
is_busy_with none name = false
is_busy_with (some what) name = what === name

abbrev loader_of : Option ServerContent → Text
loader_of none = []
loader_of (some content) = content.loader

abbrev version_of : Option ServerContent → Text
version_of none = []
version_of (some content) = content.version

-- A core that loads nothing.
unfoldable pub has_no_loader : Option ServerContent → Bool
has_no_loader none = false
has_no_loader (some content) = is_empty content.loader

unfoldable pub content_view : ServerContent → View Event
content_view content =
    text
      (content.loader ++ codes " · " ++ content.version ++ codes " · " ++ content.dir ++ codes "/")

-- The browser's: `toFixed`, and how it lowers letters.
module _ (to_fixed : ℕ → ℕ → ℕ → Text) (lower : Text → Text) where
  -- `installedNames.has(title.toLowerCase())`
  unfoldable pub is_installed : List InstalledAddon → Text → Bool
  is_installed installed title =
      any (λ (a : InstalledAddon). lower a.name === lower title) installed

  abbrev install_label : Catalog → CatalogProject → Text
  install_label s project =
      if is_busy_with s.busy project.id
      then codes "…"
      else if is_installed s.installed project.title
      then codes "Переустановить"
      else codes "Установить"

  unfoldable pub hit_view : Catalog → CatalogProject → View Event
  hit_view s project =
      text project.title
      ⊕ text (format_downloads to_fixed project.downloads ++ codes " загрузок")
      ⊕ when_some (given project.license) (λ license. text license)
      ⊕ text project.description
      ⊕ button (install_label s project) (is_busy s.busy) (λ x. install_pressed project)

  unfoldable pub hits_view : Catalog → Option (List CatalogProject) → View Event
  hits_view s none =
      text (codes "Введите хотя бы два символа. Ищем только то, что подходит этому серверу.")
  hits_view s (some []) =
      text
        (codes "Ничего не найдено для " ++ loader_of s.content ++ codes " " ++ version_of s.content)
  hits_view s (some (hit ∷ hits)) = each (hit_view s) (hit ∷ hits)

  unfoldable pub addon_view : Option Text → InstalledAddon → View Event
  addon_view busy addon =
      text addon.name
      ⊕ when (not addon.enabled) (text (codes "выключен"))
      ⊕ text (format_size_mb to_fixed addon.size_bytes)
      ⊕ button (if addon.enabled then codes "Выключить" else codes "Включить") (is_busy busy)
          (λ x. toggle_pressed addon)
      ⊕ button (codes "Удалить") (is_busy busy) (λ x. delete_pressed addon x.sure)

  unfoldable pub lists_view : Catalog → View Event
  lists_view s =
      when_error s.box.error (λ message. raw message)
      ⊕ notice_view s.box.error s.notice
      ⊕ text (codes "Поиск дополнений")
      ⊕ input s.query false (λ query. query_typed query)
      ⊕ when_some s.content content_view
      ⊕ when s.box.searching (text (codes "ищем…"))
      ⊕ hits_view s s.box.hits
      ⊕ text (codes "Установлено (" ++ decimal (length s.installed) ++ codes ")")
      ⊕ either (length s.installed == 0) (text (codes "Пока ничего не установлено"))
          (each (addon_view s.busy) s.installed)

  unfoldable pub view : Catalog → View Event
  view s =
      either (has_no_loader s.content)
        (text (
          codes
            "Это ядро не загружает плагины и моды. Jar рядом с ним просто не будет прочитан — чтобы ставить дополнения, создайте сервер на ядре, которое их поддерживает, например Paper."))
        (lists_view s)
