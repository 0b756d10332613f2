-- ===== src/Pages/Modpacks/View.antt =====
-- web/src/pages/ServerModpacks.tsx: what the page shows.
use mirocraft.Prelude.{
  ℕ, Bool, true, false, not, ◌||◌, List, [], ◌∷◌, ◌++◌, Option, none, some, ◌===◌, if◌then◌else◌,
  Text, codes, is_empty, decimal,
}
use mirocraft.Api.Types.{Task}
use mirocraft.Api.Catalog.{CatalogProject, InstalledModpack}
use mirocraft.Pages.Ui.{
  View, ◌⊕◌, text, raw, button, input, when, when_some, when_error, each, notice_view,
}
use mirocraft.Pages.Catalog.{format_downloads}
use mirocraft.Pages.Modpacks.{
  Modpacks, Event, install_pressed, query_typed, is_installing, plural_files,
}

abbrev pub is_busy : Option Text → Bool
is_busy none = false
is_busy (some what) = true

abbrev is_busy_with : Option Text → Text → Bool
is_busy_with none name = false
is_busy_with (some what) name = what === name

-- The bar is at least two percent wide, which is not kept here.
unfoldable pub progress_view : Task → View Event
progress_view task = text (
    codes "Устанавливаем модпак… "
    ++ decimal task.progress
    ++ codes
        "%. Скачиваются сотни файлов, это занимает несколько минут. Страницу можно закрыть — установка идёт на сервере.")

-- The browser's: `toFixed`, and how it writes a date.
module _ (to_fixed : ℕ → ℕ → ℕ → Text) (format_date : Text → Text) where
  unfoldable pub installed_view : Option InstalledModpack → View Event
  installed_view none = text (
      codes
        "Модпак не установлен. Установка модпака сама поставит нужный загрузчик и версию Minecraft — выбирать ядро вручную не нужно.")
  installed_view (some pack) =
      text pack.name
      ⊕ when (not (is_empty pack.version)) (text pack.version)
      ⊕ text (
          pack.core
          ++ codes " · Minecraft "
          ++ pack.minecraft
          ++ codes " · "
          ++ decimal pack.files
          ++ codes " "
          ++ plural_files pack.files)
      ⊕ text (codes "установлен " ++ format_date pack.installed_at)

  -- `busy !== null || installing || running`
  unfoldable pub hit_view : Bool → Modpacks → CatalogProject → View Event
  hit_view server_runs s project =
      text project.title
      ⊕ text (format_downloads to_fixed project.downloads ++ codes " загрузок")
      ⊕ text project.description
      ⊕ button (if is_busy_with s.busy project.id then codes "…" else codes "Установить")
          (is_busy s.busy || is_installing s.task || server_runs) (λ x. install_pressed project)

  unfoldable pub hits_view : Bool → Modpacks → Option (List CatalogProject) → View Event
  hits_view server_runs s none =
      text
        (codes "Введите хотя бы два символа. Показываем только паки, которые ставятся на сервер.")
  hits_view server_runs s (some []) = text (codes "Ничего не найдено")
  hits_view server_runs s (some (hit ∷ hits)) = each (hit_view server_runs s) (hit ∷ hits)

  unfoldable pub view : Bool → Modpacks → View Event
  view server_runs s =
      when_error s.box.error (λ message. raw message)
      ⊕ notice_view s.box.error s.notice
      ⊕ installed_view s.installed
      ⊕ when server_runs (
          text (
            codes
              "Сервер запущен. Остановите его: установка стирает каталог модов и меняет ядро, а запущенный сервер держит эти файлы открытыми."))
      ⊕ when (is_installing s.task) (when_some s.task progress_view)
      ⊕ text (codes "Поиск модпаков")
      ⊕ input s.query false (λ query. query_typed query)
      ⊕ when s.box.searching (text (codes "ищем…"))
      ⊕ text (codes "Modrinth")
      ⊕ hits_view server_runs s s.box.hits
      ⊕ text (
          codes
            "CurseForge не поддерживается: их API требует ключ на каждую загрузку, а self-hosted панели неоткуда взять ключ для каждого оператора. Пак с CurseForge можно распаковать вручную через вкладку «Файлы».")
