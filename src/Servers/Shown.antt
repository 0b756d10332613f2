-- ===== src/Servers/Shown.antt =====
-- web/src/pages/Servers.tsx: what the page shows: the list, a card, the form, or that there is no
-- server yet.
use mirocraft.Prelude.{
  ℕ, Bool, true, false, not, ◌||◌, List, [], ◌∷◌, ◌++◌, map, Option, none, some, get_or_else, find,
  filter, length, ltb, ◌==◌, if◌then◌else◌, Text, codes, decimal,
}
use mirocraft.Prelude.Dict.{lookup}
use mirocraft.Api.Types.{Server}
use mirocraft.Api.Servers.{PowerAction, start}
use mirocraft.Api.Themes.{Core, CoreVersion, release, snapshot}
use mirocraft.Pages.Ui.{
  View, ◌⊕◌, blank, text, raw, link, button, submit, checkbox, input, select, when, either,
  when_some, when_error, each,
}
use mirocraft.Pages.Layout.View.{page_header}
use mirocraft.Servers.{ServerList, Card, CreateForm, same_core, plural}
use mirocraft.Servers.View.{
  status_label, is_running, card_buttons, players_text, cpu_text, memory_text,
}

-- The form of the page carries the number of its opening: a call of one that was closed finds
-- nothing that it could change.
pub record ServersPage : Type 0 where
  pub list : ServerList
  pub form : Option (ℕ × CreateForm)
  pub openings : ℕ
  pub cards : List (Text × Card)

pub data Event : Type 0 where
  form_toggled first_pressed create_pressed : Event
  name_typed core_picked version_typed : Text → Event
  ram_typed : ℕ → Event
  eula_checked : Bool → Event
  power_pressed : (id : Text) → (action : PowerAction) → Event

abbrev pub card_of : Text → List (Text × Card) → Card
card_of id cards = get_or_else (lookup id cards) (record { busy = false; error = none })

abbrev power_label : PowerAction → Text
power_label start = codes "Запустить"
power_label action = []

-- `Metric`
unfoldable pub metric_view : (label value : Text) → View Event
metric_view label value = text value ⊕ text label

unfoldable pub empty_state : View Event
empty_state =
    text (codes "Пока нет ни одного сервера")
    ⊕ text (
        codes
          "Выберите ядро и версию — панель скачает всё сама, включая Java. Это займёт меньше минуты.")
    ⊕ button (codes "Создать первый сервер") false (λ x. first_pressed)

abbrev core_options : Text → List Core → List (Text × Text)
core_options core [] = (core, core) ∷ []
core_options core (c ∷ cores) = map (λ (c : Core). (c.id, c.name)) (c ∷ cores)

abbrev version_option : CoreVersion → Text × Text
version_option v = (v.id, v.id ++ elim v.channel [ release ↦ [] | snapshot ↦ codes " (снапшот)" ])

abbrev is_set : Option Bool → Bool
is_set none = false
is_set (some b) = b

abbrev builds : Option Core → Bool
builds none = false
builds (some c) = is_set c.builds_locally

abbrev builds_locally : Text → List Core → Bool
builds_locally core cores = builds (find (same_core core) cores)

-- What the browser prints of a quotient, and what `Number` makes of a field.
module _ (to_fixed : ℕ → ℕ → ℕ → Text) (number : Text → ℕ) where
  unfoldable pub form_view : CreateForm → View Event
  form_view f =
      text (codes "Название")
      ⊕ input f.name false (λ t. name_typed t)
      ⊕ text (codes "Ядро")
      ⊕ select f.core (core_options f.core f.cores) false (λ t. core_picked t)
      ⊕ text (codes "Версия")
      ⊕ either (ltb 0 (length f.versions))
          (select f.version (map version_option f.versions) false (λ t. version_typed t))
          (input f.version false (λ t. version_typed t))
      ⊕ when_error f.versions_error (λ message. raw message)
      ⊕ text (codes "Память, МБ")
      ⊕ input (decimal f.ram) false (λ t. ram_typed (number t))
      ⊕ when (builds_locally f.core f.cores) (
          text (
            codes
              "Это ядро не раздаётся готовым — панель соберёт его на этой машине. Первый сервер такой версии запустится минут через пятнадцать, следующие — сразу."))
      ⊕ checkbox f.eula false (λ b. eula_checked b)
      ⊕ text (codes "Я принимаю ")
      ⊕ link (codes "https://www.minecraft.net/eula") (codes "EULA Mojang")
      ⊕ text (codes ". Без этого сервер не запустится.")
      ⊕ when_error f.error (λ message. raw message)
      ⊕ submit (if f.busy then codes "Создание…" else codes "Создать") (f.busy || not f.eula)
          (f.name ∷ (if ltb 0 (length f.versions) then [] else f.version ∷ [])) create_pressed

  -- `ServerCard`; the sparkline is a picture.
  unfoldable pub card_view : Card → Server → View Event
  unfolding metric_view memory_text
  card_view card server =
      link (codes "/servers/" ++ server.id) server.name
      ⊕ text (server.core ++ codes " " ++ server.version ++ codes " · порт " ++ decimal server.port)
      ⊕ text (status_label server.status)
      ⊕ when (is_running server.status) (
          metric_view (codes "игроков") (players_text to_fixed server.metrics)
          ⊕ metric_view (codes "CPU") (cpu_text to_fixed server.metrics))
      ⊕ metric_view (if is_running server.status then codes "памяти" else codes "выделено")
          (memory_text to_fixed server)
      ⊕ each (λ b. button (power_label b.0) (not b.1) (λ x. power_pressed server.id b.0))
          (card_buttons server.status card.busy)
      ⊕ when_error card.error (λ message. raw message)

  abbrev running_count : List Server → ℕ
  running_count servers = length (filter (λ (s : Server). is_running s.status) servers)

  abbrev pub count_text : List Server → Option (View Event)
  count_text [] = none
  count_text (s ∷ servers) = some (
      text (
        plural (length (s ∷ servers)) (codes "сервер") (codes "сервера") (codes "серверов")
        ++ codes " · "
        ++ decimal (running_count (s ∷ servers))
        ++ codes " работает"))

  abbrev is_open : Option (ℕ × CreateForm) → Bool
  is_open none = false
  is_open (some f) = true

  unfoldable pub cards_view : List (Text × Card) → List Server → View Event
  unfolding lookup
  cards_view cards servers = each (λ (s : Server). card_view (card_of s.id cards) s) servers

  unfoldable pub view : ServersPage → View Event
  view p =
      page_header (text (codes "Серверы")) (count_text p.list.servers)
        (some (
          button (if is_open p.form then codes "Отмена" else codes "Создать сервер") false
            (λ x. form_toggled)))
        none
      ⊕ when_some p.form (λ f. form_view f.1)
      ⊕ when_error p.list.error (λ message. raw message)
      ⊕ either p.list.loading blank
          (either (length p.list.servers == 0) empty_state (cards_view p.cards p.list.servers))
