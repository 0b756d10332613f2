-- ===== src/Pages/Connect/View.antt =====
-- web/src/pages/ServerConnect.tsx: what the page shows.
use mirocraft.Prelude.{
  ℕ, Bool, false, not, ◌&&◌, [], ◌++◌, Option, none, some, get_or_else, ◌===◌, if◌then◌else◌, Text,
  codes, is_empty, decimal,
}
use mirocraft.Api.Json.{Json, str, nullish}
use mirocraft.Api.Network.{
  AddressKind, public, hamachi, radmin, zerotier, tailscale, lan, virtual, reserved, loopback,
  InternetState, direct, forwarded, can_forward, taken_by_another, carrier_nat, no_router,
  ConnectAddress, Internet, RelayInfo, ConnectInfo,
}
use mirocraft.Pages.Ui.{View, ◌⊕◌, text, raw, button, when, when_some, when_error, each, given}
use mirocraft.Pages.Connect.{
  Connect, Event, forward_pressed, unforward_pressed, enable_pressed, disable_pressed, copy_pressed,
}

unfoldable pub kind_label : AddressKind → Text
kind_label public = codes "Из интернета"
kind_label hamachi = codes "Hamachi"
kind_label radmin = codes "Radmin VPN"
kind_label zerotier = codes "ZeroTier"
kind_label tailscale = codes "Tailscale"
kind_label lan = codes "Локальная сеть"
kind_label virtual = codes "Виртуальный адаптер"
kind_label reserved = codes "Служебный адрес"
kind_label loopback = codes "Только эта машина"

unfoldable pub kind_hint : AddressKind → Text
kind_hint public = codes "работает у всех"
kind_hint hamachi = codes "для тех, кто вошёл в вашу сеть Hamachi"
kind_hint radmin = codes "для тех, кто вошёл в вашу сеть Radmin VPN"
kind_hint zerotier = codes "для тех, кто в вашей сети ZeroTier"
kind_hint tailscale = codes "для тех, кто в вашей сети Tailscale"
kind_hint lan = codes "для тех, кто в той же квартире или офисе"
kind_hint virtual = codes "адаптер виртуалки или контейнера — снаружи туда не попасть"
kind_hint reserved = codes "служебный диапазон, обычно адаптер VPN-клиента — снаружи не работает"
kind_hint loopback = codes "не годится никому, кроме вас"

abbrev is_copied : Option Text → Text → Bool
is_copied none address = false
is_copied (some copied) address = copied === address

unfoldable pub address_view : Option Text → ConnectAddress → View Event
unfolding kind_label kind_hint
address_view copied addr =
    text addr.address
    ⊕ text (kind_label addr.kind)
    ⊕ text (kind_hint addr.kind)
    ⊕ when (not (is_empty addr.interface)) (text (codes "· " ++ addr.interface))
    ⊕ button (if is_copied copied addr.address then codes "скопировано" else codes "копировать")
        false (λ x. copy_pressed addr.address)

-- An address that is missing renders nothing.
abbrev shown : Option Text → View Event
shown t = when_some t (λ t. text t)

-- Why a port can or cannot be reached from the internet, for each state of it.
unfoldable pub internet_state_view : Bool → ℕ → Internet → InternetState → View Event
internet_state_view busy port i direct =
    text (codes "У этой машины свой публичный адрес — друзьям хватит ")
    ⊕ shown i.address
    ⊕ text (codes ". Роутер ни при чём.")
internet_state_view busy port i forwarded =
    text (
      codes "Роутер уже отправляет порт "
      ++ decimal port
      ++ codes " на эту машину. Адрес для друзей: ")
    ⊕ shown i.address
    ⊕ button (codes "Убрать проброс") busy (λ x. unforward_pressed)
internet_state_view busy port i can_forward =
    text (
      codes
        "Машина за роутером, и роутер умеет пробрасывать порты. Если попросить — друзьям не понадобится ни Hamachi, ни что-либо ещё"
      ++ elim (given i.external_ip) [
        | none ↦ []
        | some ip ↦ codes ", адрес будет " ++ ip ++ codes ":" ++ decimal port
      ]
      ++ codes ".")
    ⊕ text (
        codes
          "Это изменит настройки роутера — того самого, что раздаёт интернет всей квартире. Убрать можно здесь же.")
    ⊕ button
        (if busy
          then codes "Спрашиваю роутер…"
          else codes "Открыть порт " ++ decimal port ++ codes " наружу")
        busy (λ x. forward_pressed)
internet_state_view busy port i taken_by_another = text (
    codes "Порт "
    ++ decimal port
    ++ codes " роутер уже отправляет на другую машину ("
    ++ get_or_else i.taken_by []
    ++ codes
        "). Панель его не отбирает: там может работать что-то нужное. Либо освободите порт на роутере вручную, либо смените порт сервера в параметрах.")
internet_state_view busy port i carrier_nat =
    text (
      codes "Провайдер выдал вашему роутеру не настоящий адрес, а общий с другими абонентами"
      ++ elim (given i.external_ip) [ none ↦ [] | some ip ↦ codes " (" ++ ip ++ codes ")" ]
      ++ codes ". Проброс порта тут не поможет — сколько ни настраивай роутер.")
    ⊕ text (
        codes
          "Рабочих пути два: попросить у провайдера белый IP (обычно платно) или собрать друзей в одной сети — Hamachi, Radmin VPN, ZeroTier. Тогда годится адрес из списка выше.")
internet_state_view busy port i no_router =
    text (
      codes
        "Роутер не отвечает на автоматический запрос — обычно это значит, что UPnP в нём выключен. Это нормальная настройка, а не поломка.")
    ⊕ text (
        codes "Пробросьте порт "
        ++ decimal port
        ++ codes
            " вручную в настройках роутера или соберите друзей в одной сети через Hamachi или Radmin VPN — адрес из списка выше.")

unfoldable pub internet_view : Bool → ConnectInfo → View Event
internet_view busy info =
    text (codes "Из интернета")
    ⊕ internet_state_view busy info.port info.internet info.internet.state

abbrev pub is_held : Option Text → Bool
is_held none = false
is_held (some id) = not (is_empty id)

abbrev pub relay_address_view : Option Text → Option Text → View Event
relay_address_view (some address) error = text (codes "Адрес для друзей: ") ⊕ text address
relay_address_view none (some error) = text (codes "Туннель не поднялся: " ++ error)
relay_address_view none none = text (codes "Поднимаю туннель — панель подключается к релею…")

unfoldable pub relay_view : Bool → RelayInfo → View Event
relay_view busy r =
    text (codes "Через релей")
    ⊕ when (not r.enabled && not (is_held r.held_by)) (
        text (
          codes
            "У панели есть релей — машина с белым адресом, которая пропускает игроков к этому серверу. Панель подключается к ней сама, изнутри: на этом компьютере ничего открывать не нужно, а друзьям достанется обычный адрес и порт.")
        ⊕ button (if busy then codes "Поднимаю туннель…" else codes "Пустить через релей") busy
            (λ x. enable_pressed))
    ⊕ when r.enabled (
        relay_address_view (given r.address) (given r.error)
        ⊕ button (codes "Убрать из релея") busy (λ x. disable_pressed))
    ⊕ when (is_held r.held_by && not r.enabled) (
        text (
          codes
            "Туннель сейчас занят другим сервером. Он один — за ним один публичный порт, и два сервера означали бы игроков одного, приходящих ко второму. Включите здесь, и он перейдёт сюда."))
    ⊕ when (is_held r.held_by) (button (codes "Забрать туннель себе") busy (λ x. enable_pressed))

unfoldable pub info_view : Connect → ConnectInfo → View Event
info_view s info =
    when_error s.error (λ message. raw message)
    ⊕ text (codes "Адреса для друзей")
    ⊕ each (address_view s.copied) info.addresses
    ⊕ internet_view s.busy info
    ⊕ when info.relay.configured (relay_view s.busy info.relay)

abbrev awaited_message : Option Json → Json
awaited_message none = str (codes "Смотрю, какие адреса есть у этой машины…")
awaited_message (some error) =
    nullish error (str (codes "Смотрю, какие адреса есть у этой машины…"))

unfoldable pub page_view : Connect → Option ConnectInfo → View Event
page_view s none = raw (awaited_message s.error)
page_view s (some info) = info_view s info

unfoldable pub view : Connect → View Event
view s = page_view s s.info
