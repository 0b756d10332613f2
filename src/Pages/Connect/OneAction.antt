-- ===== src/Pages/Connect/OneAction.antt =====
-- web/src/pages/ServerConnect.tsx: the page runs one action at a time.
use mirocraft.Prelude.{
  ◌≡◌, refl, ℕ, ◌+◌, Bool, true, false, List, [], ◌∷◌, Option, none, some, Text, arith,
}
use mirocraft.Api.Http.{Outcome, returned, threw}
use mirocraft.Api.Network.{
  direct, forwarded, can_forward, taken_by_another, carrier_nat, no_router, InternetState, Internet,
  RelayInfo, ConnectInfo, ConnectAddress,
}
use mirocraft.Pages.Flight.{actions, weight}
use mirocraft.Pages.Ui.{
  Only-Offers, Dialogs, both, a_text, a_raw, a_button, Only, Only-when, Only-when_some,
  Only-when_error, Only-each, given,
}
use mirocraft.Pages.Run.{Page, Actions, Balanced, busy_count}
use mirocraft.Pages.Connect.{
  Connect, Event, copy_pressed, Job, look, forward, unforward, join_relay, leave_relay, write,
  Reply, handle, settle, copy_timer, start, succeed, fail,
}
use mirocraft.Pages.Connect.View.{
  view, address_view, internet_state_view, internet_view, relay_view, relay_address_view, info_view,
  page_view,
}

-- The page looks anew when it is opened and when its server changes.
pub data Outside : Type 0 where
  opened copy_ended : Outside

unfoldable pub happen : Outside → Connect → Connect × List Job
unfolding copy_timer
happen opened s = (s, look false ∷ [])
happen copy_ended s = (copy_timer s, [])

abbrev pub page : Page
page = record {
  State = Connect;
  Event = Event;
  Outside = Outside;
  Job = Job;
  Answer = λ job. Outcome (Reply job);
  view = view;
  handle = handle;
  happen = happen;
  settle = settle;
}

abbrev pub is_action : Job → Bool
is_action (look awaited) = awaited
is_action (write address) = false
is_action job = true

abbrev pub is_busy : Connect → Bool
is_busy s = s.busy

abbrev Fair : Connect → Event → Type 0
Fair s event = Balanced page is_action is_busy s (handle event s)

start-Fair :
    (job : Job) (s : Connect)
    → is_action job ≡ true
    → s.busy ≡ false
    → Balanced page is_action is_busy s (start job s)
unfolding start actions
start-Fair job s action free = rw (action, free) refl

module _ (s : Connect) where
  copy-Fair : (address : Text) → Fair s (copy_pressed address)
  unfolding handle actions
  copy-Fair address = omega arith

  press-Fair :
      (job : Job) (action : is_action job ≡ true)
      → s.busy ≡ false
      → (x : Dialogs) → Balanced page is_action is_busy s (start job s)
  press-Fair job action free x = start-Fair job s action free

  address-Fair : (addr : ConnectAddress) → Only (Fair s) (address_view s.copied addr)
  unfolding address_view
  address-Fair addr = both a_text (
      both a_text
        (both a_text (both (Only-when _ a_text) (a_button (λ free x. copy-Fair addr.address)))))

  internet-Fair :
      (port : ℕ) (i : Internet) (state : InternetState)
      → Only (Fair s) (internet_state_view s.busy port i state)
  unfolding internet_state_view handle
  internet-Fair port i direct = both a_text (both (Only-when_some i.address _ (λ t. a_text)) a_text)
  internet-Fair port i forwarded =
      both a_text
        (both (Only-when_some i.address _ (λ t. a_text)) (a_button (press-Fair unforward refl)))
  internet-Fair port i can_forward = both a_text (both a_text (a_button (press-Fair forward refl)))
  internet-Fair port i taken_by_another = a_text
  internet-Fair port i carrier_nat = both a_text a_text
  internet-Fair port i no_router = both a_text a_text

  relay_address-Fair :
      (address error : Option Text) → Only (Fair s) (relay_address_view address error)
  relay_address-Fair (some address) error = both a_text a_text
  relay_address-Fair none (some error) = a_text
  relay_address-Fair none none = a_text

  relay-Fair : (r : RelayInfo) → Only (Fair s) (relay_view s.busy r)
  unfolding relay_view handle
  relay-Fair r =
      let enable = press-Fair join_relay refl in
      let disable = press-Fair leave_relay refl in
      both a_text (
        both (Only-when _ (both a_text (a_button enable))) (
          both
            (Only-when _
              (both (relay_address-Fair (given r.address) (given r.error)) (a_button disable)))
            (both (Only-when _ a_text) (Only-when _ (a_button enable)))))

  info-Fair : (info : ConnectInfo) → Only (Fair s) (info_view s info)
  unfolding info_view internet_view
  info-Fair info = both (Only-when_error s.error _ (λ j. a_raw)) (
      both a_text (
        both (Only-each (address_view s.copied) info.addresses address-Fair) (
          both (both a_text (internet-Fair info.port info.internet info.internet.state))
            (Only-when _ (relay-Fair info.relay)))))

  page-Fair : (info : Option ConnectInfo) → Only (Fair s) (page_view s info)
  unfolding page_view
  page-Fair none = a_raw
  page-Fair (some info) = info-Fair info

pub view-Fair : (s : Connect) → Only (Fair s) (view s)
unfolding view
view-Fair s = page-Fair s s.info

pub happen-Fair : (what : Outside) (s : Connect) → Balanced page is_action is_busy s (happen what s)
unfolding happen actions copy_timer
happen-Fair opened s = omega arith
happen-Fair copy_ended s = omega arith

pub settle-Fair :
    (job : Job) (outcome : Outcome (Reply job)) (s : Connect) (n : ℕ)
    → weight is_action job + n ≡ busy_count page s.busy
    → actions is_action (settle job outcome s).1 + n ≡ busy_count page (settle job outcome s).0.busy
unfolding settle actions succeed fail
settle-Fair (look true) (returned info) s n h = ground (arith)
settle-Fair (look false) (returned info) s n h = ground (arith)
settle-Fair forward (returned info) s n h = ground (arith)
settle-Fair unforward (returned reply) s n h = ground (arith)
settle-Fair join_relay (returned info) s n h = ground (arith)
settle-Fair leave_relay (returned reply) s n h = ground (arith)
settle-Fair (write address) (returned reply) s n h = ground (arith)
settle-Fair (look true) (threw e) s n h = ground (arith)
settle-Fair (look false) (threw e) s n h = ground (arith)
settle-Fair (write address) (threw e) s n h = ground (arith)
settle-Fair forward (threw e) s n h = ground (arith)
settle-Fair unforward (threw e) s n h = ground (arith)
settle-Fair join_relay (threw e) s n h = ground (arith)
settle-Fair leave_relay (threw e) s n h = ground (arith)

abbrev pub page_actions : Actions page
page_actions = record {
  is_action = is_action;
  is_busy = is_busy;
  offered = λ s event o. Only-Offers (Fair s) (view-Fair s) o;
  outside = happen-Fair;
  settled = settle-Fair;
}
