-- ===== src/Pages/Layout.antt =====
-- web/src/components/Layout.tsx: the shell around the pages, its links and its logout.
pub mod View
use mirocraft.Prelude.{
  ◌≡◌, refl, Bool, false, not, List, [], ◌∷◌, Option, none, some, if◌then◌else◌, Text, codes,
}
use mirocraft.Api.Json.{Json}
use mirocraft.Api.Session.{get_token}
use mirocraft.Api.Http.{Fetch, World, Outcome, returned, threw, Failure}
use mirocraft.Api.Accounts.{logout}
use mirocraft.Api.Accounts.Laws.{get_token-logout}
use mirocraft.App.{App, anonymous, logged_out}

-- The targets of the items.
unfoldable pub nav_items : Bool → List Text
nav_items is_admin =
    codes "/" ∷ codes "/settings" ∷ (if is_admin then codes "/admin" ∷ codes "/bots" ∷ [] else [])

-- The drawer of a narrow screen: the button, the veil or its own button, and a new path.
pub data MenuEvent : Type 0 where
  menu_button close_button navigated : MenuEvent

unfoldable pub menu_step : MenuEvent → Bool → Bool
menu_step menu_button menu_open = not menu_open
menu_step close_button menu_open = false
menu_step navigated menu_open = false

-- `await api.logout(); onLoggedOut(); navigate("/login")`, with the path that it navigates to.
unfoldable pub leave :
    {Net : Type 0} → App → Outcome Json × World Net → (App × Option Text) × World Net
leave a (returned body, w) = ((logged_out a, some (codes "/login")), w)
leave a (threw e, w) = ((a, none), w)

unfoldable pub handle_logout :
    {Net : Type 0} → Fetch Net → App → World Net → (App × Option Text) × World Net
unfolding leave
handle_logout fetch a w = leave a (logout fetch w)

-- How a logout ends: without a user and at the path of the sign-in form, or, where its call fails,
-- with the user that there was and at the path that there was.
pub data Ends {Net : Type 0} (a : App)
    : Outcome Json → (App × Option Text) × World Net → Type 0 where
  left :
      {body : Json} {b : App} {w : World Net}
      → get_token w.storage ≡ none
      → b.state ≡ anonymous
      → b.user ≡ none
      → Ends a (returned body) ((b, some (codes "/login")), w)
  stuck :
      {e : Failure} {b : App} {w : World Net}
      → get_token w.storage ≡ none
      → b.state ≡ a.state
      → b.user ≡ a.user
      → Ends a (threw e) ((b, none), w)

leave-Ends :
    {Net : Type 0} (a : App) (o : Outcome Json) (w : World Net)
    → get_token w.storage ≡ none
    → Ends a o (leave a (o, w))
unfolding leave logged_out
leave-Ends a (returned body) w gone = left gone refl refl
leave-Ends a (threw e) w gone = stuck gone refl refl

-- A logout whose call succeeds leaves the application anonymous and without a user, and goes to the
-- path of the sign-in form. One whose call fails keeps the state and the user of the application and
-- goes nowhere, though the token is gone in both cases.
pub handle_logout-Ends :
    {Net : Type 0} (fetch : Fetch Net) (a : App) (w : World Net)
    → Ends a (logout fetch w).0 (handle_logout fetch a w)
unfolding handle_logout
handle_logout-Ends fetch a w =
    leave-Ends a (logout fetch w).0 (logout fetch w).1 (get_token-logout fetch w)
