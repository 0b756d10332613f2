-- ===== src/App/Laws.antt =====
-- web/src/App.tsx: how `loadUser` ends, and which views a user may see.
use mirocraft.Prelude.{
  ◌≡◌, refl, inl, inr, Bool, true, false, List, [], ◌∷◌, Option, none, some, Text, ◌===◌,
  if◌then◌else◌, Bool-cases, ◌∙◌, ap, All,
}
use mirocraft.Prelude.Dict.{lookup}
use mirocraft.Api.Json.{Json}
use mirocraft.Api.Session.{Storage, get_token}
use mirocraft.Api.Session.Laws.{get_token-set_token, kept}
use mirocraft.Api.Http.{Fetch, World, Outcome, returned, threw}
use mirocraft.Api.Endpoint.{perform}
use mirocraft.Api.Endpoint.Laws.{perform-storage}
use mirocraft.Api.Accounts.{me}
use mirocraft.App.{
  AuthState, checking, anonymous, authenticated, App, has_token, settle_user, load_user, View,
  loading, login, admin, bots, redirect, nothing, RouteTable, view_of, element, anonymous_routes,
  user_routes, routes, is_admin, shown_user, route, route_of,
}

-- How `loadUser` ends, for a user with this token before.
pub data Settled (before : Storage) : App → Storage → Type 0 where
  signed_in :
      {user : Json}
      → has_token (get_token before) ≡ true
      → Settled before (record { state = authenticated; user = some user }) before
  refused :
      {a : App} {after : Storage}
      → a.state ≡ anonymous
      → has_token (get_token after) ≡ false
      → Settled before a after

settle_user-Settled :
    {Net : Type 0} (a : App) (s : Storage) (o : Outcome Json) (w : World Net)
    → has_token (get_token s) ≡ true
    → w.storage ≡ s
    → Settled s (settle_user a (o, w)).0 (settle_user a (o, w)).1.storage
unfolding settle_user
settle_user-Settled a s (returned user) w held same = rw same (signed_in held)
settle_user-Settled a s (threw e) w held same =
    refused refl (ap has_token (get_token-set_token none w.storage) ∙ kept-none w.storage.available)
  where
    kept-none : (b : Bool) → has_token (kept b none) ≡ false
    kept-none true = refl
    kept-none false = refl

-- `loadUser` ends in one of two ways, whatever the network does: signed in, with the token as it
-- was; or anonymous, with no token stored.
pub load_user-Settled :
    {Net : Type 0} (fetch : Fetch Net) (a : App) (w : World Net)
    → Settled w.storage (load_user fetch a w).0 (load_user fetch a w).1.storage
unfolding load_user
load_user-Settled fetch a w = elim (Bool-cases (has_token (get_token w.storage))) [
  | inl held ↦ rw held (
      settle_user-Settled a w.storage (perform fetch me w).0 (perform fetch me w).1 held
        (perform-storage fetch me w))
  | inr none_held ↦ rw none_held (refused refl none_held)
]

-- Who may see a view.
abbrev pub Allowed : Option Json → View → Type 0
Allowed shown loading = Unit
Allowed shown nothing = Unit
Allowed shown (redirect to) = Unit
Allowed shown login = shown ≡ none
Allowed shown admin = (user : Json) × (shown ≡ some user) × (is_admin user ≡ true)
Allowed shown bots = (user : Json) × (shown ≡ some user) × (is_admin user ≡ true)
Allowed shown other = (user : Json) × (shown ≡ some user)

-- Every view of a table is allowed.
abbrev Permits : Option Json → RouteTable → Type 0
Permits shown = All (λ kv. (id : Text) → Allowed shown (kv.1 id))

lookup-Permits :
    (shown : Option Json) (table : RouteTable) (pattern id : Text)
    → Permits shown table
    → Allowed shown (element (lookup pattern table) id)
unfolding lookup
lookup-Permits shown [] pattern id permits = tt
lookup-Permits shown ((k, view) ∷ table) pattern id permits =
    either (k === pattern) (lookup-Permits shown table pattern id permits.1)
  where
    either :
        (b : Bool)
        → Allowed shown (element (lookup pattern table) id)
        → Allowed shown (element (if b then some view else lookup pattern table) id)
    either true rest = permits.0 id
    either false rest = rest

view_of-Allowed :
    (shown : Option Json) (table : RouteTable) (picked : Option (Text × Text))
    → Permits shown table
    → Allowed shown (view_of table picked)
view_of-Allowed shown table none permits = tt
view_of-Allowed shown table (some (pattern, id)) permits =
    lookup-Permits shown table pattern id permits

anonymous_routes-Permits : Permits none anonymous_routes
unfolding anonymous_routes
anonymous_routes-Permits = (λ id. refl, (λ id. tt, tt))

user_routes-Permits : (user : Json) → Permits (some user) (user_routes (is_admin user))
unfolding user_routes
user_routes-Permits user = elim (Bool-cases (is_admin user)) [
  | inl granted ↦ rw granted (
    λ id. (user, refl),
    (
      λ id. (user, refl),
      (
        λ id. (user, refl),
        (λ id. (user, refl, granted), (λ id. (user, refl, granted), (λ id. tt, tt))),
      ),
    ),
  )
  | inr plain ↦
      rw plain (λ id. (user, refl), (λ id. (user, refl), (λ id. (user, refl), (λ id. tt, tt))))
]

module _ (pick : List Text → Text → Option (Text × Text)) where
  route_of-Allowed : (shown : Option Json) (path : Text) → Allowed shown (route_of pick shown path)
  unfolding routes
  route_of-Allowed none path = view_of-Allowed none anonymous_routes _ anonymous_routes-Permits
  route_of-Allowed (some user) path =
      view_of-Allowed (some user) (user_routes (is_admin user)) _ (user_routes-Permits user)

  -- However the router picks among the routes: the sign-in form is shown only to who is not signed
  -- in, a page of the panel only to a signed-in user, and the administration and the bots only to
  -- an administrator.
  pub route-Allowed : (a : App) (path : Text) → Allowed (shown_user a) (route pick a path)
  unfolding route
  route-Allowed a path = by_state a.state
    where
      by_state :
          (state : AuthState)
          → Allowed (shown_user a) (elim state [
            | checking ↦ loading
            | anonymous ↦ route_of pick (shown_user a) path
            | authenticated ↦ route_of pick (shown_user a) path
          ])
      by_state checking = tt
      by_state anonymous = route_of-Allowed (shown_user a) path
      by_state authenticated = route_of-Allowed (shown_user a) path
