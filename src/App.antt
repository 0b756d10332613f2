-- ===== src/App.antt =====
-- web/src/App.tsx: who is signed in, and which page a path shows.
pub mod Laws
use mirocraft.Prelude.{
  Bool, false, List, [], ◌∷◌, Option, none, some, not, ◌++◌, map, Text, codes, is_empty, ◌===◌,
  if◌then◌else◌,
}
use mirocraft.Prelude.Dict.{lookup}
use mirocraft.Api.Json.{Json, truthy, str, property}
use mirocraft.Api.Session.{get_token}
use mirocraft.Api.Http.{Fetch, Outcome, returned, threw, World}
use mirocraft.Api.Endpoint.{perform}
use mirocraft.Api.Accounts.{me, store_token}

pub data AuthState : Type 0 where
  checking anonymous authenticated : AuthState

pub record App : Type 0 where
  pub state : AuthState
  pub user : Option Json

abbrev pub opened : App
opened = record { state = checking; user = none }

abbrev pub has_token : Option Text → Bool
has_token none = false
has_token (some t) = not (is_empty t)

-- What `loadUser` makes of the answer to `me`: any failure removes the token.
unfoldable pub settle_user : {Net : Type 0} → App → Outcome Json × World Net → App × World Net
settle_user a (returned user, w) = (record { state = authenticated; user = some user }, w)
settle_user a (threw e, w) = (record a { state = anonymous }, store_token none w)

unfoldable pub load_user : {Net : Type 0} → Fetch Net → App → World Net → App × World Net
unfolding settle_user
load_user fetch a w =
    if has_token (get_token w.storage)
    then settle_user a (perform fetch me w)
    else (record a { state = anonymous }, w)

-- `onLoggedOut`
unfoldable pub logged_out : App → App
logged_out a = record { state = anonymous; user = none }

pub data View : Type 0 where
  loading nothing login servers settings admin bots : View
  server : (id : Text) → View
  redirect : (to : Text) → View

-- The elements of a `Routes`: each pattern with what it shows for the parameter of the path.
abbrev pub RouteTable : Type 0
RouteTable = List (Text × (Text → View))

unfoldable pub anonymous_routes : RouteTable
anonymous_routes = (codes "/login", λ id. login) ∷ (codes "*", λ id. redirect (codes "/login")) ∷ []

-- Two routes exist for administrators only.
abbrev admin_routes : Bool → RouteTable
admin_routes is_admin =
    if is_admin then (codes "/admin", λ id. admin) ∷ (codes "/bots", λ id. bots) ∷ [] else []

unfoldable pub user_routes : Bool → RouteTable
user_routes is_admin =
    (codes "/", λ id. servers)
      ∷ (codes "/servers/:id", server)
      ∷ (codes "/settings", λ id. settings)
      ∷ admin_routes is_admin
    ++ (codes "*", λ id. redirect (codes "/")) ∷ []

abbrev pub element : Option (Text → View) → Text → View
element none id = nothing
element (some view) id = view id

abbrev pub view_of : RouteTable → Option (Text × Text) → View
view_of table none = nothing
view_of table (some (pattern, id)) = element (lookup pattern table) id

abbrev pub is_admin : Json → Bool
is_admin user = role_is_admin (property (codes "role") user)
  where
    role_is_admin : Json → Bool
    role_is_admin (str t) = t === codes "admin"
    role_is_admin other = false

-- The user that the layout is shown for, if it is shown.
unfoldable pub shown_user : App → Option Json
shown_user a = elim a.state [
  | checking ↦ none
  | anonymous ↦ none
  | authenticated ↦ elim a.user [
    | none ↦ none
    | some user ↦ if truthy user then some user else none
  ]
]

-- react-router picks one of the patterns for a path, with the path's parameter: a parameter here.
module _ (pick : List Text → Text → Option (Text × Text)) where
  unfoldable pub routes : RouteTable → Text → View
  unfolding lookup
  routes table path = view_of table (pick (map (λ kv. kv.0) table) path)

  abbrev route_of : Option Json → Text → View
  route_of none path = routes anonymous_routes path
  route_of (some user) path = routes (user_routes (is_admin user)) path

  unfoldable pub route : App → Text → View
  unfolding shown_user routes anonymous_routes user_routes
  route a path = elim a.state [
    | checking ↦ loading
    | anonymous ↦ route_of (shown_user a) path
    | authenticated ↦ route_of (shown_user a) path
  ]
