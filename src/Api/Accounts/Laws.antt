-- ===== src/Api/Accounts/Laws.antt =====
-- `login` and `logout` of web/src/lib/api.ts: the storage after them, and the requests that follow.
use mirocraft.Prelude.{Bool, true, false, ◌≡◌, refl, subst, ◌∙◌, [], ◌∷◌, Option, none, Text, codes}
use mirocraft.Prelude.Dict.{lookup}
use mirocraft.Api.Json.{Json, undefined, null, property}
use mirocraft.Api.Session.{Storage, get_token}
use mirocraft.Api.Session.Laws.{get_token-set_token, kept}
use mirocraft.Api.Http.{Fetch, Fetched, HttpRequest, World, and_then, Outcome, returned, threw}
use mirocraft.Api.Http.Laws.{SetsNone, authorization}
use mirocraft.Api.Endpoint.{Endpoint, perform}
use mirocraft.Api.Endpoint.Laws.{Log, recorder, SendsOne, perform-SendsOne, perform-storage}
use mirocraft.Api.Accounts.{login, keep_login, logout, login_endpoint, logout_endpoint, token_of}

-- The last request of a log carries this `Authorization` header, or none.
abbrev pub LastCarries : Option Text → Log → Type 0
LastCarries h [] = ⊥
LastCarries h (req ∷ log) = lookup (codes "authorization") req.headers ≡ h

SendsOne-LastCarries :
    {e : Endpoint} {w w' : World Log}
    → SendsOne e w w'
    → LastCarries (authorization (get_token w.storage)) w'.net
SendsOne-LastCarries s = rw s.log s.sent.headers.2

kept-none : (b : Bool) → kept b none ≡ none
kept-none true = refl
kept-none false = refl

-- After `logout` no token is stored, whatever the network answered.
pub get_token-logout :
    {Net : Type 0} (fetch : Fetch Net) (w : World Net) → get_token (logout fetch w).1.storage ≡ none
unfolding logout
get_token-logout fetch w =
    let s = (perform fetch logout_endpoint w).1.storage in
    get_token-set_token none s ∙ kept-none s.available

-- Once `logout` is done, whatever the server answered to it, the next call whose own headers name
-- none of those that `request` sets carries no token.
pub logout-LastCarries :
    (server : HttpRequest → Log → Fetched) (e : Endpoint) (w : World Log)
    → SetsNone e.init.headers
    → LastCarries none (perform (recorder server) e (logout (recorder server) w).1).1.net
logout-LastCarries server e w clean =
    let s = perform-SendsOne server e (logout (recorder server) w).1 clean in
    let after = (perform (recorder server) e (logout (recorder server) w).1).1.net in
    subst (λ t. LastCarries (authorization t) after) (get_token-logout (recorder server) w)
      (SendsOne-LastCarries s)

-- What `login` leaves behind: the token of the reply if it returns, and no change to the storage if
-- it throws before it has a token to store.
abbrev pub Leaves : {Net : Type 0} → Storage → Outcome Json × World Net → Type 0
Leaves s (returned body, w') =
    get_token w'.storage ≡ kept s.available (token_of (property (codes "token") body))
Leaves s (threw e, w') = w'.storage ≡ s

keep_login-Leaves :
    {Net : Type 0} (body : Json) (w : World Net) → Leaves w.storage (keep_login body w)
unfolding keep_login property
keep_login-Leaves undefined w = refl
keep_login-Leaves null w = refl
keep_login-Leaves body w = get_token-set_token (token_of (property (codes "token") body)) w.storage

and_then-Leaves :
    {Net : Type 0} (s : Storage) (w : World Net) (o : Outcome Json)
    → w.storage ≡ s
    → Leaves s (and_then (o, w) keep_login)
and_then-Leaves s w (returned body) same =
    subst (λ t. Leaves t (keep_login body w)) same (keep_login-Leaves body w)
and_then-Leaves s w (threw e) same = same

-- A login that returns has stored the token of the reply, as far as storage is allowed; one that
-- throws has left the storage as it was.
pub login-Leaves :
    {Net : Type 0} (fetch : Fetch Net) (email password : Text) (w : World Net)
    → Leaves w.storage (login fetch email password w)
unfolding login
login-Leaves fetch email password w =
    let e = login_endpoint email password in
    let (o, w') = perform fetch e w in and_then-Leaves w.storage w' o (perform-storage fetch e w)
