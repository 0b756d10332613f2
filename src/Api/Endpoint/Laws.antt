-- ===== src/Api/Endpoint/Laws.antt =====
-- The functions of web/src/lib/api.ts that go through `request`: what they do to the world.
use mirocraft.Prelude.{◌≡◌, refl, List, ◌∷◌, ◌++◌}
use mirocraft.Api.Session.{Storage, get_token}
use mirocraft.Api.Http.{
  api_base, Fetch, Fetched, HttpRequest, World, Outcome, returned, threw, request, and_then,
  init_body,
}
use mirocraft.Api.Http.Laws.{SetsNone, HeadersFit, request_headers_lem}
use mirocraft.Api.Endpoint.{Endpoint, perform, read_reply}

-- A network that keeps the requests that it was sent, the last one first, and answers by a function
-- of them.
abbrev pub Log : Type 0
Log = List HttpRequest

abbrev pub recorder : (HttpRequest → Log → Fetched) → Fetch Log
recorder server req log = (server req log, req ∷ log)

-- The request that a call of the function sends.
pub record IsSent (e : Endpoint) (s : Storage) (req : HttpRequest) : Type 0 where
  pub method : req.method ≡ e.init.method
  pub url : req.url ≡ api_base ++ e.path
  pub body : req.body ≡ init_body e.init.body
  pub headers : HeadersFit req.headers e.init.body (get_token s)

pub record SendsOne (e : Endpoint) (before after : World Log) : Type 0 where
  pub req : HttpRequest
  pub sent : IsSent e before.storage req
  pub log : after.net ≡ req ∷ before.net
  pub kept_storage : after.storage ≡ before.storage

-- What is made of an answer leaves the world alone.
and_then-world :
    {Net A B : Type 0} (o : Outcome A) (w : World Net) (read : A → Outcome B)
    → (and_then (o, w) (λ a w'. (read a, w'))).1 ≡ w
and_then-world (returned a) w read = refl
and_then-world (threw e) w read = refl

request-SendsOne :
    (server : HttpRequest → Log → Fetched) (e : Endpoint) (w : World Log)
    → SetsNone e.init.headers
    → SendsOne e w (request (recorder server) e.path e.init w).1
unfolding request
request-SendsOne server e w clean = record {
  req = _;
  sent = record {
    method = refl;
    url = refl;
    body = refl;
    headers = request_headers_lem e.init (get_token w.storage) clean;
  };
  log = refl;
  kept_storage = refl;
}

pub perform-world :
    {Net : Type 0} (fetch : Fetch Net) (e : Endpoint) (w : World Net)
    → (perform fetch e w).1 ≡ (request fetch e.path e.init w).1
unfolding perform
perform-world fetch e w = and_then-world (request fetch e.path e.init w).0 _ (read_reply e.reply)

pub perform-storage :
    {Net : Type 0} (fetch : Fetch Net) (e : Endpoint) (w : World Net)
    → (perform fetch e w).1.storage ≡ w.storage
unfolding request
perform-storage fetch e w = rw (perform-world fetch e w)

-- A function that goes through `request`, and whose own headers name none of those that `request`
-- sets, sends exactly one request, to its own path below the base, with its method and body and the
-- headers that fit the body and the stored token, and leaves the storage as it was.
pub perform-SendsOne :
    (server : HttpRequest → Log → Fetched) (e : Endpoint) (w : World Log)
    → SetsNone e.init.headers
    → SendsOne e w (perform (recorder server) e w).1
perform-SendsOne server e w clean =
    rw (perform-world (recorder server) e w) (request-SendsOne server e w clean)
