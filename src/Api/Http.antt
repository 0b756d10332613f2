-- ===== src/Api/Http.antt =====
-- web/src/lib/api.ts, request plumbing: the errors, the effects of a call, and `request`.
-- `fetch` is the browser's: a parameter, which answers from a network state of its own.
pub mod Laws
use mirocraft.Prelude.{
  Bool, ℕ, List, [], ◌++◌, Option, none, some, if◌then◌else◌, Text, codes, is_empty, leb, ◌&&◌,
  ◌==◌, map, ◌+◌,
}
use mirocraft.Prelude.Dict.{insert}
use mirocraft.Api.Json.{Json, undefined, null, str, obj, end, property, nullish}
use mirocraft.Api.Session.{Storage, get_token}

abbrev pub api_base : Text
api_base = codes "/api/v1"

pub data Method : Type 0 where
  get post put patch delete : Method

abbrev pub Headers : Type 0
Headers = List (Text × Text)

-- The body is what `JSON.stringify` was given; its text is never empty.
pub record RequestInit : Type 0 where
  pub method : Method
  pub headers : Headers
  pub body : Option Json

pub record UploadFile : Type 0 where
  pub name : Text
  pub content : List ℕ

-- What `fetch` is given for a body: none, a JSON text, or a form with a path and a file.
pub data Body : Type 0 where
  no_body : Body
  json_text : Json → Body
  multipart : (path : Text) → UploadFile → Body

pub record HttpRequest : Type 0 where
  pub method : Method
  pub url : Text
  pub headers : Headers
  pub body : Body

-- A response's text, by what `JSON.parse` makes of it.
pub data Payload : Type 0 where
  empty malformed : Payload
  json : Json → Payload

pub record Response : Type 0 where
  pub status : ℕ
  pub status_text : Text
  pub payload : Payload

pub data Fetched : Type 0 where
  answered : Response → Fetched
  unreachable : Fetched

-- What a call throws: an `ApiError`, the rejection of `fetch`, a SyntaxError of `JSON.parse`, or
-- the TypeError of reading a property of null or undefined.
pub data Failure : Type 0 where
  api_error : (status : ℕ) → (code message details : Json) → Failure
  network syntax type_error : Failure

pub data Outcome {ℓ} (A : Type ℓ) : Type ℓ where
  returned : A → Outcome A
  threw : Failure → Outcome A

pub record World (Net : Type 0) : Type 0 where
  pub storage : Storage
  pub net : Net

abbrev pub Fetch : Type 0 → Type 0
Fetch Net = HttpRequest → Net → Fetched × Net

-- A call: it changes the world and returns or throws.
abbrev pub Call : Type 0 → Type 0 → Type 0
Call Net A = World Net → Outcome A × World Net

abbrev pub and_then :
    {Net A B : Type 0} → Outcome A × World Net → (A → Call Net B) → Outcome B × World Net
and_then (returned a, w) f = f a w
and_then (threw e, w) f = (threw e, w)

infixl 5 ◌>>=◌ ◌>>◌
abbrev pub ◌>>=◌ : {Net A B : Type 0} → Call Net A → (A → Call Net B) → Call Net B
◌>>=◌ m f w = and_then (m w) f

abbrev pub ◌>>◌ : {Net A B : Type 0} → Call Net A → Call Net B → Call Net B
m >> k = m >>= λ _. k

abbrev pub pure : {Net A : Type 0} → A → Call Net A
pure a w = (returned a, w)

abbrev pub throw : {Net A : Type 0} → Failure → Call Net A
throw e w = (threw e, w)

-- `try { m } finally { last }`
abbrev pub finally : {Net A : Type 0} → Call Net A → (World Net → World Net) → Call Net A
finally m last w = let (r, w') = m w in (r, last w')

abbrev pub init_body : Option Json → Body
init_body none = no_body
init_body (some body) = json_text body

-- `headers.set`: header names are compared without their case.
abbrev lower : ℕ → ℕ
lower c = if leb b'A' c && leb c b'Z' then c + 32 else c

abbrev pub header_name : Text → Text
header_name = map lower

unfoldable pub set_header : Text → Text → Headers → Headers
set_header name value h = insert (header_name name) value h

abbrev pub bearer : Text → Text
bearer token = codes "Bearer " ++ token

-- `if (token) headers.set("Authorization", ...)`
unfoldable pub authorize : Option Text → Headers → Headers
authorize none h = h
authorize (some token) h =
    if is_empty token then h else set_header (codes "Authorization") (bearer token) h

abbrev pub json_type : Text
json_type = codes "application/json"

unfoldable pub content_type : Option Json → Headers → Headers
content_type none h = h
content_type (some body) h = set_header (codes "Content-Type") json_type h

unfoldable pub request_headers : RequestInit → Option Text → Headers
unfolding authorize content_type
request_headers init token =
    authorize token (content_type init.body (set_header (codes "Accept") json_type init.headers))

abbrev pub is_ok : Response → Bool
is_ok r = leb 200 r.status && leb r.status 299

-- The `ApiError` of a response that is not ok; `details` is left out by the calls that bypass
-- `request`.
unfoldable pub error_of : Response → Json → Failure
unfolding property
error_of r body =
    let error = nullish (property (codes "error") body) (obj end) in
    api_error r.status (nullish (property (codes "code") error) (str (codes "internal_error")))
      (nullish (property (codes "message") error) (str r.status_text))
      (property (codes "details") error)

-- What follows once the text is parsed.
abbrev pub judge : Response → Json → Outcome Json
judge r body = if is_ok r then returned body else threw (error_of r body)

-- From `if (response.status === 204)` to the end of `request`.
unfoldable pub read_response : Response → Outcome Json
unfolding error_of
read_response r = if r.status == 204 then returned undefined else elim r.payload [
  | empty ↦ judge r null
  | malformed ↦ threw syntax
  | json body ↦ judge r body
]

unfoldable pub settle : Fetched → Outcome Json
unfolding read_response
settle (answered r) = read_response r
settle unreachable = threw network

module _ {Net : Type 0} (fetch : Fetch Net) where
  unfoldable pub request : Text → RequestInit → Call Net Json
  unfolding request_headers settle
  request path init w =
      let req : HttpRequest = record {
        method = init.method;
        url = api_base ++ path;
        headers = request_headers init (get_token w.storage);
        body = init_body init.body;
      } in
      let (answer, net') = fetch req w.net in (settle answer, record w { net = net' })

-- The inits that the callers write.
abbrev pub plain : Method → RequestInit
plain m = record { method = m; headers = []; body = none }

abbrev pub with_body : Method → Json → RequestInit
with_body m body = record { method = m; headers = []; body = some body }
