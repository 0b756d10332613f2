-- ===== src/Api/Http/Laws.antt =====
-- `request` of web/src/lib/api.ts: the headers that it sends, and what it makes of the answer.
use mirocraft.Prelude.{
  ℕ, ◌≤◌, true, false, ◌≡◌, ◌≢◌, refl, ◌⊎◌, inl, inr, [], ◌∷◌, Option, none, some, Text, codes,
  is_empty, if◌then◌else◌, ◌==◌, arith, ◌===◌, Bool-cases,
}
use mirocraft.Prelude.Dict.{lookup, lookup-insert}
use mirocraft.Api.Json.{Json, undefined, null, str, obj, end, property, nullish}
use mirocraft.Api.Http.{
  Outcome, returned, threw, api_error, syntax, Response, Payload, empty, malformed, json, is_ok,
  judge, read_response, error_of, RequestInit, Headers, set_header, authorize, content_type,
  request_headers, bearer, json_type,
}

-- An answer counts as a success exactly when its status is 2xx and its text parses, if it is read.
abbrev pub IsSuccess : Response → Type 0
IsSuccess r = (200 ≤ r.status) × (r.status ≤ 299) × ((r.status ≡ 204) ⊎ (r.payload ≢ malformed))

-- What `request` returns then: nothing for 204, null for an empty text, else the parsed text.
abbrev pub success_body : Response → Json
success_body r =
    if r.status == 204
    then undefined
    else elim r.payload [ empty ↦ null | malformed ↦ undefined | json body ↦ body ]

abbrev pub IsMissing : Json → Type 0
IsMissing undefined = Unit
IsMissing null = Unit
IsMissing j = ⊥

nullish_str : (j : Json) (t : Text) → ¬ IsMissing (nullish j (str t))
nullish_str undefined t = λ m. m
nullish_str null t = λ m. m
nullish_str _ t = λ m. m

-- Whether a response explains what `request` returned or threw for it.
abbrev pub Explains : Response → Outcome Json → Type 0
Explains r (returned body) = IsSuccess r × (body ≡ success_body r)
Explains r (threw (api_error status code message details)) =
    (status ≡ r.status) × (is_ok r ≡ false) × ¬ IsMissing code × ¬ IsMissing message
Explains r (threw syntax) = (r.payload ≡ malformed) × (r.status ≢ 204)
Explains r (threw other) = ⊥

error_of-Explains :
    (r : Response) (body : Json) → is_ok r ≡ false → Explains r (threw (error_of r body))
unfolding error_of
error_of-Explains r body bad =
    let error = nullish (property (codes "error") body) (obj end) in
    (
      refl,
      bad,
      nullish_str (property (codes "code") error) (codes "internal_error"),
      nullish_str (property (codes "message") error) r.status_text,
    )

judge-Explains :
    (r : Response) (body : Json)
    → (is_ok r ≡ true → IsSuccess r × (body ≡ success_body r))
    → Explains r (judge r body)
judge-Explains r body good = elim (Bool-cases (is_ok r)) [
  | inl fine ↦ rw fine (good fine)
  | inr bad ↦ rw bad (error_of-Explains r body bad)
]

abbrev response : ℕ → Text → Payload → Response
response status status_text p = record { status = status; status_text = status_text; payload = p }

read_spoken-Explains :
    (status : ℕ) (status_text : Text) (p : Payload)
    → (status == 204) ≡ false
    → Explains (response status status_text p) (read_response (response status status_text p))
unfolding read_response
read_spoken-Explains status status_text empty h =
    rw h (judge-Explains (response status status_text empty) null (λ fine. ground arith))
read_spoken-Explains status status_text malformed h = rw h (refl, ground arith)
read_spoken-Explains status status_text (json body) h =
    rw h (judge-Explains (response status status_text (json body)) body (λ fine. ground arith))

-- Whatever the response: `request` returns only for a status of 2xx with a text that parses, if it
-- is read, and returns what was parsed, null for an empty text and nothing for 204; it throws an
-- `ApiError` only for another status, with that status, a code and a message, and a SyntaxError
-- only for a text that does not parse.
pub read_response-Explains : (r : Response) → Explains r (read_response r)
unfolding read_response
read_response-Explains r = elim (Bool-cases (r.status == 204)) [
  | inl silent ↦ rw silent ((ground arith, ground arith, ground arith), rw silent)
  | inr speaks ↦ read_spoken-Explains r.status r.status_text r.payload speaks
]

-- Headers that say nothing of the three that `request` sets.
abbrev pub SetsNone : Headers → Type 0
SetsNone h =
    (lookup (codes "accept") h ≡ none)
    × (lookup (codes "content-type") h ≡ none)
    × (lookup (codes "authorization") h ≡ none)

abbrev pub authorization : Option Text → Option Text
authorization none = none
authorization (some token) = if is_empty token then none else some (bearer token)

abbrev pub content : Option Json → Option Text
content none = none
content (some body) = some json_type

abbrev pub HeadersFit : Headers → Option Json → Option Text → Type 0
HeadersFit h body token =
    (lookup (codes "accept") h ≡ some json_type)
    × (lookup (codes "content-type") h ≡ content body)
    × (lookup (codes "authorization") h ≡ authorization token)

accept_fit :
    (h : Headers) → SetsNone h → HeadersFit (set_header (codes "Accept") json_type h) none none
unfolding set_header codes ◌===◌
accept_fit h clean = simp lookup-insert (refl, clean.1, clean.2)

content_type_fit :
    (body : Option Json) (h : Headers)
    → HeadersFit h none none
    → HeadersFit (content_type body h) body none
unfolding content_type set_header codes ◌===◌
content_type_fit none h fit = fit
content_type_fit (some body) h fit = simp lookup-insert (fit.0, refl, fit.2)

authorize_fit :
    (token : Option Text) (body : Option Json) (h : Headers)
    → HeadersFit h body none
    → HeadersFit (authorize token h) body token
unfolding authorize set_header codes ◌===◌
authorize_fit none body h fit = fit
authorize_fit (some []) body h fit = fit
authorize_fit (some (c ∷ s)) body h fit = simp lookup-insert (fit.0, fit.1, refl)

-- A request whose init names none of the three headers accepts JSON, names the type of its body if
-- it has one, and carries the stored token if there is one that is not empty.
pub request_headers_lem :
    (init : RequestInit) (token : Option Text)
    → SetsNone init.headers
    → HeadersFit (request_headers init token) init.body token
unfolding request_headers
request_headers_lem init token clean =
    authorize_fit token init.body _ (content_type_fit init.body _ (accept_fit init.headers clean))
