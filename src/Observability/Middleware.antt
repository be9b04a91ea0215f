-- ===== src/Observability/Middleware.antt =====
-- app/middleware/request_context.py. The application inside is an argument: what it sends, whether
-- it raises, and what it does to the context. Header texts are those of Latin-1, of which `strip`
-- takes the white space of ASCII only.
use verisure_ads_automation.Base.{
  ℕ, Bool, true, false, not, ◌&&◌, ◌||◌, Option, none, some, List, [], ◌∷◌, map, leb, ltb, ◌==◌,
  nat_eq, length, if◌then◌else◌,
}
use verisure_ads_automation.Base.Text.{Text, codes, strip, is_empty, lower, text_eqb}
use verisure_ads_automation.Exceptions.{Exception}
use verisure_ads_automation.Observability.{str, int, Context, bind, clear}

abbrev pub max_request_id_length : ℕ
max_request_id_length = 128

-- `"\r" in text or "\n" in text`
unfoldable pub has_newline : Text → Bool
has_newline [] = false
has_newline (c ∷ t) = c == 13 || c == 10 || has_newline t

-- `char.isprintable()` of a Latin-1 character
abbrev pub is_printable_code : ℕ → Bool
is_printable_code c = (leb 32 c && leb c 126) || (leb 161 c && leb c 255 && not (c == 173))

unfoldable pub is_printable : Text → Bool
is_printable [] = true
is_printable (c ∷ t) = is_printable_code c && is_printable t

-- The checks on the stripped header; `generated` is `str(uuid4())`.
abbrev pub accept : Text → Text → Text
accept generated candidate =
    if is_empty candidate
    then generated
    else if ltb max_request_id_length (length candidate)
    then generated
    else if has_newline candidate
    then generated
    else if not (is_printable candidate)
    then generated
    else candidate

unfoldable pub resolve_request_id : Text → Option Text → Text
unfolding has_newline is_printable
resolve_request_id generated none = generated
resolve_request_id generated (some raw) = accept generated (strip raw)

abbrev pub Headers : Type 0
Headers = List (Text × Text)

pub data Message : Type 0 where
  response_start : (status : ℕ) → Headers → Message
  other_message : Text → Message

-- Names of headers are equal up to case; ASGI gives them in lower case.
abbrev pub is_header : Text → Text → Bool
is_header name other = text_eqb (lower other) (lower name)

-- The headers of another name.
unfoldable pub remove_header : Text → Headers → Headers
remove_header name [] = []
remove_header name ((n, v) ∷ headers) =
    let rest = remove_header name headers in if is_header name n then rest else (n, v) ∷ rest

-- `mutable[name] = value`: in the place of the first header of that name, or at the end, under the
-- name in lower case.
unfoldable pub set_header : Text → Text → Headers → Headers
unfolding remove_header
set_header name value [] = (lower name, value) ∷ []
set_header name value ((n, v) ∷ headers) =
    if is_header name n
    then (lower name, value) ∷ remove_header name headers
    else (n, v) ∷ set_header name value headers

abbrev pub request_id_header : Text
request_id_header = codes "X-Request-ID"

-- `send_wrapper`: what is sent on for a message, and the status that is remembered.
abbrev pub send_wrapper : Text → Message → Message
send_wrapper request_id (response_start status headers) =
    response_start status (set_header request_id_header request_id headers)
send_wrapper request_id (other_message body) = other_message body

abbrev pub remember : ℕ → Message → ℕ
remember status (response_start status' headers) = status'
remember status (other_message body) = status

unfoldable pub last_status : ℕ → List Message → ℕ
last_status status [] = status
last_status status (m ∷ ms) = last_status (remember status m) ms

-- What a call of an application does: the messages that it sends, the exception that it raises, if
-- any, and the context that it leaves.
pub record Run : Type 0 where
  pub sent : List Message
  pub raises : Option Exception
  pub context : Context

-- One line of the access log, with the context at that time.
pub record AccessLog : Type 0 where
  pub is_info : Bool
  pub context : Context

-- Of the scope of a request what the middleware reads, with what it draws: the new id and the
-- duration.
pub record Scope : Type 0 where
  pub is_http : Bool
  pub x_request_id : Option Text
  pub method : Text
  pub path : Text
  pub client : Option Text
  pub generated : Text
  pub duration_ms : ℕ

abbrev bind_address : Option Text → Context → Context
bind_address none context = context
bind_address (some address) context = (bind (("remote_addr", some (str address)) ∷ []) context).1

-- The context of the access log, after that of the application.
unfoldable pub access_context : Scope → ℕ → Context → Context
access_context scope status context =
    let bound =
      bind
        (("method", some (str scope.method))
          ∷ ("path", some (str scope.path))
          ∷ ("status", some (int status))
          ∷ ("duration_ms", some (int scope.duration_ms))
          ∷ ("service", some (str (codes "api")))
          ∷ [])
        context in
    bind_address scope.client bound.1

-- `RequestContextMiddleware.__call__`: what is sent on, raised and left, and the access log.
unfoldable pub call : (Context → Run) → Scope → Context → Run × List AccessLog
unfolding resolve_request_id last_status access_context
call app scope context =
    if not scope.is_http
    then (app context, [])
    else let request_id = resolve_request_id scope.generated scope.x_request_id in
      let inner = app (bind (("request_id", some (str request_id)) ∷ []) context).1 in
      let logged = access_context scope (last_status 500 inner.sent) inner.context in
      (
        record {
          sent = map (send_wrapper request_id) inner.sent;
          raises = inner.raises;
          context = clear logged;
        },
        record { is_info = not (text_eqb scope.path (codes "/health")); context = logged } ∷ [],
      )
