-- ===== src/Observability/Contained.antt =====
-- What RequestContextMiddleware guarantees around any application.
use verisure_ads_automation.Base.{◌≡◌, refl, true, none, some, List, [], ◌∷◌, map, length}
use verisure_ads_automation.Base.Text.{Text, lower}
use verisure_ads_automation.Observability.{Context, str, bind}
use verisure_ads_automation.Observability.Middleware.{
  Message, response_start, other_message, remove_header, set_header, request_id_header,
  send_wrapper, Run, AccessLog, Scope, call, resolve_request_id,
}
use verisure_ads_automation.Observability.RequestIds.{IsSafeId, Chosen, resolve-Chosen}
use verisure_ads_automation.Observability.Headers.{values_of, values-set, remove-set}

-- The message that is sent on for one of the application.
pub Stamped : Text → Message → Message → Type 0
Stamped id (response_start status headers) sent =
    (headers' : List (Text × Text)) × (sent ≡ response_start status headers')
    × (values_of request_id_header headers' ≡ id ∷ [])
    × (remove_header request_id_header headers' ≡ remove_header request_id_header headers)
Stamped id (other_message body) sent = sent ≡ other_message body

pub AllStamped : Text → List Message → List Message → Type 0
AllStamped id [] sent = sent ≡ []
AllStamped id (m ∷ ms) sent =
    (m' : Message) × (ms' : List Message) × (sent ≡ m' ∷ ms')
    × Stamped id m m'
    × AllStamped id ms ms'

header_lower : lower (lower request_id_header) ≡ lower request_id_header
unfolding lower
header_lower = refl

send_wrapper-Stamped : (id : Text) (m : Message) → Stamped id m (send_wrapper id m)
unfolding Stamped
send_wrapper-Stamped id (response_start status headers) = (
  set_header request_id_header id headers,
  refl,
  values-set request_id_header id headers header_lower,
  remove-set request_id_header id headers header_lower,
)
send_wrapper-Stamped id (other_message body) = refl

all-Stamped : (id : Text) (ms : List Message) → AllStamped id ms (map (send_wrapper id) ms)
unfolding AllStamped
all-Stamped id [] = refl
all-Stamped id (m ∷ ms) = (
  send_wrapper id m,
  map (send_wrapper id) ms,
  refl,
  send_wrapper-Stamped id m,
  all-Stamped id ms,
)

-- What the middleware makes of the run of an application.
pub record Contained (id : Text) (inner : Run) (outer : Run × List AccessLog) : Type 0 where
  pub sent : AllStamped id inner.sent outer.0.sent
  pub same_error : outer.0.raises ≡ inner.raises
  pub cleared : outer.0.context ≡ none
  pub logged_once : length outer.1 ≡ 1

-- An HTTP request, with a drawn id that is safe, is given a safe id: its header X-Request-ID,
-- stripped, where that is safe, and the drawn one otherwise. The application runs with that id
-- bound in the context. Whatever it does, each response start that it sends goes out with the same
-- status, with the id as the only value of X-Request-ID and with its other headers as they are, the
-- other messages go out unchanged and in order, an exception is raised again, one line of the
-- access log is written, and the context is empty afterwards.
pub call-IsContained :
    (app : Context → Run) (scope : Scope) (context : Context)
    → scope.is_http ≡ true
    → IsSafeId scope.generated
    → (id : Text) × IsSafeId id
      × Chosen scope.generated scope.x_request_id id
      × Contained id
          (app (bind (("request_id", some (str id)) ∷ []) context).1)
          (call app scope context)
unfolding call
call-IsContained app scope context http safe =
    let id = resolve_request_id scope.generated scope.x_request_id in
    let chosen = resolve-Chosen scope.generated scope.x_request_id safe in
    let inner = app (bind (("request_id", some (str id)) ∷ []) context).1 in
    (
      id,
      chosen.0,
      chosen.1,
      rw http (record {
        sent = all-Stamped id inner.sent;
        same_error = refl;
        cleared = refl;
        logged_once = refl;
      }),
    )
