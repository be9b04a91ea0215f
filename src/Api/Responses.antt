-- ===== src/Api/Responses.antt =====
-- app/core/exception_handlers.py, and FastAPI's own handlers where the program registers none: the
-- response to a result.
use verisure_ads_automation.Base.{ℕ, Bool, true, false, Option, none, some, String}
use verisure_ads_automation.Exceptions.{ExceptionClass}
use verisure_ads_automation.Session.{Database, Result, ok, raised, Action}

-- A JSON response with content, one with `{"detail": ...}` and perhaps the `WWW-Authenticate`
-- header, and the plain one of an exception that has no handler.
pub data Response (A : Type 0) : Type 0 where
  content : (status_code : ℕ) → A → Response A
  json_error : (status_code : ℕ) (detail : String) (challenge : Bool) → Response A
  internal_server_error : Response A

-- The handlers, by the class of the exception: the status, and whether a challenge is sent. The
-- subclasses of AuthenticationError have its handler. The last two are FastAPI's, for HTTPException
-- and for a request that does not fit its schema.
abbrev pub handler : ExceptionClass → Option (ℕ × Bool)
handler ExceptionClass.authentication_error = some (401, true)
handler ExceptionClass.invalid_credentials = some (401, true)
handler ExceptionClass.invalid_access_token = some (401, true)
handler ExceptionClass.invalid_refresh_token = some (401, true)
handler ExceptionClass.refresh_token_expired = some (401, true)
handler ExceptionClass.refresh_token_revoked = some (401, true)
handler ExceptionClass.refresh_token_reuse = some (401, true)
handler ExceptionClass.tenant_not_found = some (404, false)
handler ExceptionClass.tenant_inactive = some (403, false)
handler ExceptionClass.user_not_found = some (404, false)
handler ExceptionClass.user_inactive = some (403, false)
handler ExceptionClass.campaign_not_found = some (404, false)
handler ExceptionClass.invalid_campaign_state = some (409, false)
handler ExceptionClass.campaign_validation = some (422, false)
handler ExceptionClass.deployment_not_found = some (404, false)
handler ExceptionClass.invalid_deployment_state = some (409, false)
handler ExceptionClass.connection_not_found = some (404, false)
handler ExceptionClass.connection_already_exists = some (409, false)
handler ExceptionClass.invalid_connection_state = some (409, false)
handler ExceptionClass.encryption_unavailable = some (500, false)
handler ExceptionClass.credential_decryption = some (500, false)
handler ExceptionClass.publish_job_not_found = some (404, false)
handler ExceptionClass.http_unauthorized = some (401, true)
handler ExceptionClass.request_validation_error = some (422, false)
handler _ = none

abbrev handled : {A : Type 0} → Option (ℕ × Bool) → String → Response A
handled none detail = internal_server_error
handled (some (status_code, challenge)) detail = json_error status_code detail challenge

-- The response to the result of an endpoint whose success has the status `status_code`.
abbrev pub respond : {A : Type 0} → ℕ → Result A → Response A
respond status_code (ok a) = content status_code a
respond status_code (raised e) = handled (handler e.class) e.message

-- `get_db` around a request: what is committed stays.
unfoldable pub serve : {A : Type 0} → ℕ → Action A → Database → Response A × Database
serve status_code endpoint db =
    let (r, s) = endpoint (record { saved = db; current = db }) in (respond status_code r, s.saved)
