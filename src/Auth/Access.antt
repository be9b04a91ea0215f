-- ===== src/Auth/Access.antt =====
-- `get_current_user` of app/api/dependencies.py: the user that an access token stands for.
use verisure_ads_automation.Base.{
  Bool, true, false, not, ◌||◌, Option, none, some, String, nat_eq, is_some, if◌then◌else◌,
}
use text.Mathlib.Text.{◌==◌ as str_eq}
use verisure_ads_automation.Exceptions.{
  ExceptionClass, invalid_access_token, tenant_not_found, tenant_inactive, user_not_found,
  user_inactive, other_error, http_unauthorized, Exception, invalid_access_token_error,
  tenant_not_found_error, tenant_inactive_error, user_not_found_error, user_inactive_error,
}
use verisure_ads_automation.Models.Provider.{Uuid, Instant}
use verisure_ads_automation.Models.Identity.{User}
use verisure_ads_automation.Session.{Action, pure, raise, query, ◌>>=◌, ◌>>◌, try_except, when}
use verisure_ads_automation.Auth.Repository.{get_tenant_by_id, get_user_by_id}
use verisure_ads_automation.Auth.Service.{require}
use verisure_ads_automation.Auth.Jwt.{
  JwtSettings, JwtLibrary, Claim, str, other, is_access, decode_access_token,
}

-- `InvalidAccessTokenError(message)`
abbrev pub invalid_token : String → Exception
invalid_token message = record { class = invalid_access_token; message = message }

-- `_unauthorized(detail)`
abbrev pub unauthorized : String → Exception
unauthorized detail = record { class = http_unauthorized; message = detail }

-- `not value` of a claim
abbrev pub is_falsy : Option Claim → Bool
is_falsy none = true
is_falsy (some (str t)) = str_eq t ""
is_falsy (some (other truth)) = not truth

-- `UUID(raw)` in the inner `try`: a ValueError becomes an InvalidAccessTokenError, and what is not
-- a text has no `replace`, which is an AttributeError.
abbrev pub parse_claim : JwtLibrary → Option Claim → Action Uuid
parse_claim lib (some (str t)) =
    require (invalid_token "Malformed token claims.") (lib.parse_uuid t)
parse_claim lib _ = raise (record { class = other_error; message = "AttributeError" })

-- The classes that the outer `except` clause names.
abbrev pub is_refusal : ExceptionClass → Bool
is_refusal invalid_access_token = true
is_refusal tenant_not_found = true
is_refusal tenant_inactive = true
is_refusal user_not_found = true
is_refusal user_inactive = true
is_refusal _ = false

-- The body of the outer `try`.
unfoldable pub resolve_user : JwtLibrary → JwtSettings → Instant → String → Action User
resolve_user lib settings now token = do
  claims ← require invalid_access_token_error (decode_access_token lib settings now token)
  when (not (is_access (claims "type"))) (raise (invalid_token "Invalid token type."))
  when (is_falsy (claims "tenant_id") || is_falsy (claims "sub"))
      (raise (invalid_token "Malformed token claims."))
  tenant_id ← parse_claim lib (claims "tenant_id")
  user_id ← parse_claim lib (claims "sub")
  tenant_row ← query (λ db. get_tenant_by_id tenant_id db.tenants)
  tenant ← require tenant_not_found_error tenant_row
  when (is_some tenant.deleted_at) (raise tenant_inactive_error)
  user_row ← query (λ db. get_user_by_id tenant_id user_id db.users)
  user ← require user_not_found_error user_row
  when (is_some user.deleted_at) (raise user_inactive_error)
  pure user

unfoldable pub get_current_user : JwtLibrary → JwtSettings → Instant → String → Action User
unfolding resolve_user
get_current_user lib settings now token =
    try_except (resolve_user lib settings now token)
      (λ e. raise (if is_refusal e.class then unauthorized e.message else e))
