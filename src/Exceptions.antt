-- ===== src/Exceptions.antt =====
-- app/core/exceptions.py: the exception classes, those of Python and SQLAlchemy that the code
-- raises or tests for, and the message that `str(exc)` gives.
use verisure_ads_automation.Base.{String, Bool, true, false}

pub data ExceptionClass : Type 0 where
  -- app/core/exceptions.py
  app_error authentication_error invalid_credentials invalid_access_token : ExceptionClass
  invalid_refresh_token refresh_token_expired refresh_token_revoked : ExceptionClass
  refresh_token_reuse tenant_not_found tenant_inactive user_not_found : ExceptionClass
  user_inactive campaign_not_found invalid_campaign_state campaign_validation : ExceptionClass
  deployment_not_found invalid_deployment_state : ExceptionClass
  connection_not_found connection_already_exists : ExceptionClass
  invalid_connection_state encryption_unavailable credential_decryption : ExceptionClass
  publish_job_not_found : ExceptionClass
  -- the builtin classes
  timeout_error connection_error connection_reset connection_refused : ExceptionClass
  broken_pipe interrupted_error value_error type_error key_error : ExceptionClass
  runtime_error not_implemented other_error : ExceptionClass
  -- SQLAlchemy's, the first with the name of the constraint that was violated as its message
  integrity_error data_error invalid_request : ExceptionClass
  -- FastAPI's HTTPException with status 401 and a `WWW-Authenticate` header
  http_unauthorized : ExceptionClass
  -- FastAPI's RequestValidationError
  request_validation_error : ExceptionClass
  -- app/core/startup.py
  configuration_error : ExceptionClass

pub record Exception : Type 0 where
  pub class : ExceptionClass
  pub message : String

-- `Class()`, with the default message of the class.
abbrev pub campaign_not_found_error : Exception
campaign_not_found_error = record { class = campaign_not_found; message = "Campaign not found." }

abbrev pub deployment_not_found_error : Exception
deployment_not_found_error = record {
  class = deployment_not_found;
  message = "Campaign deployment not found.";
}

abbrev pub connection_not_found_error : Exception
connection_not_found_error = record {
  class = connection_not_found;
  message = "Provider connection not found.";
}

abbrev pub connection_already_exists_error : Exception
connection_already_exists_error = record {
  class = connection_already_exists;
  message = "A connection to this provider already exists.";
}

abbrev pub publish_job_not_found_error : Exception
publish_job_not_found_error = record {
  class = publish_job_not_found;
  message = "Publish job not found.";
}

abbrev pub credential_decryption_error : Exception
credential_decryption_error = record {
  class = credential_decryption;
  message = "Unable to decrypt stored credentials.";
}

abbrev pub invalid_credentials_error : Exception
invalid_credentials_error = record {
  class = invalid_credentials;
  message = "Invalid tenant, email, or password.";
}

abbrev pub invalid_refresh_token_error : Exception
invalid_refresh_token_error = record {
  class = invalid_refresh_token;
  message = "Invalid refresh token.";
}

abbrev pub refresh_token_expired_error : Exception
refresh_token_expired_error = record {
  class = refresh_token_expired;
  message = "Refresh token has expired.";
}

abbrev pub refresh_token_revoked_error : Exception
refresh_token_revoked_error = record {
  class = refresh_token_revoked;
  message = "Refresh token has been revoked.";
}

abbrev pub refresh_token_reuse_error : Exception
refresh_token_reuse_error = record {
  class = refresh_token_reuse;
  message = "Refresh token reuse detected; session revoked.";
}

abbrev pub user_not_found_error : Exception
user_not_found_error = record { class = user_not_found; message = "User not found." }

abbrev pub invalid_access_token_error : Exception
invalid_access_token_error = record {
  class = invalid_access_token;
  message = "Invalid or expired access token.";
}

abbrev pub tenant_not_found_error : Exception
tenant_not_found_error = record { class = tenant_not_found; message = "Tenant not found." }

abbrev pub tenant_inactive_error : Exception
tenant_inactive_error = record { class = tenant_inactive; message = "Tenant is inactive." }

abbrev pub user_inactive_error : Exception
user_inactive_error = record { class = user_inactive; message = "User is inactive." }

-- `isinstance(exc, _TEMP_EXCEPTION_TYPES)`, subclasses included.
abbrev pub is_temporary : ExceptionClass → Bool
is_temporary timeout_error = true
is_temporary connection_error = true
is_temporary connection_reset = true
is_temporary connection_refused = true
is_temporary broken_pipe = true
is_temporary interrupted_error = true
is_temporary _ = false

abbrev pub is_integrity_error : ExceptionClass → Bool
is_integrity_error integrity_error = true
is_integrity_error _ = false
