-- ===== src/Sanitization/Keywords.antt =====
-- The keyword tables of app/core/provider_error_sanitization.py.
use verisure_ads_automation.Base.{List, [], ◌∷◌}
use verisure_ads_automation.Base.Text.{Text, codes}

abbrev pub auth_keywords : List Text
auth_keywords =
    codes "unauthorized"
    ∷ codes "authentication"
    ∷ codes "authenticate"
    ∷ codes "access denied"
    ∷ codes "forbidden"
    ∷ codes "invalid token"
    ∷ codes "invalid_token"
    ∷ codes "expired token"
    ∷ codes "www-authenticate"
    ∷ codes " 401"
    ∷ codes "401 "
    ∷ codes " 403"
    ∷ codes "403 "
    ∷ []

abbrev pub rate_keywords : List Text
rate_keywords =
    codes "rate limit"
    ∷ codes "ratelimit"
    ∷ codes "too many requests"
    ∷ codes "throttle"
    ∷ codes " 429"
    ∷ codes "429 "
    ∷ []

abbrev pub temp_keywords : List Text
temp_keywords =
    codes "timeout"
    ∷ codes "timed out"
    ∷ codes "temporarily unavailable"
    ∷ codes "service unavailable"
    ∷ codes "connection reset"
    ∷ codes "connection refused"
    ∷ codes " 502"
    ∷ codes "502 "
    ∷ codes " 503"
    ∷ codes "503 "
    ∷ codes " 504"
    ∷ codes "504 "
    ∷ []

abbrev pub sensitive_markers : List Text
sensitive_markers =
    codes "authorization:"
    ∷ codes "bearer "
    ∷ codes "access_token"
    ∷ codes "access-token"
    ∷ codes "refresh_token"
    ∷ codes "refresh-token"
    ∷ codes "client_secret"
    ∷ codes "client-secret"
    ∷ codes "api_key"
    ∷ codes "api-key"
    ∷ codes "apikey"
    ∷ codes "encryption_key"
    ∷ codes "encryption-key"
    ∷ codes "private_key"
    ∷ codes "cookie:"
    ∷ codes "set-cookie"
    ∷ codes "postgresql://"
    ∷ codes "postgres://"
    ∷ codes "mysql://"
    ∷ codes "mongodb://"
    ∷ codes "redis://"
    ∷ codes "eyj"
    ∷ codes "traceback"
    ∷ codes "stack trace"
    ∷ codes "-----begin"
    ∷ []
