-- ===== src/Configuration/Startup.antt =====
-- app/core/startup.py: validation of the settings when a process starts. SQLAlchemy's `make_url`
-- and the libraries of the encryption service are arguments.
use verisure_ads_automation.Base.{
  ℕ, Bool, true, false, not, ◌&&◌, Option, none, some, String, List, [], ◌∷◌, ltb, ◌==◌, nat_eq,
  length, ℤ, pos, negsuc, if◌then◌else◌,
}
use verisure_ads_automation.Base.Text.{Text, codes, lower, upper, strip, is_blank, is_one_of}
use verisure_ads_automation.Exceptions.{configuration_error}
use verisure_ads_automation.Session.{Result, ok, raised}
use verisure_ads_automation.Connections.Envelope.{Libraries, new_service}
use verisure_ads_automation.Configuration.{Settings, cors_origin_list, is_production}

abbrev pub allowed_app_envs : List Text
allowed_app_envs = codes "development" ∷ codes "testing" ∷ codes "production" ∷ []

abbrev pub allowed_log_levels : List Text
allowed_log_levels =
    codes "DEBUG" ∷ codes "INFO" ∷ codes "WARNING" ∷ codes "ERROR" ∷ codes "CRITICAL" ∷ []

abbrev pub allowed_log_formats : List Text
allowed_log_formats = codes "text" ∷ codes "json" ∷ []

abbrev pub insecure_jwt_secrets : List Text
insecure_jwt_secrets =
    codes "secret"
    ∷ codes "changeme"
    ∷ codes "password"
    ∷ codes "dev"
    ∷ codes "dev-only-change-me"
    ∷ []

abbrev pub min_jwt_secret_length : ℕ
min_jwt_secret_length = 32

-- `raise ConfigurationError(message)`
abbrev pub misconfigured : {A : Type 0} → String → Result A
misconfigured message = raised (record { class = configuration_error; message = message })

abbrev pub refuse_if : Bool → String → Result (Unit {0})
refuse_if true message = misconfigured message
refuse_if false message = ok tt

infixl 5 ◌>>◌
abbrev pub ◌>>◌ : {A : Type 0} → Result (Unit {0}) → Result A → Result A
ok _ >> k = k
raised e >> k = raised e

unfoldable pub validate_app_env : Settings → Result (Unit {0})
validate_app_env cfg =
    refuse_if (not (is_one_of cfg.app_env allowed_app_envs))
      "APP_ENV must be one of: development, testing, production."

-- `raw is None or not str(raw).strip()`
abbrev pub is_missing : Option String → Bool
is_missing none = true
is_missing (some raw) = is_blank (codes raw)

abbrev is_invalid_url : (Text → Bool) → Option String → Bool
is_invalid_url is_url none = false
is_invalid_url is_url (some raw) = not (is_url (strip (codes raw)))

-- `is_url` tells whether `make_url` accepts a text.
unfoldable pub validate_database_url : (Text → Bool) → Settings → Result (Unit {0})
validate_database_url is_url cfg =
    refuse_if (is_missing cfg.database_url) "DATABASE_URL is required."
    >> refuse_if (is_invalid_url is_url cfg.database_url)
        "DATABASE_URL is not a valid SQLAlchemy URL."

unfoldable pub validate_jwt_secret : Settings → Result (Unit {0})
validate_jwt_secret cfg =
    refuse_if (is_blank cfg.jwt_secret_key) "JWT_SECRET_KEY is required."
    >> refuse_if
        (is_production cfg && is_one_of (lower (strip cfg.jwt_secret_key)) insecure_jwt_secrets)
        "JWT_SECRET_KEY uses an insecure default value which is not allowed in production."
    >> refuse_if (ltb (length cfg.jwt_secret_key) min_jwt_secret_length)
        "JWT_SECRET_KEY must be at least 32 characters."

-- `except CredentialEncryptionUnavailableError as exc: raise ConfigurationError(str(exc))`
abbrev pub as_misconfigured : {A : Type 0} → Result A → Result (Unit {0})
as_misconfigured (ok service) = ok tt
as_misconfigured (raised e) = misconfigured e.message

unfoldable pub validate_encryption_key : Libraries → Settings → Result (Unit {0})
validate_encryption_key lib cfg = as_misconfigured (new_service lib cfg.encryption_key)

unfoldable pub validate_log_level : Settings → Result (Unit {0})
validate_log_level cfg =
    refuse_if (not (is_one_of (upper (strip cfg.log_level)) allowed_log_levels))
      "LOG_LEVEL must be one of: DEBUG, INFO, WARNING, ERROR, CRITICAL."

unfoldable pub validate_log_format : Settings → Result (Unit {0})
validate_log_format cfg =
    refuse_if (not (is_one_of cfg.log_format allowed_log_formats))
      "LOG_FORMAT must be one of: text, json."

-- `n < 1`
abbrev pub is_below_one : ℤ → Bool
is_below_one (pos n) = n == 0
is_below_one (negsuc n) = true

unfoldable pub validate_publish_intervals : Settings → Result (Unit {0})
validate_publish_intervals cfg =
    refuse_if (is_below_one cfg.publish_job_poll_interval_seconds)
      "PUBLISH_JOB_POLL_INTERVAL_SECONDS must be >= 1."
    >> refuse_if (is_below_one cfg.publish_job_stale_after_seconds)
        "PUBLISH_JOB_STALE_AFTER_SECONDS must be >= 1."

-- The checks where the wildcard is among the origins, and where it is not.
abbrev pub check_wildcard : Settings → List Text → Result (Unit {0})
check_wildcard cfg origins =
    refuse_if (not (length origins == 1)) "CORS_ALLOW_ORIGINS wildcard '*' must be the sole origin."
    >> refuse_if cfg.cors_allow_credentials
        "CORS_ALLOW_ORIGINS=['*'] cannot be combined with CORS_ALLOW_CREDENTIALS=true."
    >> refuse_if (is_production cfg)
        "Production CORS_ALLOW_ORIGINS must be an explicit allowlist; wildcard '*' is not allowed."

abbrev pub has_none : List Text → Bool
has_none [] = true
has_none (_ ∷ _) = false

abbrev pub check_allowlist : Settings → List Text → Result (Unit {0})
check_allowlist cfg origins =
    refuse_if (is_production cfg && has_none origins)
      "Production CORS_ALLOW_ORIGINS must be a non-empty explicit allowlist."

unfoldable pub validate_cors : Settings → Result (Unit {0})
validate_cors cfg =
    let origins = cors_origin_list cfg in
    if is_one_of (codes "*") origins
    then check_wildcard cfg origins
    else check_allowlist cfg origins

-- `docs_enabled is True`
abbrev pub is_true : Option Bool → Bool
is_true none = false
is_true (some b) = b

unfoldable pub validate_docs : Settings → Result (Unit {0})
validate_docs cfg =
    refuse_if (is_production cfg && is_true cfg.docs_enabled)
      "DOCS_ENABLED cannot be true in production."

unfoldable pub validate_startup_config : (Text → Bool) → Libraries → Settings → Result Settings
validate_startup_config is_url lib cfg =
    validate_app_env cfg
    >> validate_database_url is_url cfg
    >> validate_jwt_secret cfg
    >> validate_encryption_key lib cfg
    >> validate_log_level cfg
    >> validate_log_format cfg
    >> validate_publish_intervals cfg
    >> validate_cors cfg
    >> validate_docs cfg
    >> ok cfg
