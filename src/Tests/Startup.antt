-- ===== src/Tests/Startup.antt =====
-- The theorems on the settings at those of a production, and on the middleware.
use verisure_ads_automation.Base.{◌≡◌, ◌⊎◌, refl, true, none, some, [], ◌∷◌, pos, arith}
use verisure_ads_automation.Base.Text.{codes, strip, is_blank, lower, upper, text_eqb, is_one_of}
use verisure_ads_automation.Exceptions.{Exception, configuration_error}
use verisure_ads_automation.Session.{ok, raised}
use verisure_ads_automation.Connections.Envelope.{
  build_fernets, new_service, parse_keys, parse_each, split_commas,
}
use verisure_ads_automation.Configuration.{Settings, cors_origin_list, stripped_parts}
use verisure_ads_automation.Configuration.Startup.{
  validate_startup_config, validate_app_env, validate_database_url, validate_jwt_secret,
  validate_encryption_key, validate_log_level, validate_log_format, validate_publish_intervals,
  validate_cors, validate_docs,
}
use verisure_ads_automation.Configuration.Validated.{IsConfigured, validate_startup_config_cases}
use verisure_ads_automation.Configuration.Application.{create_application, build}
use verisure_ads_automation.Configuration.Exposure.{IsClosed, create_application-IsClosed}
use verisure_ads_automation.Health.{available, worker_endpoint}
use verisure_ads_automation.Observability.Middleware.{Run, Scope, response_start, call}
use verisure_ads_automation.Observability.RequestIds.{IsSafeId, Chosen}
use verisure_ads_automation.Observability.Contained.{Contained, call-IsContained}
use verisure_ads_automation.Tests.Sealing.{libraries}

abbrev production : Settings
production = record {
  app_name = "Ads";
  app_env = codes "production";
  database_url = some "postgresql://db/ads";
  jwt_secret_key = codes "0123456789abcdef0123456789abcdef";
  encryption_key = some "key";
  publish_job_poll_interval_seconds = pos 5;
  publish_job_stale_after_seconds = pos 300;
  log_level = codes "info";
  log_format = codes "json";
  cors_allow_origins = codes "https://ads.example";
  cors_allow_credentials = true;
  docs_enabled = none;
}

settings_example :
    ((validate_startup_config (λ url. true) libraries production ≡ ok production)
      × IsConfigured (λ url. true) libraries production)
    ⊎ ((e : Exception) × (validate_startup_config (λ url. true) libraries production ≡ raised e)
        × (e.class ≡ configuration_error)
        × (¬ IsConfigured (λ url. true) libraries production))
settings_example = validate_startup_config_cases (λ url. true) libraries production

exposure_example :
    IsConfigured (λ url. true) libraries production
    × IsClosed (build production)
    × (worker_endpoint production ≡ (200, available))
unfolding create_application validate_startup_config validate_app_env validate_database_url
    validate_jwt_secret validate_encryption_key validate_log_level validate_log_format
    validate_publish_intervals validate_cors validate_docs cors_origin_list stripped_parts
    split_commas new_service parse_keys parse_each is_blank strip lower upper text_eqb is_one_of
    build_fernets
exposure_example =
    create_application-IsClosed (λ url. true) libraries production refl (build production) refl

abbrev a_scope : Scope
a_scope = record {
  is_http = true;
  x_request_id = some (codes " abc ");
  method = codes "GET";
  path = codes "/campaigns";
  client = none;
  generated = codes "drawn";
  duration_ms = 3;
}

drawn-IsSafeId : IsSafeId (codes "drawn")
drawn-IsSafeId = record {
  not_empty = λ e. cc;
  short = omega arith;
  printable = (refl, (refl, (refl, (refl, (refl, tt)))));
}

abbrev answering : Run
answering = record { sent = response_start 200 [] ∷ []; raises = none; context = none }

middleware_example :
    (id : _) × IsSafeId id
    × Chosen (codes "drawn") (some (codes " abc ")) id
    × Contained id answering (call (λ context. answering) a_scope none)
middleware_example = call-IsContained (λ context. answering) a_scope none refl drawn-IsSafeId
