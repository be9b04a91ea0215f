-- ===== src/Configuration/Application.antt =====
-- app/main.py: what `create_application` builds from validated settings. The routers and their
-- handlers are modelled in Api.
use verisure_ads_automation.Base.{Bool, Option, none, some, String, List, [], ◌∷◌, if◌then◌else◌}
use verisure_ads_automation.Base.Text.{Text}
use verisure_ads_automation.Session.{Result, ok, raised}
use verisure_ads_automation.Connections.Envelope.{Libraries}
use verisure_ads_automation.Configuration.{Settings, cors_origin_list, resolve_docs_enabled}
use verisure_ads_automation.Configuration.Startup.{validate_startup_config}

-- The middleware, the outermost last, as `add_middleware` is called.
pub data Middleware : Type 0 where
  cors : (allow_origins : List Text) (allow_credentials : Bool) → Middleware
  request_context : Middleware

pub record Application : Type 0 where
  pub title : String
  pub docs_url : Option String
  pub redoc_url : Option String
  pub openapi_url : Option String
  pub middleware : List Middleware

abbrev only_if : Bool → String → Option String
only_if enabled url = if enabled then some url else none

abbrev pub build : Settings → Application
build cfg =
    let docs_enabled = resolve_docs_enabled cfg in
    record {
      title = cfg.app_name;
      docs_url = only_if docs_enabled "/docs";
      redoc_url = only_if docs_enabled "/redoc";
      openapi_url = only_if docs_enabled "/openapi.json";
      middleware = cors (cors_origin_list cfg) cfg.cors_allow_credentials ∷ request_context ∷ [];
    }

abbrev pub built : Result Settings → Result Application
built (ok cfg) = ok (build cfg)
built (raised e) = raised e

unfoldable pub create_application : (Text → Bool) → Libraries → Settings → Result Application
create_application is_url lib cfg = built (validate_startup_config is_url lib cfg)
