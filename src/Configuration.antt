-- ===== src/Configuration.antt =====
-- app/core/settings.py: the settings and what is computed from them.
pub mod Startup
mod Checks
mod Limits
pub mod Validated
pub mod Application
pub mod Exposure
use verisure_ads_automation.Base.{
  Bool, true, false, not, Option, none, some, String, List, [], ◌∷◌, ℤ, if◌then◌else◌,
}
use verisure_ads_automation.Base.Text.{Text, codes, strip, is_blank, text_eqb}
use verisure_ads_automation.Connections.Envelope.{split_commas}

-- Of the fields those that the modelled code reads. Of the Literal types the values are texts.
pub record Settings : Type 0 where
  pub app_name : String
  pub app_env : Text
  pub database_url : Option String
  pub jwt_secret_key : Text
  pub encryption_key : Option String
  pub publish_job_poll_interval_seconds : ℤ
  pub publish_job_stale_after_seconds : ℤ
  pub log_level : Text
  pub log_format : Text
  pub cors_allow_origins : Text
  pub cors_allow_credentials : Bool
  pub docs_enabled : Option Bool

-- `[part.strip() for part in parts if part.strip()]`
unfoldable pub stripped_parts : List Text → List Text
stripped_parts [] = []
stripped_parts (part ∷ parts) =
    let rest = stripped_parts parts in if is_blank part then rest else strip part ∷ rest

unfoldable pub cors_origin_list : Settings → List Text
unfolding stripped_parts split_commas
cors_origin_list cfg = stripped_parts (split_commas cfg.cors_allow_origins)

-- `app_env == "production"`
abbrev pub is_production : Settings → Bool
is_production cfg = text_eqb cfg.app_env (codes "production")

abbrev or_true : Option Bool → Bool
or_true none = true
or_true (some b) = b

unfoldable pub resolve_docs_enabled : Settings → Bool
resolve_docs_enabled cfg = if is_production cfg then false else or_true cfg.docs_enabled
