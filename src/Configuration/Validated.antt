-- ===== src/Configuration/Validated.antt =====
-- The settings with which a process starts.
use verisure_ads_automation.Base.{
  ◌≤◌, ◌≡◌, ◌≢◌, ◌⊎◌, ◌∙◌, ap, inl, inr, refl, Bool, true, false, some, String, List, [], length,
  In, nat_eq, if◌then◌else◌,
}
use verisure_ads_automation.Base.Text.{Text, codes, lower, upper, strip, is_blank}
use verisure_ads_automation.Exceptions.{configuration_error, Exception}
use verisure_ads_automation.Session.{Result, ok, raised}
use verisure_ads_automation.Connections.Envelope.{Libraries, new_service}
use verisure_ads_automation.Configuration.{Settings, cors_origin_list}
use verisure_ads_automation.Configuration.Startup.{
  allowed_app_envs, allowed_log_levels, allowed_log_formats, insecure_jwt_secrets, refuse_if,
  as_misconfigured, ◌>>◌, validate_app_env, validate_database_url, validate_jwt_secret,
  validate_encryption_key, validate_log_level, validate_log_format, validate_publish_intervals,
  validate_cors, validate_docs, validate_startup_config,
}
use verisure_ads_automation.Configuration.Checks.{
  then-ok, app_env-ok, app_env-IsOk, database_url-ok, database_url-IsOk, jwt_secret-ok,
  jwt_secret-IsOk, encryption_key-ok, encryption_key-IsOk, log_level-ok, log_level-IsOk,
  log_format-ok, log_format-IsOk,
}
use verisure_ads_automation.Configuration.Limits.{
  IsPositive, intervals-ok, intervals-IsOk, cors-ok, cors-IsOk, docs-ok, docs-IsOk,
}

-- What a configuration has to be, whatever the order of the checks.
pub record IsConfigured (is_url : Text → Bool) (lib : Libraries) (cfg : Settings) : Type 0 where
  pub app_env : In cfg.app_env allowed_app_envs
  pub database_url :
      (raw : String) × (cfg.database_url ≡ some raw)
      × (is_blank (codes raw) ≡ false)
      × (is_url (strip (codes raw)) ≡ true)
  pub secret_is_long : 32 ≤ length cfg.jwt_secret_key
  pub secret_not_blank : is_blank cfg.jwt_secret_key ≡ false
  pub secret_is_own :
      cfg.app_env ≡ codes "production"
      → ¬ In (lower (strip cfg.jwt_secret_key)) insecure_jwt_secrets
  pub has_key : (keys : List Text) × (new_service lib cfg.encryption_key ≡ ok keys)
  pub log_level : In (upper (strip cfg.log_level)) allowed_log_levels
  pub log_format : In cfg.log_format allowed_log_formats
  pub poll_interval : IsPositive cfg.publish_job_poll_interval_seconds
  pub stale_after : IsPositive cfg.publish_job_stale_after_seconds
  pub wildcard :
      In (codes "*") (cors_origin_list cfg)
      → (length (cors_origin_list cfg) ≡ 1)
        × (cfg.cors_allow_credentials ≡ false)
        × (cfg.app_env ≢ codes "production")
  pub allowlist : cfg.app_env ≡ codes "production" → cors_origin_list cfg ≢ []
  pub docs : cfg.app_env ≡ codes "production" → cfg.docs_enabled ≢ some true

-- The result is that of a check: it passes, or a ConfigurationError is raised.
abbrev Checks : {A : Type 0} → Result A → Type 0
Checks (ok a) = Unit {0}
Checks (raised e) = e.class ≡ configuration_error

refuse-Checks : (b : Bool) (message : String) → Checks (refuse_if b message)
refuse-Checks true message = refl
refuse-Checks false message = tt

then-Checks :
    {A : Type 0} (m : Result (Unit {0})) (k : Result A) → Checks m → Checks k → Checks (m >> k)
then-Checks (ok tt) k c d = d
then-Checks (raised x) k c d = c

key-Checks : (r : Result (List Text)) → Checks (as_misconfigured r)
key-Checks (ok keys) = tt
key-Checks (raised e) = refl

if-Checks : (b : Bool) (m k : Result (Unit {0})) → Checks m → Checks k → Checks (if b then m else k)
if-Checks true m k c d = c
if-Checks false m k c d = d

then-ok-eq : {A : Type 0} (m : Result (Unit {0})) {a b : A} → (m >> ok a) ≡ ok b → b ≡ a
then-ok-eq (ok tt) e = cc
then-ok-eq (raised x) e = cc

module _ (is_url : Text → Bool) (lib : Libraries) (cfg : Settings) where
  validate-Checks : Checks (validate_startup_config is_url lib cfg)
  unfolding validate_startup_config validate_app_env validate_database_url validate_jwt_secret
      validate_encryption_key validate_log_level validate_log_format validate_publish_intervals
      validate_cors validate_docs
  validate-Checks = search (refuse-Checks, then-Checks, key-Checks, if-Checks) depth 24

  IsConfigured-ok : validate_startup_config is_url lib cfg ≡ ok cfg → IsConfigured is_url lib cfg
  unfolding validate_startup_config
  IsConfigured-ok e =
      let (e₉, _) = then-ok _ _ e in
      let (e₈, d₉) = then-ok _ _ e₉ in
      let (e₇, d₈) = then-ok _ _ e₈ in
      let (e₆, d₇) = then-ok _ _ e₇ in
      let (e₅, d₆) = then-ok _ _ e₆ in
      let (e₄, d₅) = then-ok _ _ e₅ in
      let (e₃, d₄) = then-ok _ _ e₄ in
      let (e₂, d₃) = then-ok _ _ e₃ in
      let (d₁, d₂) = then-ok _ _ e₂ in
      let (long, blank, own) = jwt_secret-ok is_url lib cfg d₃ in
      let (poll, stale) = intervals-ok is_url lib cfg d₇ in
      let (wildcard, allowlist) = cors-ok is_url lib cfg d₈ in
      record {
        app_env = app_env-ok is_url lib cfg d₁;
        database_url = database_url-ok is_url lib cfg cfg.database_url refl d₂;
        secret_is_long = long;
        secret_not_blank = blank;
        secret_is_own = own;
        has_key = encryption_key-ok is_url lib cfg (new_service lib cfg.encryption_key) refl d₄;
        log_level = log_level-ok is_url lib cfg d₅;
        log_format = log_format-ok is_url lib cfg d₆;
        poll_interval = poll;
        stale_after = stale;
        wildcard = wildcard;
        allowlist = allowlist;
        docs = docs-ok is_url lib cfg d₉;
      }

  ok-IsConfigured : IsConfigured is_url lib cfg → validate_startup_config is_url lib cfg ≡ ok cfg
  unfolding validate_startup_config
  ok-IsConfigured c =
      let (raw, p, b, u) = c.database_url in
      let (keys, k) = c.has_key in
      rw
        (
          app_env-IsOk is_url lib cfg c.app_env,
          database_url-IsOk is_url lib cfg raw p b u,
          jwt_secret-IsOk is_url lib cfg c.secret_is_long c.secret_not_blank c.secret_is_own,
          encryption_key-IsOk is_url lib cfg keys k,
          log_level-IsOk is_url lib cfg c.log_level,
          log_format-IsOk is_url lib cfg c.log_format,
          intervals-IsOk is_url lib cfg c.poll_interval c.stale_after,
          cors-IsOk is_url lib cfg c.wildcard c.allowlist,
          docs-IsOk is_url lib cfg c.docs cfg.docs_enabled refl,
        )
        refl

  returns : (c : Settings) → validate_startup_config is_url lib cfg ≡ ok c → c ≡ cfg
  unfolding validate_startup_config
  returns c e = then-ok-eq _ e

  by_result :
      (r : Result Settings)
      → validate_startup_config is_url lib cfg ≡ r
      → Checks r
      → ((r ≡ ok cfg) × IsConfigured is_url lib cfg)
        ⊎ ((e : Exception) × (r ≡ raised e)
            × (e.class ≡ configuration_error)
            × (¬ IsConfigured is_url lib cfg))
  by_result (ok c) p k = let same = ap ok (returns c p) in inl (same, IsConfigured-ok (p ∙ same))
  by_result (raised e) p k = inr (e, refl, k, λ c. let q = ok-IsConfigured c in cc)

  -- The settings are returned unchanged, or a ConfigurationError is raised; and they are returned
  -- exactly when: the environment, the log level and the log format are allowed ones; the database
  -- URL is there and valid; the JWT secret is not blank, has 32 characters or more and in
  -- production is not one of the known insecure ones, up to case and outer white space; the
  -- encryption keys make a service; both intervals are positive; a wildcard among the CORS origins
  -- is the only one, outside production and without credentials; and in production the origins are
  -- not empty and the docs are not enabled.
  pub validate_startup_config_cases :
      ((validate_startup_config is_url lib cfg ≡ ok cfg) × IsConfigured is_url lib cfg)
      ⊎ ((e : Exception) × (validate_startup_config is_url lib cfg ≡ raised e)
          × (e.class ≡ configuration_error)
          × (¬ IsConfigured is_url lib cfg))
  validate_startup_config_cases =
      by_result (validate_startup_config is_url lib cfg) refl validate-Checks
