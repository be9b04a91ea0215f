-- ===== src/Configuration/Exposure.antt =====
-- What an application in production exposes, and what it does not.
use verisure_ads_automation.Base.{
  ◌≡◌, ◌≢◌, refl, sym, ap, ◌∙◌, subst, inl, inr, Bool, true, false, String, none, List, [], ◌∷◌, In,
}
use verisure_ads_automation.Base.Text.{Text, codes, text_eqb, is_blank, is_empty}
use verisure_ads_automation.Base.Text.Membership.{text_eqb_refl}
use verisure_ads_automation.Session.{Result, ok, raised}
use verisure_ads_automation.Connections.Envelope.{Libraries}
use verisure_ads_automation.Configuration.{
  Settings, cors_origin_list, is_production, resolve_docs_enabled,
}
use verisure_ads_automation.Configuration.Startup.{validate_startup_config}
use verisure_ads_automation.Configuration.Validated.{IsConfigured, validate_startup_config_cases}
use verisure_ads_automation.Configuration.Limits.{not_below}
use verisure_ads_automation.Health.{available, worker_endpoint}
use verisure_ads_automation.Configuration.Application.{
  Application, cors, request_context, build, built, create_application,
}

-- An application that documents nothing, and answers other origins only where they are listed.
pub record IsClosed (app : Application) : Type 0 where
  pub no_docs : app.docs_url ≡ none
  pub no_redoc : app.redoc_url ≡ none
  pub no_schema : app.openapi_url ≡ none
  pub origins : List Text
  pub credentials : Bool
  pub middleware : app.middleware ≡ cors origins credentials ∷ request_context ∷ []
  pub listed : origins ≢ []
  pub no_wildcard : ¬ In (codes "*") origins

module _ (is_url : Text → Bool) (lib : Libraries) (cfg : Settings)
    (production : cfg.app_env ≡ codes "production") where
  build-IsClosed : IsConfigured is_url lib cfg → IsClosed (build cfg)
  unfolding resolve_docs_enabled
  build-IsClosed c =
      let p : is_production cfg ≡ true =
        subst (λ t. text_eqb t (codes "production") ≡ true) (sym production)
          (text_eqb_refl (codes "production")) in
      record {
        no_docs = rw p refl;
        no_redoc = rw p refl;
        no_schema = rw p refl;
        origins = cors_origin_list cfg;
        credentials = cfg.cors_allow_credentials;
        middleware = refl;
        listed = c.allowlist production;
        no_wildcard = λ m. (c.wildcard m).2 production;
      }

  url_not_empty : (raw : String) → is_blank (codes raw) ≡ false → is_empty (codes raw) ≡ false
  unfolding is_blank
  url_not_empty raw e = go (codes raw) e
    where
      go : (t : Text) → is_blank t ≡ false → is_empty t ≡ false
      go [] h = h
      go (c ∷ t) h = refl

  reports_available : IsConfigured is_url lib cfg → worker_endpoint cfg ≡ (200, available)
  unfolding worker_endpoint
  reports_available c =
      let (raw, p, b, u) = c.database_url in
      rw (p, url_not_empty raw b, not_below is_url lib cfg _ c.poll_interval) refl

  -- In production an application starts only with settings that pass the validation. It then
  -- serves no documentation and no schema, answers other origins from a non-empty list without the
  -- wildcard, and reports its worker as available.
  pub create_application-IsClosed :
      (app : Application)
      → create_application is_url lib cfg ≡ ok app
      → IsConfigured is_url lib cfg × IsClosed app × (worker_endpoint cfg ≡ (200, available))
  unfolding create_application
  create_application-IsClosed app e = go (validate_startup_config is_url lib cfg) refl e
    where
      go :
          (r : Result Settings)
          → validate_startup_config is_url lib cfg ≡ r
          → built r ≡ ok app
          → IsConfigured is_url lib cfg × IsClosed app × (worker_endpoint cfg ≡ (200, available))
      go (raised x) p b = cc
      go (ok c) p b = elim (validate_startup_config_cases is_url lib cfg) [
        | inr (x, q, _, _) ↦ cc
        | inl (q, good) ↦
            let same : c ≡ cfg = cc in
            let made : build c ≡ app = cc in
            (
              good,
              subst IsClosed (ap build (sym same) ∙ made) (build-IsClosed good),
              reports_available good,
            )
      ]
