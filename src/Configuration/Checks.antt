-- ===== src/Configuration/Checks.antt =====
-- What each check of app/core/startup.py accepts.
use verisure_ads_automation.Base.{
  ◌≤◌, ◌≡◌, ◌≢◌, inl, inr, refl, sym, subst, Bool, true, false, not, ◌&&◌, Option, none, some,
  String, List, [], ◌∷◌, arith, length, In, ltb, nat_eq, Bool-cases,
}
use verisure_ads_automation.Base.Text.{
  Text, codes, lower, upper, strip, is_blank, is_one_of, text_eqb,
}
use verisure_ads_automation.Base.Text.Membership.{
  text_eqb_refl, text_eqb_sound, In-is_one_of, is_one_of-In,
}
use verisure_ads_automation.Session.{Result, ok, raised}
use verisure_ads_automation.Connections.Envelope.{Libraries, new_service}
use verisure_ads_automation.Configuration.{Settings, is_production}
use verisure_ads_automation.Configuration.Startup.{
  allowed_app_envs, allowed_log_levels, allowed_log_formats, insecure_jwt_secrets, refuse_if,
  has_none, ◌>>◌, validate_app_env, validate_database_url, validate_jwt_secret,
  validate_encryption_key, validate_log_level, validate_log_format,
}

pub then-ok :
    {A : Type 0} (m : Result (Unit {0})) (k : Result A) {a : A}
    → (m >> k) ≡ ok a
    → (m ≡ ok tt) × (k ≡ ok a)
then-ok (ok tt) k e = (refl, e)
then-ok (raised x) k e = cc

pub refuse-ok : (b : Bool) (message : String) → refuse_if b message ≡ ok tt → b ≡ false
refuse-ok true message e = cc
refuse-ok false message e = refl

pub not_none :
    (origins : List Text)
    → origins ≢ []
    → refuse_if
        (true && has_none origins)
        "Production CORS_ALLOW_ORIGINS must be a non-empty explicit allowlist."
      ≡ ok tt
not_none [] h = absurd (h refl)
not_none (o ∷ os) h = refl

module _ (is_url : Text → Bool) (lib : Libraries) (cfg : Settings) where
  pub production : cfg.app_env ≡ codes "production" → is_production cfg ≡ true
  production e =
      subst (λ t. text_eqb t (codes "production") ≡ true) (sym e)
        (text_eqb_refl (codes "production"))

  pub app_env-ok : validate_app_env cfg ≡ ok tt → In cfg.app_env allowed_app_envs
  unfolding validate_app_env
  app_env-ok e =
      In-is_one_of cfg.app_env allowed_app_envs
        (ground (arith, refuse-ok (not (is_one_of cfg.app_env allowed_app_envs)) _ e))

  pub app_env-IsOk : In cfg.app_env allowed_app_envs → validate_app_env cfg ≡ ok tt
  unfolding validate_app_env
  app_env-IsOk m = rw (is_one_of-In cfg.app_env allowed_app_envs m) refl

  pub of_production : is_production cfg ≡ true → cfg.app_env ≡ codes "production"
  of_production e = text_eqb_sound cfg.app_env (codes "production") e

  pub database_url-ok :
      (url : Option String)
      → cfg.database_url ≡ url
      → validate_database_url is_url cfg ≡ ok tt
      → (raw : String) × (cfg.database_url ≡ some raw)
        × (is_blank (codes raw) ≡ false)
        × (is_url (strip (codes raw)) ≡ true)
  unfolding validate_database_url
  database_url-ok none p e = absurd (ground arith)
  database_url-ok (some raw) p e = (raw, p, ground arith, ground arith)

  pub database_url-IsOk :
      (raw : String)
      → cfg.database_url ≡ some raw
      → is_blank (codes raw) ≡ false
      → is_url (strip (codes raw)) ≡ true
      → validate_database_url is_url cfg ≡ ok tt
  unfolding validate_database_url
  database_url-IsOk raw p b u = ground arith

  pub jwt_secret-ok :
      validate_jwt_secret cfg ≡ ok tt
      → (32 ≤ length cfg.jwt_secret_key)
        × (is_blank cfg.jwt_secret_key ≡ false)
        × (cfg.app_env ≡ codes "production"
            → ¬ In (lower (strip cfg.jwt_secret_key)) insecure_jwt_secrets)
  unfolding validate_jwt_secret
  jwt_secret-ok e =
      let secret = lower (strip cfg.jwt_secret_key) in
      let (first, long) = then-ok _ _ e in
      let (blank, own) = then-ok _ _ first in
      let short = refuse-ok (ltb (length cfg.jwt_secret_key) 32) _ long in
      let own' = refuse-ok (is_production cfg && is_one_of secret insecure_jwt_secrets) _ own in
      (
        ground arith,
        refuse-ok (is_blank cfg.jwt_secret_key) _ blank,
        λ p m.
            let t = production p in
            let o = is_one_of-In secret insecure_jwt_secrets m in ground arith,
      )

  pub jwt_secret-IsOk :
      32 ≤ length cfg.jwt_secret_key
      → is_blank cfg.jwt_secret_key ≡ false
      → (cfg.app_env ≡ codes "production"
          → ¬ In (lower (strip cfg.jwt_secret_key)) insecure_jwt_secrets)
      → validate_jwt_secret cfg ≡ ok tt
  unfolding validate_jwt_secret
  jwt_secret-IsOk long blank own =
      let secret = lower (strip cfg.jwt_secret_key) in
      let long' : ltb (length cfg.jwt_secret_key) 32 ≡ false = ground arith in
      elim (Bool-cases (is_production cfg)) [
        | inr p ↦ rw (blank, p, long') refl
        | inl p ↦ elim (Bool-cases (is_one_of secret insecure_jwt_secrets)) [
          | inr n ↦ rw (blank, p, n, long') refl
          | inl o ↦ absurd (own (of_production p) (In-is_one_of secret insecure_jwt_secrets o))
        ]
      ]

  pub encryption_key-ok :
      (r : Result (List Text))
      → new_service lib cfg.encryption_key ≡ r
      → validate_encryption_key lib cfg ≡ ok tt
      → (keys : List Text) × (new_service lib cfg.encryption_key ≡ ok keys)
  unfolding validate_encryption_key
  encryption_key-ok (ok keys) p e = (keys, p)
  encryption_key-ok (raised x) p e = absurd (ground arith)

  pub encryption_key-IsOk :
      (keys : List Text)
      → new_service lib cfg.encryption_key ≡ ok keys
      → validate_encryption_key lib cfg ≡ ok tt
  unfolding validate_encryption_key
  encryption_key-IsOk keys p = ground arith

  pub log_level-ok :
      validate_log_level cfg ≡ ok tt → In (upper (strip cfg.log_level)) allowed_log_levels
  unfolding validate_log_level
  log_level-ok e = In-is_one_of (upper (strip cfg.log_level)) allowed_log_levels (
      ground
        (arith, refuse-ok (not (is_one_of (upper (strip cfg.log_level)) allowed_log_levels)) _ e))

  pub log_level-IsOk :
      In (upper (strip cfg.log_level)) allowed_log_levels → validate_log_level cfg ≡ ok tt
  unfolding validate_log_level
  log_level-IsOk m = rw (is_one_of-In (upper (strip cfg.log_level)) allowed_log_levels m) refl

  pub log_format-ok : validate_log_format cfg ≡ ok tt → In cfg.log_format allowed_log_formats
  unfolding validate_log_format
  log_format-ok e =
      In-is_one_of cfg.log_format allowed_log_formats
        (ground (arith, refuse-ok (not (is_one_of cfg.log_format allowed_log_formats)) _ e))

  pub log_format-IsOk : In cfg.log_format allowed_log_formats → validate_log_format cfg ≡ ok tt
  unfolding validate_log_format
  log_format-IsOk m = rw (is_one_of-In cfg.log_format allowed_log_formats m) refl
