-- ===== src/Configuration/Limits.antt =====
-- What the checks of app/core/startup.py on intervals, origins and documentation accept.
use verisure_ads_automation.Base.{
  ℕ, ◌≤◌, ◌≡◌, ◌≢◌, inl, inr, refl, Bool, true, false, not, ◌&&◌, Option, none, some, [], arith,
  length, In, ◌==◌, nat_eq, ℤ, pos, negsuc, Bool-cases,
}
use verisure_ads_automation.Base.Text.{Text, codes, is_one_of}
use verisure_ads_automation.Base.Text.Membership.{In-is_one_of, is_one_of-In}
use verisure_ads_automation.Session.{ok}
use verisure_ads_automation.Connections.Envelope.{Libraries}
use verisure_ads_automation.Configuration.{Settings, cors_origin_list, is_production}
use verisure_ads_automation.Configuration.Startup.{
  is_below_one, check_wildcard, check_allowlist, has_none, validate_publish_intervals,
  validate_cors, validate_docs,
}
use verisure_ads_automation.Configuration.Checks.{
  production, of_production, refuse-ok, not_none, then-ok,
}

-- The integer is positive.
abbrev pub IsPositive : ℤ → Type 0
IsPositive z = (n : ℕ) × (z ≡ pos n) × (1 ≤ n)

module _ (is_url : Text → Bool) (lib : Libraries) (cfg : Settings) where
  positive : (z : ℤ) → is_below_one z ≡ false → IsPositive z
  positive (pos n) e = (n, refl, ground arith)
  positive (negsuc n) e = cc

  pub not_below : (z : ℤ) → IsPositive z → is_below_one z ≡ false
  not_below z (n, p, h) = rw p (ground arith)

  pub intervals-ok :
      validate_publish_intervals cfg ≡ ok tt
      → IsPositive cfg.publish_job_poll_interval_seconds
        × IsPositive cfg.publish_job_stale_after_seconds
  unfolding validate_publish_intervals
  intervals-ok e =
      let (poll, stale) = then-ok _ _ e in
      (positive _ (refuse-ok _ _ poll), positive _ (refuse-ok _ _ stale))

  pub intervals-IsOk :
      IsPositive cfg.publish_job_poll_interval_seconds
      → IsPositive cfg.publish_job_stale_after_seconds
      → validate_publish_intervals cfg ≡ ok tt
  unfolding validate_publish_intervals
  intervals-IsOk a b = rw (not_below _ a, not_below _ b) refl

  pub cors-ok :
      validate_cors cfg ≡ ok tt
      → (In (codes "*") (cors_origin_list cfg)
          → (length (cors_origin_list cfg) ≡ 1)
            × (cfg.cors_allow_credentials ≡ false)
            × (cfg.app_env ≢ codes "production"))
        × (cfg.app_env ≡ codes "production" → cors_origin_list cfg ≢ [])
  unfolding validate_cors
  cors-ok e =
      let origins = cors_origin_list cfg in
      elim (Bool-cases (is_one_of (codes "*") origins)) [
        | inl w ↦
            let e' : check_wildcard cfg origins ≡ ok tt = ground arith in
            let (first, own) = then-ok _ _ e' in
            let (sole, closed) = then-ok _ _ first in
            let development = refuse-ok (is_production cfg) _ own in
            let one = refuse-ok (not (length origins == 1)) _ sole in
            (
              λ m. (
                ground arith,
                refuse-ok cfg.cors_allow_credentials _ closed,
                λ p. cc (production is_url lib cfg p),
              ),
              λ p. cc (production is_url lib cfg p),
            )
        | inr n ↦
            let e' : check_allowlist cfg origins ≡ ok tt = ground arith in
            let listed = refuse-ok (is_production cfg && has_none origins) _ e' in
            (
              λ m. cc (is_one_of-In (codes "*") origins m),
              λ p q. let t = production is_url lib cfg p in ground arith,
            )
      ]

  pub cors-IsOk :
      (In (codes "*") (cors_origin_list cfg)
        → (length (cors_origin_list cfg) ≡ 1)
          × (cfg.cors_allow_credentials ≡ false)
          × (cfg.app_env ≢ codes "production"))
      → (cfg.app_env ≡ codes "production" → cors_origin_list cfg ≢ [])
      → validate_cors cfg ≡ ok tt
  unfolding validate_cors
  cors-IsOk wildcard allowlist =
      let origins = cors_origin_list cfg in
      elim (Bool-cases (is_one_of (codes "*") origins)) [
        | inl w ↦
            let (sole, closed, own) = wildcard (In-is_one_of (codes "*") origins w) in
            elim (Bool-cases (is_production cfg)) [
              | inl p ↦ absurd (own (of_production is_url lib cfg p))
              | inr p ↦ rw (w, sole, closed, p) refl
            ]
        | inr n ↦ elim (Bool-cases (is_production cfg)) [
          | inl p ↦ rw (n, p) (not_none origins (allowlist (of_production is_url lib cfg p)))
          | inr p ↦ rw (n, p) refl
        ]
      ]

  pub docs-ok :
      validate_docs cfg ≡ ok tt → cfg.app_env ≡ codes "production" → cfg.docs_enabled ≢ some true
  unfolding validate_docs
  docs-ok e p q = let t = production is_url lib cfg p in ground arith

  pub docs-IsOk :
      (cfg.app_env ≡ codes "production" → cfg.docs_enabled ≢ some true)
      → (docs : Option Bool) → cfg.docs_enabled ≡ docs
      → validate_docs cfg ≡ ok tt
  unfolding validate_docs
  docs-IsOk h (some true) q = elim (Bool-cases (is_production cfg)) [
    | inl p ↦ absurd (h (of_production is_url lib cfg p) q)
    | inr p ↦ rw p refl
  ]
  docs-IsOk h (some false) q = ground arith
  docs-IsOk h none q = ground arith
