-- ===== src/Api/SameUser.antt =====
-- The user of a request depends on the accounts only.
use verisure_ads_automation.Base.{◌≡◌, inl, inr, Option, none, some, String, nat_eq}
use verisure_ads_automation.Models.Identity.{User}
use verisure_ads_automation.Models.Campaign.{campaign_status_eq}
use verisure_ads_automation.Models.Connection.{connection_status_eq}
use verisure_ads_automation.Models.Job.{job_status_eq}
use verisure_ads_automation.Session.{Database, ok}
use verisure_ads_automation.Auth.CurrentUser.{get_current_user-Resolved}
use verisure_ads_automation.Auth.Grants.{Grants, Grants-ok}
use verisure_ads_automation.Api.Requests.{Server, Request, authenticate}
use verisure_ads_automation.Api.SameRows.{session_of}

module _ (server : Server) (request : Request) (a b : Database) (user : User) where
  -- Who a request is from depends on the accounts only.
  pub current_user-same :
      a.tenants ≡ b.tenants
      → a.users ≡ b.users
      → (token : Option String)
      → authenticate server request.now token (session_of a) ≡ (ok user, session_of a)
      → authenticate server request.now token (session_of b) ≡ (ok user, session_of b)
  current_user-same t u none e = cc
  current_user-same t u (some token) e =
      elim (get_current_user-Resolved server.jwt server.jwt_settings request.now token
        (session_of a)) [
          | inr (none_granted, inl (message, r)) ↦ cc
          | inr (none_granted, inr odd) ↦ cc odd.result
          | inl (user', r, g) ↦
              let same : user' ≡ user = cc in
              let g' : Grants server.jwt server.jwt_settings request.now token (session_of b)
                  user' =
                record {
                  claims = g.claims;
                  raw_tenant_id = g.raw_tenant_id;
                  raw_user_id = g.raw_user_id;
                  tenant_id = g.tenant_id;
                  user_id = g.user_id;
                  tenant = g.tenant;
                  decoded = g.decoded;
                  typed = g.typed;
                  tenant_claim = g.tenant_claim;
                  user_claim = g.user_claim;
                  tenant_not_empty = g.tenant_not_empty;
                  user_not_empty = g.user_not_empty;
                  tenant_parsed = g.tenant_parsed;
                  user_parsed = g.user_parsed;
                  tenant_found = rw (← t) g.tenant_found;
                  tenant_active = g.tenant_active;
                  user_found = rw (← u) g.user_found;
                  user_active = g.user_active;
                } in
              rw (← same)
                (Grants-ok server.jwt server.jwt_settings request.now token (session_of b) user' g')
        ]
