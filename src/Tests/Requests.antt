-- ===== src/Tests/Requests.antt =====
-- The theorems on the routes at requests to a small server.
use verisure_ads_automation.Base.{
  arith, ℕ, ◌≡◌, ◌≤◌, refl, some-inj, subst, sym, true, none, some, List, [], ◌∷◌, ◌++◌, length,
  pos, ℤ, select_one, select_all, ◌+◌, nat_eq,
}
use verisure_ads_automation.Models.Provider.{Uuid, Instant}
use verisure_ads_automation.Models.Campaign.{Campaign, draft}
use verisure_ads_automation.Session.{Database, ok}
use verisure_ads_automation.Auth.Repository.{
  get_by_slug, get_by_tenant_and_email, get_tenant_by_id, get_user_by_id,
}
use verisure_ads_automation.Auth.Access.{get_current_user, resolve_user}
use verisure_ads_automation.Models.Identity.{Tenant, User}
use verisure_ads_automation.Auth.Service as AuthService
use verisure_ads_automation.Auth.Service.{TokenDraw, new_token}
use verisure_ads_automation.Auth.Jwt.{
  decode_access_token, IsFaithful, new_payload, create_access_token,
}
use verisure_ads_automation.Campaigns.Repository.{CampaignFields, get_by_tenant_and_id}
use verisure_ads_automation.Campaigns.Service.{CampaignUpdates}
use verisure_ads_automation.Campaigns.Validation.{validate_campaign_fields}
use verisure_ads_automation.Metrics.{MetricsResponse, get_metrics}
use verisure_ads_automation.Metrics.Totals.{Counts, get_metrics-Counts}
use verisure_ads_automation.Api.Requests.{Server, Request, current_user}
use verisure_ads_automation.Api.Responses.{serve, internal_server_error}
use verisure_ads_automation.Api.Routes.{
  create_campaign, update_campaign, archive_campaign, publish_campaign,
  disconnect_provider_connection, list_provider_connections, get_provider_connection, login,
}
use verisure_ads_automation.Api.Schemas.{to_natural}
use verisure_ads_automation.Api.SignIn.{login-current_user}
use verisure_ads_automation.Api.SameRows.{session_of, SameFor}
use verisure_ads_automation.Api.Isolation.{SameAnswers, reads-SameAnswers}
use verisure_ads_automation.Api.OthersKept.{OthersKept}
use verisure_ads_automation.Api.Writes.{writes-OthersKept}
use verisure_ads_automation.Api.Secrecy.{without_credentials, responses-HideCredentials}
use verisure_ads_automation.Api.NullName.{update_campaign-null_name}
use verisure_ads_automation.Api.Pages.{IsListing, Paged, page, list_campaigns-Paged}
use verisure_ads_automation.Tests.{a_campaign, a_connection, a_job, database, a_tenant, a_user}
use verisure_ads_automation.Tests.Access.{faithful, jwt, settings, accounts, marks, marks_in}
use verisure_ads_automation.Tests.Sealing.{libraries}

abbrev pub server : Server
server = record {
  jwt = jwt;
  jwt_settings = settings;
  hash_token = λ raw. raw;
  verify_password = λ password hash. true;
  libraries = libraries;
  encryption_key = some "key";
}

abbrev pub request : Request
request = record { token = some "access"; now = 200; others = λ db. db }

-- A campaign, a deployment queue and a connection of the tenant.
abbrev pub stored : Database
stored = accounts (database (a_job ∷ []))

signed_in : current_user server request (session_of stored) ≡ (ok a_user, session_of stored)
unfolding current_user get_current_user resolve_user decode_access_token get_tenant_by_id
    get_user_by_id select_one marks marks_in
signed_in = refl

-- The same with rows of another tenant.
abbrev shared : Database
shared = record stored {
  campaigns = a_campaign ∷ record a_campaign { id = 11; tenant_id = 3 } ∷ [];
  connections = record a_connection { id = 31; tenant_id = 3 } ∷ a_connection ∷ [];
  jobs = a_job ∷ record a_job { id = 21; tenant_id = 3 } ∷ [];
}

same_rows : SameFor 1 stored shared
unfolding select_all
same_rows = record {
  campaigns = refl;
  deployments = refl;
  connections = refl;
  jobs = refl;
  tenants = refl;
  users = refl;
}

isolated_example : SameAnswers server request stored shared
isolated_example = reads-SameAnswers server request stored shared a_user same_rows signed_in

writes_example :
    ((id : Uuid) (now : Instant) (payload : CampaignFields)
      → OthersKept 1 stored (serve 201 (create_campaign server request id now payload) stored).1)
    × ((id : Uuid) (payload : CampaignUpdates)
        → OthersKept 1 stored (serve 200 (update_campaign server request id payload) stored).1)
    × ((id : Uuid) → OthersKept 1 stored (serve 200 (archive_campaign server request id) stored).1)
    × ((id : Uuid) (now : Instant) (campaign_id : Uuid)
        → OthersKept 1 stored
            (serve 202 (publish_campaign server request id now campaign_id) stored).1)
    × ((now : Instant) (id : Uuid)
        → OthersKept 1 stored
            (serve 200 (disconnect_provider_connection server request now id) stored).1)
writes_example = writes-OthersKept server request stored a_user (λ db. refl) signed_in

hidden_example :
    ((serve 200 (list_provider_connections server request) (without_credentials stored)).0
      ≡ (serve 200 (list_provider_connections server request) stored).0)
    × ((id : Uuid)
        → (serve 200 (get_provider_connection server request id) (without_credentials stored)).0
          ≡ (serve 200 (get_provider_connection server request id) stored).0)
    × ((now : Instant) (id : Uuid)
        → (serve 200
            (disconnect_provider_connection server request now id)
            (without_credentials stored)).0
          ≡ (serve 200 (disconnect_provider_connection server request now id) stored).0)
hidden_example = responses-HideCredentials server request stored a_user (λ db. refl) signed_in

abbrev null_name : CampaignUpdates
null_name = record {
  name = some none;
  objective = none;
  budget_type = none;
  budget_amount = none;
  currency = none;
  start_at = none;
  end_at = none;
  unknown = [];
}

null_name_example :
    serve 200 (update_campaign server request 10 null_name) stored ≡ (internal_server_error, stored)
unfolding get_by_tenant_and_id select_one validate_campaign_fields
null_name_example =
    update_campaign-null_name server request stored a_user a_campaign null_name (λ db. refl)
      signed_in refl refl refl refl refl

pages_example :
    (all : List Campaign) × IsListing 1 (some draft) stored.campaigns all
    × Paged server request a_user (some draft) (session_of stored) signed_in all
    × ((limit offset : ℤ) → length (page limit offset all) ≤ to_natural limit)
    × ((l m o : ℕ)
        → page (pos l) (pos o) all ++ page (pos m) (pos (o + l)) all
          ≡ page (pos (l + m)) (pos o) all)
pages_example =
    list_campaigns-Paged server request a_user (some draft) (session_of stored) signed_in

metrics_example :
    (m : MetricsResponse) × (get_metrics 1 (session_of shared) ≡ (ok m, session_of shared))
    × Counts 1 shared.jobs shared.campaigns shared.connections m
metrics_example = get_metrics-Counts 1 (session_of shared)

abbrev sign_in : TokenDraw
sign_in = record { id = 70; family_id = 71; raw = "second"; now = 100; revoked_at = 101 }

abbrev signed_up : Database
signed_up = (serve 200 (login server request 9 sign_in "acme" "a@acme" "pw") stored).1

IsFaithful-found :
    (t : Tenant) (u : User)
    → get_by_slug "acme" stored.tenants ≡ some t
    → get_by_tenant_and_email t.id "a@acme" stored.users ≡ some u
    → IsFaithful jwt (new_payload jwt settings 200 9 u.id t.id) "key" "HS256"
unfolding get_by_slug get_by_tenant_and_email select_one new_payload
IsFaithful-found t u e f =
    let t' : a_tenant ≡ t = some-inj e in
    let u' : a_user ≡ u = some-inj (
      subst (λ (x : Tenant). get_by_tenant_and_email x.id "a@acme" stored.users ≡ some u) (sym t')
        f) in
    subst
      (λ (x : Tenant × User).
        IsFaithful jwt (new_payload jwt settings 200 9 x.1.id x.0.id) "key" "HS256")
      (λ i. (t' i, u' i)) (faithful 200)

sign_in_example :
    (tenant : Tenant) × (user : User) × (current_user server request (session_of signed_up)
      ≡ (ok user, session_of signed_up))
    × (get_by_slug "acme" stored.tenants ≡ some tenant)
    × (user.tenant_id ≡ tenant.id)
    × (user.email ≡ "a@acme")
    × (server.verify_password "pw" user.hashed_password ≡ true)
unfolding select_one login serve AuthService.login create_access_token
sign_in_example =
    login-current_user server request request 9 sign_in "acme" "a@acme" "pw" stored signed_up
      (record { access_token = "access"; refresh_token = "second" }) IsFaithful-found (tt, tt)
      (tt, tt) refl refl (omega arith) (omega arith)
