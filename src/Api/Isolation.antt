-- ===== src/Api/Isolation.antt =====
-- The answers to a tenant do not depend on the rows of other tenants.
use verisure_ads_automation.Base.{Option-cases, ◌≡◌, inl, inr, Option, arith, nat_eq, ℤ}
use verisure_ads_automation.Models.Provider.{Uuid}
use verisure_ads_automation.Models.Identity.{User}
use verisure_ads_automation.Models.Campaign.{CampaignStatus, campaign_status_eq}
use verisure_ads_automation.Models.Connection.{connection_status_eq}
use verisure_ads_automation.Models.Job.{job_status_eq}
use verisure_ads_automation.Session.{Database, ok}
use verisure_ads_automation.Campaigns.Repository.{get_by_tenant_and_id}
use verisure_ads_automation.Campaigns.Service
use verisure_ads_automation.Connections.Service as ConnectionService
use verisure_ads_automation.Jobs.Service as JobService
use verisure_ads_automation.Publish.Service as PublishService
use verisure_ads_automation.Metrics
use verisure_ads_automation.Metrics.{
  publish_job_counts, campaign_counts, provider_connection_counts,
}
use verisure_ads_automation.Api.Requests.{Server, Request, current_user, encryption_service}
use verisure_ads_automation.Api.Schemas.{to_natural}
use verisure_ads_automation.Api.Routes.{
  get_campaign, list_campaigns, get_publish_job, list_campaign_deployments,
  list_provider_connections, get_provider_connection, get_metrics,
}
use verisure_ads_automation.Api.SameRows.{
  session_of, SameFor, same-campaign, same-campaigns, same-job, same-deployments, same-connection,
  same-connections, same-metrics,
}
use verisure_ads_automation.Api.SameUser.{current_user-same}

module _ (server : Server) (request : Request) (a b : Database) (user : User) where
  module _ (same : SameFor user.tenant_id a b)
      (from : current_user server request (session_of a) ≡ (ok user, session_of a)) where
    from_b : current_user server request (session_of b) ≡ (ok user, session_of b)
    unfolding current_user
    from_b = current_user-same server request a b user same.tenants same.users request.token from

    get_campaign-same :
        (id : Uuid)
        → (get_campaign server request id (session_of a)).0
          ≡ (get_campaign server request id (session_of b)).0
    unfolding get_campaign Service.get_campaign
    get_campaign-same id =
        let e = from_b in ground (arith, same-campaign user.tenant_id a b same id)

    list_campaigns-same :
        (limit offset : ℤ) (status : Option CampaignStatus)
        → (list_campaigns server request limit offset status (session_of a)).0
          ≡ (list_campaigns server request limit offset status (session_of b)).0
    unfolding list_campaigns Service.list_campaigns
    list_campaigns-same limit offset status =
        let e = from_b in
        ground (
          arith,
          same-campaigns user.tenant_id a b same (to_natural limit) (to_natural offset) status,
        )

    get_publish_job-same :
        (campaign_id job_id : Uuid)
        → (get_publish_job server request campaign_id job_id (session_of a)).0
          ≡ (get_publish_job server request campaign_id job_id (session_of b)).0
    unfolding get_publish_job encryption_service JobService.get_job
    get_publish_job-same campaign_id job_id =
        let e = from_b in ground (arith, same-job user.tenant_id a b same job_id)

    list_campaign_deployments-same :
        (campaign_id : Uuid)
        → (list_campaign_deployments server request campaign_id (session_of a)).0
          ≡ (list_campaign_deployments server request campaign_id (session_of b)).0
    unfolding list_campaign_deployments encryption_service PublishService.list_deployments
    list_campaign_deployments-same campaign_id =
        let e = from_b in
        elim (Option-cases (get_by_tenant_and_id user.tenant_id campaign_id a.campaigns)) [
          | inl missing ↦ ground (arith, same-campaign user.tenant_id a b same campaign_id)
          | inr (c, found) ↦ ground (
            arith,
            same-campaign user.tenant_id a b same campaign_id,
            same-deployments user.tenant_id a b same c.id,
          )
        ]

    list_provider_connections-same :
        (list_provider_connections server request (session_of a)).0
        ≡ (list_provider_connections server request (session_of b)).0
    unfolding list_provider_connections encryption_service ConnectionService.list_connections
    list_provider_connections-same =
        let e = from_b in ground (arith, same-connections user.tenant_id a b same)

    get_provider_connection-same :
        (connection_id : Uuid)
        → (get_provider_connection server request connection_id (session_of a)).0
          ≡ (get_provider_connection server request connection_id (session_of b)).0
    unfolding get_provider_connection encryption_service ConnectionService.get_connection
    get_provider_connection-same connection_id =
        let e = from_b in ground (arith, same-connection user.tenant_id a b same connection_id)

    get_metrics-same :
        (get_metrics server request (session_of a)).0
        ≡ (get_metrics server request (session_of b)).0
    unfolding get_metrics Metrics.get_metrics
    get_metrics-same = let e = from_b in ground (arith, same-metrics user.tenant_id a b same)

-- The answers of the endpoints that read are the same on both databases.
pub record SameAnswers (server : Server) (request : Request) (a b : Database) : Type 0 where
  pub campaign :
      (id : Uuid)
      → (get_campaign server request id (session_of a)).0
        ≡ (get_campaign server request id (session_of b)).0
  pub campaigns :
      (limit offset : ℤ) (status : Option CampaignStatus)
      → (list_campaigns server request limit offset status (session_of a)).0
        ≡ (list_campaigns server request limit offset status (session_of b)).0
  pub publish_job :
      (campaign_id job_id : Uuid)
      → (get_publish_job server request campaign_id job_id (session_of a)).0
        ≡ (get_publish_job server request campaign_id job_id (session_of b)).0
  pub deployments :
      (campaign_id : Uuid)
      → (list_campaign_deployments server request campaign_id (session_of a)).0
        ≡ (list_campaign_deployments server request campaign_id (session_of b)).0
  pub connections :
      (list_provider_connections server request (session_of a)).0
      ≡ (list_provider_connections server request (session_of b)).0
  pub connection :
      (connection_id : Uuid)
      → (get_provider_connection server request connection_id (session_of a)).0
        ≡ (get_provider_connection server request connection_id (session_of b)).0
  pub metrics :
      (get_metrics server request (session_of a)).0 ≡ (get_metrics server request (session_of b)).0

-- What a tenant can read does not depend on other tenants: on two databases with the same
-- accounts and the same rows of the user's tenant, a request of the user gets the same result,
-- success or error, from each endpoint that reads campaigns, publish jobs, deployments, provider
-- connections or metrics, whatever the arguments.
pub reads-SameAnswers :
    (server : Server) (request : Request) (a b : Database) (user : User)
    → SameFor user.tenant_id a b
    → current_user server request (session_of a) ≡ (ok user, session_of a)
    → SameAnswers server request a b
reads-SameAnswers server request a b user same from = record {
  campaign = get_campaign-same server request a b user same from;
  campaigns = list_campaigns-same server request a b user same from;
  publish_job = get_publish_job-same server request a b user same from;
  deployments = list_campaign_deployments-same server request a b user same from;
  connections = list_provider_connections-same server request a b user same from;
  connection = get_provider_connection-same server request a b user same from;
  metrics = get_metrics-same server request a b user same from;
}
