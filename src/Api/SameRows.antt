-- ===== src/Api/SameRows.antt =====
-- What the statements find for a tenant in two databases with the same rows of the tenant.
use verisure_ads_automation.Base.{
  ℕ, ◌≡◌, refl, ap, ◌&&◌, Option, arith, ◌==◌, nat_eq, select_all, order_by, select_one-scoped,
  select_all-scoped, take, drop,
}
use verisure_ads_automation.Models.Provider.{Uuid}
use verisure_ads_automation.Models.Campaign.{CampaignStatus, Campaign, campaign_status_eq}
use verisure_ads_automation.Models.Connection.{ProviderConnection, connection_status_eq}
use verisure_ads_automation.Models.Job.{PublishJob, job_status_eq}
use verisure_ads_automation.Session.{Database, Session}
use verisure_ads_automation.Campaigns.Repository.{
  get_by_tenant_and_id, list_by_tenant, is_visible, has_status, created_after,
}
use verisure_ads_automation.Connections.Repository as ConnectionRows
use verisure_ads_automation.Deployments.Repository as DeploymentRows
use verisure_ads_automation.Jobs.Repository as JobRows
use verisure_ads_automation.Metrics.{
  publish_job_counts, campaign_counts, provider_connection_counts,
}
use verisure_ads_automation.Metrics.Totals.{counts-scoped}

-- The session of a new request.
abbrev pub session_of : Database → Session
session_of db = record { saved = db; current = db }

-- Two databases with the same rows of the tenant, and the same accounts.
pub record SameFor (tenant_id : Uuid) (a b : Database) : Type 0 where
  pub campaigns :
      select_all (λ c. c.tenant_id == tenant_id) a.campaigns
      ≡ select_all (λ c. c.tenant_id == tenant_id) b.campaigns
  pub deployments :
      select_all (λ d. d.tenant_id == tenant_id) a.deployments
      ≡ select_all (λ d. d.tenant_id == tenant_id) b.deployments
  pub connections :
      select_all (λ c. c.tenant_id == tenant_id) a.connections
      ≡ select_all (λ c. c.tenant_id == tenant_id) b.connections
  pub jobs :
      select_all (λ j. j.tenant_id == tenant_id) a.jobs
      ≡ select_all (λ j. j.tenant_id == tenant_id) b.jobs
  pub tenants : a.tenants ≡ b.tenants
  pub users : a.users ≡ b.users

module _ (tenant_id : Uuid) (a b : Database) (same : SameFor tenant_id a b) where
  pub same-campaign :
      (id : Uuid)
      → get_by_tenant_and_id tenant_id id a.campaigns
        ≡ get_by_tenant_and_id tenant_id id b.campaigns
  unfolding get_by_tenant_and_id
  same-campaign id =
      select_one-scoped (λ c. c.id == id && is_visible tenant_id c) (λ c. c.tenant_id == tenant_id)
        (λ c h. ground arith) a.campaigns b.campaigns same.campaigns

  pub same-campaigns :
      (limit offset : ℕ) (status : Option CampaignStatus)
      → list_by_tenant tenant_id limit offset status a.campaigns
        ≡ list_by_tenant tenant_id limit offset status b.campaigns
  unfolding list_by_tenant
  same-campaigns limit offset status =
      ap (λ rows. take limit (drop offset (order_by created_after rows)))
        (select_all-scoped (λ c. is_visible tenant_id c && has_status status c)
          (λ c. c.tenant_id == tenant_id) (λ c h. ground arith) a.campaigns b.campaigns
          same.campaigns)

  pub same-job :
      (id : Uuid) → JobRows.get_by_id tenant_id id a.jobs ≡ JobRows.get_by_id tenant_id id b.jobs
  unfolding JobRows.get_by_id
  same-job id =
      select_one-scoped (JobRows.has_id tenant_id id) (λ j. j.tenant_id == tenant_id)
        (λ j h. ground arith) a.jobs b.jobs same.jobs

  pub same-deployments :
      (campaign_id : Uuid)
      → DeploymentRows.list_by_campaign tenant_id campaign_id a.deployments
        ≡ DeploymentRows.list_by_campaign tenant_id campaign_id b.deployments
  unfolding DeploymentRows.list_by_campaign
  same-deployments campaign_id = ap (order_by DeploymentRows.created_before) (
      select_all-scoped (λ d. d.tenant_id == tenant_id && d.campaign_id == campaign_id)
        (λ d. d.tenant_id == tenant_id) (λ d h. ground arith) a.deployments b.deployments
        same.deployments)

  pub same-connection :
      (id : Uuid)
      → ConnectionRows.get_by_id tenant_id id a.connections
        ≡ ConnectionRows.get_by_id tenant_id id b.connections
  unfolding ConnectionRows.get_by_id
  same-connection id =
      select_one-scoped (ConnectionRows.has_id tenant_id id) (λ c. c.tenant_id == tenant_id)
        (λ c h. ground arith) a.connections b.connections same.connections

  pub same-connections :
      ConnectionRows.list_by_tenant tenant_id a.connections
      ≡ ConnectionRows.list_by_tenant tenant_id b.connections
  unfolding ConnectionRows.list_by_tenant
  same-connections = ap (order_by ConnectionRows.provider_before) same.connections

  pub same-metrics :
      (publish_job_counts tenant_id a.jobs ≡ publish_job_counts tenant_id b.jobs)
      × (campaign_counts tenant_id a.campaigns ≡ campaign_counts tenant_id b.campaigns)
      × (provider_connection_counts tenant_id a.connections
          ≡ provider_connection_counts tenant_id b.connections)
  unfolding publish_job_counts campaign_counts provider_connection_counts
  same-metrics = (
    rw
        (counts-scoped (λ (j : PublishJob). j.tenant_id) (λ j. j.status) tenant_id a.jobs b.jobs
          same.jobs)
        refl,
    rw
        (counts-scoped (λ (c : Campaign). c.tenant_id) (λ c. c.status) tenant_id a.campaigns
          b.campaigns same.campaigns)
        refl,
    rw
        (counts-scoped (λ (c : ProviderConnection). c.tenant_id) (λ c. c.status) tenant_id
          a.connections b.connections same.connections)
        refl,
  )
