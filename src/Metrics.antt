-- ===== src/Metrics.antt =====
-- app/services/metrics_service.py: counts per tenant, by aggregate queries.
pub mod Totals
use verisure_ads_automation.Base.{
  ℕ, suc, ◌+◌, ◌-◌, Bool, List, [], ◌∷◌, Eq, ◌==◌, nat_eq, if◌then◌else◌,
}
use verisure_ads_automation.Models.Provider.{Uuid}
use verisure_ads_automation.Models.Campaign.{CampaignStatus, archived, campaign_status_eq, Campaign}
use verisure_ads_automation.Models.Connection.{
  ProviderConnectionStatus, connected, disconnected, connection_status_eq, ProviderConnection,
}
use verisure_ads_automation.Models.Job.{
  PublishJobStatus, queued, running, succeeded, failed, job_status_eq, PublishJob,
}
use verisure_ads_automation.Session.{Action, query}

module _ {S : Type 0} ⦃e : Eq S⦄ where
  -- A row of the group with the key `s`: the group is counted up, or made.
  pub count_up : S → List (S × ℕ) → List (S × ℕ)
  count_up s [] = (s, 1) ∷ []
  count_up s ((k, n) ∷ groups) = if k == s then (k, suc n) ∷ groups else (k, n) ∷ count_up s groups

  -- `by_status.get(status, 0)`
  pub get_or_zero : S → List (S × ℕ) → ℕ
  get_or_zero s [] = 0
  get_or_zero s ((k, n) ∷ groups) = if k == s then n else get_or_zero s groups

-- `sum(by_status.values())`
pub sum_values : {S : Type 0} → List (S × ℕ) → ℕ
sum_values [] = 0
sum_values ((k, n) ∷ groups) = n + sum_values groups

module _ {A S : Type 0} ⦃e : Eq S⦄ where
  -- `SELECT status, count(*) ... WHERE tenant_id = ... GROUP BY status`
  pub counts_by_status : (A → Uuid) → (A → S) → Uuid → List A → List (S × ℕ)
  counts_by_status tenant_of status_of tenant_id [] = []
  counts_by_status tenant_of status_of tenant_id (x ∷ xs) =
      let rest = counts_by_status tenant_of status_of tenant_id xs in
      if tenant_of x == tenant_id then count_up (status_of x) rest else rest

pub record PublishJobMetrics : Type 0 where
  pub queued : ℕ
  pub running : ℕ
  pub succeeded : ℕ
  pub failed : ℕ
  pub total : ℕ

pub record CampaignMetrics : Type 0 where
  pub active : ℕ
  pub archived : ℕ
  pub total : ℕ

pub record ProviderConnectionMetrics : Type 0 where
  pub connected : ℕ
  pub disconnected : ℕ
  pub total : ℕ

pub record MetricsResponse : Type 0 where
  pub publish_jobs : PublishJobMetrics
  pub campaigns : CampaignMetrics
  pub provider_connections : ProviderConnectionMetrics

unfoldable pub publish_job_counts : Uuid → List PublishJob → PublishJobMetrics
publish_job_counts tenant_id rows =
    let by_status =
      counts_by_status (λ (j : PublishJob). j.tenant_id) (λ j. j.status) tenant_id rows in
    let q = get_or_zero queued by_status in
    let r = get_or_zero running by_status in
    let s = get_or_zero succeeded by_status in
    let f = get_or_zero failed by_status in
    record { queued = q; running = r; succeeded = s; failed = f; total = q + r + s + f }

unfoldable pub campaign_counts : Uuid → List Campaign → CampaignMetrics
campaign_counts tenant_id rows =
    let by_status =
      counts_by_status (λ (c : Campaign). c.tenant_id) (λ c. c.status) tenant_id rows in
    let a = get_or_zero archived by_status in
    let t = sum_values by_status in record { active = t - a; archived = a; total = t }

unfoldable pub provider_connection_counts :
    Uuid → List ProviderConnection → ProviderConnectionMetrics
provider_connection_counts tenant_id rows =
    let by_status =
      counts_by_status (λ (c : ProviderConnection). c.tenant_id) (λ c. c.status) tenant_id rows in
    let c = get_or_zero connected by_status in
    let d = get_or_zero disconnected by_status in
    record { connected = c; disconnected = d; total = c + d }

unfoldable pub get_metrics : Uuid → Action MetricsResponse
unfolding publish_job_counts campaign_counts provider_connection_counts
get_metrics tenant_id = query (λ db. record {
  publish_jobs = publish_job_counts tenant_id db.jobs;
  campaigns = campaign_counts tenant_id db.campaigns;
  provider_connections = provider_connection_counts tenant_id db.connections;
})
