-- ===== src/Metrics/Totals.antt =====
-- The counts of get_metrics are numbers of rows of the tenant.
use verisure_ads_automation.Base.{
  ℕ, suc, ◌+◌, ◌≡◌, refl, ap, sym, ◌∙◌, select_all, not, ◌&&◌, List, [], ◌∷◌, arith, Eq, ◌==◌,
  nat_eq, if◌then◌else◌, count_where,
}
use verisure_ads_automation.Models.Provider.{Uuid}
use verisure_ads_automation.Models.Campaign.{archived, campaign_status_eq, Campaign}
use verisure_ads_automation.Models.Connection.{
  connected, disconnected, connection_status_eq, ProviderConnection,
}
use verisure_ads_automation.Models.Job.{
  queued, running, succeeded, failed, job_status_eq, PublishJob,
}
use verisure_ads_automation.Session.{Session, ok}
use verisure_ads_automation.Metrics.{
  count_up, counts_by_status, get_or_zero, sum_values, MetricsResponse, get_metrics,
}

module _ {S : Type 0} ⦃e : Eq S⦄ where
  get-count_up :
      (s t : S) (groups : List (S × ℕ))
      → get_or_zero s (count_up t groups) ≡ get_or_zero s groups + (if t == s then 1 else 0)
  unfolding get_or_zero count_up
  get-count_up s t [] = ground arith
  get-count_up s t ((k, n) ∷ groups) =
      ground (arith, e.eqb_iff k t, e.eqb_iff k s, e.eqb_iff t s, get-count_up s t groups)

  sum-count_up :
      (t : S) (groups : List (S × ℕ)) → sum_values (count_up t groups) ≡ suc (sum_values groups)
  unfolding sum_values count_up
  sum-count_up t [] = omega arith
  sum-count_up t ((k, n) ∷ groups) = ground (arith, sum-count_up t groups)

module _ {A S : Type 0} ⦃e : Eq S⦄ (tenant_of : A → Uuid) (status_of : A → S)
    (tenant_id : Uuid) where
  get-counts :
      (s : S) (rows : List A)
      → get_or_zero s (counts_by_status tenant_of status_of tenant_id rows)
        ≡ count_where (λ x. tenant_of x == tenant_id && status_of x == s) rows
  unfolding get_or_zero counts_by_status count_where
  get-counts s [] = refl
  get-counts s (x ∷ xs) = ground (
    arith,
    get-counts s xs,
    get-count_up s (status_of x) (counts_by_status tenant_of status_of tenant_id xs),
  )

  sum-counts :
      (rows : List A)
      → sum_values (counts_by_status tenant_of status_of tenant_id rows)
        ≡ count_where (λ x. tenant_of x == tenant_id) rows
  unfolding sum_values counts_by_status count_where
  sum-counts [] = refl
  sum-counts (x ∷ xs) = ground (
    arith,
    sum-counts xs,
    sum-count_up (status_of x) (counts_by_status tenant_of status_of tenant_id xs),
  )

module _ {A S : Type 0} ⦃e : Eq S⦄ (tenant_of : A → Uuid) (status_of : A → S)
    (tenant_id : Uuid) where
  counts-select_all :
      (rows : List A)
      → counts_by_status tenant_of status_of tenant_id
          (select_all (λ x. tenant_of x == tenant_id) rows)
        ≡ counts_by_status tenant_of status_of tenant_id rows
  unfolding counts_by_status select_all
  counts-select_all [] = refl
  counts-select_all (x ∷ xs) = ground (arith, counts-select_all xs)

  -- The counts depend on the rows of the tenant only.
  pub counts-scoped :
      (xs ys : List A)
      → select_all (λ x. tenant_of x == tenant_id) xs
        ≡ select_all (λ x. tenant_of x == tenant_id) ys
      → counts_by_status tenant_of status_of tenant_id xs
        ≡ counts_by_status tenant_of status_of tenant_id ys
  counts-scoped xs ys same =
      sym (counts-select_all xs)
      ∙ (ap (counts_by_status tenant_of status_of tenant_id) same ∙ counts-select_all ys)

-- The metrics are these numbers of rows of the tenant.
pub record Counts (tenant_id : Uuid) (jobs : List PublishJob) (campaigns : List Campaign)
    (connections : List ProviderConnection) (m : MetricsResponse) : Type 0 where
  pub queued_jobs :
      m.publish_jobs.queued ≡ count_where (λ j. j.tenant_id == tenant_id && j.status == queued) jobs
  pub running_jobs :
      m.publish_jobs.running
      ≡ count_where (λ j. j.tenant_id == tenant_id && j.status == running) jobs
  pub succeeded_jobs :
      m.publish_jobs.succeeded
      ≡ count_where (λ j. j.tenant_id == tenant_id && j.status == succeeded) jobs
  pub failed_jobs :
      m.publish_jobs.failed ≡ count_where (λ j. j.tenant_id == tenant_id && j.status == failed) jobs
  pub all_jobs : m.publish_jobs.total ≡ count_where (λ j. j.tenant_id == tenant_id) jobs
  pub archived_campaigns :
      m.campaigns.archived
      ≡ count_where (λ c. c.tenant_id == tenant_id && c.status == archived) campaigns
  pub active_campaigns :
      m.campaigns.active
      ≡ count_where (λ c. c.tenant_id == tenant_id && not (c.status == archived)) campaigns
  pub all_campaigns : m.campaigns.total ≡ count_where (λ c. c.tenant_id == tenant_id) campaigns
  pub connected_connections :
      m.provider_connections.connected
      ≡ count_where (λ c. c.tenant_id == tenant_id && c.status == connected) connections
  pub disconnected_connections :
      m.provider_connections.disconnected
      ≡ count_where (λ c. c.tenant_id == tenant_id && c.status == disconnected) connections
  pub all_connections :
      m.provider_connections.total ≡ count_where (λ c. c.tenant_id == tenant_id) connections

-- Every job is in one of the four states, and every connection in one of the two.
jobs-total :
    (tenant_id : Uuid) (rows : List PublishJob)
    → count_where (λ j. j.tenant_id == tenant_id && j.status == queued) rows
        + count_where (λ j. j.tenant_id == tenant_id && j.status == running) rows
        + count_where (λ j. j.tenant_id == tenant_id && j.status == succeeded) rows
        + count_where (λ j. j.tenant_id == tenant_id && j.status == failed) rows
      ≡ count_where (λ j. j.tenant_id == tenant_id) rows
unfolding count_where
jobs-total tenant_id [] = refl
jobs-total tenant_id (j ∷ rows) = ground (arith, jobs-total tenant_id rows)

campaigns-total :
    (tenant_id : Uuid) (rows : List Campaign)
    → count_where (λ c. c.tenant_id == tenant_id) rows
      ≡ count_where (λ c. c.tenant_id == tenant_id && not (c.status == archived)) rows
        + count_where (λ c. c.tenant_id == tenant_id && c.status == archived) rows
unfolding count_where
campaigns-total tenant_id [] = refl
campaigns-total tenant_id (c ∷ rows) = ground (arith, campaigns-total tenant_id rows)

connections-total :
    (tenant_id : Uuid) (rows : List ProviderConnection)
    → count_where (λ c. c.tenant_id == tenant_id && c.status == connected) rows
        + count_where (λ c. c.tenant_id == tenant_id && c.status == disconnected) rows
      ≡ count_where (λ c. c.tenant_id == tenant_id) rows
unfolding count_where
connections-total tenant_id [] = refl
connections-total tenant_id (c ∷ rows) = ground (arith, connections-total tenant_id rows)

-- get_metrics returns, and changes nothing. Each count is the number of rows of the tenant in that
-- state, with every campaign that is not archived as active, and each total is the number of all
-- rows of the tenant; so the counts of a part add up to its total, and no row of another tenant is
-- counted.
pub get_metrics-Counts :
    (tenant_id : Uuid) (s : Session)
    → (m : MetricsResponse) × (get_metrics tenant_id s ≡ (ok m, s))
      × Counts tenant_id s.current.jobs s.current.campaigns s.current.connections m
unfolding get_metrics
get_metrics-Counts tenant_id s =
    let jobs = s.current.jobs in
    let campaigns = s.current.campaigns in
    let connections = s.current.connections in
    let j = get-counts (λ (x : PublishJob). x.tenant_id) (λ x. x.status) tenant_id in
    let c = get-counts (λ (x : Campaign). x.tenant_id) (λ x. x.status) tenant_id in
    let p = get-counts (λ (x : ProviderConnection). x.tenant_id) (λ x. x.status) tenant_id in
    let all = sum-counts (λ (x : Campaign). x.tenant_id) (λ x. x.status) tenant_id campaigns in
    (
      _,
      refl,
      record {
        queued_jobs = j queued jobs;
        running_jobs = j running jobs;
        succeeded_jobs = j succeeded jobs;
        failed_jobs = j failed jobs;
        all_jobs =
            rw (j queued jobs, j running jobs, j succeeded jobs, j failed jobs)
              (jobs-total tenant_id jobs);
        archived_campaigns = c archived campaigns;
        active_campaigns =
            omega (arith, all, c archived campaigns, campaigns-total tenant_id campaigns);
        all_campaigns = all;
        connected_connections = p connected connections;
        disconnected_connections = p disconnected connections;
        all_connections =
            rw (p connected connections, p disconnected connections)
              (connections-total tenant_id connections);
      },
    )
