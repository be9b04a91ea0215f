-- ===== src/Api/OthersKept.antt =====
-- The operations of a tenant keep the rows of other tenants.
use verisure_ads_automation.Base.{
  ◌≡◌, refl, ◌∙◌, Bool, true, false, not, Option, List, arith, ◌==◌, nat_eq, select_all,
  select_all-insert, select_all-update, insert_row, update_where,
}
use verisure_ads_automation.Models.Provider.{Uuid, Instant}
use verisure_ads_automation.Models.Campaign.{Campaign, campaign_status_eq}
use verisure_ads_automation.Models.Connection.{ProviderConnection, connection_status_eq}
use verisure_ads_automation.Models.Job.{PublishJob}
use verisure_ads_automation.Session.{Database, Session, Result, Action, pure, lift, ◌>>=◌}
use verisure_ads_automation.Session.Keeps.{Keeps, Keeps-bind}
use verisure_ads_automation.Campaigns.Repository.{
  CampaignFields, create, is_draft, set_fields, set_archived, update_draft_fields, archive_draft,
}
use verisure_ads_automation.Campaigns.Service.{
  CampaignUpdates, set_campaigns, validate_fields, new_draft, create_draft, update_draft,
}
use verisure_ads_automation.Campaigns.Service
use verisure_ads_automation.Campaigns.Drafts.{lift-then, update-Keeps, archive-Keeps}
use verisure_ads_automation.Connections.Repository.{is_connected, set_disconnected}
use verisure_ads_automation.Connections.Connect.{set_connections}
use verisure_ads_automation.Connections.Secrets.{disconnect-Keeps}
use verisure_ads_automation.Connections.Service as ConnectionService
use verisure_ads_automation.Jobs.Service.{new_job, enqueue, set_jobs}
use verisure_ads_automation.Jobs.Enqueue.{Enqueued, enqueue-Enqueued}
use verisure_ads_automation.Api.Requests.{validate}

-- The second database has the rows of the other tenants and the accounts of the first.
pub record OthersKept (tenant_id : Uuid) (a b : Database) : Type 0 where
  pub campaigns :
      select_all (λ c. not (c.tenant_id == tenant_id)) b.campaigns
      ≡ select_all (λ c. not (c.tenant_id == tenant_id)) a.campaigns
  pub deployments : b.deployments ≡ a.deployments
  pub connections :
      select_all (λ c. not (c.tenant_id == tenant_id)) b.connections
      ≡ select_all (λ c. not (c.tenant_id == tenant_id)) a.connections
  pub jobs :
      select_all (λ j. not (j.tenant_id == tenant_id)) b.jobs
      ≡ select_all (λ j. not (j.tenant_id == tenant_id)) a.jobs
  pub tenants : b.tenants ≡ a.tenants
  pub users : b.users ≡ a.users
  pub refresh_tokens : b.refresh_tokens ≡ a.refresh_tokens

module _ (t : Uuid) (a : Database) where
  with_campaigns :
      (rows : List Campaign) (b : Database)
      → select_all (λ c. not (c.tenant_id == t)) rows
        ≡ select_all (λ c. not (c.tenant_id == t)) b.campaigns
      → OthersKept t a b
      → OthersKept t a (set_campaigns rows b)
  with_campaigns rows b e k = record {
    campaigns = e ∙ k.campaigns;
    deployments = k.deployments;
    connections = k.connections;
    jobs = k.jobs;
    tenants = k.tenants;
    users = k.users;
    refresh_tokens = k.refresh_tokens;
  }

  with_connections :
      (rows : List ProviderConnection) (b : Database)
      → select_all (λ c. not (c.tenant_id == t)) rows
        ≡ select_all (λ c. not (c.tenant_id == t)) b.connections
      → OthersKept t a b
      → OthersKept t a (set_connections rows b)
  with_connections rows b e k = record {
    campaigns = k.campaigns;
    deployments = k.deployments;
    connections = e ∙ k.connections;
    jobs = k.jobs;
    tenants = k.tenants;
    users = k.users;
    refresh_tokens = k.refresh_tokens;
  }

  with_jobs :
      (rows : List PublishJob) (b : Database)
      → select_all (λ j. not (j.tenant_id == t)) rows
        ≡ select_all (λ j. not (j.tenant_id == t)) b.jobs
      → OthersKept t a b
      → OthersKept t a (set_jobs rows b)
  with_jobs rows b e k = record {
    campaigns = k.campaigns;
    deployments = k.deployments;
    connections = k.connections;
    jobs = e ∙ k.jobs;
    tenants = k.tenants;
    users = k.users;
    refresh_tokens = k.refresh_tokens;
  }

  update-drafts :
      (i : Uuid) (f : Campaign → Campaign) (b : Database)
      → ((c : Campaign) → (f c).tenant_id ≡ c.tenant_id)
      → OthersKept t a b
      → OthersKept t a (set_campaigns (update_where (is_draft t i) f b.campaigns) b)
  update-drafts i f b same = with_campaigns (update_where (is_draft t i) f b.campaigns) b (
      select_all-update (λ c. not (c.tenant_id == t)) (is_draft t i) f b.campaigns
        (λ c h. ground arith) (λ c h. ground (arith, same c)))

  abbrev pub Kept : Session → Type 0
  Kept s = OthersKept t a s.saved × OthersKept t a s.current

  pub create-Keeps :
      (id : Uuid) (now : Instant) (u : Uuid) (f : CampaignFields)
      → Keeps Kept (create_draft id now t u f)
  unfolding create_draft create new_draft
  create-Keeps id now u f = lift-then Kept (validate_fields f) _ (λ _ e s h.
      let new =
        with_campaigns (insert_row (new_draft id now t u f) s.current.campaigns) s.current
          (select_all-insert (λ c. not (c.tenant_id == t)) (new_draft id now t u f)
            s.current.campaigns (ground arith))
          h.1 in
      (new, new))

  enqueued-Kept :
      (id : Uuid) (now : Instant) (c : Uuid) (user : Option Uuid) (others : Database → Database)
      (s : Session) (r : Result PublishJob × Session)
      → ((db : Database) → OthersKept t a db → OthersKept t a (others db))
      → Kept s
      → Enqueued id now others t c user s r
      → Kept r.1
  enqueued-Kept id now c user others s r kept (x, y) (Enqueued.is_missing _ e k) = rw k (x, x)
  enqueued-Kept id now c user others s r kept (x, y) (Enqueued.is_archived _ d e f k) = rw k (x, x)
  enqueued-Kept id now c user others s r kept (x, y) (Enqueued.is_active_already _ _ j _ _ e k) =
      rw k (x, y)
  enqueued-Kept id now c user others s r kept (x, y) (Enqueued.is_inserted _ _ _ _ n e k) =
      let job = new_job id now t c user in
      let db = others s.current in
      let outside : not (job.tenant_id == t) ≡ false = unfold new_job in ground arith in
      let new =
        with_jobs (insert_row job db.jobs) db
          (select_all-insert (λ j. not (j.tenant_id == t)) job db.jobs outside)
          (kept s.current y) in
      rw k (new, new)
  enqueued-Kept id now c user others s r kept (x, y) (Enqueued.is_overtaken _ _ j₁ j₂ _ _ _ e f k) =
      rw k (kept s.saved x, kept s.saved x)
  enqueued-Kept id now c user others s r kept (x, y) (Enqueued.is_refused _ _ j _ _ _ e f k) =
      rw k (kept s.saved x, kept s.saved x)

  module _ (others : Database → Database)
      (kept : (db : Database) → OthersKept t a db → OthersKept t a (others db)) where
    pub update-Kept : (i : Uuid) (u : CampaignUpdates) → Keeps Kept (update_draft others t i u)
    unfolding update_draft_fields
    update-Kept i u =
        update-Keeps (OthersKept t a) others kept t i u
          (λ f _ db. update-drafts i (set_fields f) db (λ c. refl))

    pub archive-Kept : (i : Uuid) → Keeps Kept (Service.archive_campaign others t i)
    unfolding archive_draft
    archive-Kept i =
        archive-Keeps (OthersKept t a) others kept t i
          (λ db. update-drafts i set_archived db (λ c. refl))

    pub disconnect-Kept :
        (i : Uuid) (now : Instant) → Keeps Kept (ConnectionService.disconnect others t i now)
    disconnect-Kept i now = disconnect-Keeps others (OthersKept t a) kept t i now (λ db.
        with_connections (update_where (is_connected t i) (set_disconnected now) db.connections) db
          (select_all-update (λ c. not (c.tenant_id == t)) (is_connected t i) (set_disconnected now)
            db.connections (λ c h. ground arith) (λ c h. ground arith)))

    pub enqueue-Kept :
        (id : Uuid) (now : Instant) (c : Uuid) (user : Option Uuid)
        → Keeps Kept (enqueue id now others t c user)
    enqueue-Kept id now c user s k =
        enqueued-Kept id now c user others s _ kept k (enqueue-Enqueued id now others t c user s)

  -- Around a service call: the checks of the request before it, and the schema after it.
  pub lifted-Keeps : {A : Type 0} (r : Result A) → Keeps Kept (lift r)
  lifted-Keeps r s k = k

  pub validate-Keeps : (b : Bool) → Keeps Kept (validate b)
  validate-Keeps true s k = k
  validate-Keeps false s k = k

  pure-Keeps : {A : Type 0} (x : A) → Keeps Kept (pure x)
  pure-Keeps x s k = k

  pub read-Keeps :
      {A B : Type 0} (m : Action A) (f : A → B) → Keeps Kept m → Keeps Kept (m >>= λ x. pure (f x))
  read-Keeps m f k = Keeps-bind Kept m (λ x. pure (f x)) k (λ x. pure-Keeps (f x))
