-- ===== src/Jobs/Branches.antt =====
-- PublishJobService.enqueue, branch by branch.
use verisure_ads_automation.Base.{
  ◌≡◌, ◌≢◌, Bool, ◌&&◌, Option, none, some, arith, ◌==◌, nat_eq, nat_eqb_iff, Option-cases, All,
  IsFirst, select_first-IsFirst, select_one, select_one-In, select_one-holds, All-In,
  select_first-none, count_where-pos, insert_row, inl, inr,
}
use verisure_ads_automation.Exceptions.{Exception, integrity_error, campaign_not_found_error}
use verisure_ads_automation.Models.Provider.{Uuid, Instant}
use verisure_ads_automation.Models.Campaign.{
  Campaign, archived, campaign_status_eq, campaign_status_eqb_iff,
}
use verisure_ads_automation.Models.Job.{PublishJob, is_active, job_status_eq}
use verisure_ads_automation.Session.{Database, Session, Result, ok, raised}
use verisure_ads_automation.Campaigns.Repository.{get_by_tenant_and_id}
use verisure_ads_automation.Publish.Service.{archived_error}
use verisure_ads_automation.Jobs.Repository.{
  uq_active_campaign, is_active_for, create, created_before, get_active_for_campaign,
}
use verisure_ads_automation.Jobs.Claim.{created_before-IsOrder}
use verisure_ads_automation.Jobs.Service.{set_jobs, new_job, enqueue_failed, enqueue}

-- The query for the active job of a campaign in a tenant.
abbrev pub is_active_in : Uuid → Uuid → PublishJob → Bool
is_active_in t c j = j.tenant_id == t && j.campaign_id == c && is_active j.status

abbrev pub rolled_back : Session → Session
rolled_back s = record s { current = s.saved }

-- The error of the partial unique index.
abbrev pub refused_insert : Exception
refused_insert = record { class = integrity_error; message = uq_active_campaign }

abbrev pub committed : Database → Session
committed db = record { saved = db; current = db }

module _ (id : Uuid) (now : Instant) (others : Database → Database) (tenant_id campaign_id : Uuid)
    (user : Option Uuid) (s : Session) where
  abbrev call : Result PublishJob × Session
  call = enqueue id now others tenant_id campaign_id user s

  abbrev found : Option Campaign
  found = get_by_tenant_and_id tenant_id campaign_id s.current.campaigns

  abbrev active : Database → Option PublishJob
  active db = get_active_for_campaign tenant_id campaign_id db.jobs

  pub active-keys :
      (db : Database) (j : PublishJob)
      → active db ≡ some j
      → IsFirst created_before (is_active_in tenant_id campaign_id) db.jobs j
  unfolding get_active_for_campaign
  active-keys db j e =
      select_first-IsFirst created_before created_before-IsOrder
        (is_active_in tenant_id campaign_id) db.jobs j e

  pub missing : found ≡ none → call ≡ (raised campaign_not_found_error, rolled_back s)
  unfolding enqueue enqueue_failed
  missing e = ground arith

  pub refused :
      (c : Campaign)
      → found ≡ some c
      → c.status ≡ archived
      → call ≡ (raised archived_error, rolled_back s)
  unfolding enqueue enqueue_failed
  refused c e a = ground arith

  pub repeated :
      (c : Campaign) (j : PublishJob)
      → found ≡ some c
      → c.status ≢ archived
      → active s.current ≡ some j
      → call ≡ (ok j, s)
  unfolding enqueue
  repeated c j e a k =
      ground (arith, campaign_status_eqb_iff c.status archived, (active-keys s.current j k).fits)

  -- The INSERT after other transactions have committed.
  pub inserted :
      (c : Campaign)
      → found ≡ some c
      → c.status ≢ archived
      → active s.current ≡ none
      → select_one (is_active_for campaign_id) (others s.current).jobs ≡ none
      → let job = new_job id now tenant_id campaign_id user in
        call
        ≡ (ok job, committed (set_jobs (insert_row job (others s.current).jobs) (others s.current)))
  unfolding enqueue create new_job
  inserted c e a n f = ground (arith, campaign_status_eqb_iff c.status archived)

  pub raced :
      (c : Campaign) (j₁ j₂ : PublishJob)
      → found ≡ some c
      → c.status ≢ archived
      → active s.current ≡ none
      → select_one (is_active_for campaign_id) (others s.current).jobs ≡ some j₁
      → active (others s.saved) ≡ some j₂
      → call ≡ (ok j₂, committed (others s.saved))
  unfolding enqueue enqueue_failed create new_job
  raced c j₁ j₂ e a n f k =
      ground
        (arith, campaign_status_eqb_iff c.status archived, (active-keys (others s.saved) j₂ k).fits)

  -- Where the query finds no active job of a campaign that stays in its tenant, the index holds
  -- none.
  pub none-active :
      (db : Database)
      → All (λ j. j.campaign_id ≡ campaign_id → j.tenant_id ≡ tenant_id) db.jobs
      → active db ≡ none
      → select_one (is_active_for campaign_id) db.jobs ≡ none
  unfolding get_active_for_campaign
  none-active db owned n = elim (Option-cases (select_one (is_active_for campaign_id) db.jobs)) [
    | inl e ↦ e
    | inr (j, e) ↦
        let m = select_one-In (is_active_for campaign_id) db.jobs j e in
        let own =
          All-In (λ k. k.campaign_id ≡ campaign_id → k.tenant_id ≡ tenant_id) j db.jobs owned m in
        let empty =
          select_first-none created_before (is_active_in tenant_id campaign_id) db.jobs n in
        absurd (
          ground (
            arith,
            select_one-holds (is_active_for campaign_id) db.jobs e,
            own,
            nat_eqb_iff j.campaign_id campaign_id,
            nat_eqb_iff j.tenant_id tenant_id,
            count_where-pos (is_active_in tenant_id campaign_id) db.jobs j m,
          ))
  ]

  pub lost :
      (c : Campaign) (j : PublishJob)
      → found ≡ some c
      → c.status ≢ archived
      → active s.current ≡ none
      → select_one (is_active_for campaign_id) (others s.current).jobs ≡ some j
      → active (others s.saved) ≡ none
      → call ≡ (raised refused_insert, committed (others s.saved))
  unfolding enqueue enqueue_failed create new_job
  lost c j e a n f k = ground (arith, campaign_status_eqb_iff c.status archived)
