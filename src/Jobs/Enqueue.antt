-- ===== src/Jobs/Enqueue.antt =====
-- PublishJobService.enqueue: how a call can end, and the race on the partial unique index.
use verisure_ads_automation.Base.{
  ◌≡◌, ◌≢◌, refl, sym, Bool, true, false, Option, none, some, arith, ◌==◌, nat_eq, Bool-cases,
  Option-cases, All, In, select_one, insert_row, inl, inr, In-insert, subst,
}
use verisure_ads_automation.Exceptions.{campaign_not_found_error}
use verisure_ads_automation.Models.Provider.{Uuid, Instant}
use verisure_ads_automation.Models.Campaign.{
  Campaign, archived, campaign_status_eq, campaign_status_eqb_iff,
}
use verisure_ads_automation.Models.Job.{PublishJob, is_active, job_status_eq}
use verisure_ads_automation.Session.{Database, Session, Result, ok, raised}
use verisure_ads_automation.Campaigns.Repository.{get_by_tenant_and_id}
use verisure_ads_automation.Publish.Service.{archived_error}
use verisure_ads_automation.Jobs.Repository.{is_active_for, get_active_for_campaign}
use verisure_ads_automation.Jobs.Service.{set_jobs, new_job, enqueue}
use verisure_ads_automation.Jobs.Branches.{
  rolled_back, refused_insert, committed, active-keys, missing, refused, repeated, inserted, raced,
  none-active, lost,
}

module _ (id : Uuid) (now : Instant) (others : Database → Database) (tenant_id campaign_id : Uuid)
    (user : Option Uuid) (s : Session) where
  abbrev call : Result PublishJob × Session
  call = enqueue id now others tenant_id campaign_id user s

  abbrev found : Option Campaign
  found = get_by_tenant_and_id tenant_id campaign_id s.current.campaigns

  abbrev active : Database → Option PublishJob
  active db = get_active_for_campaign tenant_id campaign_id db.jobs

  -- The answer to an enqueue: an active job of the campaign that the committed database holds.
  pub record IsEnqueued (job : PublishJob) (s' : Session) : Type 0 where
    pub tenant : job.tenant_id ≡ tenant_id
    pub campaign : job.campaign_id ≡ campaign_id
    pub is_active : is_active job.status ≡ true
    pub held : In job s'.saved.jobs
    pub clean : s'.saved ≡ s'.current

  found-IsEnqueued :
      (db : Database) (j : PublishJob) (s' : Session)
      → active db ≡ some j
      → s'.saved ≡ db
      → s'.saved ≡ s'.current
      → IsEnqueued j s'
  found-IsEnqueued db j s' e k m =
      let first = active-keys id now others tenant_id campaign_id user s db j e in
      let fits = first.fits in
      record {
        tenant = ground arith;
        campaign = ground arith;
        is_active = ground arith;
        held = subst (λ d. In j d.jobs) (sym k) first.among;
        clean = m;
      }

  -- The ways that a call can end.
  pub data Enqueued : Result PublishJob × Session → Type 0 where
    is_missing :
        (r : Result PublishJob × Session)
        → found ≡ none
        → r ≡ (raised campaign_not_found_error, rolled_back s)
        → Enqueued r
    is_archived :
        (r : Result PublishJob × Session) (c : Campaign)
        → found ≡ some c
        → c.status ≡ archived
        → r ≡ (raised archived_error, rolled_back s)
        → Enqueued r
    is_active_already :
        (r : Result PublishJob × Session) (c : Campaign) (j : PublishJob)
        → found ≡ some c
        → c.status ≢ archived
        → active s.current ≡ some j
        → r ≡ (ok j, s)
        → Enqueued r
    is_inserted :
        (r : Result PublishJob × Session) (c : Campaign)
        → found ≡ some c
        → c.status ≢ archived
        → active s.current ≡ none
        → select_one (is_active_for campaign_id) (others s.current).jobs ≡ none
        → r ≡ (
          ok (new_job id now tenant_id campaign_id user),
          committed (
              set_jobs
                (insert_row (new_job id now tenant_id campaign_id user) (others s.current).jobs)
                (others s.current)),
        )
        → Enqueued r
    is_overtaken :
        (r : Result PublishJob × Session) (c : Campaign) (j₁ j₂ : PublishJob)
        → found ≡ some c
        → c.status ≢ archived
        → active s.current ≡ none
        → select_one (is_active_for campaign_id) (others s.current).jobs ≡ some j₁
        → active (others s.saved) ≡ some j₂
        → r ≡ (ok j₂, committed (others s.saved))
        → Enqueued r
    is_refused :
        (r : Result PublishJob × Session) (c : Campaign) (j : PublishJob)
        → found ≡ some c
        → c.status ≢ archived
        → active s.current ≡ none
        → select_one (is_active_for campaign_id) (others s.current).jobs ≡ some j
        → active (others s.saved) ≡ none
        → r ≡ (raised refused_insert, committed (others s.saved))
        → Enqueued r

  -- Every branch. A campaign that the tenant does not have, or that is archived, raises and the
  -- transaction is rolled back; every other ending is for a campaign of the tenant that is not
  -- archived. Where the tenant has an active job of the campaign, that job is returned and nothing
  -- changes. Otherwise, if the index lets the new job in, it is inserted in state queued and
  -- committed; and if another transaction has committed an active job meanwhile, the transaction
  -- is rolled back and that job is returned, or, where it is not the tenant's, the error of the
  -- INSERT is raised.
  pub enqueue-Enqueued : Enqueued call
  enqueue-Enqueued = elim (Option-cases found) [
    | inl e ↦ Enqueued.is_missing _ e (missing id now others tenant_id campaign_id user s e)
    | inr (c, e) ↦ elim (Bool-cases (c.status == archived)) [
      | inl t ↦
          let a = (campaign_status_eqb_iff c.status archived).0 t in
          Enqueued.is_archived _ c e a (refused id now others tenant_id campaign_id user s c e a)
      | inr t ↦ publishable c e (λ k. differ t ((campaign_status_eqb_iff c.status archived).1 k))
    ]
  ]
    where
      differ : {b : Bool} → b ≡ false → b ≡ true → ⊥
      differ h h' = cc

      publishable : (c : Campaign) → found ≡ some c → c.status ≢ archived → Enqueued call
      publishable c e a = elim (Option-cases (active s.current)) [
        | inr (j, f) ↦
            Enqueued.is_active_already _ c j e a f
              (repeated id now others tenant_id campaign_id user s c j e a f)
        | inl n ↦
            elim (Option-cases (select_one (is_active_for campaign_id) (others s.current).jobs)) [
              | inl f ↦
                  Enqueued.is_inserted _ c e a n f
                    (inserted id now others tenant_id campaign_id user s c e a n f)
              | inr (j₁, f) ↦ elim (Option-cases (active (others s.saved))) [
                | inl g ↦
                    Enqueued.is_refused _ c j₁ e a n f g
                      (lost id now others tenant_id campaign_id user s c j₁ e a n f g)
                | inr (j₂, g) ↦
                    Enqueued.is_overtaken _ c j₁ j₂ e a n f g
                      (raced id now others tenant_id campaign_id user s c j₁ j₂ e a n f g)
              ]
            ]
      ]

  new-IsEnqueued : IsEnqueued (new_job id now tenant_id campaign_id user) (
      committed (
        set_jobs
          (insert_row (new_job id now tenant_id campaign_id user) (others s.current).jobs)
          (others s.current)))
  unfolding new_job
  new-IsEnqueued = record {
    tenant = refl;
    campaign = refl;
    is_active = refl;
    held = In-insert _ (others s.current).jobs;
    clean = refl;
  }

  -- Whatever other transactions commit between the read and the INSERT, a call on a clean session
  -- for a campaign of the tenant that is not archived returns, with no error, an active job of
  -- that campaign in that tenant, which the committed database holds, and leaves no change
  -- uncommitted. All jobs of the campaign are in its tenant.
  pub enqueue-IsEnqueued :
      (c : Campaign)
      → found ≡ some c
      → c.status ≢ archived
      → s.saved ≡ s.current
      → All (λ j. j.campaign_id ≡ campaign_id → j.tenant_id ≡ tenant_id) (others s.current).jobs
      → (job : PublishJob) × (s' : Session) × (call ≡ (ok job, s')) × IsEnqueued job s'
  enqueue-IsEnqueued c e a k owned = elim (Option-cases (active s.current)) [
    | inr (j, f) ↦ (
      j,
      s,
      repeated id now others tenant_id campaign_id user s c j e a f,
      found-IsEnqueued s.current j s f k k,
    )
    | inl n ↦ elim (Option-cases (select_one (is_active_for campaign_id) (others s.current).jobs)) [
      | inl f ↦ (
        new_job id now tenant_id campaign_id user,
        _,
        inserted id now others tenant_id campaign_id user s c e a n f,
        new-IsEnqueued,
      )
      | inr (j₁, f) ↦ elim (Option-cases (active (others s.saved))) [
        | inl g ↦ absurd (
            one_or_none f (
              none-active id now others tenant_id campaign_id user s (others s.current) owned
                (subst (λ db. active (others db) ≡ none) k g)))
        | inr (j₂, g) ↦ (
          j₂,
          _,
          raced id now others tenant_id campaign_id user s c j₁ j₂ e a n f g,
          found-IsEnqueued (others s.saved) j₂ _ g refl refl,
        )
      ]
    ]
  ]
    where
      one_or_none : {A : Type 0} {o : Option A} {x : A} → o ≡ some x → o ≡ none → ⊥
      one_or_none h h' = cc
