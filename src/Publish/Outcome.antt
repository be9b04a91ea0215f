-- ===== src/Publish/Outcome.antt =====
-- What PublishCampaignService leaves for one deployment that the table holds.
use verisure_ads_automation.Base.{
  ◌≡◌, ◌≢◌, refl, sym, ◌∙◌, Bool, true, false, some, nat_eq, All, All-update, Distinct,
  Distinct-update, update_where,
}
use verisure_ads_automation.Models.Provider.{Uuid, Provider}
use verisure_ads_automation.Models.Deployment.{
  CampaignDeployment, pending, submitted, failed, deployment_status_eq,
}
use verisure_ads_automation.Session.{Session, Result, ok, raised}
use verisure_ads_automation.Deployments.Repository.{Deployments, get_by_id}
use verisure_ads_automation.Deployments.Service.{is_member, allowed_transitions}
use verisure_ads_automation.Publish.Adapter.{PublishResult}
use verisure_ads_automation.Deployments.Repository.{is_too_long}

abbrev pub deployment_id : CampaignDeployment → Uuid
deployment_id d = d.id

-- The table as the constraints of the schema keep it: distinct ids, and the deployments of the
-- campaign in its tenant.
pub record IsSound (tenant_id campaign_id : Uuid) (rows : Deployments) : Type 0 where
  pub distinct : Distinct deployment_id rows
  pub owned : All (λ d. d.campaign_id ≡ campaign_id → d.tenant_id ≡ tenant_id) rows

-- A platform's id of the campaign fits its column.
abbrev pub HasFit : Result PublishResult → Type 0
HasFit (ok r) = is_too_long r.external_campaign_id ≡ false
HasFit (raised e) = Unit

-- No row has the id.
abbrev pub IsFresh : Uuid → Deployments → Type 0
IsFresh id rows = All (λ d. d.id ≢ id) rows

-- A changed row keeps its id, tenant and campaign.
pub update-IsSound :
    (t c : Uuid) (p : CampaignDeployment → Bool) (f : CampaignDeployment → CampaignDeployment)
    (rows : Deployments)
    → ((d : CampaignDeployment) → (f d).id ≡ d.id)
    → ((d : CampaignDeployment) → (f d).tenant_id ≡ d.tenant_id)
    → ((d : CampaignDeployment) → (f d).campaign_id ≡ d.campaign_id)
    → IsSound t c rows
    → IsSound t c (update_where p f rows)
update-IsSound t c p f rows i j k s = record {
  distinct = Distinct-update deployment_id p f rows i s.distinct;
  owned =
      All-update (λ d. d.campaign_id ≡ c → d.tenant_id ≡ t) p f rows
        (λ d _ h. λ e. j d ∙ h (sym (k d) ∙ e)) s.owned;
}

pub update-IsFresh :
    (id : Uuid) (p : CampaignDeployment → Bool) (f : CampaignDeployment → CampaignDeployment)
    (rows : Deployments)
    → ((d : CampaignDeployment) → (f d).id ≡ d.id)
    → IsFresh id rows
    → IsFresh id (update_where p f rows)
update-IsFresh id p f rows i =
    All-update (λ d. d.id ≢ id) p f rows (λ d _ h. λ e. h (sym (i d) ∙ e))

module _ (tenant_id campaign_id : Uuid) where
  -- The call returned a deployment for the provider that is no longer pending, in a table that is
  -- still sound and has no new id but `drawn`.
  pub record IsDone (p : Provider) (drawn : Uuid) (before : Deployments) (d : CampaignDeployment)
      (s : Session) : Type 0 where
    pub provider : d.provider ≡ p
    pub campaign : d.campaign_id ≡ campaign_id
    pub tenant : d.tenant_id ≡ tenant_id
    pub attempted : d.status ≢ pending
    pub sound : IsSound tenant_id campaign_id s.current.deployments
    pub fresh : (id : Uuid) → id ≢ drawn → IsFresh id before → IsFresh id s.current.deployments

  -- A deployment for the provider that the table holds.
  pub record IsFound (p : Provider) (drawn : Uuid) (before : Deployments) (d : CampaignDeployment)
      (s : Session) : Type 0 where
    pub found : get_by_id tenant_id d.id s.current.deployments ≡ some d
    pub provider : d.provider ≡ p
    pub campaign : d.campaign_id ≡ campaign_id
    pub tenant : d.tenant_id ≡ tenant_id
    pub sound : IsSound tenant_id campaign_id s.current.deployments
    pub fresh : (id : Uuid) → id ≢ drawn → IsFresh id before → IsFresh id s.current.deployments

  abbrev pub Returns :
      (CampaignDeployment → Session → Type 0) → Result CampaignDeployment × Session → Type 0
  Returns P (ok d, s) = P d s
  Returns P (raised e, s) = ⊥

  pub pending-allows :
      (d : CampaignDeployment)
      → d.status ≡ pending
      → (is_member failed (allowed_transitions d.status) ≡ true)
        × (is_member submitted (allowed_transitions d.status) ≡ true)
  unfolding is_member allowed_transitions
  pending-allows d e = rw e (refl, refl)

  -- The row rewritten, in the rewritten table.
  pub rewritten :
      (p : Provider) (drawn : Uuid) (before : Deployments) (d : CampaignDeployment) (s s' : Session)
      (f : CampaignDeployment → CampaignDeployment)
      → IsFound p drawn before d s
      → ((x : CampaignDeployment) → (f x).id ≡ x.id)
      → ((x : CampaignDeployment) → (f x).tenant_id ≡ x.tenant_id)
      → ((x : CampaignDeployment) → (f x).campaign_id ≡ x.campaign_id)
      → (f d).provider ≡ d.provider
      → (f d).status ≢ pending
      → IsSound tenant_id campaign_id s'.current.deployments
      → ((id : Uuid) → IsFresh id s.current.deployments → IsFresh id s'.current.deployments)
      → IsDone p drawn before (f d) s'
  rewritten p drawn before d s s' f h i t c e n sound fresh = record {
    provider = e ∙ h.provider;
    campaign = c d ∙ h.campaign;
    tenant = t d ∙ h.tenant;
    attempted = n;
    sound = sound;
    fresh = λ id k b. fresh id (h.fresh id k b);
  }
