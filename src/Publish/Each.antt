-- ===== src/Publish/Each.antt =====
-- Every campaign that may be published is: each supported provider gets an outcome.
use verisure_ads_automation.Base.{
  ◌≡◌, ◌≢◌, refl, sym, Bool, false, some, List, [], ◌∷◌, arith, nat_eq,
}
use verisure_ads_automation.Models.Provider.{Uuid, Provider, meta, google}
use verisure_ads_automation.Models.Campaign.{
  Campaign, archived, campaign_status_eq, campaign_status_eqb_iff,
}
use verisure_ads_automation.Campaigns.Repository.{get_by_tenant_and_id}
use verisure_ads_automation.Models.Deployment.{CampaignDeployment, pending, deployment_status_eq}
use verisure_ads_automation.Session.{Session, Result, ok, raised}
use verisure_ads_automation.Connections.Encryption.{CredentialEncryption}
use verisure_ads_automation.Deployments.Repository.{Deployments}
use verisure_ads_automation.Deployments.Transitions.{alone}
use verisure_ads_automation.Publish.Adapter.{Registry}
use verisure_ads_automation.Publish.Service.{
  Draw, publish_provider, publish_each, publish_campaign, supported_providers,
}
use verisure_ads_automation.Publish.Outcome.{IsSound, IsFresh, IsDone, Returns}
use verisure_ads_automation.Publish.Provider.{provider-IsDone}
use verisure_ads_automation.Deployments.Repository.{is_too_long}
use verisure_ads_automation.Models.Provider.{ProviderCredentials}
use verisure_ads_automation.Publish.Spec.{CampaignSpec}
use verisure_ads_automation.Publish.Adapter.{BaseAdapter, PublishResult}

module _ (registry : Registry) (encryption : CredentialEncryption) (draws : Provider → Draw)
    (tenant_id : Uuid) (c : Campaign) (commits : Bool) where
  -- The outcome for one provider: its deployment of this campaign, no longer pending.
  pub record IsOutcome (p : Provider) (d : CampaignDeployment) : Type 0 where
    pub provider : d.provider ≡ p
    pub campaign : d.campaign_id ≡ c.id
    pub tenant : d.tenant_id ≡ tenant_id
    pub attempted : d.status ≢ pending

  is_outcome :
      (p : Provider) (before : Deployments) (d : CampaignDeployment) (s : Session)
      → IsDone tenant_id c.id p (draws p).id before d s
      → IsOutcome p d
  is_outcome p before d s h = record {
    provider = h.provider;
    campaign = h.campaign;
    tenant = h.tenant;
    attempted = h.attempted;
  }

  Returns-ok :
      (p : Provider) (before : Deployments) (r : Result CampaignDeployment × Session)
      → Returns tenant_id c.id (IsDone tenant_id c.id p (draws p).id before) r
      → (d : CampaignDeployment) × (s : Session) × (r ≡ (ok d, s))
        × IsDone tenant_id c.id p (draws p).id before d s
  Returns-ok p before (ok d, s) h = (d, s, refl, h)
  Returns-ok p before (raised e, s) h = absurd h

  round :
      (p : Provider) (ps : List Provider) (s s₁ s₂ : Session) (d : CampaignDeployment)
      (ds : Deployments)
      → publish_provider registry encryption alone draws tenant_id c commits p s ≡ (ok d, s₁)
      → publish_each registry encryption alone draws tenant_id c commits ps s₁ ≡ (ok ds, s₂)
      → publish_each registry encryption alone draws tenant_id c commits (p ∷ ps) s
        ≡ (ok (d ∷ ds), s₂)
  unfolding publish_each
  round p ps s s₁ s₂ d ds e₁ e₂ = ground arith

  two_rounds :
      (s s₁ s₂ : Session) (d₁ d₂ : CampaignDeployment)
      → publish_provider registry encryption alone draws tenant_id c commits meta s ≡ (ok d₁, s₁)
      → publish_provider registry encryption alone draws tenant_id c commits google s₁ ≡ (ok d₂, s₂)
      → publish_each registry encryption alone draws tenant_id c commits supported_providers s
        ≡ (ok (d₁ ∷ d₂ ∷ []), s₂)
  unfolding publish_each
  two_rounds s s₁ s₂ d₁ d₂ e₁ e₂ =
      round meta (google ∷ []) s s₁ s₂ d₁ (d₂ ∷ []) e₁ (round google [] s₁ s₂ s₂ d₂ [] e₂ refl)

  module _
      (fits : (p : Provider) (adapter : BaseAdapter) (spec : CampaignSpec)
          (credentials : ProviderCredentials) (r : PublishResult)
        → registry p ≡ ok adapter
        → adapter.publish spec credentials ≡ ok r
        → is_too_long r.external_campaign_id ≡ false) where
    both_done :
        (s : Session)
        → IsSound tenant_id c.id s.current.deployments
        → IsFresh (draws meta).id s.current.deployments
        → IsFresh (draws google).id s.current.deployments
        → (draws meta).id ≢ (draws google).id
        → (d₁ d₂ : CampaignDeployment) × (s' : Session) × (publish_each registry encryption alone
              draws tenant_id c commits supported_providers s
            ≡ (ok (d₁ ∷ d₂ ∷ []), s'))
          × IsOutcome meta d₁
          × IsOutcome google d₂
    both_done s h f g n =
        let before = s.current.deployments in
        let (d₁, s₁, e₁, k₁) =
          Returns-ok meta before _
            (provider-IsDone registry encryption draws tenant_id c commits fits meta s h f) in
        let g' = k₁.fresh (draws google).id (λ e. n (sym e)) g in
        let (d₂, s₂, e₂, k₂) = Returns-ok google s₁.current.deployments _ (
          provider-IsDone registry encryption draws tenant_id c commits fits google s₁ k₁.sound
            g') in
        (
          d₁,
          d₂,
          s₂,
          two_rounds s s₁ s₂ d₁ d₂ e₁ e₂,
          is_outcome meta before d₁ s₁ k₁,
          is_outcome google s₁.current.deployments d₂ s₂ k₂,
        )

    -- With no other transaction at work, and adapters whose ids of campaigns have at most the 255
    -- characters of their column, a campaign of the tenant that is not archived is published to the
    -- end, whatever else the adapters, the encryption and the credentials do: the call returns, and
    -- returns first a Meta and then a Google deployment of the campaign, neither still pending.
    -- The table has distinct ids and keeps the deployments of the campaign in its tenant, and the
    -- ids drawn for the two providers are new and differ.
    pub publish_campaign-IsOutcome :
        (campaign_id : Uuid) (s : Session)
        → get_by_tenant_and_id tenant_id campaign_id s.current.campaigns ≡ some c
        → c.status ≢ archived
        → IsSound tenant_id c.id s.current.deployments
        → IsFresh (draws meta).id s.current.deployments
        → IsFresh (draws google).id s.current.deployments
        → (draws meta).id ≢ (draws google).id
        → (d₁ d₂ : CampaignDeployment) × (s' : Session) × (publish_campaign registry encryption
              alone draws tenant_id campaign_id commits s
            ≡ (ok (d₁ ∷ d₂ ∷ []), s'))
          × IsOutcome meta d₁
          × IsOutcome google d₂
    unfolding publish_campaign
    publish_campaign-IsOutcome campaign_id s e a h f g n =
        let (d₁, d₂, s', k, o₁, o₂) = both_done s h f g n in
        (d₁, d₂, s', ground (arith, campaign_status_eqb_iff c.status archived), o₁, o₂)
