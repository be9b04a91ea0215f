-- ===== src/Tests/Publishing.antt =====
-- The theorems on publishing at a small database.
use verisure_ads_automation.Base.{◌≡◌, refl, subst, true, false, [], ◌∷◌, arith, nat_eq}
use verisure_ads_automation.Models.Provider.{Provider, meta, google, ProviderCredentials}
use verisure_ads_automation.Models.Deployment.{CampaignDeployment}
use verisure_ads_automation.Session.{Session, Result, ok, raised}
use verisure_ads_automation.Deployments.Repository.{is_too_long}
use verisure_ads_automation.Publish.Spec.{CampaignSpec}
use verisure_ads_automation.Base.Text.{is_blank}
use verisure_ads_automation.Publish.Adapter.{BaseAdapter, PublishResult, new_publish_result}
use verisure_ads_automation.Publish.Outcome.{HasFit}
use verisure_ads_automation.Publish.Service.{publish_campaign}
use verisure_ads_automation.Publish.UnitOfWork.{publish_campaign-IsUnitOfWork}
use verisure_ads_automation.Publish.Each.{IsOutcome, publish_campaign-IsOutcome}
use verisure_ads_automation.Jobs.RunOnce.{IsUnitOfWork}
use verisure_ads_automation.Campaigns.Repository.{get_by_tenant_and_id}
use verisure_ads_automation.Tests.{a_campaign, session, plain, adapters, drawn}

publish_IsUnitOfWork_example :
    IsUnitOfWork (λ t c. publish_campaign adapters plain (λ db. db) drawn t c false)
publish_IsUnitOfWork_example = publish_campaign-IsUnitOfWork adapters plain drawn

-- What the registry holds for the provider reports ids that fit.
abbrev Fitting : Result BaseAdapter → Type 0
Fitting (ok adapter) =
    (spec : CampaignSpec) (credentials : ProviderCredentials)
    → HasFit (adapter.publish spec credentials)
Fitting (raised e) = Unit

adapters-Fitting : (p : Provider) → Fitting (adapters p)
unfolding new_publish_result is_blank
adapters-Fitting meta = λ spec credentials. refl
adapters-Fitting google = λ spec credentials. tt

adapters-fits :
    (p : Provider) (adapter : BaseAdapter) (spec : CampaignSpec) (credentials : ProviderCredentials)
    (r : PublishResult)
    → adapters p ≡ ok adapter
    → adapter.publish spec credentials ≡ ok r
    → is_too_long r.external_campaign_id ≡ false
adapters-fits p adapter spec credentials r got published =
    subst HasFit published (subst Fitting got (adapters-Fitting p) spec credentials)

publish_campaign_example :
    (d₁ d₂ : CampaignDeployment) × (s' : Session) × (publish_campaign adapters plain
        (λ db. db)
        drawn
        1
        10
        true
        (session [])
      ≡ (ok (d₁ ∷ d₂ ∷ []), s'))
    × IsOutcome adapters plain drawn 1 a_campaign true meta d₁
    × IsOutcome adapters plain drawn 1 a_campaign true google d₂
unfolding get_by_tenant_and_id
publish_campaign_example =
    publish_campaign-IsOutcome adapters plain drawn 1 a_campaign true adapters-fits 10 (session [])
      refl (λ e. cc) (record { distinct = tt; owned = tt }) tt tt (λ e. ground arith)
