-- ===== src/Publish/UnitOfWork.antt =====
-- `publish_campaign(commit=False)` as one unit of work.
use verisure_ads_automation.Base.{
  ◌≡◌, refl, false, Option, none, some, List, [], ◌∷◌, arith, subst, sym,
}
use verisure_ads_automation.Sanitization.{sanitize_provider_exception, sanitize_provider_message}
use verisure_ads_automation.Models.Provider.{Uuid, Provider}
use verisure_ads_automation.Models.Campaign.{Campaign}
use verisure_ads_automation.Models.Deployment.{CampaignDeployment, deployment_status_eq}
use verisure_ads_automation.Session.{Database, Session, Result, ok, raised, pure, ◌>>=◌}
use verisure_ads_automation.Session.Keeps.{Keeps, Keeps-bind}
use verisure_ads_automation.Jobs.Repository.{Jobs}
use verisure_ads_automation.Jobs.RunOnce.{IsUnitOfWork}
use verisure_ads_automation.Connections.Encryption.{CredentialEncryption}
use verisure_ads_automation.Connections.Service.{get_decrypted_credentials}
use verisure_ads_automation.Campaigns.Repository.{get_by_tenant_and_id}
use verisure_ads_automation.Deployments.Repository.{get_by_campaign_and_provider}
use verisure_ads_automation.Deployments.UnitOfWork.{
  InUnit, create_pending_deployment-InUnit, mark_failed-InUnit, mark_submitted-InUnit,
}
use verisure_ads_automation.Publish.Adapter.{PublishResult, Registry}
use verisure_ads_automation.Publish.Service.{
  Draw, attempt, record_outcome, attempt_provider_publish, existing_or_new, publish_if_pending,
  publish_provider, publish_each, publish_found, publish_campaign, supported_providers,
}

module _ (registry : Registry) (encryption : CredentialEncryption) (draws : Provider → Draw) where
  -- The provider-facing part writes nothing.
  pub attempt-reads :
      (others : Database → Database) (tenant_id : Uuid) (c : Campaign) (d : CampaignDeployment)
      (s : Session)
      → (attempt registry encryption others draws tenant_id c d s).1 ≡ s
  unfolding attempt get_decrypted_credentials
  attempt-reads others tenant_id c d s = ground arith

  module _ (saved : Database) (jobs : Jobs) where
    record_outcome-InUnit :
        (tenant_id : Uuid) (d : CampaignDeployment) (r : Result PublishResult)
        → Keeps
            (InUnit saved jobs)
            (record_outcome registry encryption (λ db. db) draws tenant_id d false r)
    unfolding record_outcome
    record_outcome-InUnit tenant_id d (raised e) =
        mark_failed-InUnit saved jobs tenant_id d.id (sanitize_provider_exception e)
    record_outcome-InUnit tenant_id d (ok r) = λ s h. ground (
      arith,
      mark_failed-InUnit saved jobs tenant_id d.id (sanitize_provider_message r.error_message) s h,
      mark_submitted-InUnit saved jobs tenant_id d.id r.external_campaign_id
          (draws d.provider).submitted_at s h,
    )

    attempt_provider_publish-InUnit :
        (tenant_id : Uuid) (c : Campaign) (d : CampaignDeployment)
        → Keeps
            (InUnit saved jobs)
            (attempt_provider_publish registry encryption (λ db. db) draws tenant_id c d false)
    unfolding attempt_provider_publish
    attempt_provider_publish-InUnit tenant_id c d s h =
        record_outcome-InUnit tenant_id d
          (attempt registry encryption (λ db. db) draws tenant_id c d s).0 _
          (subst (InUnit saved jobs) (sym (attempt-reads (λ db. db) tenant_id c d s)) h)

    existing_or_new-InUnit :
        (tenant_id campaign_id : Uuid) (p : Provider) (row : Option CampaignDeployment)
        → Keeps
            (InUnit saved jobs)
            (existing_or_new registry encryption (λ db. db) draws tenant_id campaign_id p false row)
    existing_or_new-InUnit tenant_id campaign_id p (some d) = λ s h. h
    existing_or_new-InUnit tenant_id campaign_id p none =
        create_pending_deployment-InUnit saved jobs (draws p).id (draws p).idempotency_key
          (draws p).created_at tenant_id campaign_id p

    publish_if_pending-InUnit :
        (tenant_id : Uuid) (c : Campaign) (d : CampaignDeployment)
        → Keeps
            (InUnit saved jobs)
            (publish_if_pending registry encryption (λ db. db) draws tenant_id c false d)
    unfolding publish_if_pending
    publish_if_pending-InUnit tenant_id c d s h =
        ground (arith, attempt_provider_publish-InUnit tenant_id c d s h)

    publish_provider-InUnit :
        (tenant_id : Uuid) (c : Campaign) (p : Provider)
        → Keeps
            (InUnit saved jobs)
            (publish_provider registry encryption (λ db. db) draws tenant_id c false p)
    unfolding publish_provider
    publish_provider-InUnit tenant_id c p s h =
        let row = get_by_campaign_and_provider tenant_id c.id p s.current.deployments in
        Keeps-bind (InUnit saved jobs)
          (existing_or_new registry encryption (λ db. db) draws tenant_id c.id p false row)
          (publish_if_pending registry encryption (λ db. db) draws tenant_id c false)
          (existing_or_new-InUnit tenant_id c.id p row) (publish_if_pending-InUnit tenant_id c) s h

    publish_each-InUnit :
        (tenant_id : Uuid) (c : Campaign) (ps : List Provider)
        → Keeps
            (InUnit saved jobs)
            (publish_each registry encryption (λ db. db) draws tenant_id c false ps)
    unfolding publish_each
    publish_each-InUnit tenant_id c [] = λ s h. h
    publish_each-InUnit tenant_id c (p ∷ ps) =
        Keeps-bind (InUnit saved jobs)
          (publish_provider registry encryption (λ db. db) draws tenant_id c false p)
          (λ d. publish_each registry encryption (λ db. db) draws tenant_id c false ps >>= λ ds.
            pure (d ∷ ds))
          (publish_provider-InUnit tenant_id c p)
          (λ d.
            Keeps-bind (InUnit saved jobs)
              (publish_each registry encryption (λ db. db) draws tenant_id c false ps)
              (λ ds. pure (d ∷ ds)) (publish_each-InUnit tenant_id c ps) (λ ds s h. h))

    publish_found-InUnit :
        (tenant_id : Uuid) (row : Option Campaign)
        → Keeps
            (InUnit saved jobs)
            (publish_found registry encryption (λ db. db) draws tenant_id false row)
    publish_found-InUnit tenant_id none = λ s h. h
    publish_found-InUnit tenant_id (some c) =
        λ s h. ground (arith, publish_each-InUnit tenant_id c supported_providers s h)

    publish_campaign-InUnit :
        (tenant_id campaign_id : Uuid)
        → Keeps
            (InUnit saved jobs)
            (publish_campaign registry encryption (λ db. db) draws tenant_id campaign_id false)
    unfolding publish_campaign
    publish_campaign-InUnit tenant_id campaign_id s h =
        publish_found-InUnit tenant_id
          (get_by_tenant_and_id tenant_id campaign_id s.current.campaigns) s h

  -- With no other transaction at work, whatever the adapters, the credentials and the campaign:
  -- publish_campaign(commit=False) commits nothing and rolls nothing back, and touches no publish
  -- job, whether it returns or raises.
  pub publish_campaign-IsUnitOfWork : IsUnitOfWork (λ tenant_id campaign_id.
      publish_campaign registry encryption (λ db. db) draws tenant_id campaign_id false)
  publish_campaign-IsUnitOfWork = record {
    saved_kept = λ t c s. (publish_campaign-InUnit s.saved s.current.jobs t c s (refl, refl)).0;
    jobs_kept = λ t c s. (publish_campaign-InUnit s.saved s.current.jobs t c s (refl, refl)).1;
  }
