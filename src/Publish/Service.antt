-- ===== src/Publish/Service.antt =====
-- app/services/publish_campaign_service.py. Logging is left out.
use verisure_ads_automation.Base.{Bool, Option, none, some, List, [], ◌∷◌, ◌==◌, if◌then◌else◌}
use verisure_ads_automation.Exceptions.{invalid_campaign_state, Exception, campaign_not_found_error}
use verisure_ads_automation.Sanitization.{sanitize_provider_exception, sanitize_provider_message}
use verisure_ads_automation.Models.Provider.{Uuid, Instant, Provider, meta, google}
use verisure_ads_automation.Models.Campaign.{archived, campaign_status_eq, Campaign}
use verisure_ads_automation.Models.Deployment.{pending, deployment_status_eq, CampaignDeployment}
use verisure_ads_automation.Session.{
  Database, Result, ok, raised, Action, pure, raise, query, lift, ◌>>=◌, ◌>>◌, when,
}
use verisure_ads_automation.Campaigns.Repository.{get_by_tenant_and_id}
use verisure_ads_automation.Connections.Encryption.{CredentialEncryption}
use verisure_ads_automation.Connections.Service.{get_decrypted_credentials}
use verisure_ads_automation.Deployments.Repository.{
  Deployments, get_by_campaign_and_provider, list_by_campaign,
}
use verisure_ads_automation.Deployments.Service.{
  create_pending_deployment, mark_submitted, mark_failed,
}
use verisure_ads_automation.Publish.Spec.{build}
use verisure_ads_automation.Publish.Adapter.{PublishResult, Registry}

-- `_SUPPORTED_PROVIDERS`
abbrev pub supported_providers : List Provider
supported_providers = meta ∷ google ∷ []

abbrev pub archived_error : Exception
archived_error = record {
  class = invalid_campaign_state;
  message = "An archived campaign cannot be published.";
}

abbrev pub campaign_or_raise : Option Campaign → Action Campaign
campaign_or_raise none = raise campaign_not_found_error
campaign_or_raise (some c) = pure c

-- `_validate_publishable`
abbrev pub validate_publishable : Campaign → Action (Unit {0})
validate_publishable c = when (c.status == archived) (raise archived_error)

-- What the calls for one provider draw: the UUIDs of a new row and the times of the clock.
pub record Draw : Type 0 where
  pub id : Uuid
  pub idempotency_key : Uuid
  pub created_at : Instant
  pub submitted_at : Instant

unfoldable pub list_deployments : Uuid → Uuid → Action Deployments
unfolding get_by_tenant_and_id list_by_campaign
list_deployments tenant_id campaign_id = do
  row ← query (λ db. get_by_tenant_and_id tenant_id campaign_id db.campaigns)
  campaign ← campaign_or_raise row
  query (λ db. list_by_campaign tenant_id campaign.id db.deployments)

-- The collaborators, what other transactions commit before each UPDATE of a deployment, and what
-- the loop draws at each provider.
module _ (registry : Registry) (encryption : CredentialEncryption) (others : Database → Database)
    (draws : Provider → Draw) where
  -- The `try` of `_attempt_provider_publish`.
  unfoldable pub attempt : Uuid → Campaign → CampaignDeployment → Action PublishResult
  attempt tenant_id campaign deployment = do
    spec ← lift (build campaign deployment)
    adapter ← lift (registry deployment.provider)
    payload ← get_decrypted_credentials encryption tenant_id deployment.provider
    lift (
        adapter.publish spec
          (record { provider = deployment.provider; credential_payload = payload }))

  -- What is recorded for each way that the `try` can end.
  unfoldable pub record_outcome :
      Uuid → CampaignDeployment → Bool → Result PublishResult → Action CampaignDeployment
  record_outcome tenant_id deployment commits (raised e) =
      mark_failed others tenant_id deployment.id (sanitize_provider_exception e) commits
  record_outcome tenant_id deployment commits (ok r) =
      if r.success
      then mark_submitted others tenant_id deployment.id r.external_campaign_id
          (draws deployment.provider).submitted_at commits
      else mark_failed others tenant_id deployment.id (sanitize_provider_message r.error_message)
          commits

  unfoldable pub attempt_provider_publish :
      Uuid → Campaign → CampaignDeployment → Bool → Action CampaignDeployment
  unfolding attempt record_outcome
  attempt_provider_publish tenant_id campaign deployment commits s =
      let (r, s') = attempt tenant_id campaign deployment s in
      record_outcome tenant_id deployment commits r s'

  abbrev pub existing_or_new :
      Uuid → Uuid → Provider → Bool → Option CampaignDeployment → Action CampaignDeployment
  existing_or_new tenant_id campaign_id provider commits (some d) = pure d
  existing_or_new tenant_id campaign_id provider commits none =
      let draw = draws provider in
      create_pending_deployment draw.id draw.idempotency_key draw.created_at tenant_id campaign_id
        provider commits

  -- Only a deployment that is still PENDING is sent to its provider.
  unfoldable pub publish_if_pending :
      Uuid → Campaign → Bool → CampaignDeployment → Action CampaignDeployment
  unfolding attempt_provider_publish
  publish_if_pending tenant_id campaign commits deployment =
      if deployment.status == pending
      then attempt_provider_publish tenant_id campaign deployment commits
      else pure deployment

  abbrev pub publish_row :
      Uuid → Campaign → Bool → Provider → Option CampaignDeployment → Action CampaignDeployment
  publish_row tenant_id campaign commits provider row =
      existing_or_new tenant_id campaign.id provider commits row
      >>= publish_if_pending tenant_id campaign commits

  -- One round of the loop of `publish_campaign`.
  unfoldable pub publish_provider : Uuid → Campaign → Bool → Provider → Action CampaignDeployment
  unfolding publish_if_pending
  publish_provider tenant_id campaign commits provider = do
    row ← query (λ db. get_by_campaign_and_provider tenant_id campaign.id provider db.deployments)
    publish_row tenant_id campaign commits provider row

  unfoldable pub publish_each : Uuid → Campaign → Bool → List Provider → Action Deployments
  publish_each tenant_id campaign commits [] = pure []
  publish_each tenant_id campaign commits (p ∷ ps) = do
    d ← publish_provider tenant_id campaign commits p
    ds ← publish_each tenant_id campaign commits ps
    pure (d ∷ ds)

  abbrev pub publish_found : Uuid → Bool → Option Campaign → Action Deployments
  publish_found tenant_id commits row = do
    campaign ← campaign_or_raise row
    validate_publishable campaign
    publish_each tenant_id campaign commits supported_providers

  unfoldable pub publish_campaign : Uuid → Uuid → Bool → Action Deployments
  publish_campaign tenant_id campaign_id commits = do
    row ← query (λ db. get_by_tenant_and_id tenant_id campaign_id db.campaigns)
    publish_found tenant_id commits row
