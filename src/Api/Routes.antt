-- ===== src/Api/Routes.antt =====
-- app/api/v1: the endpoints, as actions on the session of the request. The comment of each
-- names its path and the status of its success, with which Api.Responses.serve runs it.
use verisure_ads_automation.Base.{◌&&◌, Option, some, String, List, map, ℤ}
use verisure_ads_automation.Models.Provider.{Uuid, Instant}
use verisure_ads_automation.Models.Campaign.{CampaignStatus}
use verisure_ads_automation.Session.{Action, pure, ◌>>=◌, ◌>>◌}
use verisure_ads_automation.Campaigns.Repository.{CampaignFields}
use verisure_ads_automation.Campaigns.Service
use verisure_ads_automation.Campaigns.Service.{CampaignUpdates}
use verisure_ads_automation.Connections.Service as ConnectionService
use verisure_ads_automation.Jobs.Service as JobService
use verisure_ads_automation.Publish.Service as PublishService
use verisure_ads_automation.Metrics.{MetricsResponse}
use verisure_ads_automation.Metrics
use verisure_ads_automation.Auth.Service as AuthService
use verisure_ads_automation.Auth.Service.{TokenDraw, TokenPair}
use verisure_ads_automation.Api.Requests.{
  Server, Request, current_user, encryption_service, security, validate,
}
use verisure_ads_automation.Api.Schemas.{
  CampaignRead, campaign_read, CampaignDeploymentRead, deployment_read, PublishJobRead, job_read,
  ProviderConnectionRead, connection_read, is_name, is_optional_name, is_empty, is_limit, is_offset,
  to_natural,
}

module _ (server : Server) (request : Request) where
  -- POST /campaigns, 201
  unfoldable pub create_campaign : Uuid → Instant → CampaignFields → Action CampaignRead
  create_campaign id now payload = do
    user ← current_user server request
    validate (is_name payload.name)
    campaign ← Service.create_draft id now user.tenant_id user.id payload
    pure (campaign_read campaign)

  -- GET /campaigns, 200
  unfoldable pub list_campaigns : ℤ → ℤ → Option CampaignStatus → Action (List CampaignRead)
  list_campaigns limit offset status_filter = do
    user ← current_user server request
    validate (is_limit limit && is_offset offset)
    campaigns ←
        Service.list_campaigns user.tenant_id (to_natural limit) (to_natural offset) status_filter
    pure (map campaign_read campaigns)

  -- GET /campaigns/{campaign_id}, 200
  unfoldable pub get_campaign : Uuid → Action CampaignRead
  get_campaign campaign_id = do
    user ← current_user server request
    campaign ← Service.get_campaign user.tenant_id campaign_id
    pure (campaign_read campaign)

  -- PATCH /campaigns/{campaign_id}, 200. Other fields than those of the schema are refused.
  unfoldable pub update_campaign : Uuid → CampaignUpdates → Action CampaignRead
  update_campaign campaign_id payload = do
    user ← current_user server request
    validate (is_optional_name payload.name && is_empty payload.unknown)
    campaign ← Service.update_draft request.others user.tenant_id campaign_id payload
    pure (campaign_read campaign)

  -- POST /campaigns/{campaign_id}/archive, 200
  unfoldable pub archive_campaign : Uuid → Action CampaignRead
  archive_campaign campaign_id = do
    user ← current_user server request
    campaign ← Service.archive_campaign request.others user.tenant_id campaign_id
    pure (campaign_read campaign)

  -- POST /campaigns/{campaign_id}/publish, 202
  unfoldable pub publish_campaign : Uuid → Instant → Uuid → Action PublishJobRead
  publish_campaign id now campaign_id = do
    user ← current_user server request
    encryption_service server
    job ← JobService.enqueue id now request.others user.tenant_id campaign_id (some user.id)
    pure (job_read job)

  -- GET /campaigns/{campaign_id}/publish-jobs/{job_id}, 200
  unfoldable pub get_publish_job : Uuid → Uuid → Action PublishJobRead
  get_publish_job campaign_id job_id = do
    user ← current_user server request
    encryption_service server
    job ← JobService.get_job user.tenant_id campaign_id job_id
    pure (job_read job)

  -- GET /campaigns/{campaign_id}/deployments, 200
  unfoldable pub list_campaign_deployments : Uuid → Action (List CampaignDeploymentRead)
  list_campaign_deployments campaign_id = do
    user ← current_user server request
    encryption_service server
    deployments ← PublishService.list_deployments user.tenant_id campaign_id
    pure (map deployment_read deployments)

  -- GET /provider-connections, 200
  unfoldable pub list_provider_connections : Action (List ProviderConnectionRead)
  list_provider_connections = do
    user ← current_user server request
    encryption_service server
    connections ← ConnectionService.list_connections user.tenant_id
    pure (map connection_read connections)

  -- GET /provider-connections/{connection_id}, 200
  unfoldable pub get_provider_connection : Uuid → Action ProviderConnectionRead
  get_provider_connection connection_id = do
    user ← current_user server request
    encryption_service server
    connection ← ConnectionService.get_connection user.tenant_id connection_id
    pure (connection_read connection)

  -- POST /provider-connections/{connection_id}/disconnect, 200
  unfoldable pub disconnect_provider_connection : Instant → Uuid → Action ProviderConnectionRead
  disconnect_provider_connection now connection_id = do
    user ← current_user server request
    encryption_service server
    connection ← ConnectionService.disconnect request.others user.tenant_id connection_id now
    pure (connection_read connection)

  -- GET /metrics, 200
  unfoldable pub get_metrics : Action MetricsResponse
  get_metrics = do user ← current_user server request; Metrics.get_metrics user.tenant_id

  -- POST /auth/login, 200
  unfoldable pub login : Uuid → TokenDraw → String → String → String → Action TokenPair
  login jti draw tenant_slug email password =
      AuthService.login (security server request.now jti) draw tenant_slug email password

  -- POST /auth/refresh, 200
  unfoldable pub refresh : Uuid → TokenDraw → String → Action TokenPair
  refresh jti draw refresh_token =
      AuthService.refresh (security server request.now jti) request.others draw refresh_token

  -- POST /auth/logout, 204
  unfoldable pub logout : Uuid → Instant → String → Action (Unit {0})
  logout jti now refresh_token =
      AuthService.logout (security server request.now jti) now refresh_token

  -- POST /auth/logout-all, 204
  unfoldable pub logout_all : Instant → Action (Unit {0})
  logout_all now = do
    user ← current_user server request
    AuthService.logout_all now user.tenant_id user.id
