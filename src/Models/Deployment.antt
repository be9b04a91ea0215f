-- ===== src/Models/Deployment.antt =====
-- app/models/campaign_deployment.py.
use verisure_ads_automation.Base.{ℕ, ◌≡◌, ◌↔◌, Bool, true, String, Option, arith, Eq, nat_eqb}
use verisure_ads_automation.Models.Provider.{Uuid, Instant, Provider}

pub data CampaignDeploymentStatus : Type 0 where
  pending submitted live paused failed : CampaignDeploymentStatus

abbrev status_code : CampaignDeploymentStatus → ℕ
status_code pending = 0
status_code submitted = 1
status_code live = 2
status_code paused = 3
status_code failed = 4

abbrev deployment_status_eqb : CampaignDeploymentStatus → CampaignDeploymentStatus → Bool
deployment_status_eqb a b = nat_eqb (status_code a) (status_code b)

pub deployment_status_eqb_iff :
    (a b : CampaignDeploymentStatus) → (deployment_status_eqb a b ≡ true) ↔ (a ≡ b)
deployment_status_eqb_iff a b = ground arith

instance abbrev pub deployment_status_eq : Eq CampaignDeploymentStatus
deployment_status_eq = record { eqb = deployment_status_eqb; eqb_iff = deployment_status_eqb_iff }

pub record CampaignDeployment : Type 0 where
  pub id : Uuid
  pub tenant_id : Uuid
  pub campaign_id : Uuid
  pub provider : Provider
  pub external_campaign_id : Option String
  pub idempotency_key : Uuid
  pub submitted_at : Option Instant
  pub confirmed_at : Option Instant
  pub last_error_message : Option String
  pub status : CampaignDeploymentStatus
  pub created_at : Instant

-- `status.value`
abbrev pub value : CampaignDeploymentStatus → String
value pending = "pending"
value submitted = "submitted"
value live = "live"
value paused = "paused"
value failed = "failed"
