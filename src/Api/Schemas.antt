-- ===== src/Api/Schemas.antt =====
-- The request and response bodies of app/api/v1. The times at which the database last wrote a row
-- (`updated_at` of campaigns and deployments, `created_at` of connections) are left out.
use verisure_ads_automation.Base.{
  ℕ, Bool, true, false, ◌&&◌, Option, some, String, List, [], ◌∷◌, leb, length, ℤ, pos, negsuc,
}
use verisure_ads_automation.Base.Text.{codes}
use verisure_ads_automation.Models.Provider.{Uuid, Instant, Provider}
use verisure_ads_automation.Models.Campaign.{
  CampaignObjective, CampaignBudgetType, CampaignStatus, Decimal, Datetime, Campaign,
}
use verisure_ads_automation.Models.Connection.{ProviderConnectionStatus, ProviderConnection}
use verisure_ads_automation.Models.Deployment.{CampaignDeploymentStatus, CampaignDeployment}
use verisure_ads_automation.Models.Job.{PublishJobStatus, PublishJob}

pub record CampaignRead : Type 0 where
  pub id : Uuid
  pub name : String
  pub objective : Option CampaignObjective
  pub budget_type : Option CampaignBudgetType
  pub budget_amount : Option Decimal
  pub currency : Option String
  pub start_at : Option Datetime
  pub end_at : Option Datetime
  pub status : CampaignStatus
  pub created_by_user_id : Uuid
  pub created_at : Instant

abbrev pub campaign_read : Campaign → CampaignRead
campaign_read c = record {
  id = c.id;
  name = c.name;
  objective = c.objective;
  budget_type = c.budget_type;
  budget_amount = c.budget_amount;
  currency = c.currency;
  start_at = c.start_at;
  end_at = c.end_at;
  status = c.status;
  created_by_user_id = c.created_by_user_id;
  created_at = c.created_at;
}

pub record CampaignDeploymentRead : Type 0 where
  pub id : Uuid
  pub campaign_id : Uuid
  pub provider : Provider
  pub status : CampaignDeploymentStatus
  pub external_campaign_id : Option String
  pub submitted_at : Option Instant
  pub confirmed_at : Option Instant
  pub last_error_message : Option String
  pub created_at : Instant

abbrev pub deployment_read : CampaignDeployment → CampaignDeploymentRead
deployment_read d = record {
  id = d.id;
  campaign_id = d.campaign_id;
  provider = d.provider;
  status = d.status;
  external_campaign_id = d.external_campaign_id;
  submitted_at = d.submitted_at;
  confirmed_at = d.confirmed_at;
  last_error_message = d.last_error_message;
  created_at = d.created_at;
}

pub record PublishJobRead : Type 0 where
  pub id : Uuid
  pub tenant_id : Uuid
  pub campaign_id : Uuid
  pub requested_by_user_id : Option Uuid
  pub status : PublishJobStatus
  pub attempt_count : ℕ
  pub error_message : Option String
  pub started_at : Option Instant
  pub finished_at : Option Instant
  pub created_at : Instant
  pub updated_at : Instant

abbrev pub job_read : PublishJob → PublishJobRead
job_read j = record {
  id = j.id;
  tenant_id = j.tenant_id;
  campaign_id = j.campaign_id;
  requested_by_user_id = j.requested_by_user_id;
  status = j.status;
  attempt_count = j.attempt_count;
  error_message = j.error_message;
  started_at = j.started_at;
  finished_at = j.finished_at;
  created_at = j.created_at;
  updated_at = j.updated_at;
}

-- No field holds credentials.
pub record ProviderConnectionRead : Type 0 where
  pub id : Uuid
  pub provider : Provider
  pub external_account_id : Option String
  pub display_name : Option String
  pub credentials_expire_at : Option Instant
  pub status : ProviderConnectionStatus
  pub disconnected_at : Option Instant
  pub updated_at : Instant

abbrev pub connection_read : ProviderConnection → ProviderConnectionRead
connection_read c = record {
  id = c.id;
  provider = c.provider;
  external_account_id = c.external_account_id;
  display_name = c.display_name;
  credentials_expire_at = c.credentials_expire_at;
  status = c.status;
  disconnected_at = c.disconnected_at;
  updated_at = c.updated_at;
}

-- `Field(min_length=1, max_length=255)`
abbrev pub is_name : String → Bool
is_name name = let n = length (codes name) in leb 1 n && leb n 255

-- The same where the field may be left out or None.
abbrev pub is_optional_name : Option (Option String) → Bool
is_optional_name (some (some name)) = is_name name
is_optional_name _ = true

-- `extra="forbid"`: no key that the schema does not have.
abbrev pub is_empty : List String → Bool
is_empty [] = true
is_empty (_ ∷ _) = false

-- `Query(ge=1, le=200)` and `Query(ge=0)`
abbrev pub is_limit : ℤ → Bool
is_limit (pos n) = leb 1 n && leb n 200
is_limit (negsuc n) = false

abbrev pub is_offset : ℤ → Bool
is_offset (pos n) = true
is_offset (negsuc n) = false

abbrev pub to_natural : ℤ → ℕ
to_natural (pos n) = n
to_natural (negsuc n) = 0
