-- ===== src/Publish/Spec.antt =====
-- app/core/campaign_spec.py and app/services/campaign_spec_builder.py.
use verisure_ads_automation.Base.{Option, none, some, String}
use verisure_ads_automation.Exceptions.{campaign_validation, Exception}
use verisure_ads_automation.Models.Provider.{Uuid, Provider}
use verisure_ads_automation.Models.Campaign.{
  CampaignObjective, CampaignBudgetType, Decimal, Datetime, Campaign,
}
use verisure_ads_automation.Models.Deployment.{CampaignDeployment}
use verisure_ads_automation.Session.{Result, ok, raised}

pub record CampaignBudget : Type 0 where
  pub type : CampaignBudgetType
  pub amount : Decimal
  pub currency : String

pub record CampaignSchedule : Type 0 where
  pub start_at : Datetime
  pub end_at : Datetime

pub record CampaignSpec : Type 0 where
  pub campaign_id : Uuid
  pub tenant_id : Uuid
  pub provider : Provider
  pub objective : CampaignObjective
  pub budget : CampaignBudget
  pub schedule : CampaignSchedule

abbrev pub invalid : String → Exception
invalid message = record { class = campaign_validation; message = message }

abbrev pub require_objective : Option CampaignObjective → Result CampaignObjective
require_objective none = raised (invalid "Campaign objective is required to build a campaign spec.")
require_objective (some objective) = ok objective

abbrev pub require_budget :
    Option CampaignBudgetType → Option Decimal → Option String → Result CampaignBudget
require_budget (some type) (some amount) (some currency) =
    ok (record { type = type; amount = amount; currency = currency })
require_budget _ _ _ = raised (invalid "Campaign budget is required to build a campaign spec.")

abbrev pub require_schedule : Option Datetime → Option Datetime → Result CampaignSchedule
require_schedule (some start_at) (some end_at) =
    ok (record { start_at = start_at; end_at = end_at })
require_schedule _ _ = raised (invalid "Campaign schedule is required to build a campaign spec.")

infixl 5 ◌>>=◌
abbrev ◌>>=◌ : {A B : Type 0} → Result A → (A → Result B) → Result B
ok a >>= f = f a
raised e >>= f = raised e

-- `CampaignSpecBuilder.build`
unfoldable pub build : Campaign → CampaignDeployment → Result CampaignSpec
build campaign deployment = do
  objective ← require_objective campaign.objective
  budget ← require_budget campaign.budget_type campaign.budget_amount campaign.currency
  schedule ← require_schedule campaign.start_at campaign.end_at
  ok (record {
    campaign_id = campaign.id;
    tenant_id = campaign.tenant_id;
    provider = deployment.provider;
    objective = objective;
    budget = budget;
    schedule = schedule;
  })
