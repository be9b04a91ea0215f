-- ===== src/Tests/Campaigns.antt =====
-- The theorems on campaigns at a small database.
use verisure_ads_automation.Base.{◌≡◌, ◌≢◌, ◌↔◌, none, some, []}
use verisure_ads_automation.Models.Campaign.{CampaignBudgetType, CampaignStatus, Campaign}
use verisure_ads_automation.Session.{ok}
use verisure_ads_automation.Session.Keeps.{Keeps}
use verisure_ads_automation.Campaigns.Repository.{CampaignFields}
use verisure_ads_automation.Campaigns.Validation.{validate_campaign_fields}
use verisure_ads_automation.Campaigns.Fields.{
  IsBudget, IsTime, IsOrdered, validate_campaign_fields_iff,
}
use verisure_ads_automation.Campaigns.Service.{
  CampaignUpdates, create_draft, update_draft, archive_campaign,
}
use verisure_ads_automation.Campaigns.Drafts.{
  AreStorable, campaigns-KeepStorable, IsStored, campaigns-KeepFinal,
}
use verisure_ads_automation.Tests.{a_campaign}

validated_example :
    (validate_campaign_fields a_campaign.budget_type a_campaign.budget_amount a_campaign.currency
        a_campaign.start_at a_campaign.end_at
      ≡ ok tt)
    ↔ (IsBudget a_campaign.budget_type a_campaign.budget_amount a_campaign.currency
        × IsTime a_campaign.start_at
        × IsTime a_campaign.end_at
        × IsOrdered a_campaign.start_at a_campaign.end_at)
validated_example =
    validate_campaign_fields_iff a_campaign.budget_type a_campaign.budget_amount a_campaign.currency
      a_campaign.start_at a_campaign.end_at

abbrev some_fields : CampaignFields
some_fields = record {
  name = "Autumn";
  objective = none;
  budget_type = some CampaignBudgetType.daily;
  budget_amount = none;
  currency = none;
  start_at = none;
  end_at = none;
}

abbrev renaming : CampaignUpdates
renaming = record {
  name = some (some "Summer");
  objective = none;
  budget_type = none;
  budget_amount = none;
  currency = none;
  start_at = none;
  end_at = none;
  unknown = [];
}

storable_example :
    Keeps AreStorable (create_draft 11 6 1 2 some_fields)
    × Keeps AreStorable (update_draft (λ db. db) 1 10 renaming)
    × Keeps AreStorable (archive_campaign (λ db. db) 1 10)
storable_example = campaigns-KeepStorable (λ db. db) (λ db h. h) 11 6 1 2 10 some_fields renaming

abbrev archived_campaign : Campaign
archived_campaign = record a_campaign { status = CampaignStatus.archived }

final_example :
    Keeps (IsStored archived_campaign) (create_draft 11 6 1 2 some_fields)
    × Keeps (IsStored archived_campaign) (update_draft (λ db. db) 1 10 renaming)
    × Keeps (IsStored archived_campaign) (archive_campaign (λ db. db) 1 10)
final_example =
    campaigns-KeepFinal (λ db. db) archived_campaign (λ e. cc) (λ db h. h) 11 6 1 2 10 some_fields
      renaming

-- Half a budget is refused.
refused_budget :
    validate_campaign_fields (some CampaignBudgetType.daily) none none none none ≢ ok tt
unfolding validate_campaign_fields
refused_budget e = cc
