-- ===== src/Campaigns/Repository.antt =====
-- app/repositories/campaign_repository.py, on the rows of `campaigns`.
use verisure_ads_automation.Base.{
  ℕ, Bool, true, ◌&&◌, ◌||◌, not, Option, none, some, String, List, ltb, ◌==◌, nat_eq, is_some,
  select_one, select_all, order_by, update_where, count_where, insert_row, take, drop,
}
use verisure_ads_automation.Models.Provider.{Uuid}
use verisure_ads_automation.Models.Campaign.{
  CampaignObjective, CampaignBudgetType, CampaignStatus, draft, archived, campaign_status_eq,
  Decimal, Datetime, Campaign,
}

abbrev pub Campaigns : Type 0
Campaigns = List Campaign

unfoldable pub create : Campaign → Campaigns → Campaigns
create = insert_row

abbrev pub is_visible : Uuid → Campaign → Bool
is_visible tenant_id c = c.tenant_id == tenant_id && not (is_some c.deleted_at)

unfoldable pub get_by_tenant_and_id : Uuid → Uuid → Campaigns → Option Campaign
unfolding select_one
get_by_tenant_and_id tenant_id campaign_id =
    select_one (λ c. c.id == campaign_id && is_visible tenant_id c)

abbrev pub has_status : Option CampaignStatus → Campaign → Bool
has_status none c = true
has_status (some status) c = c.status == status

-- ORDER BY created_at DESC, id DESC
abbrev pub created_after : Campaign → Campaign → Bool
created_after a b = ltb b.created_at a.created_at || (a.created_at == b.created_at && ltb b.id a.id)

unfoldable pub list_by_tenant : Uuid → ℕ → ℕ → Option CampaignStatus → Campaigns → Campaigns
unfolding select_all order_by
list_by_tenant tenant_id limit offset status rows = take limit (
    drop offset (
      order_by created_after
        (select_all (λ c. is_visible tenant_id c && has_status status c) rows)))

-- The mutable columns, `merged` in CampaignService.update_draft.
pub record CampaignFields : Type 0 where
  pub name : String
  pub objective : Option CampaignObjective
  pub budget_type : Option CampaignBudgetType
  pub budget_amount : Option Decimal
  pub currency : Option String
  pub start_at : Option Datetime
  pub end_at : Option Datetime

abbrev pub is_draft : Uuid → Uuid → Campaign → Bool
is_draft tenant_id campaign_id c =
    c.id == campaign_id && is_visible tenant_id c && c.status == draft

abbrev pub set_fields : CampaignFields → Campaign → Campaign
set_fields v c = record c {
  name = v.name;
  objective = v.objective;
  budget_type = v.budget_type;
  budget_amount = v.budget_amount;
  currency = v.currency;
  start_at = v.start_at;
  end_at = v.end_at;
}

unfoldable pub update_draft_fields : Uuid → Uuid → CampaignFields → Campaigns → ℕ × Campaigns
unfolding count_where update_where
update_draft_fields tenant_id campaign_id values rows = (
  count_where (is_draft tenant_id campaign_id) rows,
  update_where (is_draft tenant_id campaign_id) (set_fields values) rows,
)

abbrev pub set_archived : Campaign → Campaign
set_archived c = record c { status = archived }

unfoldable pub archive_draft : Uuid → Uuid → Campaigns → ℕ × Campaigns
unfolding count_where update_where
archive_draft tenant_id campaign_id rows = (
  count_where (is_draft tenant_id campaign_id) rows,
  update_where (is_draft tenant_id campaign_id) set_archived rows,
)
