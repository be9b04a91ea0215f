-- ===== src/Campaigns/Service.antt =====
-- app/services/campaign_service.py. `others` is what other transactions commit between the read of
-- a campaign and the conditional UPDATE.
use verisure_ads_automation.Base.{
  ℕ, Option, none, some, String, List, [], ◌∷◌, ◌==◌, nat_eq, select_one, count_where,
  if◌then◌else◌,
}
use Prim.Native.String.{◌++◌}
use verisure_ads_automation.Exceptions.{
  invalid_campaign_state, invalid_request, integrity_error, Exception, campaign_not_found_error,
}
use verisure_ads_automation.Models.Provider.{Uuid, Instant}
use verisure_ads_automation.Models.Campaign.{
  CampaignObjective, CampaignBudgetType, CampaignStatus, draft, Decimal, Datetime, Campaign,
}
use verisure_ads_automation.Session.{
  Database, Result, ok, raised, Action, pure, raise, query, lift, ◌>>=◌, ◌>>◌, execute, commit,
  interfere, when,
}
use verisure_ads_automation.Campaigns.Repository.{
  Campaigns, CampaignFields, create, get_by_tenant_and_id, list_by_tenant, update_draft_fields,
  archive_draft, is_draft,
}
use verisure_ads_automation.Campaigns.Validation.{invalid, validate_campaign_fields}

abbrev pub set_campaigns : Campaigns → Database → Database
set_campaigns rows db = record db { campaigns = rows }

abbrev pub update_rows : (Campaigns → ℕ × Campaigns) → Action ℕ
update_rows f s =
    let (count, rows) = f s.current.campaigns in
    (ok count, record s { current = set_campaigns rows s.current })

abbrev pub found_or_raise : Exception → Option Campaign → Action Campaign
found_or_raise e none = raise e
found_or_raise e (some c) = pure c

abbrev pub validate_fields : CampaignFields → Result (Unit {0})
validate_fields f =
    validate_campaign_fields f.budget_type f.budget_amount f.currency f.start_at f.end_at

-- The row of `create_draft`, with the id that it gets.
unfoldable pub new_draft : Uuid → Instant → Uuid → Uuid → CampaignFields → Campaign
new_draft id now tenant_id created_by_user_id f = record {
  id = id;
  tenant_id = tenant_id;
  created_by_user_id = created_by_user_id;
  name = f.name;
  objective = f.objective;
  budget_type = f.budget_type;
  budget_amount = f.budget_amount;
  currency = f.currency;
  start_at = f.start_at;
  end_at = f.end_at;
  status = draft;
  deleted_at = none;
  created_at = now;
}

unfoldable pub create_draft : Uuid → Instant → Uuid → Uuid → CampaignFields → Action Campaign
unfolding create new_draft
create_draft id now tenant_id created_by_user_id f = do
  lift (validate_fields f)
  let campaign = new_draft id now tenant_id created_by_user_id f
  execute (λ db. set_campaigns (create campaign db.campaigns) db)
  commit
  pure campaign

unfoldable pub get_campaign : Uuid → Uuid → Action Campaign
unfolding get_by_tenant_and_id
get_campaign tenant_id campaign_id = do
  row ← query (λ db. get_by_tenant_and_id tenant_id campaign_id db.campaigns)
  found_or_raise campaign_not_found_error row

unfoldable pub list_campaigns : Uuid → ℕ → ℕ → Option CampaignStatus → Action Campaigns
unfolding list_by_tenant
list_campaigns tenant_id limit offset status =
    query (λ db. list_by_tenant tenant_id limit offset status db.campaigns)

-- `updates`: for each mutable column the new value, which may be None, where the key is there, and
-- the other keys, sorted.
pub record CampaignUpdates : Type 0 where
  pub name : Option (Option String)
  pub objective : Option (Option CampaignObjective)
  pub budget_type : Option (Option CampaignBudgetType)
  pub budget_amount : Option (Option Decimal)
  pub currency : Option (Option String)
  pub start_at : Option (Option Datetime)
  pub end_at : Option (Option Datetime)
  pub unknown : List String

-- `", ".join(names)`
abbrev join : List String → String
join [] = ""
join (name ∷ []) = name
join (name ∷ names) = name ++ (", " ++ join names)

abbrev pub require_known : List String → Result (Unit {0})
require_known [] = ok tt
require_known (name ∷ names) =
    raised (invalid ("Unsupported field(s): " ++ (join (name ∷ names) ++ ".")))

abbrev pub or_old : {A : Type 0} → Option A → A → A
or_old none old = old
or_old (some new) old = new

-- `merged["name"]`, which may be None.
abbrev pub merged_name : Option (Option String) → String → Option String
merged_name none old = some old
merged_name (some new) old = new

abbrev or_else : Option String → String → String
or_else none old = old
or_else (some new) old = new

-- The merged columns. A name that is None stands in no row: `write_merged` treats it apart.
abbrev pub merge : CampaignUpdates → Campaign → CampaignFields
merge u c = record {
  name = or_else (merged_name u.name c.name) c.name;
  objective = or_old u.objective c.objective;
  budget_type = or_old u.budget_type c.budget_type;
  budget_amount = or_old u.budget_amount c.budget_amount;
  currency = or_old u.currency c.currency;
  start_at = or_old u.start_at c.start_at;
  end_at = or_old u.end_at c.end_at;
}

-- `session.refresh(campaign)`
abbrev pub refresh : Campaign → Action Campaign
refresh c s =
    found_or_raise (record { class = invalid_request; message = "Could not refresh instance." })
      (select_one (λ x. x.id == c.id) s.current.campaigns) s

abbrev pub not_editable : Exception
not_editable = record {
  class = invalid_campaign_state;
  message = "Only a draft campaign can be edited.";
}

abbrev pub not_archivable : Exception
not_archivable = record {
  class = invalid_campaign_state;
  message = "Only a draft campaign can be archived.";
}

-- The conditional UPDATE, its row count, the commit and the refresh.
unfoldable pub write_draft :
    (Database → Database) → (Campaigns → ℕ × Campaigns) → Exception → Campaign → Action Campaign
write_draft others f none_changed campaign = do
  interfere others
  affected ← update_rows f
  when (affected == 0) (raise none_changed)
  commit
  refresh campaign

-- NOT NULL, at an UPDATE that sets the name of the rows that fit to NULL.
abbrev pub null_name : Exception
null_name = record { class = integrity_error; message = "name" }

abbrev pub write_null : (Database → Database) → Uuid → Uuid → Action Campaign
write_null others tenant_id campaign_id = do
  interfere others
  fitting ← query (λ db. count_where (is_draft tenant_id campaign_id) db.campaigns)
  raise (if fitting == 0 then not_editable else null_name)

abbrev pub write_merged :
    (Database → Database)
    → Uuid
    → Uuid
    → CampaignUpdates
    → Campaign
    → Option String
    → Action Campaign
write_merged others tenant_id campaign_id updates campaign none =
    write_null others tenant_id campaign_id
write_merged others tenant_id campaign_id updates campaign (some name) =
    write_draft others (update_draft_fields tenant_id campaign_id (merge updates campaign))
      not_editable campaign

unfoldable pub update_draft :
    (Database → Database) → Uuid → Uuid → CampaignUpdates → Action Campaign
unfolding write_draft
update_draft others tenant_id campaign_id updates = do
  lift (require_known updates.unknown)
  row ← query (λ db. get_by_tenant_and_id tenant_id campaign_id db.campaigns)
  campaign ← found_or_raise campaign_not_found_error row
  lift (validate_fields (merge updates campaign))
  write_merged others tenant_id campaign_id updates campaign
      (merged_name updates.name campaign.name)

unfoldable pub archive_campaign : (Database → Database) → Uuid → Uuid → Action Campaign
unfolding write_draft
archive_campaign others tenant_id campaign_id = do
  row ← query (λ db. get_by_tenant_and_id tenant_id campaign_id db.campaigns)
  campaign ← found_or_raise campaign_not_found_error row
  write_draft others (archive_draft tenant_id campaign_id) not_archivable campaign
