-- ===== src/Deployments/Repository.antt =====
-- app/repositories/campaign_deployment_repository.py, on the rows of `campaign_deployments`.
use verisure_ads_automation.Base.Text.{codes}
use verisure_ads_automation.Base.{
  length, not, false, ℕ, Bool, ◌&&◌, ◌||◌, Option, none, some, String, List, ltb, ◌==◌, nat_eq,
  is_some, if◌then◌else◌, select_one, select_all, order_by, update_where, count_where, insert_row,
}
use verisure_ads_automation.Models.Provider.{Uuid, Instant, Provider, provider_eq}
use verisure_ads_automation.Models.Deployment.{
  CampaignDeploymentStatus, deployment_status_eq, CampaignDeployment,
}

abbrev pub Deployments : Type 0
Deployments = List CampaignDeployment

-- The name of the unique constraint.
abbrev pub uq_campaign_provider : String
uq_campaign_provider = "uq_campaign_deployments_campaign_id_provider"

abbrev pub is_pair : Uuid → Provider → CampaignDeployment → Bool
is_pair campaign_id provider d = d.campaign_id == campaign_id && d.provider == provider

-- The INSERT of a new row: none if the unique constraint refuses it.
unfoldable pub create : CampaignDeployment → Deployments → Option Deployments
unfolding insert_row select_one
create d rows =
    if is_some (select_one (is_pair d.campaign_id d.provider) rows)
    then none
    else some (insert_row d rows)

abbrev pub has_id : Uuid → Uuid → CampaignDeployment → Bool
has_id tenant_id deployment_id d = d.id == deployment_id && d.tenant_id == tenant_id

unfoldable pub get_by_id : Uuid → Uuid → Deployments → Option CampaignDeployment
unfolding select_one
get_by_id tenant_id deployment_id = select_one (has_id tenant_id deployment_id)

unfoldable pub get_by_campaign_and_provider :
    Uuid → Uuid → Provider → Deployments → Option CampaignDeployment
unfolding select_one
get_by_campaign_and_provider tenant_id campaign_id provider =
    select_one (λ d. d.tenant_id == tenant_id && is_pair campaign_id provider d)

-- ORDER BY created_at ASC, id ASC
abbrev pub created_before : CampaignDeployment → CampaignDeployment → Bool
created_before a b =
    ltb a.created_at b.created_at || (a.created_at == b.created_at && ltb a.id b.id)

unfoldable pub list_by_campaign : Uuid → Uuid → Deployments → Deployments
unfolding select_all order_by
list_by_campaign tenant_id campaign_id rows =
    order_by created_before
      (select_all (λ d. d.tenant_id == tenant_id && d.campaign_id == campaign_id) rows)

unfoldable pub get_by_idempotency_key : Uuid → Uuid → Deployments → Option CampaignDeployment
unfolding select_one
get_by_idempotency_key tenant_id idempotency_key =
    select_one (λ d. d.tenant_id == tenant_id && d.idempotency_key == idempotency_key)

-- The keyword arguments of `update_status`; `none` where one is not passed (`_UNSET`).
pub record StatusFields : Type 0 where
  pub submitted_at : Option (Option Instant)
  pub confirmed_at : Option (Option Instant)
  pub last_error_message : Option (Option String)

abbrev pub no_fields : StatusFields
no_fields = record { submitted_at = none; confirmed_at = none; last_error_message = none }

abbrev pub set_if_passed : {A : Type 0} → Option (Option A) → Option A → Option A
set_if_passed none old = old
set_if_passed (some new) old = new

abbrev pub is_expected : Uuid → Uuid → CampaignDeploymentStatus → CampaignDeployment → Bool
is_expected tenant_id deployment_id expected d =
    has_id tenant_id deployment_id d && d.status == expected

abbrev pub set_status :
    CampaignDeploymentStatus → StatusFields → CampaignDeployment → CampaignDeployment
set_status new_status fields d = record d {
  status = new_status;
  submitted_at = set_if_passed fields.submitted_at d.submitted_at;
  confirmed_at = set_if_passed fields.confirmed_at d.confirmed_at;
  last_error_message = set_if_passed fields.last_error_message d.last_error_message;
}

-- The row count, and the rows after the UPDATE.
unfoldable pub update_status :
    Uuid
    → Uuid
    → CampaignDeploymentStatus
    → CampaignDeploymentStatus
    → StatusFields
    → Deployments
    → ℕ × Deployments
unfolding count_where update_where
update_status tenant_id deployment_id expected new_status fields rows = (
  count_where (is_expected tenant_id deployment_id expected) rows,
  update_where (is_expected tenant_id deployment_id expected) (set_status new_status fields) rows,
)

abbrev pub set_external : Option String → CampaignDeployment → CampaignDeployment
set_external external_campaign_id d = record d { external_campaign_id = external_campaign_id }

-- The column is a VARCHAR(255). A text whose excess is white space only, which PostgreSQL cuts off
-- instead, counts as too long here.
abbrev pub is_too_long : Option String → Bool
is_too_long none = false
is_too_long (some text) = ltb 255 (length (codes text))

-- None where the database refuses the value for a row as too long.
unfoldable pub update_external_reference :
    Uuid → Uuid → Option String → Deployments → Option (ℕ × Deployments)
unfolding count_where update_where
update_external_reference tenant_id deployment_id external_campaign_id rows =
    let count = count_where (has_id tenant_id deployment_id) rows in
    if is_too_long external_campaign_id && not (count == 0)
    then none
    else some (
      count,
      update_where (has_id tenant_id deployment_id) (set_external external_campaign_id) rows,
    )
