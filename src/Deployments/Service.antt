-- ===== src/Deployments/Service.antt =====
-- app/services/campaign_deployment_service.py. `others` is what other transactions commit between
-- the read of a deployment and the conditional UPDATE.
use verisure_ads_automation.Base.{
  ℕ, Bool, true, false, Option, none, some, String, List, [], ◌∷◌, ◌==◌, nat_eq, if◌then◌else◌,
}
use Prim.Native.String.{◌++◌}
use verisure_ads_automation.Exceptions.{
  invalid_deployment_state, integrity_error, data_error, invalid_request, Exception,
  deployment_not_found_error,
}
use verisure_ads_automation.Models.Provider.{Uuid, Instant, Provider}
use verisure_ads_automation.Models.Deployment.{
  CampaignDeploymentStatus, pending, submitted, live, paused, failed, deployment_status_eq,
  CampaignDeployment, value,
}
use verisure_ads_automation.Session.{
  Database, ok, Action, pure, raise, query, ◌>>=◌, ◌>>◌, try_except, execute, commit, rollback,
  flush, interfere, when,
}
use verisure_ads_automation.Deployments.Repository.{
  Deployments, StatusFields, no_fields, uq_campaign_provider, create, get_by_id, update_status,
  update_external_reference,
}

-- `_ALLOWED_TRANSITIONS`
unfoldable pub allowed_transitions : CampaignDeploymentStatus → List CampaignDeploymentStatus
allowed_transitions pending = submitted ∷ failed ∷ []
allowed_transitions submitted = live ∷ failed ∷ []
allowed_transitions live = paused ∷ []
allowed_transitions paused = live ∷ []
allowed_transitions failed = []

unfoldable pub is_member : CampaignDeploymentStatus → List CampaignDeploymentStatus → Bool
is_member s [] = false
is_member s (t ∷ ts) = if t == s then true else is_member s ts

abbrev pub invalid_state : String → Exception
invalid_state message = record { class = invalid_deployment_state; message = message }

unfoldable pub not_allowed : CampaignDeploymentStatus → CampaignDeploymentStatus → Exception
not_allowed current target =
    invalid_state
      ("Cannot transition deployment from " ++ (value current ++ (" to " ++ (value target ++ "."))))

unfoldable pub changed_concurrently : CampaignDeploymentStatus → Exception
changed_concurrently current = invalid_state (
    "Deployment was no longer in status "
    ++ (value current ++ " when the transition was applied; it changed concurrently."))

-- A statement on `campaign_deployments` that gives a row count.
abbrev pub update_rows : (Deployments → ℕ × Deployments) → Action ℕ
update_rows f s =
    let (count, rows) = f s.current.deployments in
    (ok count, record s { current = record s.current { deployments = rows } })

abbrev pub value_too_long : Exception
value_too_long = record {
  class = data_error;
  message = "value too long for type character varying(255)";
}

-- A statement that the database may refuse.
abbrev pub written_or_raise : Option (ℕ × Deployments) → Action ℕ
written_or_raise none = raise value_too_long
written_or_raise (some result) = update_rows (λ _. result)

abbrev pub write_external : Uuid → Uuid → Option String → Action ℕ
write_external tenant_id deployment_id external_campaign_id s =
    written_or_raise
      (update_external_reference tenant_id deployment_id external_campaign_id s.current.deployments)
      s

abbrev insert_or_raise : CampaignDeployment → Option Deployments → Action (Unit {0})
insert_or_raise d none = raise (record { class = integrity_error; message = uq_campaign_provider })
insert_or_raise d (some rows) = execute (λ db. record db { deployments = rows })

abbrev pub insert_deployment : CampaignDeployment → Action (Unit {0})
insert_deployment d s = insert_or_raise d (create d s.current.deployments) s

abbrev found_or_raise : Exception → Option CampaignDeployment → Action CampaignDeployment
found_or_raise e none = raise e
found_or_raise e (some d) = pure d

-- `session.refresh(deployment)`
abbrev pub refresh : CampaignDeployment → Action CampaignDeployment
refresh d s =
    found_or_raise (record { class = invalid_request; message = "Could not refresh instance." })
      (get_by_id d.tenant_id d.id s.current.deployments) s

unfoldable pub finish_write : Bool → CampaignDeployment → Action CampaignDeployment
finish_write commits d = (if commits then commit else flush) >> refresh d

unfoldable pub abort_write : Bool → Action (Unit {0})
abort_write commits = when commits rollback

-- The `try`/`except` around every write sequence.
abbrev pub guarded : Bool → Action CampaignDeployment → Action CampaignDeployment
guarded commits m = try_except m (λ e. abort_write commits >> raise e)

-- The part of `_apply_transition` that writes: the optimistic UPDATE.
unfoldable pub write_status :
    (Database → Database)
    → Uuid
    → Uuid
    → CampaignDeploymentStatus
    → StatusFields
    → CampaignDeployment
    → Action CampaignDeployment
unfolding update_status
write_status others tenant_id deployment_id target_status fields deployment = do
  interfere others
  affected ←
      update_rows (update_status tenant_id deployment_id deployment.status target_status fields)
  when (affected == 0) (raise (changed_concurrently deployment.status))
  pure deployment

-- The part of `_apply_transition` after the read.
unfoldable pub validate_and_write :
    (Database → Database)
    → Uuid
    → Uuid
    → CampaignDeploymentStatus
    → StatusFields
    → Option CampaignDeployment
    → Action CampaignDeployment
validate_and_write others tenant_id deployment_id target_status fields none =
    raise deployment_not_found_error
validate_and_write others tenant_id deployment_id target_status fields (some deployment) =
    if is_member target_status (allowed_transitions deployment.status)
    then write_status others tenant_id deployment_id target_status fields deployment
    else raise (not_allowed deployment.status target_status)

unfoldable pub apply_transition :
    (Database → Database)
    → Uuid
    → Uuid
    → CampaignDeploymentStatus
    → StatusFields
    → Action CampaignDeployment
unfolding validate_and_write
apply_transition others tenant_id deployment_id target_status fields = do
  row ← query (λ db. get_by_id tenant_id deployment_id db.deployments)
  validate_and_write others tenant_id deployment_id target_status fields row

unfoldable pub new_deployment : Uuid → Uuid → Instant → Uuid → Uuid → Provider → CampaignDeployment
new_deployment id idempotency_key now tenant_id campaign_id provider = record {
  id = id;
  tenant_id = tenant_id;
  campaign_id = campaign_id;
  provider = provider;
  external_campaign_id = none;
  idempotency_key = idempotency_key;
  submitted_at = none;
  confirmed_at = none;
  last_error_message = none;
  status = pending;
  created_at = now;
}

-- `id` and `idempotency_key` are the UUIDs that the call draws, `now` the time of the INSERT.
unfoldable pub create_pending_deployment :
    Uuid → Uuid → Instant → Uuid → Uuid → Provider → Bool → Action CampaignDeployment
unfolding create finish_write abort_write new_deployment
create_pending_deployment id idempotency_key now tenant_id campaign_id provider commits =
    let d = new_deployment id idempotency_key now tenant_id campaign_id provider in
    guarded commits (insert_deployment d >> finish_write commits d)

module _ (others : Database → Database) (tenant_id deployment_id : Uuid) where
  unfoldable pub mark_submitted : Option String → Instant → Bool → Action CampaignDeployment
  mark_submitted external_campaign_id now commits = guarded commits (do
    deployment ←
        apply_transition others tenant_id deployment_id submitted
          (record no_fields { submitted_at = some (some now) })
    affected ← write_external tenant_id deployment_id external_campaign_id
    finish_write commits deployment)

  unfoldable pub mark_live : Instant → Bool → Action CampaignDeployment
  mark_live now commits = guarded commits (do
    deployment ←
        apply_transition others tenant_id deployment_id live
          (record no_fields { confirmed_at = some (some now) })
    finish_write commits deployment)

  unfoldable pub mark_failed : String → Bool → Action CampaignDeployment
  mark_failed last_error_message commits = guarded commits (do
    deployment ←
        apply_transition others tenant_id deployment_id failed
          (record no_fields { last_error_message = some (some last_error_message) })
    finish_write commits deployment)

  unfoldable pub mark_paused : Bool → Action CampaignDeployment
  mark_paused commits = guarded commits (do
    deployment ← apply_transition others tenant_id deployment_id paused no_fields
    finish_write commits deployment)
