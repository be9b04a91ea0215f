-- ===== src/Jobs/Service.antt =====
-- app/services/publish_job_service.py. Logging is left out, but for the flag that tells the worker
-- that a failure has been logged.
use verisure_ads_automation.Base.{
  ◌-◌, Bool, true, false, not, ◌&&◌, ◌||◌, Option, none, some, List, ◌==◌, nat_eq, if◌then◌else◌,
}
use text.Mathlib.Text.{◌==◌ as str_eq}
use verisure_ads_automation.Exceptions.{
  integrity_error, runtime_error, Exception, publish_job_not_found_error, is_integrity_error,
}
use verisure_ads_automation.Sanitization.{sanitize_provider_exception}
use verisure_ads_automation.Models.Provider.{Uuid, Instant}
use verisure_ads_automation.Models.Deployment.{CampaignDeployment}
use verisure_ads_automation.Models.Job.{queued, running, succeeded, failed, PublishJob}
use verisure_ads_automation.Session.{
  Database, ok, Action, pure, raise, query, ◌>>=◌, ◌>>◌, try_except, execute, commit, rollback,
  begin_nested, interfere, when,
}
use verisure_ads_automation.Campaigns.Repository.{get_by_tenant_and_id}
use verisure_ads_automation.Publish.Service.{campaign_or_raise, validate_publishable}
use verisure_ads_automation.Jobs.Repository.{
  Jobs, ClaimResult, uq_active_campaign, create, get_by_id, get_active_for_campaign, claim_next,
  mark_finished,
}

abbrev pub set_jobs : Jobs → Database → Database
set_jobs jobs db = record db { jobs = jobs }

abbrev pub insert_or_raise : Option Jobs → Action (Unit {0})
insert_or_raise none = raise (record { class = integrity_error; message = uq_active_campaign })
insert_or_raise (some jobs) = execute (set_jobs jobs)

abbrev pub insert_job : PublishJob → Action (Unit {0})
insert_job job s = insert_or_raise (create job s.current.jobs) s

unfoldable pub new_job : Uuid → Instant → Uuid → Uuid → Option Uuid → PublishJob
new_job id now tenant_id campaign_id requested_by_user_id = record {
  id = id;
  tenant_id = tenant_id;
  campaign_id = campaign_id;
  requested_by_user_id = requested_by_user_id;
  status = queued;
  started_at = none;
  finished_at = none;
  error_message = none;
  attempt_count = 0;
  created_at = now;
  updated_at = now;
}

abbrev pub mismatch : Exception
mismatch = record {
  class = runtime_error;
  message = "Active publish job tenant/campaign mismatch from repository.";
}

-- The check of the active job that is returned in place of a new one.
abbrev pub return_active : Uuid → Uuid → PublishJob → Action PublishJob
return_active tenant_id campaign_id active =
    if not (active.tenant_id == tenant_id) || not (active.campaign_id == campaign_id)
    then raise mismatch
    else pure active

abbrev pub active_or : Uuid → Uuid → Action PublishJob → Option PublishJob → Action PublishJob
active_or tenant_id campaign_id otherwise none = otherwise
active_or tenant_id campaign_id otherwise (some active) = return_active tenant_id campaign_id active

-- The `except` clauses of `enqueue`.
unfoldable pub enqueue_failed : Uuid → Uuid → Exception → Action PublishJob
unfolding get_active_for_campaign
enqueue_failed tenant_id campaign_id e =
    rollback
    >> (if is_integrity_error e.class && str_eq e.message uq_active_campaign
        then (do
          existing ← query (λ db. get_active_for_campaign tenant_id campaign_id db.jobs)
          active_or tenant_id campaign_id (raise e) existing)
        else raise e)

-- `id` is the UUID that a new row gets, `now` the time of its INSERT, and `others` what other
-- transactions commit between the read of the active job and the INSERT.
unfoldable pub enqueue :
    Uuid → Instant → (Database → Database) → Uuid → Uuid → Option Uuid → Action PublishJob
unfolding get_by_tenant_and_id get_active_for_campaign create new_job enqueue_failed
enqueue id now others tenant_id campaign_id requested_by_user_id =
    let job = new_job id now tenant_id campaign_id requested_by_user_id in
    try_except
      (do
        row ← query (λ db. get_by_tenant_and_id tenant_id campaign_id db.campaigns)
        campaign ← campaign_or_raise row
        validate_publishable campaign
        active ← query (λ db. get_active_for_campaign tenant_id campaign_id db.jobs)
        active_or tenant_id campaign_id (interfere others >> insert_job job >> commit >> pure job)
            active)
      (enqueue_failed tenant_id campaign_id)

abbrev pub job_or_raise : Uuid → Option PublishJob → Action PublishJob
job_or_raise campaign_id none = raise publish_job_not_found_error
job_or_raise campaign_id (some job) =
    if job.campaign_id == campaign_id then pure job else raise publish_job_not_found_error

unfoldable pub get_job : Uuid → Uuid → Uuid → Action PublishJob
unfolding get_by_id
get_job tenant_id campaign_id job_id = do
  row ← query (λ db. get_by_id tenant_id job_id db.jobs)
  job_or_raise campaign_id row

-- A statement on `publish_jobs`.
abbrev pub update_jobs : {A : Type 0} → (Jobs → A × Jobs) → Action A
update_jobs f s =
    let (a, jobs) = f s.current.jobs in (ok a, record s { current = set_jobs jobs s.current })

-- The times that one iteration reads off the clock, the rows that other transactions hold while it
-- claims, and the setting.
pub record Iteration : Type 0 where
  pub now : Instant
  pub succeeded_at : Instant
  pub failed_at : Instant
  pub locked : Uuid → Bool
  pub stale_after : Instant

abbrev pub not_succeeded : Exception
not_succeeded = record {
  class = runtime_error;
  message = "Publish job could not be marked succeeded.";
}

-- The body of the savepoint: publish, then mark the job succeeded.
unfoldable pub publish_and_finish :
    (Uuid → Uuid → Action (List CampaignDeployment)) → Iteration → PublishJob → Action (Unit {0})
unfolding mark_finished
publish_and_finish publish it job = do
  deployments ← publish job.tenant_id job.campaign_id
  affected ← update_jobs (mark_finished job.tenant_id job.id running succeeded it.succeeded_at none)
  when (not (affected == 1)) (raise not_succeeded)

-- The `except` clause: mark the job failed with a safe message, and raise again.
unfoldable pub finish_failed : Iteration → PublishJob → Exception → Action Bool
unfolding mark_finished
finish_failed it job e =
    try_except
      (do
        affected ← update_jobs (
            mark_finished job.tenant_id job.id running failed it.failed_at
              (some (some (sanitize_provider_exception e))))
        if not (affected == 1) then rollback else commit)
      (λ e'. rollback >> raise e')
    >> raise e

unfoldable pub run_claimed :
    (Uuid → Uuid → Action (List CampaignDeployment)) → Iteration → Option ClaimResult → Action Bool
unfolding publish_and_finish
run_claimed publish it none = pure false
run_claimed publish it (some claim) =
    try_except (begin_nested (publish_and_finish publish it claim.job) >> commit >> pure true)
      (finish_failed it claim.job)

-- `publish tenant_id campaign_id` is `PublishCampaignService.publish_campaign(commit=False)`.
unfoldable pub run_once : (Uuid → Uuid → Action (List CampaignDeployment)) → Iteration → Action Bool
unfolding run_claimed
run_once publish it = do
  claimed ← update_jobs (claim_next it.locked it.now (some (it.now - it.stale_after)))
  run_claimed publish it claimed
