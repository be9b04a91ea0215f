-- ===== src/Jobs/Repository.antt =====
-- app/repositories/publish_job_repository.py, on the rows of `publish_jobs`.
use verisure_ads_automation.Base.{
  ℕ, ◌+◌, Bool, true, false, ◌&&◌, ◌||◌, not, Option, none, some, String, List, ltb, ◌==◌, nat_eq,
  if◌then◌else◌, select_one, select_first, update_where, count_where, insert_row, is_some,
}
use verisure_ads_automation.Models.Provider.{Uuid, Instant}
use verisure_ads_automation.Models.Job.{
  PublishJobStatus, queued, running, job_status_eq, is_active, PublishJob,
}

abbrev pub Jobs : Type 0
Jobs = List PublishJob

pub record ClaimResult : Type 0 where
  pub job : PublishJob
  pub reclaimed : Bool

-- The name of the partial unique index.
abbrev pub uq_active_campaign : String
uq_active_campaign = "uq_publish_jobs_campaign_id_active"

abbrev pub is_active_for : Uuid → PublishJob → Bool
is_active_for campaign_id j = is_active j.status && j.campaign_id == campaign_id

-- The INSERT of a new row: none if the partial unique index refuses it.
unfoldable pub create : PublishJob → Jobs → Option Jobs
create job jobs =
    if is_active job.status && is_some (select_one (is_active_for job.campaign_id) jobs)
    then none
    else some (insert_row job jobs)

abbrev pub has_id : Uuid → Uuid → PublishJob → Bool
has_id tenant_id job_id j = j.id == job_id && j.tenant_id == tenant_id

unfoldable pub get_by_id : Uuid → Uuid → Jobs → Option PublishJob
get_by_id tenant_id job_id = select_one (has_id tenant_id job_id)

-- ORDER BY created_at ASC, id ASC
abbrev pub created_before : PublishJob → PublishJob → Bool
created_before a b =
    ltb a.created_at b.created_at || (a.created_at == b.created_at && ltb a.id b.id)

unfoldable pub get_active_for_campaign : Uuid → Uuid → Jobs → Option PublishJob
get_active_for_campaign tenant_id campaign_id =
    select_first created_before
      (λ j. j.tenant_id == tenant_id && j.campaign_id == campaign_id && is_active j.status)

-- `locked id` tells whether another transaction holds the row (SKIP LOCKED).
abbrev pub is_claimable : (Uuid → Bool) → PublishJob → Bool
is_claimable locked j = j.status == queued && not (locked j.id)

abbrev pub claim_row : Instant → PublishJob → PublishJob
claim_row started_at j = record j {
  status = running;
  started_at = some started_at;
  attempt_count = j.attempt_count + 1;
  updated_at = started_at;
}

-- UPDATE ... WHERE id = candidate ... RETURNING
unfoldable pub update_returning :
    (PublishJob → PublishJob) → Option PublishJob → Jobs → Option PublishJob × Jobs
unfolding update_where select_one
update_returning f none jobs = (none, jobs)
update_returning f (some candidate) jobs =
    let jobs' = update_where (λ j. j.id == candidate.id) f jobs in
    (select_one (λ j. j.id == candidate.id) jobs', jobs')

unfoldable pub claim_queued : (Uuid → Bool) → Instant → Jobs → Option PublishJob × Jobs
unfolding update_returning
claim_queued locked started_at jobs =
    update_returning (claim_row started_at) (select_first created_before (is_claimable locked) jobs)
      jobs

abbrev pub is_before : Option Instant → Instant → Bool
is_before none limit = false
is_before (some t) limit = ltb t limit

abbrev pub is_stale : (Uuid → Bool) → Instant → PublishJob → Bool
is_stale locked stale_before j =
    j.status == running && is_before j.started_at stale_before && not (locked j.id)

-- ORDER BY started_at ASC, id ASC, between rows whose `started_at` is set
abbrev started_at_or_zero : PublishJob → Instant
started_at_or_zero j = elim j.started_at [ none ↦ 0 | some t ↦ t ]

abbrev pub started_before : PublishJob → PublishJob → Bool
started_before a b =
    let s = started_at_or_zero a in
    let t = started_at_or_zero b in ltb s t || (s == t && ltb a.id b.id)

abbrev pub reclaim_row : Instant → PublishJob → PublishJob
reclaim_row started_at j = record j {
  started_at = some started_at;
  attempt_count = j.attempt_count + 1;
  updated_at = started_at;
}

unfoldable pub reclaim_stale : (Uuid → Bool) → Instant → Instant → Jobs → Option PublishJob × Jobs
unfolding update_returning
reclaim_stale locked started_at stale_before jobs =
    update_returning (reclaim_row started_at)
      (select_first started_before (is_stale locked stale_before) jobs) jobs

abbrev pub as_claim : Bool → Option PublishJob → Option ClaimResult
as_claim reclaimed none = none
as_claim reclaimed (some j) = some (record { job = j; reclaimed = reclaimed })

-- The part of `claim_next` after `_claim_queued`.
unfoldable pub claim_or_reclaim :
    (Uuid → Bool) → Instant → Option Instant → Option PublishJob × Jobs → Option ClaimResult × Jobs
unfolding reclaim_stale
claim_or_reclaim locked started_at stale_before (some j, jobs) = (as_claim false (some j), jobs)
claim_or_reclaim locked started_at none (none, jobs) = (none, jobs)
claim_or_reclaim locked started_at (some limit) (none, jobs) =
    let (reclaimed, jobs') = reclaim_stale locked started_at limit jobs in
    (as_claim true reclaimed, jobs')

unfoldable pub claim_next :
    (Uuid → Bool) → Instant → Option Instant → Jobs → Option ClaimResult × Jobs
unfolding claim_queued claim_or_reclaim
claim_next locked started_at stale_before jobs =
    claim_or_reclaim locked started_at stale_before (claim_queued locked started_at jobs)

abbrev pub is_expected : Uuid → Uuid → PublishJobStatus → PublishJob → Bool
is_expected tenant_id job_id expected j =
    j.id == job_id && j.tenant_id == tenant_id && j.status == expected

-- `none` for an error message that is not passed (`_UNSET`).
abbrev pub set_if_passed : Option (Option String) → Option String → Option String
set_if_passed none old = old
set_if_passed (some new) old = new

abbrev pub finish_row :
    PublishJobStatus → Instant → Option (Option String) → PublishJob → PublishJob
finish_row new_status finished_at error_message j = record j {
  status = new_status;
  finished_at = some finished_at;
  updated_at = finished_at;
  error_message = set_if_passed error_message j.error_message;
}

-- The row count, and the rows after the UPDATE.
unfoldable pub mark_finished :
    Uuid
    → Uuid
    → PublishJobStatus
    → PublishJobStatus
    → Instant
    → Option (Option String)
    → Jobs
    → ℕ × Jobs
mark_finished tenant_id job_id expected new_status finished_at error_message jobs = (
  count_where (is_expected tenant_id job_id expected) jobs,
  update_where (is_expected tenant_id job_id expected)
      (finish_row new_status finished_at error_message) jobs,
)
