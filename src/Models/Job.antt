-- ===== src/Models/Job.antt =====
-- app/models/publish_job.py.
use verisure_ads_automation.Base.{
  ℕ, ◌≡◌, ◌↔◌, Bool, true, ◌||◌, String, Option, arith, Eq, nat_eqb, ◌==◌,
}
use verisure_ads_automation.Models.Provider.{Uuid, Instant}

pub data PublishJobStatus : Type 0 where
  queued running succeeded failed : PublishJobStatus

abbrev status_code : PublishJobStatus → ℕ
status_code queued = 0
status_code running = 1
status_code succeeded = 2
status_code failed = 3

abbrev job_status_eqb : PublishJobStatus → PublishJobStatus → Bool
job_status_eqb a b = nat_eqb (status_code a) (status_code b)

pub job_status_eqb_iff : (a b : PublishJobStatus) → (job_status_eqb a b ≡ true) ↔ (a ≡ b)
job_status_eqb_iff a b = ground arith

instance abbrev pub job_status_eq : Eq PublishJobStatus
job_status_eq = record { eqb = job_status_eqb; eqb_iff = job_status_eqb_iff }

pub record PublishJob : Type 0 where
  pub id : Uuid
  pub tenant_id : Uuid
  pub campaign_id : Uuid
  pub requested_by_user_id : Option Uuid
  pub status : PublishJobStatus
  pub started_at : Option Instant
  pub finished_at : Option Instant
  pub error_message : Option String
  pub attempt_count : ℕ
  pub created_at : Instant
  pub updated_at : Instant

-- The condition of the partial unique index, status IN ('queued', 'running').
abbrev pub is_active : PublishJobStatus → Bool
is_active s = s == queued || s == running
