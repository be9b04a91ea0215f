-- ===== src/Jobs/FailureFlag.antt =====
-- PublishJobService.run_once with `_business_failure_logged`, the context variable by which it tells
-- the worker that a failed job has been logged (app/services/publish_job_service.py).
use verisure_ads_automation.Base.{
  ◌≡◌, refl, Bool, true, false, not, ◌==◌, nat_eq, if◌then◌else◌, ◌-◌, ◌||◌, Option, none, some,
  List,
}
use verisure_ads_automation.Exceptions.{Exception}
use verisure_ads_automation.Models.Provider.{Uuid}
use verisure_ads_automation.Models.Deployment.{CampaignDeployment}
use verisure_ads_automation.Models.Job.{PublishJob, running, failed}
use verisure_ads_automation.Session.{
  Session, Result, ok, raised, Action, pure, raise, ◌>>=◌, ◌>>◌, try_except, commit, begin_nested,
  rollback,
}
use verisure_ads_automation.Jobs.Repository.{ClaimResult, claim_next, mark_finished}
use verisure_ads_automation.Sanitization.{sanitize_provider_exception}
use verisure_ads_automation.Jobs.Service.{
  Iteration, update_jobs, publish_and_finish, finish_failed, run_claimed, run_once,
}

-- A call that is given the flag and the session, and leaves both.
abbrev pub Flagged : Type 0 → Type 0
Flagged A = Bool → Session → (Result A × Session) × Bool

module _ {A : Type 0} where
  -- Statements that do not touch the flag.
  abbrev pub unflagged : Action A → Flagged A
  unflagged m flag s = (m s, flag)

  -- `_business_failure_logged.set(value)`, and what follows it.
  abbrev pub set_then : Bool → Flagged A → Flagged A
  set_then value m flag s = m value s

  abbrev pub flagged_except : Flagged A → (Exception → Flagged A) → Flagged A
  flagged_except m h flag s =
      let (r, flag') = m flag s in
      elim r.0 [ ok a ↦ ((ok a, r.1), flag') | raised e ↦ h e flag' r.1 ]

  abbrev pub flagged_bind : {B : Type 0} → Flagged A → (A → Flagged B) → Flagged B
  flagged_bind m f flag s =
      let (r, flag') = m flag s in
      elim r.0 [ ok a ↦ f a flag' r.1 | raised e ↦ ((raised e, r.1), flag') ]

-- The `except` clause around the publish step: the flag is set before the job is marked failed.
unfoldable pub publish_failed : Iteration → PublishJob → Exception → Flagged Bool
publish_failed it job e = set_then true (unflagged (finish_failed it job e))

-- The `try` block around the publish step.
abbrev pub publish_and_commit :
    (Uuid → Uuid → Action (List CampaignDeployment)) → Iteration → PublishJob → Action Bool
publish_and_commit publish it job =
    begin_nested (publish_and_finish publish it job) >> commit >> pure true

unfoldable pub run_claimed_flagged :
    (Uuid → Uuid → Action (List CampaignDeployment)) → Iteration → Option ClaimResult → Flagged Bool
unfolding publish_failed
run_claimed_flagged publish it none = unflagged (pure false)
run_claimed_flagged publish it (some claim) =
    flagged_except (unflagged (publish_and_commit publish it claim.job))
      (publish_failed it claim.job)

unfoldable pub run_once_flagged :
    (Uuid → Uuid → Action (List CampaignDeployment)) → Iteration → Flagged Bool
unfolding run_claimed_flagged
run_once_flagged publish it =
    flagged_bind
      (unflagged (update_jobs (claim_next it.locked it.now (some (it.now - it.stale_after)))))
      (run_claimed_flagged publish it)

abbrev pub is_raised : {A : Type 0} → Result A → Bool
is_raised (ok a) = false
is_raised (raised e) = true

-- What a call does to the flag: it sets it where it raises.
abbrev pub with_flag : {A : Type 0} → Action A → Flagged A
with_flag m flag s = let r = m s in (r, is_raised r.0 || flag)

raise-raised :
    {A : Type 0} (B : Type 0) (m : Action A) (e : Exception) (s : Session)
    → is_raised ((m >> raise {A = B} e) s).0 ≡ true
raise-raised {A} B m e s = go (m s)
  where
    go :
        (r : Result A × Session)
        → is_raised
            (elim r.0 as (λ _. Result B × Session) [
              | ok a ↦ (raised e, r.1)
              | raised x ↦ (raised x, r.1)
            ]).0
          ≡ true
    go (ok a, s') = refl
    go (raised x, s') = refl

finish_failed-raised :
    (it : Iteration) (job : PublishJob) (e : Exception) (s : Session)
    → is_raised (finish_failed it job e s).0 ≡ true
unfolding finish_failed
finish_failed-raised it job e s =
    raise-raised Bool
      (try_except
        (do
          affected ← update_jobs (
              mark_finished job.tenant_id job.id running failed it.failed_at
                (some (some (sanitize_provider_exception e))))
          if not (affected == 1) then rollback else commit)
        (λ e'. rollback >> raise e'))
      e s

except_lem :
    {A : Type 0} (m : Action A) (h : Exception → Action A) (flag : Bool) (s : Session)
    → ((e : Exception) (s' : Session) → is_raised (h e s').0 ≡ true)
    → flagged_except (unflagged m) (λ e. set_then true (unflagged (h e))) flag s
      ≡ with_flag (try_except m h) flag s
except_lem {A} m h flag s raises = go (m s)
  where
    go :
        (r : Result A × Session)
        → elim r.0 as (λ _. (Result A × Session) × Bool) [
          | ok a ↦ ((ok a, r.1), flag)
          | raised e ↦ (h e r.1, true)
        ]
          ≡ (let q = elim r.0 as (λ _. Result A × Session) [
            | ok a ↦ (ok a, r.1)
            | raised e ↦ h e r.1
          ] in
              (q, is_raised q.0 || flag))
    go (ok a, s') = refl
    go (raised e, s') = rw (raises e s') refl

claimed_lem :
    (publish : Uuid → Uuid → Action (List CampaignDeployment)) (it : Iteration)
    (claimed : Option ClaimResult) (flag : Bool) (s : Session)
    → run_claimed_flagged publish it claimed flag s
      ≡ with_flag (run_claimed publish it claimed) flag s
unfolding run_claimed_flagged publish_failed run_claimed
claimed_lem publish it none flag s = refl
claimed_lem publish it (some claim) flag s =
    except_lem (publish_and_commit publish it claim.job) (finish_failed it claim.job) flag s
      (finish_failed-raised it claim.job)

-- With the flag, `run_once` does what it does without, and sets the flag where it raises.
pub run_once_flagged_lem :
    (publish : Uuid → Uuid → Action (List CampaignDeployment)) (it : Iteration) (flag : Bool)
    (s : Session)
    → run_once_flagged publish it flag s ≡ with_flag (run_once publish it) flag s
unfolding run_once_flagged run_once
run_once_flagged_lem publish it flag s = claimed_lem publish it _ flag _
