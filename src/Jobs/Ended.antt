-- ===== src/Jobs/Ended.antt =====
-- Jobs that have ended, and the writes that PublishJobService makes.
use verisure_ads_automation.Base.{
  ◌≡◌, ◌-◌, refl, subst, Bool, false, ◌&&◌, Option, none, some, String, List, arith, ◌==◌, nat_eq,
  ◌≢◌, All, Distinct, In, In-insert_of_In, In-update, some-inj, select_one, insert_row,
  update_where-fits,
}
use verisure_ads_automation.Sanitization.{sanitize_provider_exception}
use verisure_ads_automation.Models.Provider.{Uuid, Instant}
use verisure_ads_automation.Models.Deployment.{CampaignDeployment}
use verisure_ads_automation.Models.Job.{
  PublishJobStatus, running, succeeded, failed, is_active, job_status_eq, PublishJob,
}
use verisure_ads_automation.Session.{Database, Session, Result, Action}
use verisure_ads_automation.Jobs.Repository.{
  Jobs, ClaimResult, create, is_active_for, claim_row, reclaim_row, is_claimable, is_stale,
  created_before, started_before, claim_next, is_expected, finish_row, mark_finished,
}
use verisure_ads_automation.Jobs.Claim.{Takes, Claimed, claim_next-Claimed, row_id}
use verisure_ads_automation.Jobs.Service.{new_job, enqueue, Iteration, run_once}
use verisure_ads_automation.Jobs.Enqueue.{Enqueued, enqueue-Enqueued}
use verisure_ads_automation.Jobs.RunOnce.{
  IsUnitOfWork, Ended, Iterated, with_jobs, finished, run_once-Iterated,
}
use verisure_ads_automation.Jobs.Lifecycle.{Step, Reachable, Reachable-IsWellFormed}

Takes-In :
    (before : PublishJob → PublishJob → Bool) (fits : PublishJob → Bool)
    (f : PublishJob → PublishJob) (jobs jobs' : Jobs) (job j : PublishJob)
    → Takes before fits f jobs jobs' job
    → Distinct row_id jobs
    → In j jobs
    → fits j ≡ false
    → In j jobs'
Takes-In before fits f jobs jobs' job j t d m e =
    let c = t.candidate in
    rw (t.rows, update_where-fits row_id fits f c jobs t.is_first.among t.is_first.fits d)
      (In-update (λ x. x.id == c.id && fits x) f j jobs m (ground arith))

claims-In :
    (locked : Uuid → Bool) (now : Instant) (limit : Option Instant) (jobs jobs' : Jobs)
    (r : Option ClaimResult) (j : PublishJob)
    → Claimed locked now limit jobs r jobs'
    → Distinct row_id jobs
    → In j jobs
    → is_active j.status ≡ false
    → In j jobs'
claims-In locked now limit jobs jobs' r j (Claimed.claimed job got t) d m e =
    Takes-In created_before (is_claimable locked) (claim_row now) jobs jobs' job j t d m
      (ground arith)
claims-In locked now limit jobs jobs' r j (Claimed.reclaimed job l s got c t) d m e =
    Takes-In started_before (is_stale locked l) (reclaim_row now) jobs jobs' job j t d m
      (ground arith)
claims-In locked now limit jobs jobs' r j (Claimed.idle n same c k) d m e = rw same m

create-In :
    (a : PublishJob) (jobs jobs' : Jobs) (j : PublishJob)
    → create a jobs ≡ some jobs'
    → In j jobs
    → In j jobs'
unfolding create
create-In a jobs jobs' j e m = subst (In j) (some-inj (written e)) (In-insert_of_In j a jobs m)
  where
    written : create a jobs ≡ some jobs' → some (insert_row a jobs) ≡ some jobs'
    written e' = ground arith

-- In a table that the writes of the service lead to, a job that has ended, succeeded or failed, is
-- never written again: each write of the service keeps its row as it is.
pub ended-kept :
    (jobs jobs' : Jobs) (j : PublishJob)
    → Reachable jobs
    → Step jobs jobs'
    → In j jobs
    → is_active j.status ≡ false
    → In j jobs'
unfolding mark_finished
ended-kept jobs jobs' j r (Step.enqueues id now t c user f e) m a =
    create-In (new_job id now t c user) jobs jobs' j e m
ended-kept jobs jobs' j r (Step.claims locked now limit e) m a =
    let d = (Reachable-IsWellFormed jobs r).distinct in
    rw e (claims-In locked now limit jobs _ _ j (claim_next-Claimed locked now limit jobs d) d m a)
ended-kept jobs jobs' j r (Step.finishes t i status at message e k) m a =
    rw k
      (In-update (is_expected t i running) (finish_row status at message) j jobs m (ground arith))

-- A property of job tables that every write of the service keeps.
pub record IsInvariant (R : Jobs → Type 0) : Type 0 where
  pub distinct : (jobs : Jobs) → R jobs → Distinct row_id jobs
  pub step : (jobs jobs' : Jobs) → R jobs → Step jobs jobs' → R jobs'

pub Reachable-IsInvariant : IsInvariant Reachable
Reachable-IsInvariant = record {
  distinct = λ jobs r. (Reachable-IsWellFormed jobs r).distinct;
  step = Reachable.continues;
}

pub ended-IsInvariant :
    (j : PublishJob) → is_active j.status ≡ false → IsInvariant (λ jobs. Reachable jobs × In j jobs)
ended-IsInvariant j a = record {
  distinct = λ jobs r. (Reachable-IsWellFormed jobs r.0).distinct;
  step =
      λ jobs jobs' r t. (Reachable.continues jobs jobs' r.0 t, ended-kept jobs jobs' j r.0 t r.1 a);
}

module _ (R : Jobs → Type 0) (inv : IsInvariant R)
    (publish : Uuid → Uuid → Action (List CampaignDeployment)) (unit : IsUnitOfWork publish)
    (it : Iteration) where
  abbrev claim : Session → Option ClaimResult × Jobs
  claim s = claim_next it.locked it.now (some (it.now - it.stale_after)) s.current.jobs

  finished-Kept :
      (status : PublishJobStatus) (at : Instant) (message : Option (Option String))
      (job : PublishJob) (jobs : Jobs)
      → is_active status ≡ false
      → R jobs
      → R (finished status at message job jobs)
  unfolding mark_finished
  finished-Kept status at message job jobs e r =
      inv.step jobs _ r (Step.finishes job.tenant_id job.id status at message e refl)

  Ended-Kept :
      (job : PublishJob) (s : Session) (published : Result (List CampaignDeployment) × Session)
      (r : Result Bool × Session)
      → Ended it job s published r
      → R s.current.jobs
      → R r.1.current.jobs
  Ended-Kept job s p r (Ended.succeeds _ ds e k) h =
      rw k (finished-Kept succeeded it.succeeded_at none job s.current.jobs refl h)
  Ended-Kept job s p r (Ended.fails _ x e k) h = rw k (
      finished-Kept failed it.failed_at (some (some (sanitize_provider_exception x))) job
        s.current.jobs refl h)

  Iterated-Kept :
      (s : Session) (q : Option ClaimResult × Jobs) (r : Result Bool × Session)
      → Iterated publish unit it s q r
      → R s.current.jobs
      → R q.1
      → R r.1.current.jobs
  Iterated-Kept s (none, jobs) r i h k = rw i h
  Iterated-Kept s (some c, jobs) r i h k =
      Ended-Kept c.job (with_jobs publish unit it jobs s) _ r i.1 k

  -- For a publish step that leaves commits and jobs to its caller, an iteration of the worker,
  -- however it ends, keeps what the writes of the service keep.
  pub run_once-Kept : (s : Session) → R s.current.jobs → R (run_once publish it s).1.current.jobs
  run_once-Kept s h =
      Iterated-Kept s (claim s) (run_once publish it s)
        (run_once-Iterated publish unit it s (inv.distinct s.current.jobs h)) h
        (inv.step s.current.jobs _ h
          (Step.claims it.locked it.now (some (it.now - it.stale_after)) refl))

module _ (R : Jobs → Type 0) (inv : IsInvariant R) (id : Uuid) (now : Instant)
    (others : Database → Database) (tenant_id campaign_id : Uuid) (user : Option Uuid)
    (s : Session) where
  let_in :
      (jobs : Jobs)
      → select_one (is_active_for campaign_id) jobs ≡ none
      → create (new_job id now tenant_id campaign_id user) jobs
        ≡ some (insert_row (new_job id now tenant_id campaign_id user) jobs)
  unfolding create new_job
  let_in jobs e = ground arith

  enqueued-Kept :
      (r : Result PublishJob × Session)
      → Enqueued id now others tenant_id campaign_id user s r
      → R s.saved.jobs
      → R s.current.jobs
      → R (others s.saved).jobs
      → R (others s.current).jobs
      → All (λ j. j.id ≢ id) (others s.current).jobs
      → R r.1.current.jobs
  enqueued-Kept r (Enqueued.is_missing _ e k) a b c d f = rw k a
  enqueued-Kept r (Enqueued.is_archived _ _ e x k) a b c d f = rw k a
  enqueued-Kept r (Enqueued.is_active_already _ _ j _ _ e k) a b c d f = rw k b
  enqueued-Kept r (Enqueued.is_inserted _ _ _ _ n e k) a b c d f = rw k (
      inv.step (others s.current).jobs _ d
        (Step.enqueues id now tenant_id campaign_id user f (let_in (others s.current).jobs e)))
  enqueued-Kept r (Enqueued.is_overtaken _ _ j₁ j₂ _ _ _ e x k) a b c d f = rw k c
  enqueued-Kept r (Enqueued.is_refused _ _ j _ _ _ e x k) a b c d f = rw k c

  -- A call of enqueue, however it ends, keeps what the writes of the service keep and holds of the
  -- committed table, of the transaction's own, and of both after what other transactions commit.
  -- The id drawn for the new job is new.
  pub enqueue-Kept :
      R s.saved.jobs
      → R s.current.jobs
      → R (others s.saved).jobs
      → R (others s.current).jobs
      → All (λ j. j.id ≢ id) (others s.current).jobs
      → R (enqueue id now others tenant_id campaign_id user s).1.current.jobs
  enqueue-Kept = enqueued-Kept _ (enqueue-Enqueued id now others tenant_id campaign_id user s)
