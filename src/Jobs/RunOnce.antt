-- ===== src/Jobs/RunOnce.antt =====
-- The unit of work of PublishJobService.run_once: how an iteration can end, and what it commits.
use verisure_ads_automation.Base.{
  ◌-◌, ◌≡◌, refl, Bool, true, false, Option, none, some, String, List, arith, ap, sym, subst, ◌∙◌,
  some-inj, ◌==◌, nat_eq, nat_eqb_refl, nat_eqb_iff, select_one, update_where, count_where,
  Distinct, Distinct-update, select_one_of_In, select_one-update, count_where-key,
}
use verisure_ads_automation.Exceptions.{Exception}
use verisure_ads_automation.Sanitization.{sanitize_provider_exception}
use verisure_ads_automation.Models.Provider.{Uuid, Instant}
use verisure_ads_automation.Models.Deployment.{CampaignDeployment}
use verisure_ads_automation.Models.Job.{
  PublishJobStatus, running, succeeded, failed, job_status_eq, PublishJob,
}
use verisure_ads_automation.Session.{Session, Result, ok, raised, Action}
use verisure_ads_automation.Jobs.Repository.{
  Jobs, ClaimResult, is_expected, finish_row, claim_next, claim_row, reclaim_row,
}
use verisure_ads_automation.Jobs.Claim.{Takes, Claimed, claim_next-Claimed, row_id}
use verisure_ads_automation.Jobs.Service.{set_jobs, Iteration, finish_failed, run_claimed, run_once}

-- The table holds the job as it was handed to the worker, running.
pub record Holds (jobs : Jobs) (job : PublishJob) : Type 0 where
  pub found : select_one (λ j. j.id == job.id) jobs ≡ some job
  pub is_running : job.status ≡ running
  pub distinct : Distinct row_id jobs

taken-Holds :
    {before : PublishJob → PublishJob → Bool} {fits : PublishJob → Bool}
    (f : PublishJob → PublishJob) (jobs jobs' : Jobs) (job : PublishJob)
    → ((j : PublishJob) → (f j).id ≡ j.id)
    → ((j : PublishJob) → fits j ≡ true → (f j).status ≡ running)
    → Distinct row_id jobs
    → Takes before fits f jobs jobs' job
    → Holds jobs' job
taken-Holds f jobs jobs' job same_id runs d t =
    let c = t.candidate in
    let there = select_one_of_In row_id c jobs t.is_first.among d in
    let updated =
      select_one-update (λ j. j.id == c.id) (λ j. j.id == c.id) f jobs
        (λ j _. ap (λ i. i == c.id) (same_id j)) there in
    rw (t.rows, t.handed)
      (record {
        found =
            subst
              (λ i.
                select_one (λ j. j.id == i) (update_where (λ j. j.id == c.id) f jobs) ≡ some (f c))
              (sym (same_id c)) (updated ∙ rw (nat_eqb_refl c.id));
        is_running = runs c t.is_first.fits;
        distinct = Distinct-update row_id (λ j. j.id == c.id) f jobs same_id d;
      })

-- The row that is handed out is found by the UPDATE that finishes it, and no other row is.
marks_one :
    (jobs : Jobs) (job : PublishJob)
    → Holds jobs job
    → count_where (is_expected job.tenant_id job.id running) jobs ≡ 1
marks_one jobs job h =
    count_where-key row_id (is_expected job.tenant_id job.id running) job.id jobs job
      (λ j e. ground (arith, nat_eqb_iff j.id job.id)) h.distinct h.found
    ∙ ground (arith, h.is_running)

-- What finishing the job commits: its row in the new state, all other rows as they were.
abbrev pub finished : PublishJobStatus → Instant → Option (Option String) → PublishJob → Jobs → Jobs
finished status at error_message job jobs =
    update_where (is_expected job.tenant_id job.id running) (finish_row status at error_message)
      jobs

-- The failure path: the job is marked failed with the sanitised message, that is committed, and the
-- exception is raised again.
finish_failed_lem :
    (it : Iteration) (job : PublishJob) (e : Exception) (s : Session)
    → Holds s.current.jobs job
    → let after =
        set_jobs
          (finished failed it.failed_at
            (some (some (sanitize_provider_exception e)))
            job
            s.current.jobs)
          s.current in
      finish_failed it job e s ≡ (raised e, record { saved = after; current = after })
unfolding finish_failed
finish_failed_lem it job e s h = ground (arith, marks_one s.current.jobs job h)

-- A publish step that leaves commits and jobs to its caller.
pub record IsUnitOfWork (publish : Uuid → Uuid → Action (List CampaignDeployment)) : Type 0 where
  pub saved_kept : (t c : Uuid) (s : Session) → (publish t c s).1.saved ≡ s.saved
  pub jobs_kept : (t c : Uuid) (s : Session) → (publish t c s).1.current.jobs ≡ s.current.jobs

-- How an iteration that has claimed `job` in the session `s` can end, for what `publish` did.
pub data Ended (it : Iteration) (job : PublishJob) (s : Session)
    (published : Result (List CampaignDeployment) × Session) : Result Bool × Session → Type 0 where
  -- published: the job is succeeded, and that and the deployments are committed
  succeeds :
      (r : Result Bool × Session)
      → (deployments : List CampaignDeployment) → published.0 ≡ ok deployments
      → r ≡ (
        ok true,
        let after =
              set_jobs
                (finished succeeded it.succeeded_at none job s.current.jobs)
                published.1.current in
            record { saved = after; current = after },
      )
      → Ended it job s published r
  -- not published: the job is failed, with a sanitised message, and all else that `publish` wrote
  -- is undone
  fails :
      (r : Result Bool × Session)
      → (e : Exception) → published.0 ≡ raised e
      → r ≡ (
        raised e,
        let after =
              set_jobs
                (finished failed it.failed_at
                  (some (some (sanitize_provider_exception e)))
                  job
                  s.current.jobs)
                s.current in
            record { saved = after; current = after },
      )
      → Ended it job s published r

module _ (publish : Uuid → Uuid → Action (List CampaignDeployment)) (unit : IsUnitOfWork publish)
    (it : Iteration) where
  run_claimed-Ended :
      (claim : ClaimResult) (s : Session)
      → Holds s.current.jobs claim.job
      → Ended it claim.job s
          (publish claim.job.tenant_id claim.job.campaign_id s)
          (run_claimed publish it (some claim) s)
  unfolding run_claimed
  run_claimed-Ended claim s h =
      go (publish claim.job.tenant_id claim.job.campaign_id s) refl
        (unit.saved_kept claim.job.tenant_id claim.job.campaign_id s)
        (unit.jobs_kept claim.job.tenant_id claim.job.campaign_id s)
    where
      go :
          (r : Result (List CampaignDeployment) × Session)
          → publish claim.job.tenant_id claim.job.campaign_id s ≡ r
          → r.1.saved ≡ s.saved
          → r.1.current.jobs ≡ s.current.jobs
          → Ended it claim.job s r (run_claimed publish it (some claim) s)
      go (ok ds, s') e k j = Ended.succeeds _ ds refl (
          ground (
            arith,
            marks_one s'.current.jobs claim.job (subst (λ js. Holds js claim.job) (sym j) h),
          ))
      go (raised x, s') e k j =
          Ended.fails _ x refl
            (ground (arith, finish_failed_lem it claim.job x (record s' { current = s.current }) h))

  -- The session after the claim.
  abbrev pub with_jobs : Jobs → Session → Session
  with_jobs jobs s = record s { current = set_jobs jobs s.current }

  -- What `run_once` did, by what it claimed.
  abbrev pub Iterated : Session → Option ClaimResult × Jobs → Result Bool × Session → Type 0
  Iterated s (none, jobs) r = r ≡ (ok false, s)
  Iterated s (some claim, jobs) r =
      Holds jobs claim.job
      × Ended it claim.job (with_jobs jobs s)
          (publish claim.job.tenant_id claim.job.campaign_id (with_jobs jobs s)) r

  Claimed-Holds :
      {r : Option ClaimResult} {jobs jobs' : Jobs}
      → Distinct row_id jobs
      → Claimed it.locked it.now (some (it.now - it.stale_after)) jobs r jobs'
      → (claim : ClaimResult) → r ≡ some claim
      → Holds jobs' claim.job
  Claimed-Holds {jobs} {jobs'} d (Claimed.claimed job got t) claim e =
      subst (λ c. Holds jobs' c.job) (some-inj (sym got ∙ e))
        (taken-Holds (claim_row it.now) jobs jobs' job (λ j. refl) (λ j _. refl) d t)
  Claimed-Holds {jobs} {jobs'} d (Claimed.reclaimed job limit s got c t) claim e =
      subst (λ c. Holds jobs' c.job) (some-inj (sym got ∙ e))
        (taken-Holds (reclaim_row it.now) jobs jobs' job (λ j. refl) (λ j f. ground arith) d t)
  Claimed-Holds d (Claimed.idle nothing same c k) claim e = cc

  idle-rows :
      {r : Option ClaimResult} {jobs jobs' : Jobs}
      → Distinct row_id jobs
      → Claimed it.locked it.now (some (it.now - it.stale_after)) jobs r jobs'
      → r ≡ none
      → jobs' ≡ jobs
  idle-rows d (Claimed.claimed job got t) e = cc
  idle-rows d (Claimed.reclaimed job limit s got c t) e = cc
  idle-rows d (Claimed.idle nothing same c k) e = same

  -- For a publish step that commits nothing, rolls nothing back and touches no job, and where ids
  -- are distinct: an iteration that claims nothing returns False and changes nothing. One
  -- that claims a job publishes it once, in the session after the claim, and then either commits
  -- the published deployments with the job succeeded and returns True, or, where publishing raised,
  -- commits only the claim and the job failed with a sanitised message, and raises that exception
  -- again. In both cases no change is left uncommitted.
  pub run_once-Iterated :
      (s : Session)
      → Distinct row_id s.current.jobs
      → Iterated s
          (claim_next it.locked it.now (some (it.now - it.stale_after)) s.current.jobs)
          (run_once publish it s)
  unfolding run_once
  run_once-Iterated s d =
      go (claim_next it.locked it.now (some (it.now - it.stale_after)) s.current.jobs)
        (claim_next-Claimed it.locked it.now (some (it.now - it.stale_after)) s.current.jobs d)
    where
      go :
          (q : Option ClaimResult × Jobs)
          → Claimed it.locked it.now (some (it.now - it.stale_after)) s.current.jobs q.0 q.1
          → Iterated s q (run_claimed publish it q.0 (with_jobs q.1 s))
      go (none, jobs) c = rw (idle-rows d c refl)
      go (some claim, jobs) c = (
        Claimed-Holds d c claim refl,
        run_claimed-Ended claim (with_jobs jobs s) (Claimed-Holds d c claim refl),
      )
