-- ===== src/Worker/Step.antt =====
-- What one pass of the loop of the worker does to the queue.
use verisure_ads_automation.Base.{
  ◌+◌, ◌-◌, ◌≡◌, refl, sym, ap, subst, ◌||◌, ◌∙◌, Bool, true, false, not, nat_eq, Option, none,
  some, List, arith, if◌then◌else◌, count_where,
}
use verisure_ads_automation.Models.Provider.{Uuid}
use verisure_ads_automation.Models.Deployment.{CampaignDeployment}
use verisure_ads_automation.Models.Job.{
  succeeded, failed as failed_status, job_status_eq, PublishJob,
}
use verisure_ads_automation.Session.{Database, Session, Result, ok, raised}
use verisure_ads_automation.Jobs.Repository.{Jobs, ClaimResult, claim_next}
use verisure_ads_automation.Jobs.Claim.{claim_next-Claimed}
use verisure_ads_automation.Sanitization.{sanitize_provider_exception}
use verisure_ads_automation.Jobs.Service
use verisure_ads_automation.Jobs.Service.{Iteration}
use verisure_ads_automation.Jobs.FailureFlag.{is_raised, run_once_flagged_lem}
use verisure_ads_automation.Jobs.RunOnce.{IsUnitOfWork, Holds, Ended, Iterated, run_once-Iterated}
use verisure_ads_automation.Jobs.Lifecycle.{Reachable, Reachable-IsWellFormed}
use verisure_ads_automation.Jobs.Ended.{IsInvariant, Reachable-IsInvariant, run_once-Kept}
use verisure_ads_automation.Worker.{
  Poll, Pass, idle, failed, Process, open_session, run_once, pass, report,
}
use verisure_ads_automation.Worker.Counts.{
  is_queued, is_unfinished, Counted, Claimed-Counted, finished-counts,
}

-- The pass found nothing to do.
abbrev pub is_idle : Pass → Bool
is_idle idle = true
is_idle _ = false

abbrev pub is_busy : Pass → Bool
is_busy seen = not (is_idle seen)

-- The pass logs an exception as unexpected.
abbrev pub is_unexpected : Pass → Bool
is_unexpected (failed unexpected) = unexpected
is_unexpected _ = false

abbrev is_false : Result Bool → Bool
is_false (ok b) = not b
is_false (raised e) = false

-- What a pass that saw `jobs` leaves: one queued job less while there is one, and one unfinished job
-- less if it was not idle.
pub record Advances (jobs : Jobs) (seen : Pass) (jobs' : Jobs) : Type 0 where
  pub queued_less : count_where is_queued jobs' ≡ count_where is_queued jobs - 1
  pub unfinished_less :
      count_where is_unfinished jobs' + (if is_idle seen then 0 else 1)
      ≡ count_where is_unfinished jobs
  pub expected : is_unexpected seen ≡ false

-- The same of an iteration, by its result.
abbrev IsAdvanced : Jobs → Result Bool × Session → Type 0
IsAdvanced jobs (r, s) =
    (count_where is_queued s.saved.jobs ≡ count_where is_queued jobs - 1)
    × (count_where is_unfinished s.saved.jobs + (if is_false r then 0 else 1)
        ≡ count_where is_unfinished jobs)

-- What a call of the service leaves to the worker.
abbrev left : Bool → Result Bool × Session → Result Bool × Process
left flag (r, s) = (r, record { database = s.saved; business_failure_logged = is_raised r || flag })

-- A pass reports the call of the service on a session of its own, which sets the flag where it
-- raises.
pass_lem :
    (poll : Poll) (p : Process)
    → pass poll p
      ≡ report (
          left p.business_failure_logged
            (Service.run_once poll.publish poll.iteration (open_session (poll.others p.database))))
unfolding pass run_once
pass_lem poll p =
    ap (λ q. report (q.0.0, record { database = q.0.1.saved; business_failure_logged = q.1 }))
      (run_once_flagged_lem poll.publish poll.iteration p.business_failure_logged
        (open_session (poll.others p.database)))

module _ (poll : Poll) (unit : IsUnitOfWork poll.publish)
    (free : (id : Uuid) → poll.iteration.locked id ≡ false) where
  Ended-IsAdvanced :
      (jobs : Jobs) (job : PublishJob) (s : Session)
      (published : Result (List CampaignDeployment) × Session) (r : Result Bool × Session)
      → Holds s.current.jobs job
      → Ended poll.iteration job s published r
      → count_where is_queued s.current.jobs ≡ count_where is_queued jobs - 1
      → count_where is_unfinished s.current.jobs ≡ count_where is_unfinished jobs
      → IsAdvanced jobs r
  Ended-IsAdvanced jobs job s p r h (Ended.succeeds _ ds e k) a b =
      let c =
        finished-counts succeeded poll.iteration.succeeded_at none job s.current.jobs refl h in
      rw k (c.0 ∙ a, c.1 ∙ b)
  Ended-IsAdvanced jobs job s p r h (Ended.fails _ x e k) a b =
      let message = some (some (sanitize_provider_exception x)) in
      let c =
        finished-counts failed_status poll.iteration.failed_at message job s.current.jobs refl h in
      rw k (c.0 ∙ a, c.1 ∙ b)

  Iterated-IsAdvanced :
      (db : Database) (q : Option ClaimResult × Jobs) (r : Result Bool × Session)
      → Counted db.jobs q.0 q.1
      → Iterated poll.publish unit poll.iteration (open_session db) q r
      → IsAdvanced db.jobs r
  Iterated-IsAdvanced db (none, jobs) r c i = rw i (ground arith, ground arith)
  Iterated-IsAdvanced db (some claim, jobs) r c i =
      Ended-IsAdvanced db.jobs claim.job _ _ r i.0 i.1 c.0 c.1

  settled :
      (s : Session) (q : Option ClaimResult × Jobs) (r : Result Bool × Session)
      → s.saved ≡ s.current
      → Iterated poll.publish unit poll.iteration s q r
      → r.1.saved ≡ r.1.current
  settled s (none, jobs) r e i = rw i e
  settled s (some claim, jobs) r e (h, Ended.succeeds _ ds p k) = rw k refl
  settled s (some claim, jobs) r e (h, Ended.fails _ x p k) = rw k refl

  report-Advances :
      (jobs : Jobs) (r : Result Bool) (s : Session) (flag : Bool)
      → IsAdvanced jobs (r, s)
      → let seen = report (left flag (r, s)) in Advances jobs seen.0 seen.1.database.jobs
  report-Advances jobs (ok true) s flag a = record {
    queued_less = a.0;
    unfinished_less = a.1;
    expected = refl;
  }
  report-Advances jobs (ok false) s flag a = record {
    queued_less = a.0;
    unfinished_less = a.1;
    expected = refl;
  }
  report-Advances jobs (raised e) s flag a = record {
    queued_less = a.0;
    unfinished_less = a.1;
    expected = refl;
  }

  report-database : (r : Result Bool) (p : Process) → (report (r, p)).1.database ≡ p.database
  report-database (ok true) p = refl
  report-database (ok false) p = refl
  report-database (raised e) p = refl

  iterated :
      (db : Database)
      → Reachable db.jobs
      → Iterated poll.publish unit poll.iteration
          (open_session db)
          (claim_next poll.iteration.locked poll.iteration.now
            (some (poll.iteration.now - poll.iteration.stale_after))
            db.jobs)
          (Service.run_once poll.publish poll.iteration (open_session db))
  iterated db h =
      run_once-Iterated poll.publish unit poll.iteration (open_session db)
        (Reachable-IsWellFormed db.jobs h).distinct

  -- A pass keeps what the writes of the service keep.
  pub pass-Kept :
      (R : Jobs → Type 0) (inv : IsInvariant R) (p : Process)
      → (poll.others p.database).jobs ≡ p.database.jobs
      → Reachable p.database.jobs
      → R p.database.jobs
      → R (pass poll p).1.database.jobs
  pass-Kept R inv p same h k =
      let db = poll.others p.database in
      let r = Service.run_once poll.publish poll.iteration (open_session db) in
      subst (λ seen. R seen.1.database.jobs) (sym (pass_lem poll p))
        (subst (λ db. R db.jobs)
          (sym (settled (open_session db) _ r refl (iterated db (subst Reachable (sym same) h)))
            ∙ sym (report-database r.0 (left p.business_failure_logged r).1))
          (run_once-Kept R inv poll.publish unit poll.iteration (open_session db)
            (subst R (sym same) k)))

  pub pass-Advances :
      (p : Process)
      → (poll.others p.database).jobs ≡ p.database.jobs
      → Reachable p.database.jobs
      → Advances p.database.jobs (pass poll p).0 (pass poll p).1.database.jobs
        × Reachable (pass poll p).1.database.jobs
  pass-Advances p same h =
      let db = poll.others p.database in
      let h' : Reachable db.jobs = subst Reachable (sym same) h in
      let d = (Reachable-IsWellFormed db.jobs h').distinct in
      let limit = some (poll.iteration.now - poll.iteration.stale_after) in
      let q = claim_next poll.iteration.locked poll.iteration.now limit db.jobs in
      let r = Service.run_once poll.publish poll.iteration (open_session db) in
      let c =
        Claimed-Counted poll.iteration.locked poll.iteration.now limit db.jobs q.1 q.0 free d
          (claim_next-Claimed poll.iteration.locked poll.iteration.now limit db.jobs d) in
      (
        subst (λ jobs. Advances jobs (pass poll p).0 (pass poll p).1.database.jobs) same
            (subst (λ seen. Advances db.jobs seen.0 seen.1.database.jobs) (sym (pass_lem poll p))
              (report-Advances db.jobs r.0 r.1 p.business_failure_logged
                (Iterated-IsAdvanced db q r c (iterated db h')))),
        pass-Kept Reachable Reachable-IsInvariant p same h h,
      )
