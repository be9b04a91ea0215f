-- ===== src/Worker/Drain.antt =====
-- What the loop of the worker does to the queue.
use verisure_ads_automation.Base.{
  suc, length, ◌+◌, ◌-◌, ◌≡◌, refl, ap, false, nat_eq, List, [], ◌∷◌, arith, All, count_where,
}
use verisure_ads_automation.Models.Provider.{Uuid}
use verisure_ads_automation.Models.Job.{job_status_eq}
use verisure_ads_automation.Session.{Database}
use verisure_ads_automation.Jobs.Repository.{Jobs}
use verisure_ads_automation.Jobs.RunOnce.{IsUnitOfWork}
use verisure_ads_automation.Jobs.Lifecycle.{Reachable}
use verisure_ads_automation.Worker.{Poll, Pass, Process, pass, run_forever}
use verisure_ads_automation.Worker.Counts.{is_queued, is_unfinished}
use verisure_ads_automation.Worker.Step.{is_busy, is_unexpected, Advances, pass-Advances}

-- A pass with no other worker and no enqueuing at work, and a publish step that leaves commits and
-- jobs to its caller.
pub record IsAlone (poll : Poll) : Type 0 where
  pub unit : IsUnitOfWork poll.publish
  pub free : (id : Uuid) → poll.iteration.locked id ≡ false
  pub kept : (db : Database) → (poll.others db).jobs ≡ db.jobs

-- What the passes of the loop leave, and report.
pub record Drained (jobs : Jobs) (passes : List Pass) (jobs' : Jobs) : Type 0 where
  pub queued_less : count_where is_queued jobs' ≡ count_where is_queued jobs - length passes
  pub unfinished_less :
      count_where is_unfinished jobs' + count_where is_busy passes ≡ count_where is_unfinished jobs
  pub expected : count_where is_unexpected passes ≡ 0
  pub reachable : Reachable jobs'

Drained-cons :
    (jobs jobs' jobs'' : Jobs) (seen : Pass) (passes : List Pass)
    → Advances jobs seen jobs'
    → Drained jobs' passes jobs''
    → Drained jobs (seen ∷ passes) jobs''
unfolding count_where
Drained-cons jobs jobs' jobs'' seen passes a d = ground arith

-- From a job table that the writes of the service can lead to, with no other worker or enqueuing
-- at work, and publish steps that leave commits and jobs to their caller: whatever the publish
-- steps do, each pass of the worker takes one queued job off the queue while there is one, so that
-- n passes leave n fewer (none, if there were at most n); each pass that is not idle ends exactly
-- one job that was queued or running; no pass reports an unexpected error; and the
-- table is again one that the writes can lead to.
pub run_forever-Drained :
    (polls : List Poll) (p : Process)
    → All IsAlone polls
    → Reachable p.database.jobs
    → let (passes, p') = run_forever polls p in
      Drained p.database.jobs passes p'.database.jobs × (length passes ≡ length polls)
unfolding run_forever count_where
run_forever-Drained [] p alone h = (
  record {
    queued_less = omega arith;
    unfinished_less = omega arith;
    expected = refl;
    reachable = h;
  },
  refl,
)
run_forever-Drained (poll ∷ polls) p (alone, others) h =
    let (a, h') = pass-Advances poll alone.unit alone.free p (alone.kept p.database) h in
    let (d, n) = run_forever-Drained polls (pass poll p).1 others h' in
    (Drained-cons p.database.jobs _ _ _ _ a d, ap suc n)
