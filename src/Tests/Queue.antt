-- ===== src/Tests/Queue.antt =====
-- The theorems on publish jobs at a small queue.
use verisure_ads_automation.Base.{
  ◌≡◌, ◌-◌, refl, false, none, some, [], ◌∷◌, select_one, insert_row, update_where, select_first,
  nat_eq, In, inl,
}
use verisure_ads_automation.Models.Job.{PublishJob, succeeded}
use verisure_ads_automation.Session.{Database, Session, ok}
use verisure_ads_automation.Publish.UnitOfWork.{publish_campaign-IsUnitOfWork}
use verisure_ads_automation.Jobs.Repository.{
  create, claim_next, mark_finished, claim_queued, claim_or_reclaim, update_returning,
}
use verisure_ads_automation.Jobs.Claim.{Claimed, claim_next-Claimed}
use verisure_ads_automation.Jobs.Service.{new_job, run_once, enqueue}
use verisure_ads_automation.Jobs.RunOnce.{IsUnitOfWork, Iterated, run_once-Iterated}
use verisure_ads_automation.Jobs.Enqueue.{
  Enqueued, enqueue-Enqueued, IsEnqueued, enqueue-IsEnqueued,
}
use verisure_ads_automation.Jobs.Lifecycle.{Step, Reachable, IsWellFormed, Reachable-IsWellFormed}
use verisure_ads_automation.Jobs.Ended.{ended-kept}
use verisure_ads_automation.Campaigns.Repository.{get_by_tenant_and_id}
use verisure_ads_automation.Tests.{
  a_campaign, a_job, queue, session, plain, adapters, drawn, publishing, an_iteration,
}

publishing-IsUnitOfWork : IsUnitOfWork publishing
publishing-IsUnitOfWork = publish_campaign-IsUnitOfWork adapters plain drawn

run_once_example :
    Iterated publishing publishing-IsUnitOfWork an_iteration
      (session queue)
      (claim_next an_iteration.locked an_iteration.now
        (some (an_iteration.now - an_iteration.stale_after))
        queue)
      (run_once publishing an_iteration (session queue))
run_once_example =
    run_once-Iterated publishing publishing-IsUnitOfWork an_iteration (session queue) (tt, tt)

claim_next_example :
    Claimed
      (λ id. false)
      1000
      (some 900)
      queue
      (claim_next (λ id. false) 1000 (some 900) queue).0
      (claim_next (λ id. false) 1000 (some 900) queue).1
claim_next_example = claim_next-Claimed (λ id. false) 1000 (some 900) queue (tt, tt)

enqueue_example :
    Enqueued 20 6 (λ db. db) 1 10 none (session []) (enqueue 20 6 (λ db. db) 1 10 none (session []))
enqueue_example = enqueue-Enqueued 20 6 (λ db. db) 1 10 none (session [])

-- Another transaction enqueues the campaign first.
abbrev overtaking : Database → Database
overtaking db = record db { jobs = queue }

enqueue_race_example :
    (job : PublishJob) × (s' : Session) × (enqueue 21 7 overtaking 1 10 none (session [])
      ≡ (ok job, s'))
    × IsEnqueued 21 7 overtaking 1 10 none (session []) job s'
unfolding get_by_tenant_and_id new_job
enqueue_race_example =
    enqueue-IsEnqueued 21 7 overtaking 1 10 none (session []) a_campaign refl (λ e. cc) refl
      ((λ e. refl), tt)

pub Reachable-queue : Reachable queue
unfolding new_job create select_one insert_row
Reachable-queue =
    Reachable.continues [] queue Reachable.starts (Step.enqueues 20 6 1 10 none tt refl)

IsWellFormed-example : IsWellFormed queue
IsWellFormed-example = Reachable-IsWellFormed queue Reachable-queue

abbrev pub ended_job : PublishJob
ended_job = record a_job {
  status = succeeded;
  started_at = some 10;
  finished_at = some 11;
  attempt_count = 1;
  updated_at = 11;
}

pub ended_queue : Reachable (ended_job ∷ [])
unfolding new_job mark_finished update_where claim_next claim_queued claim_or_reclaim
    update_returning select_first select_one
ended_queue =
    Reachable.continues _ _
      (Reachable.continues queue _ Reachable-queue (Step.claims (λ id. false) 10 none refl))
      (Step.finishes 1 20 succeeded 11 none refl refl)

ended_kept_example : In ended_job (claim_next (λ id. false) 5000 (some 4000) (ended_job ∷ [])).1
ended_kept_example =
    ended-kept (ended_job ∷ []) (claim_next (λ id. false) 5000 (some 4000) (ended_job ∷ [])).1
      ended_job ended_queue (Step.claims (λ id. false) 5000 (some 4000) refl) (inl refl) refl
