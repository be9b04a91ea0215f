-- ===== src/Tests/Worker.antt =====
-- The theorem on the loop of the worker at a queue of one job.
use verisure_ads_automation.Base.{◌≡◌, refl, false, [], ◌∷◌, length}
use verisure_ads_automation.Publish.UnitOfWork.{publish_campaign-IsUnitOfWork}
use verisure_ads_automation.Worker.{Poll, Process, run_forever}
use verisure_ads_automation.Worker.Drain.{IsAlone, Drained, run_forever-Drained}
use verisure_ads_automation.Tests.{
  queue, database, plain, adapters, drawn, publishing, an_iteration,
}
use verisure_ads_automation.Tests.Queue.{Reachable-queue}

abbrev pub a_poll : Poll
a_poll = record { publish = publishing; iteration = an_iteration; others = λ db. db }

pub a_poll-IsAlone : IsAlone a_poll
a_poll-IsAlone = record {
  unit = publish_campaign-IsUnitOfWork adapters plain drawn;
  free = λ id. refl;
  kept = λ db. refl;
}

abbrev started : Process
started = record { database = database queue; business_failure_logged = false }

-- One pass for the job, and one that finds the queue empty.
worker_example :
    Drained queue
      (run_forever (a_poll ∷ a_poll ∷ []) started).0
      (run_forever (a_poll ∷ a_poll ∷ []) started).1.database.jobs
    × (length (run_forever (a_poll ∷ a_poll ∷ []) started).0 ≡ 2)
worker_example =
    run_forever-Drained (a_poll ∷ a_poll ∷ []) started (a_poll-IsAlone, (a_poll-IsAlone, tt))
      Reachable-queue
