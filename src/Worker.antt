-- ===== src/Worker.antt =====
-- app/orchestration/publish_worker.py: the loop of the worker. A session of its own is opened for
-- every iteration and closed after it, which gives up what was not committed. Waiting is left out;
-- `others` is what other transactions commit before an iteration.
mod Counts
pub mod Step
pub mod Drain
use verisure_ads_automation.Base.{Bool, true, false, not, ◌||◌, List, [], ◌∷◌}
use verisure_ads_automation.Models.Provider.{Uuid}
use verisure_ads_automation.Models.Deployment.{CampaignDeployment}
use verisure_ads_automation.Session.{Database, Session, Result, ok, raised, Action}
use verisure_ads_automation.Jobs.Service.{Iteration}
use verisure_ads_automation.Jobs.FailureFlag.{run_once_flagged}

-- `SessionFactory()()`
abbrev pub open_session : Database → Session
open_session db = record { saved = db; current = db }

-- What outlives an iteration: the database, and whether `_business_failure_logged` is set.
pub record Process : Type 0 where
  pub database : Database
  pub business_failure_logged : Bool

-- What one pass of the loop is given: the publish step with what it draws, the times, and the
-- other transactions.
pub record Poll : Type 0 where
  pub publish : Uuid → Uuid → Action (List CampaignDeployment)
  pub iteration : Iteration
  pub others : Database → Database

-- `run_once()` of the worker.
unfoldable pub run_once : Poll → Process → Result Bool × Process
unfolding run_once_flagged
run_once poll p =
    let ((r, s), flag) =
      run_once_flagged poll.publish poll.iteration p.business_failure_logged
        (open_session p.database) in
    (r, record { database = s.saved; business_failure_logged = flag })

-- `consume_business_failure_logged()`
abbrev pub consume_business_failure_logged : Process → Bool × Process
consume_business_failure_logged p =
    (p.business_failure_logged, record p { business_failure_logged = false })

-- What a pass reports: a job was published; the queue was idle; or an exception was caught, with
-- whether it is logged as unexpected. The worker sleeps after the last two.
pub data Pass : Type 0 where
  processed idle : Pass
  failed : (unexpected : Bool) → Pass

abbrev pub report : Result Bool × Process → Pass × Process
report (ok true, p) = (processed, p)
report (ok false, p) = (idle, p)
report (raised e, p) =
    let (logged, p') = consume_business_failure_logged p in (failed (not logged), p')

-- One pass of `while True`.
unfoldable pub pass : Poll → Process → Pass × Process
unfolding run_once
pass poll p = report (run_once poll (record p { database = poll.others p.database }))

-- The first passes of `run_forever`, one for each poll.
unfoldable pub run_forever : List Poll → Process → List Pass × Process
run_forever [] p = ([], p)
run_forever (poll ∷ polls) p =
    let (first, p') = pass poll p in let (rest, last) = run_forever polls p' in (first ∷ rest, last)
