-- ===== src/Tests/Backend.antt =====
-- A request to publish a campaign, and a pass of the worker after it.
use verisure_ads_automation.Base.{◌∷◌, arith, All, In, select_all, refl, false, []}
use verisure_ads_automation.Jobs.Service.{new_job}
use verisure_ads_automation.Jobs.Lifecycle.{Reachable, IsWellFormed}
use verisure_ads_automation.Worker.{Process, pass}
use verisure_ads_automation.Api.Responses.{serve}
use verisure_ads_automation.Api.Routes.{publish_campaign}
use verisure_ads_automation.System.{Trace}
use verisure_ads_automation.System.Queue.{has_ended, Trace-Reachable}
use verisure_ads_automation.Tests.Queue.{ended_job, ended_queue}
use verisure_ads_automation.Tests.{database}
use verisure_ads_automation.Tests.Access.{accounts}
use verisure_ads_automation.Tests.Requests.{server, request}
use verisure_ads_automation.Tests.Worker.{a_poll, a_poll-IsAlone}

abbrev quiet : Process
quiet = record { database = accounts (database (ended_job ∷ [])); business_failure_logged = false }

abbrev asked : Process
asked = record quiet {
  database = (serve 202 (publish_campaign server request 21 6 10) quiet.database).1;
}

backend_example :
    Reachable (pass a_poll asked).1.database.jobs
    × IsWellFormed (pass a_poll asked).1.database.jobs
    × All (λ j. In j (pass a_poll asked).1.database.jobs) (select_all has_ended quiet.database.jobs)
unfolding new_job
backend_example = Trace-Reachable quiet (pass a_poll asked).1 ended_queue (
    Trace.works asked _ a_poll
      (Trace.requests quiet asked server request 21 6 10 Trace.starts ((λ e. ground arith), tt)
        (λ d. refl) refl)
      a_poll-IsAlone refl)
