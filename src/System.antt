-- ===== src/System.antt =====
-- The backend as a whole: requests to app/main.py and passes of the loop of
-- app/orchestration/publish_worker.py over one database, one after the other.
pub mod Queue
use verisure_ads_automation.Base.{ℕ, ◌≡◌, ◌≢◌, List, All}
use verisure_ads_automation.Models.Provider.{Uuid, Instant}
use verisure_ads_automation.Session.{Database}
use verisure_ads_automation.Worker.{Process, pass}
use verisure_ads_automation.Worker.{Poll}
use verisure_ads_automation.Worker.Drain.{IsAlone}
use verisure_ads_automation.Api.Requests.{Server, Request}
use verisure_ads_automation.Api.Responses.{serve}
use verisure_ads_automation.Api.Routes.{publish_campaign}

-- What can follow one another, with the state after: a request to publish a campaign, whoever it is
-- from and however it ends, with a new id for a job; a pass of the worker; and anything else that
-- leaves the jobs alone.
pub data Trace (p : Process) : Process → Type 0 where
  starts : Trace p p
  requests :
      (q q' : Process) (server : Server) (request : Request) (id : Uuid) (now : Instant)
      (campaign_id : Uuid)
      → Trace p q
      → All (λ j. j.id ≢ id) q.database.jobs
      → ((d : Database) → (request.others d).jobs ≡ d.jobs)
      → q'.database ≡ (serve 202 (publish_campaign server request id now campaign_id) q.database).1
      → Trace p q'
  works :
      (q q' : Process) (poll : Poll) → Trace p q → IsAlone poll → q' ≡ (pass poll q).1 → Trace p q'
  others : (q q' : Process) → Trace p q → q'.database.jobs ≡ q.database.jobs → Trace p q'
