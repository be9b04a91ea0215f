-- ===== src/Health.antt =====
-- app/services/health_service.py, and the endpoints of app/api/v1/health.py. What the database and
-- the mappers of SQLAlchemy do when they are probed are arguments.
use verisure_ads_automation.Base.{
  ℕ, Bool, true, false, ◌&&◌, Option, none, some, String, if◌then◌else◌,
}
use verisure_ads_automation.Base.Text.{codes, is_empty}
use verisure_ads_automation.Session.{Result, ok, raised}
use verisure_ads_automation.Configuration.{Settings}
use verisure_ads_automation.Configuration.Startup.{is_below_one}

-- `SELECT 1` in the session, if there is one, and `configure_mappers()`.
pub record Probes : Type 0 where
  pub execute : Option (Result (Unit {0}))
  pub configure_mappers : Result (Unit {0})

-- The values of `status` in the bodies.
pub data HealthStatus : Type 0 where
  alive ready not_ready responds unavailable available : HealthStatus

abbrev pub succeeds : Result (Unit {0}) → Bool
succeeds (ok _) = true
succeeds (raised e) = false

abbrev pub check_database : Option (Result (Unit {0})) → Bool
check_database none = false
check_database (some result) = succeeds result

abbrev pub check_mappers : Result (Unit {0}) → Bool
check_mappers result = succeeds result

abbrev pub is_ready : Probes → Bool
is_ready probes = check_database probes.execute && check_mappers probes.configure_mappers

abbrev pub database_status : Probes → HealthStatus
database_status probes = if check_database probes.execute then responds else unavailable

abbrev pub ready_status : Probes → HealthStatus
ready_status probes = if is_ready probes then ready else not_ready

-- `not settings.database_url`
abbrev is_falsy : Option String → Bool
is_falsy none = true
is_falsy (some url) = is_empty (codes url)

unfoldable pub worker_status : Settings → HealthStatus
worker_status cfg =
    if is_falsy cfg.database_url
    then unavailable
    else if is_below_one cfg.publish_job_poll_interval_seconds
    then unavailable
    else available

-- The status code and the body of an answer.
abbrev pub Answer : Type 0
Answer = ℕ × HealthStatus

-- GET /health/live
abbrev pub live : Answer
live = (200, alive)

-- GET /health/ready, `payload["status"] == "ready"`
abbrev pub answer_ready : HealthStatus → Answer
answer_ready ready = (200, ready)
answer_ready payload = (503, payload)

-- GET /health/database, `payload["status"] == "ok"`
abbrev pub answer_database : HealthStatus → Answer
answer_database responds = (200, responds)
answer_database payload = (503, payload)

unfoldable pub ready_endpoint : Probes → Answer
ready_endpoint probes = answer_ready (ready_status probes)

unfoldable pub database_endpoint : Probes → Answer
database_endpoint probes = answer_database (database_status probes)

-- GET /health/worker
unfoldable pub worker_endpoint : Settings → Answer
unfolding worker_status
worker_endpoint cfg = (200, worker_status cfg)
