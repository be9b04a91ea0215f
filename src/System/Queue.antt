-- ===== src/System/Queue.antt =====
-- The queue under requests and passes of the worker.
use verisure_ads_automation.Base.{
  Bool, not, In, In-All, Bool-cases, select_all, [], ◌∷◌, ◌≡◌, ◌≢◌, refl, Option, none, some,
  String, List, All, inl, inr,
}
use verisure_ads_automation.Models.Provider.{Uuid, Instant}
use verisure_ads_automation.Models.Identity.{User}
use verisure_ads_automation.Models.Job.{PublishJob, is_active}
use verisure_ads_automation.Session.{
  Database, Session, Result, ok, raised, Action, pure, lift, ◌>>=◌, ◌>>◌,
}
use verisure_ads_automation.Auth.CurrentUser.{get_current_user-Resolved}
use verisure_ads_automation.Jobs.Service.{enqueue}
use verisure_ads_automation.Jobs.Enqueue.{Enqueued, enqueue-Enqueued}
use verisure_ads_automation.Jobs.Lifecycle.{Reachable, IsWellFormed, Reachable-IsWellFormed}
use verisure_ads_automation.Jobs.Ended.{
  IsInvariant, Reachable-IsInvariant, ended-IsInvariant, enqueue-Kept,
}
use verisure_ads_automation.Jobs.Repository.{Jobs}
use verisure_ads_automation.Connections.Envelope.{new_service}
use verisure_ads_automation.Worker.{Process}
use verisure_ads_automation.Worker.Step.{pass-Kept}
use verisure_ads_automation.Api.Requests.{
  Server, Request, current_user, authenticate, encryption_service,
}
use verisure_ads_automation.Api.Responses.{serve}
use verisure_ads_automation.Api.Routes.{publish_campaign}
use verisure_ads_automation.Session.Keeps.{bind-ok, bind-raised, bind-pure}
use verisure_ads_automation.Api.Schemas.{job_read, PublishJobRead}
use verisure_ads_automation.Base.Text.{Text}
use verisure_ads_automation.Api.SameRows.{session_of}
use verisure_ads_automation.System.{Trace}

-- Finding out who a request is from changes nothing.
authenticate-kept :
    (server : Server) (now : Instant) (token : Option String) (s : Session)
    → (authenticate server now token s).1 ≡ s
authenticate-kept server now none s = refl
authenticate-kept server now (some token) s =
    elim (get_current_user-Resolved server.jwt server.jwt_settings now token s) [
      | inl (user, e, g) ↦ rw e refl
      | inr (n, inl (message, e)) ↦ rw e refl
      | inr (n, inr odd) ↦ rw odd.result refl
    ]

-- A call of enqueue on a clean session leaves it clean.
enqueued-clean :
    (id : Uuid) (now : Instant) (others : Database → Database) (t c : Uuid) (user : Option Uuid)
    (db : Database) (r : Result PublishJob × Session)
    → Enqueued id now others t c user (session_of db) r
    → r.1.saved ≡ r.1.current
enqueued-clean id now others t c user db r (Enqueued.is_missing _ e k) = rw k refl
enqueued-clean id now others t c user db r (Enqueued.is_archived _ d e f k) = rw k refl
enqueued-clean id now others t c user db r (Enqueued.is_active_already _ _ j _ _ e k) = rw k refl
enqueued-clean id now others t c user db r (Enqueued.is_inserted _ _ _ _ n e k) = rw k refl
enqueued-clean id now others t c user db r (Enqueued.is_overtaken _ _ j₁ j₂ _ _ _ e f k) = rw k refl
enqueued-clean id now others t c user db r (Enqueued.is_refused _ _ j _ _ _ e f k) = rw k refl

module _ (R : Jobs → Type 0) (inv : IsInvariant R) (server : Server) (request : Request) (id : Uuid)
    (now : Instant) (campaign_id : Uuid) (db : Database) (fresh : All (λ j. j.id ≢ id) db.jobs)
    (kept : (d : Database) → (request.others d).jobs ≡ d.jobs) (h : R db.jobs) where
  enqueue-saved :
      (user : User)
      → R
          (enqueue id now request.others user.tenant_id campaign_id
            (some user.id)
            (session_of db)).1.saved.jobs
  enqueue-saved user =
      let after : R (request.others db).jobs = rw (kept db) h in
      rw
        (enqueued-clean id now request.others user.tenant_id campaign_id (some user.id) db _ (
          enqueue-Enqueued id now request.others user.tenant_id campaign_id (some user.id)
            (session_of db)))
        (enqueue-Kept R inv id now request.others user.tenant_id campaign_id (some user.id)
          (session_of db) h h after after (rw (kept db) fresh))

  stored :
      (user : User) (r : Result (List Text))
      → R
          ((lift r
              >> (enqueue id now request.others user.tenant_id campaign_id (some user.id) >>= λ job.
                  pure (job_read job)))
            (session_of db)).1.saved.jobs
  stored user (raised e) = h
  stored user (ok keys) =
      rw
        (bind-pure (enqueue id now request.others user.tenant_id campaign_id (some user.id))
          job_read (session_of db))
        (enqueue-saved user)

  -- The endpoint after it knows its user.
  abbrev endpoint : User → Action PublishJobRead
  endpoint user =
      lift (new_service server.libraries server.encryption_key)
      >> (enqueue id now request.others user.tenant_id campaign_id (some user.id) >>= λ job.
          pure (job_read job))

  requested_by :
      (r : Result User × Session)
      → current_user server request (session_of db) ≡ r
      → r.1 ≡ session_of db
      → R ((current_user server request >>= endpoint) (session_of db)).1.saved.jobs
  requested_by (raised e, s) p k =
      rw (bind-raised (current_user server request) endpoint (session_of db) s e p, k) h
  requested_by (ok user, s) p k =
      rw (bind-ok (current_user server request) endpoint (session_of db) s user p, k)
        (stored user (new_service server.libraries server.encryption_key))

  requested : R (serve 202 (publish_campaign server request id now campaign_id) db).1.jobs
  unfolding serve publish_campaign current_user encryption_service
  requested =
      requested_by (current_user server request (session_of db)) refl
        (authenticate-kept server request.now request.token (session_of db))

-- What the writes of the service keep is kept along a trace.
reached :
    (R : Jobs → Type 0)
    → IsInvariant R
    → (p p' : Process) → Reachable p.database.jobs
    → R p.database.jobs
    → Trace p p'
    → Reachable p'.database.jobs × R p'.database.jobs
reached R inv p p' r h Trace.starts = (r, h)
reached R inv p p' r h (Trace.requests q _ server request id now campaign_id t fresh kept e) =
    let (a, b) = reached R inv p q r h t in
    rw e (
      requested Reachable Reachable-IsInvariant server request id now campaign_id q.database fresh
          kept a,
      requested R inv server request id now campaign_id q.database fresh kept b,
    )
reached R inv p p' r h (Trace.works q _ poll t alone e) =
    let (a, b) = reached R inv p q r h t in
    let same = alone.kept q.database in
    rw e (
      pass-Kept poll alone.unit alone.free Reachable Reachable-IsInvariant q same a a,
      pass-Kept poll alone.unit alone.free R inv q same a b,
    )
reached R inv p p' r h (Trace.others q _ t same) = rw same (reached R inv p q r h t)

abbrev pub has_ended : PublishJob → Bool
has_ended j = not (is_active j.status)

ended_stay :
    (p p' : Process) (rows : Jobs)
    → Reachable p.database.jobs
    → Trace p p'
    → All (λ j. In j p.database.jobs) rows
    → All (λ j. In j p'.database.jobs) (select_all has_ended rows)
unfolding select_all
ended_stay p p' [] h t m = tt
ended_stay p p' (j ∷ rows) h t m = elim (Bool-cases (is_active j.status)) [
  | inl a ↦ rw a (ended_stay p p' rows h t m.1)
  | inr a ↦ rw a (
    (reached (λ jobs. Reachable jobs × In j jobs) (ended-IsInvariant j a) p p' h (h, m.0) t).1.1,
    ended_stay p p' rows h t m.1,
  )
]

-- In a backend that starts with no jobs, or with jobs that the lifecycle of a job can lead to,
-- whatever requests to publish campaigns and passes of the worker follow one another, however each
-- of them ends: they add up to writes of the lifecycle; the table of jobs stays well formed, that
-- is, the ids of jobs are distinct, their times and attempts agree with their states, and no
-- campaign has two jobs that are queued or running; and every job that had ended at the start is
-- still there as it was. Each request draws a new id; other transactions at work during a request
-- or a pass leave the jobs alone, and the worker is the only one.
pub Trace-Reachable :
    (p p' : Process)
    → Reachable p.database.jobs
    → Trace p p'
    → Reachable p'.database.jobs
      × IsWellFormed p'.database.jobs
      × All (λ j. In j p'.database.jobs) (select_all has_ended p.database.jobs)
Trace-Reachable p p' h t =
    let r = (reached Reachable Reachable-IsInvariant p p' h h t).0 in
    (
      r,
      Reachable-IsWellFormed p'.database.jobs r,
      ended_stay p p' p.database.jobs h t
          (In-All (λ j. In j p.database.jobs) p.database.jobs (λ j m. m)),
    )
