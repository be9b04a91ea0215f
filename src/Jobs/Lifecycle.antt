-- ===== src/Jobs/Lifecycle.antt =====
-- The life of the rows of `publish_jobs` under the writes of PublishJobRepository.
use verisure_ads_automation.Base.{
  ◌≡◌, ◌≢◌, ◌≤◌, refl, subst, Bool, true, false, ◌&&◌, Option, none, some, String, [], arith, ◌==◌,
  nat_eq, nat_eqb_iff, Bool-cases, Option-cases, is_some, All, All-insert, All-update, Distinct,
  Distinct-insert, Distinct-update, some-inj, select_one, count_where, count_where-insert,
  count_where-update-le, count_where-zero, insert_row, update_where, update_where-fits, inl, inr,
}
use verisure_ads_automation.Models.Provider.{Uuid, Instant}
use verisure_ads_automation.Models.Job.{
  PublishJobStatus, queued, running, is_active, job_status_eq, job_status_eqb_iff, PublishJob,
}
use verisure_ads_automation.Jobs.Repository.{
  Jobs, ClaimResult, create, is_active_for, claim_row, reclaim_row, is_claimable, is_stale,
  created_before, started_before, claim_next, is_expected, finish_row, mark_finished,
}
use verisure_ads_automation.Jobs.Claim.{Takes, Claimed, claim_next-Claimed, row_id}
use verisure_ads_automation.Jobs.Service.{new_job}

-- One write of the service: an INSERT of a new job, a claim, or the end of a running job.
pub data Step (jobs jobs' : Jobs) : Type 0 where
  enqueues :
      (id : Uuid) (now : Instant) (tenant_id campaign_id : Uuid) (user : Option Uuid)
      → All (λ j. j.id ≢ id) jobs
      → create (new_job id now tenant_id campaign_id user) jobs ≡ some jobs'
      → Step jobs jobs'
  claims :
      (locked : Uuid → Bool) (now : Instant) (limit : Option Instant)
      → jobs' ≡ (claim_next locked now limit jobs).1
      → Step jobs jobs'
  finishes :
      (tenant_id job_id : Uuid) (status : PublishJobStatus) (at : Instant)
      (message : Option (Option String))
      → is_active status ≡ false
      → jobs' ≡ (mark_finished tenant_id job_id running status at message jobs).1
      → Step jobs jobs'

-- The tables that the writes can lead to, from an empty one.
pub data Reachable : Jobs → Type 0 where
  starts : Reachable []
  continues : (jobs jobs' : Jobs) → Reachable jobs → Step jobs jobs' → Reachable jobs'

-- The columns of a job agree with its state.
pub record IsCoherent (j : PublishJob) : Type 0 where
  pub when_queued :
      j.status ≡ queued → (j.started_at ≡ none) × (j.finished_at ≡ none) × (j.attempt_count ≡ 0)
  pub when_running :
      j.status ≡ running
      → (is_some j.started_at ≡ true) × (j.finished_at ≡ none) × (1 ≤ j.attempt_count)
  pub when_ended :
      is_active j.status ≡ false
      → (is_some j.started_at ≡ true) × (is_some j.finished_at ≡ true) × (1 ≤ j.attempt_count)

-- What a write keeps of the whole table.
pub record IsWellFormed (jobs : Jobs) : Type 0 where
  pub distinct : Distinct row_id jobs
  pub coherent : All IsCoherent jobs
  pub one_active : (campaign_id : Uuid) → count_where (is_active_for campaign_id) jobs ≤ 1

-- An update of rows that keeps ids, makes no campaign newly active and keeps rows coherent.
update-IsWellFormed :
    (p : PublishJob → Bool) (f : PublishJob → PublishJob) (jobs : Jobs)
    → ((j : PublishJob) → (f j).id ≡ j.id)
    → ((c : Uuid) (j : PublishJob)
        → p j ≡ true
        → is_active_for c (f j) ≡ true
        → is_active_for c j ≡ true)
    → ((j : PublishJob) → p j ≡ true → IsCoherent j → IsCoherent (f j))
    → IsWellFormed jobs
    → IsWellFormed (update_where p f jobs)
update-IsWellFormed p f jobs i a k h = record {
  distinct = Distinct-update row_id p f jobs i h.distinct;
  coherent = All-update IsCoherent p f jobs k h.coherent;
  one_active =
      λ c. ground (arith, count_where-update-le (is_active_for c) p f jobs (a c), h.one_active c);
}

finish-IsCoherent :
    (t i : Uuid) (status : PublishJobStatus) (at : Instant) (message : Option (Option String))
    (j : PublishJob)
    → is_active status ≡ false
    → is_expected t i running j ≡ true
    → IsCoherent j
    → IsCoherent (finish_row status at message j)
finish-IsCoherent t i status at message j e p h =
    let (s, n, a) = h.when_running (ground (arith, job_status_eqb_iff j.status running)) in
    record {
      when_queued = λ k. ground arith;
      when_running = λ k. ground arith;
      when_ended = λ _. (s, refl, a);
    }

finishes-IsWellFormed :
    (t i : Uuid) (status : PublishJobStatus) (at : Instant) (message : Option (Option String))
    (jobs : Jobs)
    → is_active status ≡ false
    → IsWellFormed jobs
    → IsWellFormed (mark_finished t i running status at message jobs).1
unfolding mark_finished
finishes-IsWellFormed t i status at message jobs e h =
    update-IsWellFormed (is_expected t i running) (finish_row status at message) jobs (λ j. refl)
      (λ c j p a. ground arith) (λ j p k. finish-IsCoherent t i status at message j e p k) h

-- A new row that the index lets in.
insert-IsWellFormed :
    (id : Uuid) (now : Instant) (t c : Uuid) (user : Option Uuid) (jobs : Jobs)
    → All (λ j. j.id ≢ id) jobs
    → select_one (is_active_for c) jobs ≡ none
    → IsWellFormed jobs
    → IsWellFormed (insert_row (new_job id now t c user) jobs)
unfolding new_job
insert-IsWellFormed id now t c user jobs f e h = record {
  distinct = Distinct-insert row_id (new_job id now t c user) jobs f h.distinct;
  coherent =
      All-insert IsCoherent (new_job id now t c user) jobs
        (record {
          when_queued = λ _. (refl, refl, refl);
          when_running = λ k. ground arith;
          when_ended = λ k. ground arith;
        })
        h.coherent;
  one_active = λ c'. elim (Bool-cases (c == c')) [
    | inl same ↦
        subst (λ x. count_where (is_active_for x) (insert_row (new_job id now t c user) jobs) ≤ 1)
          ((nat_eqb_iff c c').0 same)
          (ground (
            arith,
            count_where-insert (is_active_for c) (new_job id now t c user) jobs,
            count_where-zero (is_active_for c) jobs e,
          ))
    | inr apart ↦ ground (
      arith,
      count_where-insert (is_active_for c') (new_job id now t c user) jobs,
      h.one_active c',
    )
  ];
}

enqueues-IsWellFormed :
    (id : Uuid) (now : Instant) (t c : Uuid) (user : Option Uuid) (jobs jobs' : Jobs)
    → All (λ j. j.id ≢ id) jobs
    → create (new_job id now t c user) jobs ≡ some jobs'
    → IsWellFormed jobs
    → IsWellFormed jobs'
unfolding create new_job
enqueues-IsWellFormed id now t c user jobs jobs' f e h =
    elim (Option-cases (select_one (is_active_for c) jobs)) [
      | inl n ↦
          subst IsWellFormed (some-inj (inserted n e))
            (insert-IsWellFormed id now t c user jobs f n h)
      | inr (j, n) ↦ absurd (refused j n e)
    ]
  where
    inserted :
        select_one (is_active_for c) jobs ≡ none
        → create (new_job id now t c user) jobs ≡ some jobs'
        → some (insert_row (new_job id now t c user) jobs) ≡ some jobs'
    inserted n e' = ground arith

    refused :
        (j : PublishJob)
        → select_one (is_active_for c) jobs ≡ some j
        → create (new_job id now t c user) jobs ≡ some jobs'
        → ⊥
    refused j n e' = ground arith

Takes-IsWellFormed :
    (before : PublishJob → PublishJob → Bool) (fits : PublishJob → Bool)
    (f : PublishJob → PublishJob) (jobs jobs' : Jobs) (job : PublishJob)
    → ((j : PublishJob) → (f j).id ≡ j.id)
    → ((c : Uuid) (j : PublishJob)
        → fits j ≡ true
        → is_active_for c (f j) ≡ true
        → is_active_for c j ≡ true)
    → ((j : PublishJob) → fits j ≡ true → IsCoherent j → IsCoherent (f j))
    → Takes before fits f jobs jobs' job
    → IsWellFormed jobs
    → IsWellFormed jobs'
Takes-IsWellFormed before fits f jobs jobs' job i a k t h =
    let c = t.candidate in
    let same = update_where-fits row_id fits f c jobs t.is_first.among t.is_first.fits h.distinct in
    rw (t.rows, same)
      (update-IsWellFormed (λ j. j.id == c.id && fits j) f jobs i (λ c' j p. a c' j (ground arith))
        (λ j p. k j (ground arith)) h)

claims-IsWellFormed :
    (locked : Uuid → Bool) (now : Instant) (limit : Option Instant) (jobs jobs' : Jobs)
    (r : Option ClaimResult)
    → Claimed locked now limit jobs r jobs'
    → IsWellFormed jobs
    → IsWellFormed jobs'
claims-IsWellFormed locked now limit jobs jobs' r (Claimed.claimed job got t) h =
    Takes-IsWellFormed created_before (is_claimable locked) (claim_row now) jobs jobs' job
      (λ j. refl) (λ c j p a. ground arith)
      (λ j p k. record {
        when_queued = λ e. ground arith;
        when_running = λ _. (
          refl,
          (k.when_queued (ground (arith, job_status_eqb_iff j.status queued))).1,
          omega arith,
        );
        when_ended = λ e. ground arith;
      })
      t h
claims-IsWellFormed locked now limit jobs jobs' r (Claimed.reclaimed job l s got c t) h =
    Takes-IsWellFormed started_before (is_stale locked l) (reclaim_row now) jobs jobs' job
      (λ j. refl) (λ c' j p a. a)
      (λ j p k. record {
        when_queued = λ e. ground (arith, job_status_eqb_iff j.status queued);
        when_running = λ e. (refl, (k.when_running e).1, omega arith);
        when_ended = λ e. (refl, (k.when_ended e).1, omega arith);
      })
      t h
claims-IsWellFormed locked now limit jobs jobs' r (Claimed.idle n same c k) h = rw same h

Step-IsWellFormed : (jobs jobs' : Jobs) → Step jobs jobs' → IsWellFormed jobs → IsWellFormed jobs'
Step-IsWellFormed jobs jobs' (Step.enqueues id now t c user f e) h =
    enqueues-IsWellFormed id now t c user jobs jobs' f e h
Step-IsWellFormed jobs jobs' (Step.claims locked now limit e) h = rw e (
    claims-IsWellFormed locked now limit jobs _ _
      (claim_next-Claimed locked now limit jobs h.distinct) h)
Step-IsWellFormed jobs jobs' (Step.finishes t i status at message e k) h =
    rw k (finishes-IsWellFormed t i status at message jobs e h)

-- However the writes of the service follow one another from an empty table, with new ids, the table
-- is well formed: ids are distinct, the times and attempts of each job agree with its state (a
-- queued job has neither time and no attempt, a running one has started and not finished, an ended
-- one has both times, and both have an attempt), and no campaign has two jobs that are queued or
-- running.
pub Reachable-IsWellFormed : (jobs : Jobs) → Reachable jobs → IsWellFormed jobs
unfolding count_where
Reachable-IsWellFormed _ Reachable.starts = record {
  distinct = tt;
  coherent = tt;
  one_active = λ c. omega arith;
}
Reachable-IsWellFormed _ (Reachable.continues jobs jobs' r s) =
    Step-IsWellFormed jobs jobs' s (Reachable-IsWellFormed jobs r)
