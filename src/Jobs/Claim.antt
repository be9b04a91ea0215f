-- ===== src/Jobs/Claim.antt =====
-- What PublishJobRepository.claim_next hands to a worker.
use verisure_ads_automation.Base.{
  ◌≡◌, refl, Bool, true, false, Option, none, some, arith, ap, sym, subst, ◌∙◌, some-inj, ◌⊎◌, inl,
  inr, ◌==◌, nat_eq, nat_eqb_refl, select_one, select_first, update_where, count_where, IsOrder,
  IsFirst, select_first-IsFirst, select_first-none, Distinct, select_one_of_In, select_one-update,
}
use verisure_ads_automation.Models.Provider.{Uuid, Instant}
use verisure_ads_automation.Models.Job.{PublishJob}
use verisure_ads_automation.Jobs.Repository.{
  Jobs, ClaimResult, created_before, is_claimable, claim_row, update_returning, is_stale,
  started_before, reclaim_row, reclaim_stale, as_claim, claim_or_reclaim, claim_next,
}

pub created_before-IsOrder : IsOrder created_before
created_before-IsOrder = record {
  asymm = λ a b h. ground arith;
  not_trans = λ a b c h k. ground arith;
}

started_before-IsOrder : IsOrder started_before
started_before-IsOrder = record {
  asymm = λ a b h. ground arith;
  not_trans = λ a b c h k. ground arith;
}

-- The first row in an order that fits is rewritten by `f` and handed out, and no other row changes.
pub record Takes (before : PublishJob → PublishJob → Bool) (fits : PublishJob → Bool)
    (f : PublishJob → PublishJob) (jobs jobs' : Jobs) (job : PublishJob) : Type 0 where
  pub candidate : PublishJob
  pub is_first : IsFirst before fits jobs candidate
  pub handed : job ≡ f candidate
  pub rows : jobs' ≡ update_where (λ j. j.id == candidate.id) f jobs

abbrev pub row_id : PublishJob → Uuid
row_id j = j.id

returned :
    (f : PublishJob → PublishJob) (c : PublishJob) (jobs : Jobs)
    → ((j : PublishJob) → (f j).id ≡ j.id)
    → select_one (λ j. j.id == c.id) jobs ≡ some c
    → update_returning f (some c) jobs ≡ (some (f c), update_where (λ j. j.id == c.id) f jobs)
returned f c jobs k e =
    let found =
      select_one-update (λ j. j.id == c.id) (λ j. j.id == c.id) f jobs
        (λ j _. ap (λ i. i == c.id) (k j)) e in
    unfold update_returning in rw (found, nat_eqb_refl c.id)

not_returned :
    (f : PublishJob → PublishJob) (jobs : Jobs) → update_returning f none jobs ≡ (none, jobs)
unfolding update_returning
not_returned f jobs = refl

abbrev Updated :
    (PublishJob → PublishJob → Bool)
    → (PublishJob → Bool)
    → (PublishJob → PublishJob)
    → Jobs
    → Option PublishJob × Jobs
    → Type 0
Updated before fits f jobs (r, jobs') =
    ((job : PublishJob) × (r ≡ some job) × Takes before fits f jobs jobs' job)
    ⊎ ((r ≡ none) × (jobs' ≡ jobs) × (count_where fits jobs ≡ 0))

-- A SELECT of the first row, then an UPDATE of it.
update_returning-cases :
    (before : PublishJob → PublishJob → Bool) (fits : PublishJob → Bool)
    (f : PublishJob → PublishJob) (jobs : Jobs)
    → IsOrder before
    → ((j : PublishJob) → (f j).id ≡ j.id)
    → Distinct row_id jobs
    → let (r, jobs') = update_returning f (select_first before fits jobs) jobs in
      ((job : PublishJob) × (r ≡ some job) × Takes before fits f jobs jobs' job)
      ⊎ ((r ≡ none) × (jobs' ≡ jobs) × (count_where fits jobs ≡ 0))
update_returning-cases before fits f jobs o k d = go (select_first before fits jobs) refl
  where
    go :
        (r : Option PublishJob)
        → select_first before fits jobs ≡ r
        → Updated before fits f jobs (update_returning f r jobs)
    go none e = rw (not_returned f jobs) (inr (refl, refl, select_first-none before fits jobs e))
    go (some c) e =
        let first = select_first-IsFirst before o fits jobs c e in
        let found = select_one_of_In row_id c jobs first.among d in
        rw (returned f c jobs k found)
          (inl (f c, refl, record { candidate = c; is_first = first; handed = refl; rows = refl }))

module _ (locked : Uuid → Bool) (started_at : Instant) (stale_before : Option Instant)
    (jobs : Jobs) where
  -- The three outcomes of a claim.
  pub data Claimed (r : Option ClaimResult) (jobs' : Jobs) : Type 0 where
    claimed :
        (job : PublishJob)
        → r ≡ some (record { job = job; reclaimed = false })
        → Takes created_before (is_claimable locked) (claim_row started_at) jobs jobs' job
        → Claimed r jobs'
    reclaimed :
        (job : PublishJob) (limit : Instant)
        → stale_before ≡ some limit
        → r ≡ some (record { job = job; reclaimed = true })
        → count_where (is_claimable locked) jobs ≡ 0
        → Takes started_before (is_stale locked limit) (reclaim_row started_at) jobs jobs' job
        → Claimed r jobs'
    idle :
        r ≡ none
        → jobs' ≡ jobs
        → count_where (is_claimable locked) jobs ≡ 0
        → ((limit : Instant)
            → stale_before ≡ some limit
            → count_where (is_stale locked limit) jobs ≡ 0)
        → Claimed r jobs'

  after_reclaim :
      (limit : Instant)
      → stale_before ≡ some limit
      → count_where (is_claimable locked) jobs ≡ 0
      → (q : Option PublishJob × Jobs)
      → Updated started_before (is_stale locked limit) (reclaim_row started_at) jobs q
      → Claimed (as_claim true q.0) q.1
  after_reclaim limit e c (q, jobs') (inl (job, got, takes)) =
      Claimed.reclaimed job limit e (ap (as_claim true) got) c takes
  after_reclaim limit e c (q, jobs') (inr (nothing, same, empty)) =
      Claimed.idle (ap (as_claim true) nothing) same c (λ limit' e'.
        subst (λ l. count_where (is_stale locked l) jobs ≡ 0) (some-inj (sym e ∙ e')) empty)

  after_queued :
      (q : Option PublishJob × Jobs)
      → Updated created_before (is_claimable locked) (claim_row started_at) jobs q
      → ((limit : Instant)
          → Updated started_before
              (is_stale locked limit)
              (reclaim_row started_at)
              jobs
              (reclaim_stale locked started_at limit jobs))
      → (stale : Option Instant) → stale_before ≡ stale
      → let (r, jobs') = claim_or_reclaim locked started_at stale q in Claimed r jobs'
  unfolding claim_or_reclaim
  after_queued (some j, jobs') (inl (job, got, takes)) again stale e =
      Claimed.claimed job (ap (as_claim false) got) takes
  after_queued (none, jobs') (inl (job, got, takes)) again stale e = cc
  after_queued (some j, jobs') (inr (nothing, same, empty)) again stale e = cc
  after_queued (none, jobs') (inr (nothing, same, empty)) again none e =
      Claimed.idle refl same empty (λ limit e'. cc)
  after_queued (none, jobs') (inr (nothing, same, empty)) again (some limit) e =
      rw same
        (after_reclaim limit e empty (reclaim_stale locked started_at limit jobs) (again limit))

  -- Where the ids are distinct, a claim takes the oldest queued job that no other transaction
  -- holds; only where there is none, and a limit is given, the running job with the oldest lease
  -- among those older than the limit; and it takes nothing, and changes nothing, where there is
  -- neither. The row that it takes is handed out as it was written, and no other row changes.
  pub claim_next-Claimed :
      Distinct row_id jobs
      → let (r, jobs') = claim_next locked started_at stale_before jobs in Claimed r jobs'
  unfolding claim_next
  claim_next-Claimed d =
      after_queued
        (update_returning (claim_row started_at)
          (select_first created_before (is_claimable locked) jobs) jobs)
        (update_returning-cases created_before (is_claimable locked) (claim_row started_at) jobs
          created_before-IsOrder (λ j. refl) d)
        (λ limit.
          update_returning-cases started_before (is_stale locked limit) (reclaim_row started_at)
            jobs started_before-IsOrder (λ j. refl) d)
        stale_before refl
