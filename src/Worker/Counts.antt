-- ===== src/Worker/Counts.antt =====
-- The numbers of queued and of unfinished jobs under a claim and the end of a job.
use verisure_ads_automation.Base.{
  ◌+◌, ◌-◌, ◌≡◌, refl, subst, Bool, true, false, ◌==◌, nat_eq, nat_eqb_iff, nat_eqb_refl, Option,
  none, some, String, arith, if◌then◌else◌, Distinct, count_where, count_where-update_key,
  select_one_of_In,
}
use mathlib.Core.Path.{fun_ext}
use verisure_ads_automation.Models.Provider.{Uuid, Instant}
use verisure_ads_automation.Models.Job.{
  PublishJobStatus, queued, running, job_status_eq, is_active, PublishJob,
}
use verisure_ads_automation.Jobs.Repository.{
  Jobs, ClaimResult, claim_row, reclaim_row, is_claimable, is_stale, created_before, started_before,
  is_expected, finish_row,
}
use verisure_ads_automation.Jobs.Claim.{Takes, Claimed, row_id}
use verisure_ads_automation.Jobs.RunOnce.{Holds, finished}

abbrev pub is_queued : PublishJob → Bool
is_queued j = j.status == queued

abbrev pub is_unfinished : PublishJob → Bool
is_unfinished j = is_active j.status

-- What a claim does to the numbers of queued and of unfinished jobs, where no job is locked.
abbrev pub Counted : Jobs → Option ClaimResult → Jobs → Type 0
Counted jobs none jobs' = (jobs' ≡ jobs) × (count_where is_queued jobs ≡ 0)
Counted jobs (some c) jobs' =
    (count_where is_queued jobs' ≡ count_where is_queued jobs - 1)
    × (count_where is_unfinished jobs' ≡ count_where is_unfinished jobs)

module _ (q : PublishJob → Bool) (before : PublishJob → PublishJob → Bool)
    (fits : PublishJob → Bool) (f : PublishJob → PublishJob) (jobs jobs' : Jobs)
    (job : PublishJob) where
  taken :
      (t : Takes before fits f jobs jobs' job)
      → Distinct row_id jobs
      → count_where q jobs' + (if q t.candidate then 1 else 0)
        ≡ count_where q jobs + (if q (f t.candidate) then 1 else 0)
  taken t d =
      let c = t.candidate in
      rw t.rows (
        count_where-update_key row_id q (λ j. j.id == c.id) f c.id jobs c
          (λ x e. (nat_eqb_iff x.id c.id).0 e) d (select_one_of_In row_id c jobs t.is_first.among d)
          (nat_eqb_refl c.id))

no_queued :
    (locked : Uuid → Bool) (jobs : Jobs)
    → ((id : Uuid) → locked id ≡ false)
    → count_where (is_claimable locked) jobs ≡ 0
    → count_where is_queued jobs ≡ 0
no_queued locked jobs free e =
    subst (λ p. count_where p jobs ≡ 0)
      (fun_ext {f = is_claimable locked} {g = is_queued} (λ j. ground (arith, free j.id))) e

pub Claimed-Counted :
    (locked : Uuid → Bool) (now : Instant) (limit : Option Instant) (jobs jobs' : Jobs)
    (r : Option ClaimResult)
    → ((id : Uuid) → locked id ≡ false)
    → Distinct row_id jobs
    → Claimed locked now limit jobs r jobs'
    → Counted jobs r jobs'
Claimed-Counted locked now limit jobs jobs' r free d (Claimed.claimed job got t) =
    let fits = is_claimable locked in
    let a = taken is_queued created_before fits (claim_row now) jobs jobs' job t d in
    let b = taken is_unfinished created_before fits (claim_row now) jobs jobs' job t d in
    let q = t.is_first.fits in rw got (ground arith, ground arith)
Claimed-Counted locked now limit jobs jobs' r free d (Claimed.reclaimed job l s got c t) =
    let fits = is_stale locked l in
    let a = taken is_queued started_before fits (reclaim_row now) jobs jobs' job t d in
    let b = taken is_unfinished started_before fits (reclaim_row now) jobs jobs' job t d in
    let e = no_queued locked jobs free c in rw got (ground arith, ground arith)
Claimed-Counted locked now limit jobs jobs' r free d (Claimed.idle n same c k) =
    rw (n, same) (refl, no_queued locked jobs free c)

-- The end of a running job leaves the queued ones and takes one off the unfinished.
pub finished-counts :
    (status : PublishJobStatus) (at : Instant) (message : Option (Option String)) (job : PublishJob)
    (jobs : Jobs)
    → is_active status ≡ false
    → Holds jobs job
    → (count_where is_queued (finished status at message job jobs) ≡ count_where is_queued jobs)
      × (count_where is_unfinished (finished status at message job jobs) + 1
          ≡ count_where is_unfinished jobs)
finished-counts status at message job jobs e h =
    let p = is_expected job.tenant_id job.id running in
    let f = finish_row status at message in
    let fits : p job ≡ true = ground (arith, h.is_running, nat_eqb_refl job.id) in
    let imp : (x : PublishJob) → p x ≡ true → x.id ≡ job.id =
      λ x t. ground (arith, nat_eqb_iff x.id job.id) in
    let a =
      count_where-update_key row_id is_queued p f job.id jobs job imp h.distinct h.found fits in
    let b =
      count_where-update_key row_id is_unfinished p f job.id jobs job imp h.distinct h.found fits in
    (ground (arith, h.is_running), ground (arith, h.is_running))
