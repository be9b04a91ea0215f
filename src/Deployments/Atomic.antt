-- ===== src/Deployments/Atomic.antt =====
-- The mark_* methods of CampaignDeploymentService with commit=True: all or nothing.
use verisure_ads_automation.Base.{
  ◌≡◌, ◌≤◌, refl, true, not, ◌&&◌, ◌==◌, Option, some, String, [], ◌∷◌, arith, nat_eq,
  if◌then◌else◌, Bool-cases, select_one, select_one-update, update_where, count_where, inl, inr,
  ◌⊎◌,
}
use verisure_ads_automation.Exceptions.{Exception, deployment_not_found_error}
use verisure_ads_automation.Models.Provider.{Uuid, Instant}
use verisure_ads_automation.Models.Deployment.{
  CampaignDeploymentStatus, submitted, live, paused, failed, deployment_status_eq,
  CampaignDeployment,
}
use verisure_ads_automation.Session.{Database, Session, Result, ok, raised, ◌>>=◌}
use verisure_ads_automation.Deployments.Repository.{
  Deployments, StatusFields, no_fields, has_id, is_expected, set_status, set_external, get_by_id,
  update_external_reference, is_too_long,
}
use verisure_ads_automation.Deployments.Service.{
  value_too_long, allowed_transitions, is_member, guarded, not_allowed, changed_concurrently,
  apply_transition, finish_write, abort_write, mark_submitted, mark_live, mark_failed, mark_paused,
}
use verisure_ads_automation.Deployments.Transitions.{get_by_id-keys}
use verisure_ads_automation.Deployments.Outcomes.{Transitioned, apply_transition-Transitioned}

-- Nothing is left uncommitted.
abbrev clean : Database → Session
clean db = record { saved = db; current = db }

-- What a transition writes to the rows, by the status that was read.
abbrev pub marking :
    Uuid
    → Uuid
    → CampaignDeploymentStatus
    → StatusFields
    → CampaignDeploymentStatus
    → Deployments
    → Deployments
marking t i target fields status = update_where (is_expected t i status) (set_status target fields)

-- And what mark_submitted writes.
abbrev pub submission :
    Uuid → Uuid → Option String → Instant → CampaignDeploymentStatus → Deployments → Deployments
submission t i external now status rows =
    update_where (has_id t i) (set_external external)
      (marking t i submitted (record no_fields { submitted_at = some (some now) }) status rows)

-- A call that returns has found the deployment in a status that allows the target, has committed
-- all of `write`, and returns the row as it now is; one that raises has undone everything.
pub data IsAtomic (others : Database → Database) (t i : Uuid) (s : Session)
    (target : CampaignDeploymentStatus)
    (write : CampaignDeploymentStatus → Deployments → Deployments)
    : Result CampaignDeployment × Session → Type 0 where
  commits :
      (r : Result CampaignDeployment × Session) (read d : CampaignDeployment)
      → get_by_id t i s.current.deployments ≡ some read
      → is_member target (allowed_transitions read.status) ≡ true
      → get_by_id t i (write read.status (others s.current).deployments) ≡ some d
      → r ≡ (
        ok d,
        clean (record (others s.current) {
          deployments = write read.status (others s.current).deployments;
        }),
      )
      → IsAtomic others t i s target write r
  undoes :
      (r : Result CampaignDeployment × Session) (e : Exception)
      → (r ≡ (raised e, clean s.saved)) ⊎ (r ≡ (raised e, clean (others s.saved)))
      → IsAtomic others t i s target write r

found_one :
    (t i : Uuid) (status : CampaignDeploymentStatus) (rows : Deployments)
    → 1 ≤ count_where (is_expected t i status) rows
    → (a : CampaignDeployment) × (select_one (has_id t i) rows ≡ some a)
unfolding count_where select_one
found_one t i status [] h = absurd (omega arith)
found_one t i status (x ∷ xs) h = elim (Bool-cases (has_id t i x)) [
  | inl e ↦ (x, ground arith)
  | inr e ↦ let (a, k) = found_one t i status xs (ground arith) in (a, ground arith)
]

-- The row that the UPDATE changed is there to be read again.
refreshed :
    (t i : Uuid) (status : CampaignDeploymentStatus) (f : CampaignDeployment → CampaignDeployment)
    (rows : Deployments)
    → ((a : CampaignDeployment) → has_id t i (f a) ≡ has_id t i a)
    → 1 ≤ count_where (is_expected t i status) rows
    → (a : CampaignDeployment) × (get_by_id t i (update_where (is_expected t i status) f rows)
        ≡ some a)
unfolding get_by_id
refreshed t i status f rows k h =
    let (a, e) = found_one t i status rows h in
    (_, select_one-update (has_id t i) (is_expected t i status) f rows (λ x _. k x) e)

again :
    (t i : Uuid) (external : Option String) (rows : Deployments) (a : CampaignDeployment)
    → get_by_id t i rows ≡ some a
    → get_by_id t i (update_where (has_id t i) (set_external external) rows)
      ≡ some (if has_id t i a then set_external external a else a)
unfolding get_by_id
again t i external rows a e =
    select_one-update (has_id t i) (has_id t i) (set_external external) rows (λ x _. refl) e

module _ (others : Database → Database) (t i : Uuid) (s : Session) where
  -- The calls that make one write.
  one_write :
      (target : CampaignDeploymentStatus) (fields : StatusFields)
      → IsAtomic others t i s target
          (marking t i target fields)
          (guarded true (apply_transition others t i target fields >>= λ d. finish_write true d) s)
  unfolding finish_write abort_write
  one_write target fields = go (apply_transition-Transitioned others t i target fields s)
    where
      call : Result CampaignDeployment × Session
      call = guarded true (apply_transition others t i target fields >>= λ d. finish_write true d) s

      go :
          Transitioned others t i target fields s (apply_transition others t i target fields s)
          → IsAtomic others t i s target (marking t i target fields) call
      go (Transitioned.is_missing _ e k) =
          IsAtomic.undoes _ deployment_not_found_error (inl (ground arith))
      go (Transitioned.is_not_allowed _ d e n k) =
          IsAtomic.undoes _ (not_allowed d.status target) (inl (ground arith))
      go (Transitioned.is_overtaken _ d e m z k) =
          IsAtomic.undoes _ (changed_concurrently d.status) (inr (ground arith))
      go (Transitioned.is_written _ d e m p k) =
          let f = set_status target fields in
          let rows = update_where (is_expected t i d.status) f (others s.current).deployments in
          let (a, found) = refreshed t i d.status f (others s.current).deployments (λ x. refl) p in
          IsAtomic.commits _ d a e m found
            (ground (arith, get_by_id-keys t i s.current.deployments d e))

  submitted_write :
      (external : Option String) (now : Instant)
      → IsAtomic others t i s submitted
          (submission t i external now)
          (mark_submitted others t i external now true s)
  unfolding mark_submitted finish_write abort_write update_external_reference
  submitted_write external now = go (apply_transition-Transitioned others t i submitted fields s)
    where
      fields : StatusFields
      fields = record no_fields { submitted_at = some (some now) }

      go :
          Transitioned others t i submitted fields s
            (apply_transition others t i submitted fields s)
          → IsAtomic others t i s submitted
              (submission t i external now)
              (mark_submitted others t i external now true s)
      go (Transitioned.is_missing _ e k) =
          IsAtomic.undoes _ deployment_not_found_error (inl (ground arith))
      go (Transitioned.is_not_allowed _ d e n k) =
          IsAtomic.undoes _ (not_allowed d.status submitted) (inl (ground arith))
      go (Transitioned.is_overtaken _ d e m z k) =
          IsAtomic.undoes _ (changed_concurrently d.status) (inr (ground arith))
      go (Transitioned.is_written _ d e m p k) =
          let f = set_status submitted fields in
          let rows = update_where (is_expected t i d.status) f (others s.current).deployments in
          let rows' = update_where (has_id t i) (set_external external) rows in
          let (a, found) = refreshed t i d.status f (others s.current).deployments (λ x. refl) p in
          let found' = again t i external rows a found in
          elim (Bool-cases (is_too_long external && not (count_where (has_id t i) rows == 0))) [
            | inl long ↦ IsAtomic.undoes _ value_too_long (inr (ground arith))
            | inr fits ↦
                IsAtomic.commits _ d (if has_id t i a then set_external external a else a) e m
                  found' (ground (arith, get_by_id-keys t i s.current.deployments d e))
          ]

-- With commit=True, each of mark_submitted, mark_live, mark_failed and mark_paused either finds the
-- deployment in a status that allows its target, commits all its UPDATEs (two in mark_submitted) in
-- the rows of the status that was read, and returns the deployment as it now is, or raises and
-- leaves the database as it was, with what other transactions may have committed; so does
-- mark_submitted where its second UPDATE fails, since the external id is longer than its column.
-- Nothing stays uncommitted.
pub mark-IsAtomic :
    (others : Database → Database) (t i : Uuid) (s : Session) (external : Option String)
    (now : Instant) (message : String)
    → IsAtomic others t i s submitted
        (submission t i external now)
        (mark_submitted others t i external now true s)
      × IsAtomic others t i s live
          (marking t i live (record no_fields { confirmed_at = some (some now) }))
          (mark_live others t i now true s)
      × IsAtomic others t i s failed
          (marking t i failed (record no_fields { last_error_message = some (some message) }))
          (mark_failed others t i message true s)
      × IsAtomic others t i s paused (marking t i paused no_fields) (mark_paused others t i true s)
unfolding mark_live mark_failed mark_paused
mark-IsAtomic others t i s external now message = (
  submitted_write others t i s external now,
  one_write others t i s live (record no_fields { confirmed_at = some (some now) }),
  one_write others t i s failed (record no_fields { last_error_message = some (some message) }),
  one_write others t i s paused no_fields,
)
