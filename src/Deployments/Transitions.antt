-- ===== src/Deployments/Transitions.antt =====
-- The read-validate-write sequence of CampaignDeploymentService._apply_transition and the mark_*
-- methods on it.
use verisure_ads_automation.Base.{
  ◌≡◌, ◌≤◌, refl, Bool, true, false, Option, none, some, String, arith, ◌∙◌, nat_eq, if◌then◌else◌,
  select_one-holds, select_one-In, select_one-update, update_where, update_where-id, count_where,
  count_where-pos,
}
use verisure_ads_automation.Exceptions.{deployment_not_found_error}
use verisure_ads_automation.Models.Provider.{Uuid, Instant}
use verisure_ads_automation.Models.Deployment.{
  CampaignDeploymentStatus, submitted, failed, deployment_status_eq, deployment_status_eqb_iff,
  CampaignDeployment,
}
use verisure_ads_automation.Session.{Database, Session, ok, raised}
use verisure_ads_automation.Deployments.Repository.{
  Deployments, StatusFields, no_fields, has_id, is_expected, set_status, set_external, get_by_id,
  update_external_reference, is_too_long,
}
use verisure_ads_automation.Deployments.Service.{
  allowed_transitions, is_member, not_allowed, changed_concurrently, write_status, apply_transition,
  finish_write, abort_write, mark_submitted, mark_failed,
}

-- The session after other transactions have committed, and after an UPDATE of the deployments.
abbrev pub interfered : (Database → Database) → Session → Session
interfered others s = record { saved = others s.saved; current = others s.current }

abbrev pub with_rows : Deployments → Session → Session
with_rows rows s = record s { current = record s.current { deployments = rows } }

write_status_lem :
    (others : Database → Database) (t i : Uuid) (target : CampaignDeploymentStatus)
    (fields : StatusFields) (d : CampaignDeployment) (s : Session)
    → let s' = interfered others s in
      let call = write_status others t i target fields d s in
      (count_where (is_expected t i d.status) s'.current.deployments ≡ 0
        → call ≡ (raised (changed_concurrently d.status), s'))
      × (1 ≤ count_where (is_expected t i d.status) s'.current.deployments
          → call ≡ (
            ok d,
            with_rows
                (update_where
                  (is_expected t i d.status)
                  (set_status target fields)
                  s'.current.deployments)
                s',
          ))
unfolding write_status
write_status_lem others t i target fields d s = (
  λ c. ground (
    arith,
    update_where-id (is_expected t i d.status) (set_status target fields)
        (others s.current).deployments c,
  ),
  λ c. ground arith,
)

-- Every branch. A deployment that is missing in the tenant, or whose status does not allow the
-- target, raises before anything is written. Where it is there and allows it, the UPDATE still
-- tests the status that was read: if other transactions have changed it meanwhile, the call raises
-- and writes nothing; otherwise it changes exactly the row with that id, tenant and status, and
-- returns the deployment that was read.
pub apply_transition_lem :
    (others : Database → Database) (tenant_id deployment_id : Uuid)
    (target : CampaignDeploymentStatus) (fields : StatusFields) (s : Session)
    → let call = apply_transition others tenant_id deployment_id target fields s in
      let row = get_by_id tenant_id deployment_id s.current.deployments in
      let s' = interfered others s in
      (row ≡ none → call ≡ (raised deployment_not_found_error, s))
      × ((d : CampaignDeployment)
          → row ≡ some d
          → is_member target (allowed_transitions d.status) ≡ false
          → call ≡ (raised (not_allowed d.status target), s))
      × ((d : CampaignDeployment)
          → row ≡ some d
          → is_member target (allowed_transitions d.status) ≡ true
          → count_where (is_expected tenant_id deployment_id d.status) s'.current.deployments ≡ 0
          → call ≡ (raised (changed_concurrently d.status), s'))
      × ((d : CampaignDeployment)
          → row ≡ some d
          → is_member target (allowed_transitions d.status) ≡ true
          → 1 ≤ count_where (is_expected tenant_id deployment_id d.status) s'.current.deployments
          → call ≡ (
            ok d,
            with_rows
                (update_where
                  (is_expected tenant_id deployment_id d.status)
                  (set_status target fields)
                  s'.current.deployments)
                s',
          ))
unfolding apply_transition
apply_transition_lem others t i target fields s = (
  λ e. ground arith,
  λ d e m. ground arith,
  λ d e m c. ground (arith, (write_status_lem others t i target fields d s).0 c),
  λ d e m c. ground (arith, (write_status_lem others t i target fields d s).1 c),
)

pub get_by_id-keys :
    (t i : Uuid) (rows : Deployments) (d : CampaignDeployment)
    → get_by_id t i rows ≡ some d
    → (d.id ≡ i) × (d.tenant_id ≡ t)
unfolding get_by_id
get_by_id-keys t i rows d e = ground (arith, select_one-holds (has_id t i) rows e)

-- With no one else at the row, an allowed transition is written.
written :
    (tenant_id deployment_id : Uuid) (rows : Deployments) (d : CampaignDeployment)
    → get_by_id tenant_id deployment_id rows ≡ some d
    → 1 ≤ count_where (is_expected tenant_id deployment_id d.status) rows
unfolding get_by_id
written t i rows d e =
    count_where-pos (is_expected t i d.status) rows d (select_one-In (has_id t i) rows d e) (
      ground
        (arith, select_one-holds (has_id t i) rows e, deployment_status_eqb_iff d.status d.status))

-- The session after the writes of a call: committed or only flushed.
abbrev pub closing : Bool → Session → Session
closing commits s = record s { saved = if commits then s.current else s.saved }

abbrev pub failing : String → CampaignDeployment → CampaignDeployment
failing message = set_status failed (record no_fields { last_error_message = some (some message) })

abbrev pub set_submitted : Instant → CampaignDeployment → CampaignDeployment
set_submitted now = set_status submitted (record no_fields { submitted_at = some (some now) })

abbrev pub submitting : Option String → Instant → CampaignDeployment → CampaignDeployment
submitting external now d = set_external external (set_submitted now d)

abbrev pub alone : Database → Database
alone db = db

failed_rows :
    (t i : Uuid) (message : String) (rows : Deployments) (d : CampaignDeployment)
    → get_by_id t i rows ≡ some d
    → get_by_id t i (update_where (is_expected t i d.status) (failing message) rows)
      ≡ some (failing message d)
unfolding get_by_id
failed_rows t i message rows d e =
    select_one-update (has_id t i) (is_expected t i d.status) (failing message) rows (λ a h. refl) e
    ∙ ground
        (arith, select_one-holds (has_id t i) rows e, deployment_status_eqb_iff d.status d.status)

-- A pending or submitted deployment is marked failed, with its message, and returned as written.
pub mark_failed_lem :
    (t i : Uuid) (message : String) (commits : Bool) (s : Session) (d : CampaignDeployment)
    → get_by_id t i s.current.deployments ≡ some d
    → is_member failed (allowed_transitions d.status) ≡ true
    → let s' =
        with_rows
          (update_where (is_expected t i d.status) (failing message) s.current.deployments)
          s in
      mark_failed alone t i message commits s ≡ (ok (failing message d), closing commits s')
unfolding mark_failed finish_write abort_write
mark_failed_lem t i message commits s d e m =
    let fields = record no_fields { last_error_message = some (some message) } in
    ground (
      arith,
      (apply_transition_lem alone t i failed fields s).3 d e m
          (written t i s.current.deployments d e),
      failed_rows t i message s.current.deployments d e,
      get_by_id-keys t i s.current.deployments d e,
    )

submitted_rows :
    (t i : Uuid) (external : Option String) (now : Instant) (rows : Deployments)
    (d : CampaignDeployment)
    → get_by_id t i rows ≡ some d
    → get_by_id t i (
        update_where
          (has_id t i)
          (set_external external)
          (update_where (is_expected t i d.status) (set_submitted now) rows))
      ≡ some (submitting external now d)
unfolding get_by_id
submitted_rows t i external now rows d e =
    select_one-update (has_id t i) (has_id t i) (set_external external)
      (update_where (is_expected t i d.status) (set_submitted now) rows) (λ a h. refl)
      (select_one-update (has_id t i) (is_expected t i d.status) (set_submitted now) rows
        (λ a h. refl) e)
    ∙ ground
        (arith, select_one-holds (has_id t i) rows e, deployment_status_eqb_iff d.status d.status)

-- A pending deployment is marked submitted, with a provider's id that fits its column, and returned as written.
pub mark_submitted_lem :
    (t i : Uuid) (external : Option String) (now : Instant) (commits : Bool) (s : Session)
    (d : CampaignDeployment)
    → get_by_id t i s.current.deployments ≡ some d
    → is_member submitted (allowed_transitions d.status) ≡ true
    → is_too_long external ≡ false
    → let s' =
        with_rows
          (update_where
            (has_id t i)
            (set_external external)
            (update_where (is_expected t i d.status) (set_submitted now) s.current.deployments))
          s in
      mark_submitted alone t i external now commits s
      ≡ (ok (submitting external now d), closing commits s')
unfolding mark_submitted finish_write abort_write update_external_reference
mark_submitted_lem t i external now commits s d e m short =
    let fields = record no_fields { submitted_at = some (some now) } in
    ground (
      arith,
      (apply_transition_lem alone t i submitted fields s).3 d e m
          (written t i s.current.deployments d e),
      submitted_rows t i external now s.current.deployments d e,
      get_by_id-keys t i s.current.deployments d e,
    )
