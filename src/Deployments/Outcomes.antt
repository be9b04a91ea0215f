-- ===== src/Deployments/Outcomes.antt =====
-- How the calls of CampaignDeploymentService that move a deployment can end.
use verisure_ads_automation.Base.{
  ℕ, ◌≡◌, ◌≤◌, refl, true, false, Option, none, some, arith, nat_eq, Bool-cases, Option-cases,
  update_where, count_where, inl, inr, ◌⊎◌, zero, suc,
}
use verisure_ads_automation.Exceptions.{deployment_not_found_error}
use verisure_ads_automation.Models.Provider.{Uuid}
use verisure_ads_automation.Models.Deployment.{
  CampaignDeploymentStatus, deployment_status_eq, CampaignDeployment,
}
use verisure_ads_automation.Session.{Database, Session, Result, ok, raised}
use verisure_ads_automation.Deployments.Repository.{
  Deployments, StatusFields, is_expected, set_status, get_by_id,
}
use verisure_ads_automation.Deployments.Service.{
  allowed_transitions, is_member, not_allowed, changed_concurrently, apply_transition,
}
use verisure_ads_automation.Deployments.Transitions.{interfered, with_rows, apply_transition_lem}

module _ (others : Database → Database) (tenant_id deployment_id : Uuid)
    (target : CampaignDeploymentStatus) (fields : StatusFields) (s : Session) where
  abbrev row : Option CampaignDeployment
  row = get_by_id tenant_id deployment_id s.current.deployments

  -- The rows when the UPDATE is sent.
  abbrev rows : Deployments
  rows = (others s.current).deployments

  -- The ways that `_apply_transition` can end.
  pub data Transitioned : Result CampaignDeployment × Session → Type 0 where
    is_missing :
        (r : Result CampaignDeployment × Session)
        → row ≡ none
        → r ≡ (raised deployment_not_found_error, s)
        → Transitioned r
    is_not_allowed :
        (r : Result CampaignDeployment × Session) (d : CampaignDeployment)
        → row ≡ some d
        → is_member target (allowed_transitions d.status) ≡ false
        → r ≡ (raised (not_allowed d.status target), s)
        → Transitioned r
    is_overtaken :
        (r : Result CampaignDeployment × Session) (d : CampaignDeployment)
        → row ≡ some d
        → is_member target (allowed_transitions d.status) ≡ true
        → count_where (is_expected tenant_id deployment_id d.status) rows ≡ 0
        → r ≡ (raised (changed_concurrently d.status), interfered others s)
        → Transitioned r
    is_written :
        (r : Result CampaignDeployment × Session) (d : CampaignDeployment)
        → row ≡ some d
        → is_member target (allowed_transitions d.status) ≡ true
        → 1 ≤ count_where (is_expected tenant_id deployment_id d.status) rows
        → r ≡ (
          ok d,
          with_rows
              (update_where
                (is_expected tenant_id deployment_id d.status)
                (set_status target fields)
                rows)
              (interfered others s),
        )
        → Transitioned r

  -- Every branch. A deployment that is missing in the tenant, or whose status does not allow the
  -- target, raises before anything is written. Where it is there and allows it, the UPDATE still
  -- tests the status that was read: if other transactions have changed it meanwhile, the call
  -- raises and writes nothing; otherwise it changes the rows with that id, tenant and status, and
  -- returns the deployment that was read.
  pub apply_transition-Transitioned :
      Transitioned (apply_transition others tenant_id deployment_id target fields s)
  apply_transition-Transitioned =
      let (missing, refused, overtaken, written) =
        apply_transition_lem others tenant_id deployment_id target fields s in
      elim (Option-cases row) [
        | inl e ↦ Transitioned.is_missing _ e (missing e)
        | inr (d, e) ↦ elim (Bool-cases (is_member target (allowed_transitions d.status))) [
          | inr n ↦ Transitioned.is_not_allowed _ d e n (refused d e n)
          | inl m ↦
              elim (none_or_some
                (count_where (is_expected tenant_id deployment_id d.status) rows)) [
                  | inl z ↦ Transitioned.is_overtaken _ d e m z (overtaken d e m z)
                  | inr p ↦ Transitioned.is_written _ d e m p (written d e m p)
                ]
        ]
      ]
    where
      none_or_some : (n : ℕ) → (n ≡ 0) ⊎ (1 ≤ n)
      none_or_some zero = inl refl
      none_or_some (suc n) = inr (omega arith)
