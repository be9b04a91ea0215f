-- ===== src/Deployments/Columns.antt =====
-- The columns of a deployment agree with its state, and a transition keeps that.
use verisure_ads_automation.Base.{
  ◌≡◌, refl, sym, subst, true, none, some, String, arith, nat_eq, is_some, All, All-update,
}
use verisure_ads_automation.Models.Provider.{Uuid, Instant}
use verisure_ads_automation.Models.Deployment.{
  CampaignDeploymentStatus, pending, submitted, live, paused, failed, deployment_status_eq,
  deployment_status_eqb_iff, CampaignDeployment,
}
use verisure_ads_automation.Session.{Database, Session}
use verisure_ads_automation.Session.Keeps.{Keeps}
use verisure_ads_automation.Deployments.Repository.{
  StatusFields, no_fields, is_expected, set_status,
}
use verisure_ads_automation.Deployments.Service.{allowed_transitions, is_member, apply_transition}
use verisure_ads_automation.Deployments.Outcomes.{Transitioned, apply_transition-Transitioned}

pub record IsCoherent (d : CampaignDeployment) : Type 0 where
  pub when_pending :
      d.status ≡ pending
      → (d.submitted_at ≡ none) × (d.confirmed_at ≡ none) × (d.last_error_message ≡ none)
  pub when_submitted : d.status ≡ submitted → is_some d.submitted_at ≡ true
  pub when_live :
      d.status ≡ live → (is_some d.submitted_at ≡ true) × (is_some d.confirmed_at ≡ true)
  pub when_paused :
      d.status ≡ paused → (is_some d.submitted_at ≡ true) × (is_some d.confirmed_at ≡ true)
  pub when_failed : d.status ≡ failed → is_some d.last_error_message ≡ true

-- Committed and in the transaction.
abbrev pub AreCoherent : Session → Type 0
AreCoherent s = All IsCoherent s.saved.deployments × All IsCoherent s.current.deployments

module _ (others : Database → Database)
    (kept : (db : Database)
      → All IsCoherent db.deployments
      → All IsCoherent (others db).deployments) where
  -- A transition that makes coherent rows of coherent rows in a state that allows it.
  pub transition-Keeps :
      (t i : Uuid) (target : CampaignDeploymentStatus) (fields : StatusFields)
      → ((d : CampaignDeployment)
          → is_member target (allowed_transitions d.status) ≡ true
          → IsCoherent d
          → IsCoherent (set_status target fields d))
      → Keeps AreCoherent (apply_transition others t i target fields)
  transition-Keeps t i target fields k s (a, b) =
      go (apply_transition-Transitioned others t i target fields s)
    where
      go :
          Transitioned others t i target fields s (apply_transition others t i target fields s)
          → AreCoherent (apply_transition others t i target fields s).1
      go (Transitioned.is_missing _ e r) = rw r (a, b)
      go (Transitioned.is_not_allowed _ d e n r) = rw r (a, b)
      go (Transitioned.is_overtaken _ d e m z r) = rw r (kept s.saved a, kept s.current b)
      go (Transitioned.is_written _ d e m p r) = rw r (
        kept s.saved a,
        All-update IsCoherent (is_expected t i d.status) (set_status target fields)
            (others s.current).deployments
            (λ x h c.
              k x
                (subst (λ st. is_member target (allowed_transitions st) ≡ true)
                  (sym ((deployment_status_eqb_iff x.status d.status).0 (ground arith))) m)
                c)
            (kept s.current b),
      )

  pub to_submitted :
      (now : Instant) (d : CampaignDeployment)
      → is_member submitted (allowed_transitions d.status) ≡ true
      → IsCoherent d
      → IsCoherent (set_status submitted (record no_fields { submitted_at = some (some now) }) d)
  to_submitted now d m h = record {
    when_pending = λ e. cc;
    when_submitted = λ e. refl;
    when_live = λ e. cc;
    when_paused = λ e. cc;
    when_failed = λ e. cc;
  }

  pub to_live :
      (now : Instant) (d : CampaignDeployment)
      → is_member live (allowed_transitions d.status) ≡ true
      → IsCoherent d
      → IsCoherent (set_status live (record no_fields { confirmed_at = some (some now) }) d)
  unfolding is_member allowed_transitions
  to_live now d m h = record {
    when_pending = λ e. cc;
    when_submitted = λ e. cc;
    when_live = λ e. (was_submitted (d.status) refl m, refl);
    when_paused = λ e. cc;
    when_failed = λ e. cc;
  }
    where
      was_submitted :
          (st : CampaignDeploymentStatus)
          → d.status ≡ st
          → is_member live (allowed_transitions st) ≡ true
          → is_some d.submitted_at ≡ true
      was_submitted pending e m' = cc
      was_submitted submitted e m' = h.when_submitted e
      was_submitted live e m' = cc
      was_submitted paused e m' = (h.when_paused e).0
      was_submitted failed e m' = cc

  pub to_paused :
      (d : CampaignDeployment)
      → is_member paused (allowed_transitions d.status) ≡ true
      → IsCoherent d
      → IsCoherent (set_status paused no_fields d)
  unfolding is_member allowed_transitions
  to_paused d m h = record {
    when_pending = λ e. cc;
    when_submitted = λ e. cc;
    when_live = λ e. cc;
    when_paused = λ e. was_live d.status refl m;
    when_failed = λ e. cc;
  }
    where
      was_live :
          (st : CampaignDeploymentStatus)
          → d.status ≡ st
          → is_member paused (allowed_transitions st) ≡ true
          → (is_some d.submitted_at ≡ true) × (is_some d.confirmed_at ≡ true)
      was_live pending e m' = cc
      was_live submitted e m' = cc
      was_live live e m' = h.when_live e
      was_live paused e m' = cc
      was_live failed e m' = cc

  pub to_failed :
      (message : String) (d : CampaignDeployment)
      → is_member failed (allowed_transitions d.status) ≡ true
      → IsCoherent d
      → IsCoherent
          (set_status failed (record no_fields { last_error_message = some (some message) }) d)
  to_failed message d m h = record {
    when_pending = λ e. cc;
    when_submitted = λ e. cc;
    when_live = λ e. cc;
    when_paused = λ e. cc;
    when_failed = λ e. refl;
  }
