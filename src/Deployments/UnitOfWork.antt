-- ===== src/Deployments/UnitOfWork.antt =====
-- With commit=False the writes of CampaignDeploymentService stay inside the caller's transaction.
use verisure_ads_automation.Base.{◌≡◌, false, Option, String, arith}
use verisure_ads_automation.Models.Provider.{Uuid, Instant, Provider}
use verisure_ads_automation.Session.{Database, Session}
use verisure_ads_automation.Session.Keeps.{Keeps}
use verisure_ads_automation.Jobs.Repository.{Jobs}
use verisure_ads_automation.Deployments.Service.{
  create_pending_deployment, mark_submitted, mark_failed, write_status, apply_transition,
  finish_write, abort_write,
}

-- Nothing committed, and no job touched.
abbrev pub InUnit : Database → Jobs → Session → Type 0
InUnit saved jobs s = (s.saved ≡ saved) × (s.current.jobs ≡ jobs)

module _ (saved : Database) (jobs : Jobs) where
  pub create_pending_deployment-InUnit :
      (id key : Uuid) (now : Instant) (tenant_id campaign_id : Uuid) (provider : Provider)
      → Keeps
          (InUnit saved jobs)
          (create_pending_deployment id key now tenant_id campaign_id provider false)
  unfolding create_pending_deployment
  create_pending_deployment-InUnit id key now tenant_id campaign_id provider s h = ground arith

  pub mark_failed-InUnit :
      (tenant_id deployment_id : Uuid) (message : String)
      → Keeps (InUnit saved jobs) (mark_failed (λ db. db) tenant_id deployment_id message false)
  unfolding mark_failed apply_transition write_status finish_write abort_write
  mark_failed-InUnit tenant_id deployment_id message s h = ground arith

  pub mark_submitted-InUnit :
      (tenant_id deployment_id : Uuid) (external : Option String) (now : Instant)
      → Keeps
          (InUnit saved jobs)
          (mark_submitted (λ db. db) tenant_id deployment_id external now false)
  unfolding mark_submitted apply_transition write_status finish_write abort_write
  mark_submitted-InUnit tenant_id deployment_id external now s h = ground arith
