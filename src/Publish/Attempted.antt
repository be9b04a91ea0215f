-- ===== src/Publish/Attempted.antt =====
-- PublishCampaignService on one deployment that the table holds: its attempt is recorded.
use verisure_ads_automation.Base.{
  ◌≡◌, refl, ap, Bool, false, Option, String, arith, inl, inr, ◌==◌, nat_eq, Bool-cases,
  update_where,
}
use verisure_ads_automation.Sanitization.{sanitize_provider_exception, sanitize_provider_message}
use verisure_ads_automation.Models.Provider.{Uuid, Instant, Provider}
use verisure_ads_automation.Models.Campaign.{Campaign}
use verisure_ads_automation.Models.Deployment.{
  CampaignDeployment, pending, deployment_status_eq, deployment_status_eqb_iff,
}
use verisure_ads_automation.Session.{Session, Result, ok, raised}
use verisure_ads_automation.Connections.Encryption.{CredentialEncryption}
use verisure_ads_automation.Deployments.Repository.{Deployments, has_id, is_expected, set_external}
use verisure_ads_automation.Deployments.Service.{mark_failed, mark_submitted}
use verisure_ads_automation.Deployments.Transitions.{
  alone, failing, submitting, set_submitted, mark_failed_lem, mark_submitted_lem,
}
use verisure_ads_automation.Publish.Adapter.{PublishResult, Registry}
use verisure_ads_automation.Publish.Service.{
  Draw, attempt, record_outcome, attempt_provider_publish, publish_if_pending,
}
use verisure_ads_automation.Publish.UnitOfWork.{attempt-reads}
use verisure_ads_automation.Session.{Action, lift, ◌>>=◌}
use verisure_ads_automation.Session.Keeps.{bind-inv}
use verisure_ads_automation.Deployments.Repository.{is_too_long}
use verisure_ads_automation.Connections.Service.{get_decrypted_credentials}
use verisure_ads_automation.Models.Provider.{Bytes, ProviderCredentials}
use verisure_ads_automation.Publish.Spec.{CampaignSpec, build}
use verisure_ads_automation.Publish.Adapter.{BaseAdapter}
use verisure_ads_automation.Publish.Outcome.{
  HasFit, IsDone, IsFound, Returns, update-IsSound, update-IsFresh, pending-allows, rewritten,
}

module _ (registry : Registry) (encryption : CredentialEncryption) (draws : Provider → Draw)
    (tenant_id : Uuid) (c : Campaign) (commits : Bool) where
  abbrev drawn_for : Provider → Uuid
  drawn_for p = (draws p).id

  -- The rows changed by one update, seen from the provider's deployment.
  record_failed :
      (p : Provider) (before : Deployments) (d : CampaignDeployment) (s : Session)
      (message : String)
      → IsFound tenant_id c.id p (drawn_for p) before d s
      → d.status ≡ pending
      → Returns tenant_id c.id
          (IsDone tenant_id c.id p (drawn_for p) before)
          (mark_failed alone tenant_id d.id message commits s)
  record_failed p before d s message h e =
      let q = is_expected tenant_id d.id d.status in
      rw
        (mark_failed_lem tenant_id d.id message commits s d h.found
          (pending-allows tenant_id c.id d e).0)
        (rewritten tenant_id c.id p (drawn_for p) before d s _ (failing message) h (λ x. refl)
          (λ x. refl) (λ x. refl) refl (λ k. cc)
          (update-IsSound tenant_id c.id q (failing message) s.current.deployments (λ x. refl)
            (λ x. refl) (λ x. refl) h.sound)
          (λ id. update-IsFresh id q (failing message) s.current.deployments (λ x. refl)))

  record_submitted :
      (p : Provider) (before : Deployments) (d : CampaignDeployment) (s : Session)
      (external : Option String) (now : Instant)
      → IsFound tenant_id c.id p (drawn_for p) before d s
      → d.status ≡ pending
      → is_too_long external ≡ false
      → Returns tenant_id c.id
          (IsDone tenant_id c.id p (drawn_for p) before)
          (mark_submitted alone tenant_id d.id external now commits s)
  record_submitted p before d s external now h e short =
      let q = is_expected tenant_id d.id d.status in
      let rows = update_where q (set_submitted now) s.current.deployments in
      let q' = has_id tenant_id d.id in
      rw
        (mark_submitted_lem tenant_id d.id external now commits s d h.found
          (pending-allows tenant_id c.id d e).1 short)
        (rewritten tenant_id c.id p (drawn_for p) before d s _ (submitting external now) h
          (λ x. refl) (λ x. refl) (λ x. refl) refl (λ k. cc)
          (update-IsSound tenant_id c.id q' (set_external external) rows (λ x. refl) (λ x. refl)
            (λ x. refl)
            (update-IsSound tenant_id c.id q (set_submitted now) s.current.deployments (λ x. refl)
              (λ x. refl) (λ x. refl) h.sound))
          (λ id b.
            update-IsFresh id q' (set_external external) rows (λ x. refl)
              (update-IsFresh id q (set_submitted now) s.current.deployments (λ x. refl) b)))

  recorded :
      (p : Provider) (before : Deployments) (d : CampaignDeployment) (s : Session)
      (r : Result PublishResult)
      → IsFound tenant_id c.id p (drawn_for p) before d s
      → d.status ≡ pending
      → HasFit r
      → Returns tenant_id c.id
          (IsDone tenant_id c.id p (drawn_for p) before)
          (record_outcome registry encryption alone draws tenant_id d commits r s)
  unfolding record_outcome
  recorded p before d s (raised e) h k f =
      record_failed p before d s (sanitize_provider_exception e) h k
  recorded p before d s (ok r) h k f = elim (Bool-cases r.success) [
    | inl t ↦
        rw t (
          record_submitted p before d s r.external_campaign_id (draws d.provider).submitted_at h k
            f)
    | inr t ↦ rw t (record_failed p before d s (sanitize_provider_message r.error_message) h k)
  ]

  abbrev send : CampaignDeployment → CampaignSpec → BaseAdapter → Bytes → Action PublishResult
  send d spec adapter payload =
      lift (adapter.publish spec (record { provider = d.provider; credential_payload = payload }))

  abbrev read_and_send : CampaignDeployment → CampaignSpec → BaseAdapter → Action PublishResult
  read_and_send d spec adapter =
      get_decrypted_credentials encryption tenant_id d.provider >>= send d spec adapter

  abbrev choose_and_send : CampaignDeployment → CampaignSpec → Action PublishResult
  choose_and_send d spec = lift (registry d.provider) >>= read_and_send d spec

  -- What an attempt returns comes from an adapter of the registry.
  attempt-published :
      (d : CampaignDeployment) (s : Session) (r : PublishResult)
      → (attempt registry encryption alone draws tenant_id c d s).0 ≡ ok r
      → (adapter : BaseAdapter) × (spec : CampaignSpec) × (credentials : ProviderCredentials)
        × (registry d.provider ≡ ok adapter)
        × (adapter.publish spec credentials ≡ ok r)
  unfolding attempt
  attempt-published d s r e =
      let (spec, s₁, built, e₁) = bind-inv (lift (build c d)) (choose_and_send d) s r e in
      let (adapter, s₂, got, e₂) =
        bind-inv (lift (registry d.provider)) (read_and_send d spec) s₁ r e₁ in
      let (payload, s₃, read, e₃) =
        bind-inv (get_decrypted_credentials encryption tenant_id d.provider) (send d spec adapter)
          s₂ r e₂ in
      (
        adapter,
        spec,
        record { provider = d.provider; credential_payload = payload },
        ap (λ x. x.0) got,
        e₃,
      )

  module _
      (fits : (p : Provider) (adapter : BaseAdapter) (spec : CampaignSpec)
          (credentials : ProviderCredentials) (r : PublishResult)
        → registry p ≡ ok adapter
        → adapter.publish spec credentials ≡ ok r
        → is_too_long r.external_campaign_id ≡ false) where
    attempt-HasFit :
        (d : CampaignDeployment) (s : Session) (r : Result PublishResult)
        → (attempt registry encryption alone draws tenant_id c d s).0 ≡ r
        → HasFit r
    attempt-HasFit d s (raised e) h = tt
    attempt-HasFit d s (ok r) h =
        let (adapter, spec, credentials, got, published) = attempt-published d s r h in
        fits d.provider adapter spec credentials r got published

    pub attempted :
        (p : Provider) (before : Deployments) (d : CampaignDeployment) (s : Session)
        → IsFound tenant_id c.id p (drawn_for p) before d s
        → Returns tenant_id c.id
            (IsDone tenant_id c.id p (drawn_for p) before)
            (publish_if_pending registry encryption alone draws tenant_id c commits d s)
    unfolding publish_if_pending attempt_provider_publish
    attempted p before d s h = elim (Bool-cases (d.status == pending)) [
      | inl t ↦ rw t (
          rw (attempt-reads registry encryption draws alone tenant_id c d s) (
            recorded p before d s (attempt registry encryption alone draws tenant_id c d s).0 h
              ((deployment_status_eqb_iff d.status pending).0 t) (attempt-HasFit d s _ refl)))
      | inr t ↦ rw t (record {
        provider = h.provider;
        campaign = h.campaign;
        tenant = h.tenant;
        attempted = λ k. ground (arith, deployment_status_eqb_iff d.status pending);
        sound = h.sound;
        fresh = h.fresh;
      })
    ]
