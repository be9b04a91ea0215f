-- ===== src/Deployments/Coherent.antt =====
-- The operations of CampaignDeploymentService keep the columns in agreement with the state.
use verisure_ads_automation.Exceptions.{Exception}
use verisure_ads_automation.Base.{
  Bool-cases, count_where, not, ◌&&◌, ◌==◌, inl, inr, ◌≡◌, refl, sym, subst, Bool, true, false,
  Option, some, String, arith, nat_eq, All, All-update, All-insert,
}
use verisure_ads_automation.Models.Provider.{Uuid, Instant, Provider}
use verisure_ads_automation.Models.Deployment.{
  CampaignDeploymentStatus, submitted, live, paused, failed, deployment_status_eq,
  CampaignDeployment,
}
use verisure_ads_automation.Session.{Database, Session, Action, raise, ◌>>=◌, ◌>>◌}
use verisure_ads_automation.Session.Keeps.{Keeps, Keeps-bind, Keeps-try}
use verisure_ads_automation.Deployments.Repository.{
  StatusFields, no_fields, has_id, set_status, set_external, create, update_external_reference,
  is_too_long,
}
use verisure_ads_automation.Deployments.Service.{
  write_external, guarded, allowed_transitions, is_member, apply_transition, finish_write,
  abort_write, refresh, insert_deployment, new_deployment, create_pending_deployment,
  mark_submitted, mark_live, mark_failed, mark_paused,
}
use verisure_ads_automation.Deployments.Columns.{
  IsCoherent, AreCoherent, to_submitted, to_live, to_paused, to_failed, transition-Keeps,
}

finish-Keeps :
    (commits : Bool) (d : CampaignDeployment) → Keeps AreCoherent (finish_write commits d)
unfolding finish_write
finish-Keeps true d s (a, b) =
    subst AreCoherent (sym (refreshed_state d (record s { saved = s.current }))) (b, b)
  where
    refreshed_state : (x : CampaignDeployment) (r : Session) → (refresh x r).1 ≡ r
    refreshed_state x r = ground arith
finish-Keeps false d s (a, b) = subst AreCoherent (sym (refreshed_state d s)) (a, b)
  where
    refreshed_state : (x : CampaignDeployment) (r : Session) → (refresh x r).1 ≡ r
    refreshed_state x r = ground arith

undo-Keeps :
    (commits : Bool) (e : Exception)
    → Keeps AreCoherent (abort_write commits >> raise {A = CampaignDeployment} e)
unfolding abort_write
undo-Keeps true e s (a, b) = (a, a)
undo-Keeps false e s h = h

guarded-Keeps :
    (commits : Bool) (m : Action CampaignDeployment)
    → Keeps AreCoherent m
    → Keeps AreCoherent (guarded commits m)
guarded-Keeps commits m k =
    Keeps-try AreCoherent m (λ e. abort_write commits >> raise e) k (undo-Keeps commits)

external-Keeps :
    (t i : Uuid) (external : Option String) → Keeps AreCoherent (write_external t i external)
unfolding update_external_reference
external-Keeps t i external s (a, b) =
    elim (Bool-cases
      (is_too_long external && not (count_where (has_id t i) s.current.deployments == 0))) [
        | inl long ↦ rw long (a, b)
        | inr fits ↦ rw fits (
          a,
          All-update IsCoherent (has_id t i) (set_external external) s.current.deployments
              (λ d _ h. record {
                when_pending = h.when_pending;
                when_submitted = h.when_submitted;
                when_live = h.when_live;
                when_paused = h.when_paused;
                when_failed = h.when_failed;
              })
              b,
        )
      ]

-- The call of create_pending_deployment.
create-Keeps :
    (id key : Uuid) (now : Instant) (t c : Uuid) (p : Provider) (commits : Bool)
    → Keeps AreCoherent (create_pending_deployment id key now t c p commits)
unfolding create_pending_deployment new_deployment create
create-Keeps id key now t c p commits =
    let d = new_deployment id key now t c p in
    guarded-Keeps commits (insert_deployment d >> finish_write commits d) (
      Keeps-bind AreCoherent (insert_deployment d) (λ _. finish_write commits d)
        (λ s h. ground (arith, All-insert IsCoherent d s.current.deployments new h.1))
        (λ _. finish-Keeps commits d))
  where
    new : IsCoherent (new_deployment id key now t c p)
    new = record {
      when_pending = λ _. (refl, refl, refl);
      when_submitted = λ e. cc;
      when_live = λ e. cc;
      when_paused = λ e. cc;
      when_failed = λ e. cc;
    }

-- Every operation of CampaignDeploymentService keeps the columns of all deployments, committed or
-- not yet, in agreement with their states, whether it returns or raises and with commit either
-- way: a pending one has no times and no error, a submitted one the time of its submission, a live
-- or paused one also the time of its confirmation, and a failed one an error message. What other
-- transactions commit meanwhile keeps it too.
pub operations-Keep :
    (others : Database → Database)
    → ((db : Database) → All IsCoherent db.deployments → All IsCoherent (others db).deployments)
    → (tenant_id i : Uuid) (campaign_id key : Uuid) (provider : Provider) (now : Instant)
      (external : Option String) (message : String) (commits : Bool)
    → Keeps AreCoherent (create_pending_deployment i key now tenant_id campaign_id provider commits)
      × Keeps AreCoherent (mark_submitted others tenant_id i external now commits)
      × Keeps AreCoherent (mark_live others tenant_id i now commits)
      × Keeps AreCoherent (mark_failed others tenant_id i message commits)
      × Keeps AreCoherent (mark_paused others tenant_id i commits)
unfolding mark_submitted mark_live mark_failed mark_paused
operations-Keep others kept t i c key p now external message commits =
    let at_submission : StatusFields = record no_fields { submitted_at = some (some now) } in
    let at_confirmation : StatusFields = record no_fields { confirmed_at = some (some now) } in
    let with_message : StatusFields = record no_fields {
      last_error_message = some (some message);
    } in
    let close : CampaignDeployment → Action CampaignDeployment = finish_write commits in
    let one : (target : CampaignDeploymentStatus) (fields : StatusFields)
        → ((d : CampaignDeployment)
            → is_member target (allowed_transitions d.status) ≡ true
            → IsCoherent d
            → IsCoherent (set_status target fields d))
        → Keeps AreCoherent
            (guarded commits (apply_transition others t i target fields >>= finish_write commits)) =
      λ target fields k.
        guarded-Keeps commits (apply_transition others t i target fields >>= finish_write commits) (
          Keeps-bind AreCoherent (apply_transition others t i target fields) (finish_write commits)
            (transition-Keeps others kept t i target fields k) (finish-Keeps commits)) in
    let m = apply_transition others t i submitted at_submission in
    let after : CampaignDeployment → Action CampaignDeployment =
      λ d. write_external t i external >>= λ _. finish_write commits d in
    (
      create-Keeps i key now t c p commits,
      guarded-Keeps commits (m >>= after) (
          Keeps-bind AreCoherent m after
            (transition-Keeps others kept t i submitted at_submission
              (to_submitted others kept now))
            (λ d.
              Keeps-bind AreCoherent (write_external t i external) (λ _. finish_write commits d)
                (external-Keeps t i external) (λ _. finish-Keeps commits d))),
      one live at_confirmation (to_live others kept now),
      one failed with_message (to_failed others kept message),
      one paused no_fields (to_paused others kept),
    )
