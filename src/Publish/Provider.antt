-- ===== src/Publish/Provider.antt =====
-- PublishCampaignService.publish_campaign: what happens for one provider.
use verisure_ads_automation.Base.{
  ◌≡◌, ◌≢◌, refl, sym, ap, subst, Bool, true, false, ◌&&◌, none, some, arith, inl, inr, ◌==◌,
  nat_eq, nat_eqb_iff, Option-cases, All-insert, All-imp, Distinct-insert, select_one,
  select_one-holds, select_one-In, select_one-key, select_one-fresh, select_one-none-imp,
  select_one-insert, insert_row,
}
use verisure_ads_automation.Models.Provider.{Uuid, Provider, provider_eqb_iff}
use verisure_ads_automation.Models.Campaign.{Campaign, campaign_status_eq}
use verisure_ads_automation.Models.Deployment.{CampaignDeployment, deployment_status_eq}
use verisure_ads_automation.Session.{Session, Result, ok, raised}
use verisure_ads_automation.Connections.Encryption.{CredentialEncryption}
use verisure_ads_automation.Deployments.Repository.{
  Deployments, has_id, is_pair, get_by_id, get_by_campaign_and_provider, create,
}
use verisure_ads_automation.Deployments.Service.{
  new_deployment, create_pending_deployment, finish_write, abort_write,
}
use verisure_ads_automation.Deployments.Transitions.{alone, closing, with_rows}
use verisure_ads_automation.Publish.Adapter.{Registry}
use verisure_ads_automation.Publish.Service.{
  Draw, existing_or_new, publish_if_pending, publish_provider,
}
use verisure_ads_automation.Publish.Outcome.{
  deployment_id, IsSound, IsFresh, IsDone, IsFound, Returns,
}
use verisure_ads_automation.Publish.Attempted.{attempted}
use verisure_ads_automation.Deployments.Repository.{is_too_long}
use verisure_ads_automation.Models.Provider.{ProviderCredentials}
use verisure_ads_automation.Publish.Spec.{CampaignSpec}
use verisure_ads_automation.Publish.Adapter.{BaseAdapter, PublishResult}

module _ (registry : Registry) (encryption : CredentialEncryption) (draws : Provider → Draw)
    (tenant_id : Uuid) (c : Campaign) (commits : Bool) where
  abbrev drawn : Provider → CampaignDeployment
  unfolding new_deployment
  drawn p =
      new_deployment (draws p).id (draws p).idempotency_key (draws p).created_at tenant_id c.id p

  is_found :
      (p : Provider) (d : CampaignDeployment) (s : Session)
      → IsSound tenant_id c.id s.current.deployments
      → get_by_campaign_and_provider tenant_id c.id p s.current.deployments ≡ some d
      → IsFound tenant_id c.id p (draws p).id s.current.deployments d s
  unfolding get_by_campaign_and_provider get_by_id
  is_found p d s h e =
      let rows = s.current.deployments in
      let q : CampaignDeployment → Bool = λ x. x.tenant_id == tenant_id && is_pair c.id p x in
      let holds = select_one-holds q rows e in
      record {
        found =
            select_one-key deployment_id (has_id tenant_id d.id) d rows
              (λ x k. ground (arith, nat_eqb_iff x.id d.id)) (select_one-In q rows d e) h.distinct
              (ground (arith, nat_eqb_iff d.id d.id));
        provider = ground (arith, provider_eqb_iff d.provider p);
        campaign = ground arith;
        tenant = ground arith;
        sound = h;
        fresh = λ id _ b. b;
      }

  no_pair :
      (p : Provider) (rows : Deployments)
      → IsSound tenant_id c.id rows
      → get_by_campaign_and_provider tenant_id c.id p rows ≡ none
      → select_one (is_pair c.id p) rows ≡ none
  unfolding get_by_campaign_and_provider
  no_pair p rows h e =
      let q : CampaignDeployment → Bool = λ x. x.tenant_id == tenant_id && is_pair c.id p x in
      select_one-none-imp (is_pair c.id p) q rows
        (All-imp (λ d. d.campaign_id ≡ c.id → d.tenant_id ≡ tenant_id)
          (λ d. is_pair c.id p d ≡ true → q d ≡ true) (λ d own k. ground arith) rows h.owned)
        e

  inserted :
      (p : Provider) (s : Session)
      → IsSound tenant_id c.id s.current.deployments
      → IsFresh (draws p).id s.current.deployments
      → get_by_campaign_and_provider tenant_id c.id p s.current.deployments ≡ none
      → IsFound tenant_id c.id p
          (draws p).id
          s.current.deployments
          (drawn p)
          (closing commits (with_rows (insert_row (drawn p) s.current.deployments) s))
  unfolding get_by_id new_deployment
  inserted p s h f e =
      let rows = s.current.deployments in
      let q = has_id tenant_id (draws p).id in
      record {
        found =
            select_one-insert q (drawn p) rows
              (select_one-fresh deployment_id q (draws p).id rows
                (λ x k. ground (arith, nat_eqb_iff x.id (draws p).id)) f)
              (ground
                (arith, nat_eqb_iff (draws p).id (draws p).id, nat_eqb_iff tenant_id tenant_id));
        provider = refl;
        campaign = refl;
        tenant = refl;
        sound = record {
          distinct = Distinct-insert deployment_id (drawn p) rows f h.distinct;
          owned =
              All-insert (λ d. d.campaign_id ≡ c.id → d.tenant_id ≡ tenant_id) (drawn p) rows
                (λ _. refl) h.owned;
        };
        fresh = λ id n b. All-insert (λ d. d.id ≢ id) (drawn p) rows (λ k. n (sym k)) b;
      }

  create_lem :
      (p : Provider) (s : Session)
      → IsSound tenant_id c.id s.current.deployments
      → IsFresh (draws p).id s.current.deployments
      → get_by_campaign_and_provider tenant_id c.id p s.current.deployments ≡ none
      → existing_or_new registry encryption alone draws tenant_id c.id p commits none s
        ≡ (ok (drawn p), closing commits (with_rows (insert_row (drawn p) s.current.deployments) s))
  unfolding create_pending_deployment create finish_write abort_write new_deployment
  create_lem p s h f e =
      ground (arith, no_pair p s.current.deployments h e, (inserted p s h f e).found)

  new_lem :
      (p : Provider) (s : Session)
      → IsSound tenant_id c.id s.current.deployments
      → IsFresh (draws p).id s.current.deployments
      → get_by_campaign_and_provider tenant_id c.id p s.current.deployments ≡ none
      → publish_provider registry encryption alone draws tenant_id c commits p s
        ≡ publish_if_pending registry encryption alone draws tenant_id c commits
            (drawn p)
            (closing commits (with_rows (insert_row (drawn p) s.current.deployments) s))
  unfolding publish_provider
  new_lem p s h f e = rw e (
      ap
        (λ r. elim r.0 as (λ _. Result CampaignDeployment × Session) [
          | ok d ↦ publish_if_pending registry encryption alone draws tenant_id c commits d r.1
          | raised x ↦ (raised x, r.1)
        ])
        (create_lem p s h f e))

  module _
      (fits : (p : Provider) (adapter : BaseAdapter) (spec : CampaignSpec)
          (credentials : ProviderCredentials) (r : PublishResult)
        → registry p ≡ ok adapter
        → adapter.publish spec credentials ≡ ok r
        → is_too_long r.external_campaign_id ≡ false) where
    pub provider-IsDone :
        (p : Provider) (s : Session)
        → IsSound tenant_id c.id s.current.deployments
        → IsFresh (draws p).id s.current.deployments
        → Returns tenant_id c.id
            (IsDone tenant_id c.id p (draws p).id s.current.deployments)
            (publish_provider registry encryption alone draws tenant_id c commits p s)
    unfolding publish_provider
    provider-IsDone p s h f =
        elim (Option-cases (get_by_campaign_and_provider tenant_id c.id p s.current.deployments)) [
          | inl e ↦
              subst
                (Returns tenant_id c.id
                  (IsDone tenant_id c.id p (draws p).id s.current.deployments))
                (sym (new_lem p s h f e))
                (attempted registry encryption draws tenant_id c commits fits p
                  s.current.deployments (drawn p) _ (inserted p s h f e))
          | inr (d, e) ↦ rw e (
              attempted registry encryption draws tenant_id c commits fits p s.current.deployments d
                s (is_found p d s h e))
        ]
