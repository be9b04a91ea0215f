-- ===== src/Api/NullName.antt =====
-- PATCH /campaigns/{campaign_id} with the name null.
use verisure_ads_automation.Base.{
  ◌≡◌, ◌≤◌, true, ◌&&◌, none, some, [], arith, ◌==◌, nat_eq, count_where, In, count_where-pos,
  select_one-In, select_one-holds,
}
use verisure_ads_automation.Models.Identity.{User}
use verisure_ads_automation.Models.Campaign.{Campaign, draft, campaign_status_eq}
use verisure_ads_automation.Session.{Database, ok}
use verisure_ads_automation.Campaigns.Repository.{get_by_tenant_and_id, is_draft, is_visible}
use verisure_ads_automation.Campaigns.Service.{
  CampaignUpdates, merge, validate_fields, update_draft,
}
use verisure_ads_automation.Api.Requests.{Server, Request, current_user}
use verisure_ads_automation.Api.Responses.{internal_server_error, serve}
use verisure_ads_automation.Api.SameRows.{session_of}
use verisure_ads_automation.Api.Routes.{update_campaign}

module _ (server : Server) (request : Request) (db : Database) (user : User) (c : Campaign)
    (payload : CampaignUpdates) (alone : (d : Database) → request.others d ≡ d)
    (from : current_user server request (session_of db) ≡ (ok user, session_of db)) where
  is_found :
      get_by_tenant_and_id user.tenant_id c.id db.campaigns ≡ some c
      → (c.id == c.id && is_visible user.tenant_id c) ≡ true
  unfolding get_by_tenant_and_id
  is_found = select_one-holds (λ x. x.id == c.id && is_visible user.tenant_id x) db.campaigns

  is_there : get_by_tenant_and_id user.tenant_id c.id db.campaigns ≡ some c → In c db.campaigns
  unfolding get_by_tenant_and_id
  is_there = select_one-In (λ x. x.id == c.id && is_visible user.tenant_id x) db.campaigns c

  -- A user who sets the name of a draft of the tenant to null, in a request that is valid in all
  -- else, gets the 500 response of an exception without a handler, and nothing is written; no
  -- other transaction is at work.
  pub update_campaign-null_name :
      get_by_tenant_and_id user.tenant_id c.id db.campaigns ≡ some c
      → c.status ≡ draft
      → payload.name ≡ some none
      → payload.unknown ≡ []
      → validate_fields (merge payload c) ≡ ok tt
      → serve 200 (update_campaign server request c.id payload) db ≡ (internal_server_error, db)
  unfolding serve update_campaign update_draft
  update_campaign-null_name found is_editable null known valid =
      let visible = is_found found in
      let fits : 1 ≤ count_where (is_draft user.tenant_id c.id) db.campaigns =
        count_where-pos (is_draft user.tenant_id c.id) db.campaigns c (is_there found)
          (ground arith) in
      ground (arith, alone db)
