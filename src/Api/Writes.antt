-- ===== src/Api/Writes.antt =====
-- The writes of a tenant leave the rows of other tenants alone.
use verisure_ads_automation.Base.{ℕ, ◌≡◌, refl, sym, subst, ◌&&◌, some, nat_eq}
use verisure_ads_automation.Models.Provider.{Uuid, Instant}
use verisure_ads_automation.Models.Identity.{User}
use verisure_ads_automation.Models.Campaign.{campaign_status_eq}
use verisure_ads_automation.Models.Connection.{connection_status_eq}
use verisure_ads_automation.Session.{Database, Session, Result, ok, Action, pure, lift, ◌>>=◌}
use verisure_ads_automation.Session.Keeps.{Keeps, Keeps-bind, bind-ok}
use verisure_ads_automation.Campaigns.Repository.{CampaignFields}
use verisure_ads_automation.Campaigns.Service.{
  CampaignUpdates, set_campaigns, validate_fields, new_draft, create_draft, update_draft,
}
use verisure_ads_automation.Campaigns.Service
use verisure_ads_automation.Connections.Service as ConnectionService
use verisure_ads_automation.Jobs.Service.{enqueue}
use verisure_ads_automation.Api.Requests.{
  Server, Request, current_user, encryption_service, validate,
}
use verisure_ads_automation.Connections.Envelope.{new_service}
use verisure_ads_automation.Api.Schemas.{
  is_name, is_optional_name, is_empty, campaign_read, job_read, connection_read,
}
use verisure_ads_automation.Api.Responses.{serve}
use verisure_ads_automation.Api.Routes.{
  create_campaign, update_campaign, archive_campaign, publish_campaign,
  disconnect_provider_connection,
}
use verisure_ads_automation.Api.SameRows.{session_of}
use verisure_ads_automation.Api.OthersKept.{
  OthersKept, Kept, create-Keeps, update-Kept, archive-Kept, disconnect-Kept, enqueue-Kept,
  lifted-Keeps, validate-Keeps, read-Keeps,
}

unchanged : (t : Uuid) (a : Database) → OthersKept t a a
unchanged t a = record {
  campaigns = refl;
  deployments = refl;
  connections = refl;
  jobs = refl;
  tenants = refl;
  users = refl;
  refresh_tokens = refl;
}

module _ (server : Server) (request : Request) (db : Database) (user : User)
    (alone : (d : Database) → request.others d ≡ d)
    (from : current_user server request (session_of db) ≡ (ok user, session_of db)) where
  kept :
      (d : Database)
      → OthersKept user.tenant_id db d
      → OthersKept user.tenant_id db (request.others d)
  kept d k = subst (OthersKept user.tenant_id db) (sym (alone d)) k

  -- An endpoint that keeps this after it knows its user keeps it.
  served-Kept :
      {A : Type 0} (code : ℕ) (k : User → Action A)
      → Keeps (Kept user.tenant_id db) (k user)
      → OthersKept user.tenant_id db (serve code (current_user server request >>= k) db).1
  unfolding serve
  served-Kept {A} code k keeps =
      let start = unchanged user.tenant_id db in
      subst (λ (r : Result A × Session). OthersKept user.tenant_id db r.1.saved)
        (sym (bind-ok (current_user server request) k (session_of db) (session_of db) user from))
        (keeps (session_of db) (start, start)).0

  -- The same where the request, or the encryption service, is checked first.
  checked-Kept :
      {A B C : Type 0} (code : ℕ) (check : Action C) (m : User → Action A) (f : A → B)
      → Keeps (Kept user.tenant_id db) check
      → Keeps (Kept user.tenant_id db) (m user)
      → OthersKept user.tenant_id db
          (serve code
            (current_user server request >>= λ u. check >>= λ _. m u >>= λ x. pure (f x))
            db).1
  checked-Kept code check m f a b =
      served-Kept code (λ u. check >>= λ _. m u >>= λ x. pure (f x))
        (Keeps-bind (Kept user.tenant_id db) check (λ _. m user >>= λ x. pure (f x)) a
          (λ _. read-Keeps user.tenant_id db (m user) f b))

  -- What a user does leaves other tenants alone: with no other transaction at work, creating,
  -- updating, archiving and publishing a campaign and disconnecting a provider connection,
  -- whether they succeed or not, commit nothing that changes a campaign, publish job or
  -- provider connection of another tenant, a deployment, or an account or refresh token.
  pub writes-OthersKept :
      ((id : Uuid) (now : Instant) (payload : CampaignFields)
        → OthersKept user.tenant_id db
            (serve 201 (create_campaign server request id now payload) db).1)
      × ((id : Uuid) (payload : CampaignUpdates)
          → OthersKept user.tenant_id db
              (serve 200 (update_campaign server request id payload) db).1)
      × ((id : Uuid)
          → OthersKept user.tenant_id db (serve 200 (archive_campaign server request id) db).1)
      × ((id : Uuid) (now : Instant) (campaign_id : Uuid)
          → OthersKept user.tenant_id db
              (serve 202 (publish_campaign server request id now campaign_id) db).1)
      × ((now : Instant) (id : Uuid)
          → OthersKept user.tenant_id db
              (serve 200 (disconnect_provider_connection server request now id) db).1)
  unfolding create_campaign update_campaign archive_campaign publish_campaign
      disconnect_provider_connection encryption_service
  writes-OthersKept =
      let others = request.others in
      let lib = server.libraries in
      (
        λ id now payload.
            checked-Kept 201 (validate (is_name payload.name))
              (λ u. create_draft id now u.tenant_id u.id payload) campaign_read
              (validate-Keeps user.tenant_id db (is_name payload.name))
              (create-Keeps user.tenant_id db id now user.id payload),
        λ id payload.
            let fits = is_optional_name payload.name && is_empty payload.unknown in
            checked-Kept 200 (validate fits) (λ u. update_draft others u.tenant_id id payload)
              campaign_read (validate-Keeps user.tenant_id db fits)
              (update-Kept user.tenant_id db others kept id payload),
        λ id.
            served-Kept 200
              (λ u. Service.archive_campaign others u.tenant_id id >>= λ c. pure (campaign_read c))
              (read-Keeps user.tenant_id db (Service.archive_campaign others user.tenant_id id)
                campaign_read (archive-Kept user.tenant_id db others kept id)),
        λ id now campaign_id.
            checked-Kept 202 (lift (new_service lib server.encryption_key))
              (λ u. enqueue id now others u.tenant_id campaign_id (some u.id)) job_read
              (lifted-Keeps user.tenant_id db (new_service lib server.encryption_key))
              (enqueue-Kept user.tenant_id db others kept id now campaign_id (some user.id)),
        λ now id.
            checked-Kept 200 (lift (new_service lib server.encryption_key))
              (λ u. ConnectionService.disconnect others u.tenant_id id now) connection_read
              (lifted-Keeps user.tenant_id db (new_service lib server.encryption_key))
              (disconnect-Kept user.tenant_id db others kept id now),
      )
