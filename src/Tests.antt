-- ===== src/Tests.antt =====
-- A small database, and platforms to publish to.
mod Queue
mod Publishing
mod Records
mod Campaigns
mod Tokens
mod Sealing
mod Access
mod Requests
mod Startup
mod Worker
mod Backend
use verisure_ads_automation.Base.{
  ℕ, ◌≡◌, ◌≢◌, ◌≤◌, ◌-◌, refl, Bool, true, false, ◌&&◌, Option, none, some, String, List, [], ◌∷◌,
  arith, All, Distinct, select_one, insert_row, pos, ◌==◌, nat_eq, In, inl,
}
use verisure_ads_automation.Base.Text.{codes, lower, contains_any, is_blank}
use verisure_ads_automation.Exceptions.{ExceptionClass, Exception, value_error, is_integrity_error}
use verisure_ads_automation.Sanitization.{sanitize_provider_message, sanitize_provider_exception}
use verisure_ads_automation.Models.Provider.{Uuid, Instant, Bytes, Provider, meta, google}
use verisure_ads_automation.Models.Campaign.{
  Campaign, CampaignObjective, CampaignBudgetType, CampaignStatus, Decimal, Datetime, archived,
}
use verisure_ads_automation.Models.Connection.{
  ProviderConnection, ProviderConnectionStatus, connected,
}
use verisure_ads_automation.Models.Deployment.{CampaignDeployment}
use verisure_ads_automation.Models.Job.{PublishJob, is_active}
use verisure_ads_automation.Models.Identity.{Tenant, User}
use verisure_ads_automation.Session.{Database, Session, Result, ok, raised, Action}
use verisure_ads_automation.Connections.Encryption.{CredentialEncryption}
use verisure_ads_automation.Connections.Service.{ConnectRequest}
use verisure_ads_automation.Publish.Adapter.{
  BaseAdapter, Registry, new_publish_result, google_adapter,
}
use verisure_ads_automation.Publish.Service.{Draw, publish_campaign}
use verisure_ads_automation.Publish.UnitOfWork.{publish_campaign-IsUnitOfWork}
use verisure_ads_automation.Publish.Outcome.{IsSound, IsFresh}
use verisure_ads_automation.Publish.Each.{IsOutcome, publish_campaign-IsOutcome}
use verisure_ads_automation.Jobs.Repository.{Jobs, claim_next}
use verisure_ads_automation.Jobs.Claim.{Claimed, claim_next-Claimed, row_id}
use verisure_ads_automation.Jobs.Service.{Iteration, new_job, run_once, enqueue}
use verisure_ads_automation.Jobs.RunOnce.{IsUnitOfWork, Iterated, run_once-Iterated}
use verisure_ads_automation.Jobs.Enqueue.{
  Enqueued, enqueue-Enqueued, IsEnqueued, enqueue-IsEnqueued,
}
use verisure_ads_automation.Jobs.Lifecycle.{Step, Reachable, IsWellFormed, Reachable-IsWellFormed}
use verisure_ads_automation.Jobs.Ended.{ended-kept}

abbrev pub a_campaign : Campaign
a_campaign = record {
  id = 10;
  tenant_id = 1;
  created_by_user_id = 2;
  name = "Spring";
  objective = some CampaignObjective.leads;
  budget_type = some CampaignBudgetType.daily;
  budget_amount = some (record { negative = false; coefficient = 100; exponent = pos 0 });
  currency = some "EUR";
  start_at = some (record { instant = 100; is_aware = true });
  end_at = some (record { instant = 200; is_aware = true });
  status = CampaignStatus.draft;
  deleted_at = none;
  created_at = 5;
}

abbrev pub a_connection : ProviderConnection
a_connection = record {
  id = 30;
  tenant_id = 1;
  provider = meta;
  encrypted_credentials = some "secret";
  external_account_id = none;
  display_name = none;
  credentials_expire_at = none;
  status = connected;
  disconnected_at = none;
  updated_at = 4;
}

abbrev pub a_job : PublishJob
a_job = new_job 20 6 1 10 none

abbrev pub queue : Jobs
queue = a_job ∷ []

abbrev pub database : Jobs → Database
database jobs = record {
  campaigns = a_campaign ∷ [];
  deployments = [];
  connections = a_connection ∷ [];
  jobs = jobs;
  tenants = [];
  users = [];
  refresh_tokens = [];
}

abbrev pub session : Jobs → Session
session jobs = record { saved = database jobs; current = database jobs }

-- Encryption that hides nothing.
abbrev pub plain : CredentialEncryption
plain = record {
  encrypt_credentials = λ t p payload. ok payload;
  decrypt_credentials = λ t p ciphertext. ok ciphertext;
}

abbrev pub accepting : BaseAdapter
accepting = record {
  publish = λ spec credentials. new_publish_result true (some "m-1") none;
  pause = λ external_campaign_id. ok tt;
  resume = λ external_campaign_id. ok tt;
}

-- One platform that accepts, one that is not implemented.
abbrev pub adapters : Registry
adapters meta = ok accepting
adapters google = ok google_adapter

abbrev pub drawn : Provider → Draw
drawn meta = record { id = 40; idempotency_key = 41; created_at = 7; submitted_at = 8 }
drawn google = record { id = 50; idempotency_key = 51; created_at = 9; submitted_at = 10 }

abbrev pub publishing : Uuid → Uuid → Action (List CampaignDeployment)
publishing tenant_id campaign_id =
    publish_campaign adapters plain (λ db. db) drawn tenant_id campaign_id false

abbrev pub an_iteration : Iteration
an_iteration = record {
  now = 1000;
  succeeded_at = 1001;
  failed_at = 1002;
  locked = λ id. false;
  stale_after = 100;
}

abbrev pub a_tenant : Tenant
a_tenant = record { id = 1; slug = "acme"; deleted_at = none }

abbrev pub a_user : User
a_user = record {
  id = 2;
  tenant_id = 1;
  email = "a@acme";
  hashed_password = "pw";
  deleted_at = none;
}
