-- ===== src/Tests/Records.antt =====
-- The theorems on deployments, connections and error messages at a small database.
use verisure_ads_automation.Base.{
  ◌≡◌, refl, true, none, some, [], ◌∷◌, arith, select_one, count_where, nat_eq,
}
use verisure_ads_automation.Base.Text.{codes}
use verisure_ads_automation.Exceptions.{value_error, connection_not_found_error}
use verisure_ads_automation.Sanitization.{sanitize_provider_exception, classify_text}
use verisure_ads_automation.Models.Provider.{meta, google}
use verisure_ads_automation.Models.Deployment.{
  CampaignDeployment, pending, submitted, live, paused, failed,
}
use verisure_ads_automation.Session.{Session, ok, raised}
use verisure_ads_automation.Connections.Service.{
  ConnectRequest, new_connection, connect, disconnect, get_decrypted_credentials,
}
use verisure_ads_automation.Tests.{a_connection, database, session, plain}
use verisure_ads_automation.Session.Keeps.{Keeps}
use verisure_ads_automation.Sanitization.Safety.{IsSafe, sanitize_provider_exception-IsSafe}
use verisure_ads_automation.Sanitization.Priority.{Classified, classify_text-Classified}
use verisure_ads_automation.Deployments.Repository.{no_fields}
use verisure_ads_automation.Deployments.Service.{
  apply_transition, create_pending_deployment, mark_submitted, mark_live, mark_failed, mark_paused,
}
use verisure_ads_automation.Deployments.Outcomes.{Transitioned, apply_transition-Transitioned}
use verisure_ads_automation.Deployments.Atomic.{IsAtomic, marking, submission, mark-IsAtomic}
use verisure_ads_automation.Deployments.Columns.{AreCoherent}
use verisure_ads_automation.Deployments.Coherent.{operations-Keep}
use verisure_ads_automation.Connections.Repository.{get_by_id, get_by_provider}
use verisure_ads_automation.Connections.Connect.{
  Connected, connect-Connected, connect-get_decrypted_credentials,
}
use verisure_ads_automation.Connections.Secrets.{AreSealed, KeepsSealed, connections-KeepSealed}
use verisure_ads_automation.Connections.Disconnect.{disconnect-get_decrypted_credentials}

abbrev a_deployment : CampaignDeployment
a_deployment = record {
  id = 40;
  tenant_id = 1;
  campaign_id = 10;
  provider = meta;
  external_campaign_id = none;
  idempotency_key = 41;
  submitted_at = none;
  confirmed_at = none;
  last_error_message = none;
  status = pending;
  created_at = 7;
}

abbrev deployed : Session
deployed = record {
  saved = record (database []) { deployments = a_deployment ∷ [] };
  current = record (database []) { deployments = a_deployment ∷ [] };
}

apply_transition_example :
    Transitioned
      (λ db. db)
      1
      40
      submitted
      no_fields
      deployed
      (apply_transition (λ db. db) 1 40 submitted no_fields deployed)
apply_transition_example =
    apply_transition-Transitioned (λ db. db) 1 40 submitted no_fields deployed

mark_IsAtomic_example :
    IsAtomic
      (λ db. db)
      1
      40
      deployed
      submitted
      (submission 1 40 (some "m-1") 8)
      (mark_submitted (λ db. db) 1 40 (some "m-1") 8 true deployed)
    × IsAtomic
        (λ db. db)
        1
        40
        deployed
        live
        (marking 1 40 live (record no_fields { confirmed_at = some (some 8) }))
        (mark_live (λ db. db) 1 40 8 true deployed)
    × IsAtomic
        (λ db. db)
        1
        40
        deployed
        failed
        (marking 1 40 failed (record no_fields { last_error_message = some (some "declined") }))
        (mark_failed (λ db. db) 1 40 "declined" true deployed)
    × IsAtomic
        (λ db. db)
        1
        40
        deployed
        paused
        (marking 1 40 paused no_fields)
        (mark_paused (λ db. db) 1 40 true deployed)
mark_IsAtomic_example = mark-IsAtomic (λ db. db) 1 40 deployed (some "m-1") 8 "declined"

operations_Keep_example :
    Keeps AreCoherent (create_pending_deployment 40 41 8 1 10 meta true)
    × Keeps AreCoherent (mark_submitted (λ db. db) 1 40 (some "m-1") 8 true)
    × Keeps AreCoherent (mark_live (λ db. db) 1 40 8 true)
    × Keeps AreCoherent (mark_failed (λ db. db) 1 40 "declined" true)
    × Keeps AreCoherent (mark_paused (λ db. db) 1 40 true)
operations_Keep_example =
    operations-Keep (λ db. db) (λ db h. h) 1 40 10 41 meta 8 (some "m-1") "declined" true

abbrev a_request : ConnectRequest
a_request = record {
  id = 31;
  tenant_id = 1;
  provider = google;
  credential_payload = "key";
  external_account_id = none;
  display_name = none;
  credentials_expire_at = none;
}

connect_example :
    Connected plain
      (λ db. db)
      a_request
      9
      (session [])
      (connect plain (λ db. db) a_request 9 (session []))
connect_example = connect-Connected plain (λ db. db) a_request 9 (session []) (λ e h. cc)

connect_read_example :
    ((connect plain (λ db. db) a_request 9 (session [])).0 ≡ ok (new_connection a_request 9 "key"))
    × (get_decrypted_credentials plain 1 google
          (connect plain (λ db. db) a_request 9 (session [])).1
        ≡ (ok "key", (connect plain (λ db. db) a_request 9 (session [])).1))
unfolding get_by_provider select_one
connect_read_example =
    connect-get_decrypted_credentials plain (λ db. db) a_request 9 (session []) "key" refl refl refl
      refl

sealed_database : AreSealed (a_connection ∷ [])
unfolding count_where
sealed_database = record {
  sealed = (record { when_connected = λ e. refl; when_disconnected = λ e. cc }, tt);
  one_each = λ t p. ground arith;
}

disconnect_read_example :
    ((disconnect (λ db. db) 1 30 9 (session [])).1.saved
      ≡ (disconnect (λ db. db) 1 30 9 (session [])).1.current)
    × (get_decrypted_credentials plain 1 meta (disconnect (λ db. db) 1 30 9 (session [])).1
        ≡ (raised connection_not_found_error, (disconnect (λ db. db) 1 30 9 (session [])).1))
unfolding get_by_id select_one
disconnect_read_example =
    disconnect-get_decrypted_credentials plain (λ db. db) 1 30 9 (session []) a_connection
      a_connection refl refl sealed_database

connections_KeepSealed_example :
    Keeps KeepsSealed (connect plain (λ db. db) a_request 9)
    × Keeps KeepsSealed (disconnect (λ db. db) 1 30 9)
connections_KeepSealed_example =
    connections-KeepSealed (λ db. db) (λ db h. h) plain a_request 1 30 9

sanitized_exception_example :
    IsSafe (sanitize_provider_exception (record { class = value_error; message = "Bearer abc" }))
sanitized_exception_example =
    sanitize_provider_exception-IsSafe (record { class = value_error; message = "Bearer abc" })

classified_example :
    Classified (codes "HTTP 429, unauthorized") (classify_text (codes "HTTP 429, unauthorized"))
classified_example = classify_text-Classified (codes "HTTP 429, unauthorized")
