-- ===== src/Connections/Service.antt =====
-- app/services/provider_connection_service.py. `others` is what other transactions commit between
-- the read of a row and the statement that writes.
use verisure_ads_automation.Base.{ℕ, ◌&&◌, Option, none, some, String, ◌==◌, nat_eq, if◌then◌else◌}
use text.Mathlib.Text.{◌==◌ as str_eq}
use verisure_ads_automation.Exceptions.{
  invalid_connection_state, integrity_error, invalid_request, Exception, connection_not_found_error,
  connection_already_exists_error, is_integrity_error,
}
use verisure_ads_automation.Models.Provider.{Uuid, Instant, Bytes, Provider}
use verisure_ads_automation.Models.Connection.{connected, connection_status_eq, ProviderConnection}
use verisure_ads_automation.Session.{
  Database, ok, Action, pure, raise, query, lift, ◌>>=◌, ◌>>◌, try_except, execute, commit,
  rollback, interfere, when,
}
use verisure_ads_automation.Connections.Encryption.{CredentialEncryption}
use verisure_ads_automation.Connections.Repository
use verisure_ads_automation.Connections.Repository.{Connections, uq_tenant_provider}

abbrev pub invalid_state : String → Exception
invalid_state message = record { class = invalid_connection_state; message = message }

abbrev insert_or_raise : Option Connections → Action (Unit {0})
insert_or_raise none = raise (record { class = integrity_error; message = uq_tenant_provider })
insert_or_raise (some rows) = execute (λ db. record db { connections = rows })

abbrev insert_connection : ProviderConnection → Action (Unit {0})
insert_connection c s = insert_or_raise (Repository.create c s.current.connections) s

abbrev found_or_raise : Exception → Option ProviderConnection → Action ProviderConnection
found_or_raise e none = raise e
found_or_raise e (some c) = pure c

-- The test of an existing row in `connect`.
abbrev refuse_existing : Option ProviderConnection → Action (Unit {0})
refuse_existing none = pure tt
refuse_existing (some existing) =
    if existing.status == connected
    then raise connection_already_exists_error
    else raise (
        invalid_state
          "This provider was previously disconnected; reconnection is not supported yet.")

-- The two `except` clauses of `connect`.
abbrev connect_failed : Exception → Action ProviderConnection
connect_failed e =
    rollback
    >> raise (
        if is_integrity_error e.class && str_eq e.message uq_tenant_provider
        then connection_already_exists_error
        else e)

-- The arguments of `connect`, with the id that the row gets.
pub record ConnectRequest : Type 0 where
  pub id : Uuid
  pub tenant_id : Uuid
  pub provider : Provider
  pub credential_payload : Bytes
  pub external_account_id : Option String
  pub display_name : Option String
  pub credentials_expire_at : Option Instant

abbrev pub new_connection : ConnectRequest → Instant → Bytes → ProviderConnection
new_connection r now encrypted = record {
  id = r.id;
  tenant_id = r.tenant_id;
  provider = r.provider;
  encrypted_credentials = some encrypted;
  external_account_id = r.external_account_id;
  display_name = r.display_name;
  credentials_expire_at = r.credentials_expire_at;
  status = connected;
  disconnected_at = none;
  updated_at = now;
}

abbrev update_rows : (Connections → ℕ × Connections) → Action ℕ
update_rows f s =
    let (count, rows) = f s.current.connections in
    (ok count, record s { current = record s.current { connections = rows } })

module _ (encryption : CredentialEncryption) where
  unfoldable pub connect :
      (Database → Database) → ConnectRequest → Instant → Action ProviderConnection
  unfolding Repository.get_by_provider Repository.create
  connect others r now =
      try_except
        (do
          existing ← query (λ db. Repository.get_by_provider r.tenant_id r.provider db.connections)
          refuse_existing existing
          encrypted ←
              lift (encryption.encrypt_credentials r.tenant_id r.provider r.credential_payload)
          interfere others
          insert_connection (new_connection r now encrypted)
          commit
          pure (new_connection r now encrypted))
        connect_failed

  unfoldable pub get_decrypted_credentials : Uuid → Provider → Action Bytes
  unfolding Repository.get_connected_by_provider
  get_decrypted_credentials tenant_id provider = do
    row ← query (λ db. Repository.get_connected_by_provider tenant_id provider db.connections)
    connection ← found_or_raise connection_not_found_error row
    elim connection.encrypted_credentials [
      | none ↦ raise connection_not_found_error
      | some ciphertext ↦ lift (encryption.decrypt_credentials tenant_id provider ciphertext)
    ]

unfoldable pub disconnect :
    (Database → Database) → Uuid → Uuid → Instant → Action ProviderConnection
unfolding Repository.get_by_id Repository.disconnect
disconnect others tenant_id connection_id now = do
  connection ←
      try_except
        (do
          row ← query (λ db. Repository.get_by_id tenant_id connection_id db.connections)
          connection ← found_or_raise connection_not_found_error row
          interfere others
          affected ← update_rows (Repository.disconnect tenant_id connection_id now)
          when (affected == 0)
              (raise (invalid_state "Provider connection is not currently connected."))
          commit
          pure connection)
        (λ e. rollback >> raise e)
  refreshed ← query (λ db. Repository.get_by_id tenant_id connection_id db.connections)
  found_or_raise (record { class = invalid_request; message = "Could not refresh instance." })
      refreshed

unfoldable pub get_connection : Uuid → Uuid → Action ProviderConnection
unfolding Repository.get_by_id
get_connection tenant_id connection_id = do
  row ← query (λ db. Repository.get_by_id tenant_id connection_id db.connections)
  found_or_raise connection_not_found_error row

unfoldable pub list_connections : Uuid → Action Connections
unfolding Repository.list_by_tenant
list_connections tenant_id = query (λ db. Repository.list_by_tenant tenant_id db.connections)
