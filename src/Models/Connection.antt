-- ===== src/Models/Connection.antt =====
-- app/models/provider_connection.py.
use verisure_ads_automation.Base.{◌≡◌, ◌↔◌, Bool, true, false, String, Option, arith, Eq}
use verisure_ads_automation.Models.Provider.{Uuid, Instant, Bytes, Provider}

pub data ProviderConnectionStatus : Type 0 where
  connected disconnected : ProviderConnectionStatus

abbrev connection_status_eqb : ProviderConnectionStatus → ProviderConnectionStatus → Bool
connection_status_eqb connected connected = true
connection_status_eqb disconnected disconnected = true
connection_status_eqb _ _ = false

pub connection_status_eqb_iff :
    (a b : ProviderConnectionStatus) → (connection_status_eqb a b ≡ true) ↔ (a ≡ b)
connection_status_eqb_iff a b = ground arith

instance abbrev pub connection_status_eq : Eq ProviderConnectionStatus
connection_status_eq = record { eqb = connection_status_eqb; eqb_iff = connection_status_eqb_iff }

pub record ProviderConnection : Type 0 where
  pub id : Uuid
  pub tenant_id : Uuid
  pub provider : Provider
  pub encrypted_credentials : Option Bytes
  pub external_account_id : Option String
  pub display_name : Option String
  pub credentials_expire_at : Option Instant
  pub status : ProviderConnectionStatus
  pub disconnected_at : Option Instant
  pub updated_at : Instant
