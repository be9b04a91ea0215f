-- ===== src/Models/Provider.antt =====
-- app/core/providers.py and app/core/provider_credentials.py.
use verisure_ads_automation.Base.{ℕ, ◌≡◌, ◌↔◌, Bool, true, false, String, arith, Eq}

-- Identifiers are UUIDs and times are UTC instants in microseconds, both as numbers.
abbrev pub Uuid : Type 0
Uuid = ℕ

abbrev pub Instant : Type 0
Instant = ℕ

-- `bytes`
abbrev pub Bytes : Type 0
Bytes = String

pub data Provider : Type 0 where
  meta google : Provider

abbrev provider_eqb : Provider → Provider → Bool
provider_eqb meta meta = true
provider_eqb google google = true
provider_eqb _ _ = false

pub provider_eqb_iff : (a b : Provider) → (provider_eqb a b ≡ true) ↔ (a ≡ b)
provider_eqb_iff a b = ground arith

instance abbrev pub provider_eq : Eq Provider
provider_eq = record { eqb = provider_eqb; eqb_iff = provider_eqb_iff }

pub record ProviderCredentials : Type 0 where
  pub provider : Provider
  pub credential_payload : Bytes
