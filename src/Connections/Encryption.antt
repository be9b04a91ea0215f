-- ===== src/Connections/Encryption.antt =====
-- What the services use of CredentialEncryptionService
-- (app/core/security/credential_encryption.py).
use verisure_ads_automation.Models.Provider.{Uuid, Bytes, Provider}
use verisure_ads_automation.Session.{Result}

pub record CredentialEncryption : Type 0 where
  pub encrypt_credentials : Uuid → Provider → Bytes → Result Bytes
  pub decrypt_credentials : Uuid → Provider → Bytes → Result Bytes
