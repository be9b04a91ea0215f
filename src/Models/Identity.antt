-- ===== src/Models/Identity.antt =====
-- app/models/tenant.py, app/models/user.py and app/models/refresh_token.py. Of the columns those
-- that the modelled code reads or writes.
use verisure_ads_automation.Base.{String, Option}
use verisure_ads_automation.Models.Provider.{Uuid, Instant}

pub record Tenant : Type 0 where
  pub id : Uuid
  pub slug : String
  pub deleted_at : Option Instant

pub record User : Type 0 where
  pub id : Uuid
  pub tenant_id : Uuid
  pub email : String
  pub hashed_password : String
  pub deleted_at : Option Instant

pub record RefreshToken : Type 0 where
  pub id : Uuid
  pub user_id : Uuid
  pub family_id : Uuid
  pub token_hash : String
  pub replaced_by_token_id : Option Uuid
  pub revoked_at : Option Instant
  pub expires_at : Instant
