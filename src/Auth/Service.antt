-- ===== src/Auth/Service.antt =====
-- app/services/auth_service.py. The hash of a token, the check of a password and the signing of an
-- access token are arguments; `others` is what other transactions commit between the read of a
-- token by `refresh` and the UPDATE that follows it, of the token or of its family.
use verisure_ads_automation.Base.{
  ℕ, ◌+◌, Bool, not, Option, none, some, String, leb, ◌==◌, nat_eq, is_some, if◌then◌else◌,
  select_one,
}
use verisure_ads_automation.Exceptions.{
  integrity_error, other_error, Exception, invalid_credentials_error, invalid_refresh_token_error,
  refresh_token_expired_error, refresh_token_revoked_error, refresh_token_reuse_error,
  user_not_found_error,
}
use verisure_ads_automation.Models.Provider.{Uuid, Instant}
use verisure_ads_automation.Models.Identity.{RefreshToken}
use verisure_ads_automation.Session.{
  Database, ok, Action, pure, raise, query, ◌>>=◌, ◌>>◌, try_except, execute, commit, rollback,
  flush, interfere, when,
}
use verisure_ads_automation.Auth.Repository.{
  Tokens, get_by_slug, get_user_by_id, get_by_tenant_and_email, create, get_by_token_hash, revoke,
  claim_rotation, revoke_family, revoke_all_for_user,
}

-- `_REFRESH_TOKEN_LIFETIME`, 30 days in microseconds
abbrev pub refresh_token_lifetime : ℕ
refresh_token_lifetime = 2592000000000

pub record TokenPair : Type 0 where
  pub access_token : String
  pub refresh_token : String

-- The libraries behind app/core/security, and what a call draws: identifiers, a raw token, times.
pub record Security : Type 0 where
  pub hash_token : String → String
  pub verify_password : String → String → Bool
  pub create_access_token : Uuid → Uuid → String

pub record TokenDraw : Type 0 where
  pub id : Uuid
  pub family_id : Uuid
  pub raw : String
  pub now : Instant
  pub revoked_at : Instant

abbrev pub set_tokens : Tokens → Database → Database
set_tokens rows db = record db { refresh_tokens = rows }

-- A statement on `refresh_tokens`.
abbrev pub update_tokens : {A : Type 0} → (Tokens → A × Tokens) → Action A
update_tokens f s =
    let (a, rows) = f s.current.refresh_tokens in
    (ok a, record s { current = set_tokens rows s.current })

abbrev pub insert_or_raise : Option Tokens → Action (Unit {0})
insert_or_raise none = raise (record { class = integrity_error; message = "token_hash" })
insert_or_raise (some rows) = execute (set_tokens rows)

abbrev pub insert_token : RefreshToken → Action (Unit {0})
insert_token t s = insert_or_raise (create t s.current.refresh_tokens) s

abbrev pub require : {A : Type 0} → Exception → Option A → Action A
require e none = raise e
require e (some a) = pure a

unfoldable pub new_token : Security → TokenDraw → Uuid → Uuid → RefreshToken
new_token security draw user_id family_id = record {
  id = draw.id;
  user_id = user_id;
  family_id = family_id;
  token_hash = security.hash_token draw.raw;
  replaced_by_token_id = none;
  revoked_at = none;
  expires_at = draw.now + refresh_token_lifetime;
}

-- Revoke the family, as the UPDATE finds it, commit, and report the reuse.
abbrev pub revoke_reused : (Database → Database) → TokenDraw → Uuid → {A : Type 0} → Action A
revoke_reused others draw family_id =
    interfere others
    >> update_tokens (λ rows. (tt, revoke_family family_id draw.revoked_at rows))
    >> commit
    >> raise refresh_token_reuse_error

-- After a lost race: what the row is now tells which error it is.
abbrev pub lost_race : (Database → Database) → TokenDraw → Option RefreshToken → Action TokenPair
lost_race others draw none = raise invalid_refresh_token_error
lost_race others draw (some raced) =
    if is_some raced.replaced_by_token_id
    then revoke_reused others draw raced.family_id
    else if is_some raced.revoked_at
    then raise refresh_token_revoked_error
    else raise invalid_refresh_token_error

module _ (security : Security) where
  unfoldable pub login : TokenDraw → String → String → String → Action TokenPair
  unfolding get_by_slug get_by_tenant_and_email create new_token
  login draw tenant_slug email password = do
    found ← query (λ db. get_by_slug tenant_slug db.tenants)
    tenant ← require invalid_credentials_error found
    when (is_some tenant.deleted_at) (raise invalid_credentials_error)
    row ← query (λ db. get_by_tenant_and_email tenant.id email db.users)
    user ← require invalid_credentials_error row
    when (is_some user.deleted_at) (raise invalid_credentials_error)
    when (not (security.verify_password password user.hashed_password))
        (raise invalid_credentials_error)
    try_except (insert_token (new_token security draw user.id draw.family_id) >> commit)
        (λ e. rollback >> raise e)
    pure (record {
      access_token = security.create_access_token user.id tenant.id;
      refresh_token = draw.raw;
    })

  -- The part of `refresh` that issues the child and claims the parent.
  unfoldable pub rotate :
      (Database → Database) → TokenDraw → String → RefreshToken → Action TokenPair
  unfolding get_by_token_hash create claim_rotation new_token
  rotate others draw token_hash existing = do
    row ← query (λ db. select_one (λ u. u.id == existing.user_id) db.users)
    user ←
        require
          (record {
            class = other_error;
            message = "'NoneType' object has no attribute 'tenant_id'";
          })
          row
    insert_token (new_token security draw existing.user_id existing.family_id)
    flush
    interfere others
    affected ← update_tokens (claim_rotation existing.id draw.id draw.now)
    if not (affected == 1)
        then (rollback
            >> query (λ db. get_by_token_hash token_hash db.refresh_tokens)
            >>= lost_race others draw)
        else (commit
            >> pure (record {
              access_token = security.create_access_token existing.user_id user.tenant_id;
              refresh_token = draw.raw;
            }))

  -- The checks of `refresh` on the row that it found.
  unfoldable pub refresh_existing :
      (Database → Database) → TokenDraw → String → RefreshToken → Action TokenPair
  unfolding rotate revoke_family
  refresh_existing others draw token_hash existing =
      if is_some existing.replaced_by_token_id
      then revoke_reused others draw existing.family_id
      else if is_some existing.revoked_at
      then raise refresh_token_revoked_error
      else if leb existing.expires_at draw.now
      then raise refresh_token_expired_error
      else rotate others draw token_hash existing

  unfoldable pub refresh : (Database → Database) → TokenDraw → String → Action TokenPair
  unfolding refresh_existing get_by_token_hash
  refresh others draw raw_refresh_token = do
    let token_hash = security.hash_token raw_refresh_token
    row ← query (λ db. get_by_token_hash token_hash db.refresh_tokens)
    existing ← require invalid_refresh_token_error row
    refresh_existing others draw token_hash existing

  unfoldable pub logout : Instant → String → Action (Unit {0})
  unfolding get_by_token_hash revoke
  logout now raw_refresh_token = do
    row ← query (λ db. get_by_token_hash (security.hash_token raw_refresh_token) db.refresh_tokens)
    existing ← require invalid_refresh_token_error row
    update_tokens (λ rows. (tt, revoke existing.id now rows))
    commit

unfoldable pub logout_all : Instant → Uuid → Uuid → Action (Unit {0})
unfolding get_user_by_id revoke_all_for_user
logout_all now tenant_id user_id = do
  row ← query (λ db. get_user_by_id tenant_id user_id db.users)
  user ← require user_not_found_error row
  update_tokens (λ rows. (tt, revoke_all_for_user user_id now rows))
  commit
