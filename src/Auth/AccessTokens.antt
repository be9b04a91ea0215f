-- ===== src/Auth/AccessTokens.antt =====
-- app/core/security/jwt.py with get_current_user: a signed access token lets its user in.
use verisure_ads_automation.Base.{◌+◌, ◌*◌, ◌≤◌, ◌≡◌, refl, none, some}
use verisure_ads_automation.Models.Provider.{Uuid, Instant}
use verisure_ads_automation.Models.Identity.{Tenant, User}
use verisure_ads_automation.Session.{Session, ok}
use verisure_ads_automation.Auth.Repository.{get_tenant_by_id, get_user_by_id}
use verisure_ads_automation.Auth.Jwt.{
  JwtSettings, JwtLibrary, IsFaithful, claims_of, decode_access_token, new_payload,
  create_access_token,
}
use verisure_ads_automation.Auth.Access.{get_current_user}
use verisure_ads_automation.Auth.Grants.{Grants-ok}

-- An access token that create_access_token signs for a user of a tenant, both there and neither
-- deleted, is accepted as that user, with the same settings, from the time at which it was signed
-- until a second before it expires. PyJWT and the UUIDs are taken to round-trip.
pub get_current_user-create_access_token :
    (lib : JwtLibrary) (settings : JwtSettings)
    → (signed now : Instant) (jti : Uuid) (tenant : Tenant) (user : User) (s : Session)
    → IsFaithful lib
        (new_payload lib settings signed jti user.id tenant.id)
        settings.secret_key
        settings.algorithm
    → signed ≤ now
    → now + 1000000 ≤ signed + settings.access_token_expire_minutes * 60000000
    → get_tenant_by_id tenant.id s.current.tenants ≡ some tenant
    → tenant.deleted_at ≡ none
    → get_user_by_id tenant.id user.id s.current.users ≡ some user
    → user.deleted_at ≡ none
    → get_current_user lib settings now
        (create_access_token lib settings signed jti user.id tenant.id)
        s
      ≡ (ok user, s)
unfolding create_access_token decode_access_token
get_current_user-create_access_token lib settings signed now jti tenant user s f a b c d e k =
    let payload = new_payload lib settings signed jti user.id tenant.id in
    let decoded = f.decodes now a a b in
    Grants-ok lib settings now (create_access_token lib settings signed jti user.id tenant.id) s
      user
      (record {
        claims = claims_of payload;
        raw_tenant_id = lib.uuid_str tenant.id;
        raw_user_id = lib.uuid_str user.id;
        tenant_id = tenant.id;
        user_id = user.id;
        tenant = tenant;
        decoded = rw decoded refl;
        typed = refl;
        tenant_claim = refl;
        user_claim = refl;
        tenant_not_empty = f.not_empty tenant.id;
        user_not_empty = f.not_empty user.id;
        tenant_parsed = f.parses tenant.id;
        user_parsed = f.parses user.id;
        tenant_found = c;
        tenant_active = d;
        user_found = e;
        user_active = k;
      })
