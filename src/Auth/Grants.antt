-- ===== src/Auth/Grants.antt =====
-- get_current_user of app/api/dependencies.py: what lets a request in, and what refuses it.
use verisure_ads_automation.Base.{◌≡◌, ◌≢◌, ◌⊎◌, Bool, true, none, some, String, arith}
use text.Mathlib.TextEquality.{eq_iff}
use verisure_ads_automation.Exceptions.{other_error}
use verisure_ads_automation.Models.Provider.{Uuid, Instant}
use verisure_ads_automation.Models.Identity.{Tenant, User}
use verisure_ads_automation.Session.{Session, Result, ok, raised}
use verisure_ads_automation.Auth.Repository.{get_tenant_by_id, get_user_by_id}
use verisure_ads_automation.Auth.Jwt.{
  JwtSettings, JwtLibrary, Claims, str, other, is_access, decode_access_token,
}
use verisure_ads_automation.Auth.Access.{unauthorized, get_current_user}

module _ (lib : JwtLibrary) (settings : JwtSettings) (now : Instant) (token : String)
    (s : Session) where
  -- The token is one of the user's: it decodes to claims of the right type that name the user and
  -- the user's tenant, and both rows are there and not deleted.
  pub record Grants (user : User) : Type 0 where
    pub claims : Claims
    pub raw_tenant_id : String
    pub raw_user_id : String
    pub tenant_id : Uuid
    pub user_id : Uuid
    pub tenant : Tenant
    pub decoded : decode_access_token lib settings now token ≡ some claims
    pub typed : is_access (claims "type") ≡ true
    pub tenant_claim : claims "tenant_id" ≡ some (str raw_tenant_id)
    pub user_claim : claims "sub" ≡ some (str raw_user_id)
    pub tenant_not_empty : raw_tenant_id ≢ ""
    pub user_not_empty : raw_user_id ≢ ""
    pub tenant_parsed : lib.parse_uuid raw_tenant_id ≡ some tenant_id
    pub user_parsed : lib.parse_uuid raw_user_id ≡ some user_id
    pub tenant_found : get_tenant_by_id tenant_id s.current.tenants ≡ some tenant
    pub tenant_active : tenant.deleted_at ≡ none
    pub user_found : get_user_by_id tenant_id user_id s.current.users ≡ some user
    pub user_active : user.deleted_at ≡ none

  pub Grants-ok :
      (user : User) → Grants user → get_current_user lib settings now token s ≡ (ok user, s)
  unfolding get_current_user
  Grants-ok user g = ground (arith, eq_iff g.raw_tenant_id "", eq_iff g.raw_user_id "")

  abbrev pub call : Result User × Session
  call = get_current_user lib settings now token s

  -- The answer is 401, and nothing has changed.
  abbrev pub Refused : Result User × Session → Type 0
  Refused r = (message : String) × (r ≡ (raised (unauthorized message), s))

  -- A signed claim that should be the text of a UUID is another value, which `UUID` cannot read.
  pub record IsOdd (r : Result User × Session) : Type 0 where
    pub claims : Claims
    pub truth : Bool
    pub decoded : decode_access_token lib settings now token ≡ some claims
    pub odd : (claims "tenant_id" ≡ some (other truth)) ⊎ (claims "sub" ≡ some (other truth))
    pub result : r ≡ (raised (record { class = other_error; message = "AttributeError" }), s)
