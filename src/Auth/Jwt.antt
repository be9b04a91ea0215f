-- ===== src/Auth/Jwt.antt =====
-- app/core/security/jwt.py. PyJWT and `str` and parsing of UUIDs are arguments.
use verisure_ads_automation.Base.{
  ℕ, ◌+◌, ◌*◌, ◌≤◌, ◌≡◌, ◌≢◌, Bool, true, false, not, ◌||◌, Option, none, some, String,
  if◌then◌else◌,
}
use text.Mathlib.Text.{◌==◌ as str_eq}
use verisure_ads_automation.Models.Provider.{Uuid, Instant}

-- The settings that the module reads.
pub record JwtSettings : Type 0 where
  pub secret_key : String
  pub algorithm : String
  pub access_token_expire_minutes : ℕ
  pub issuer : String
  pub audience : String

-- The dictionary that is signed.
pub record Payload : Type 0 where
  pub sub : String
  pub tenant_id : String
  pub type : String
  pub jti : String
  pub iat : Instant
  pub nbf : Instant
  pub exp : Instant
  pub iss : String
  pub aud : String

-- A value of a decoded dictionary, as far as the code tells them apart: a text, or another value
-- with its truth.
pub data Claim : Type 0 where
  str : String → Claim
  other : (truth : Bool) → Claim

-- A decoded dictionary, by its `get`.
abbrev pub Claims : Type 0
Claims = String → Option Claim

-- The texts of a payload under their keys; times are numbers, which are true.
abbrev pub claims_of : Payload → Claims
claims_of p key =
    if str_eq key "sub"
    then some (str p.sub)
    else if str_eq key "tenant_id"
    then some (str p.tenant_id)
    else if str_eq key "type"
    then some (str p.type)
    else if str_eq key "jti"
    then some (str p.jti)
    else if str_eq key "iss"
    then some (str p.iss)
    else if str_eq key "aud"
    then some (str p.aud)
    else if str_eq key "iat" || str_eq key "nbf" || str_eq key "exp"
    then some (other true)
    else none

-- `jwt.encode` under a secret and an algorithm, `jwt.decode` under them and the expected issuer and
-- audience at a time of the clock (none where it raises a PyJWTError), `str(uuid)` and `UUID(text)`
-- (none where it raises a ValueError).
pub record JwtLibrary : Type 0 where
  pub encode : Payload → String → String → String
  pub decode : String → String → String → String → String → Instant → Option Claims
  pub uuid_str : Uuid → String
  pub parse_uuid : String → Option Uuid

-- What the code relies on: a payload that is signed under a secret and an algorithm decodes under
-- them, its issuer and its audience while it is valid (the library rounds times down to seconds),
-- and UUIDs print and parse.
pub record IsFaithful (lib : JwtLibrary) (p : Payload) (secret algorithm : String) : Type 0 where
  pub decodes :
      (now : Instant)
      → p.iat ≤ now
      → p.nbf ≤ now
      → now + 1000000 ≤ p.exp
      → lib.decode (lib.encode p secret algorithm) secret algorithm p.iss p.aud now
        ≡ some (claims_of p)
  pub parses : (u : Uuid) → lib.parse_uuid (lib.uuid_str u) ≡ some u
  pub not_empty : (u : Uuid) → lib.uuid_str u ≢ ""

-- `claims.get("type") != "access"` is false
abbrev pub is_access : Option Claim → Bool
is_access (some (str t)) = str_eq t "access"
is_access _ = false

module _ (lib : JwtLibrary) (settings : JwtSettings) where
  -- The payload of `create_access_token` at the time `now`, with the `jti` that it draws.
  unfoldable pub new_payload : Instant → Uuid → Uuid → Uuid → Payload
  new_payload now jti user_id tenant_id = record {
    sub = lib.uuid_str user_id;
    tenant_id = lib.uuid_str tenant_id;
    type = "access";
    jti = lib.uuid_str jti;
    iat = now;
    nbf = now;
    exp = now + settings.access_token_expire_minutes * 60000000;
    iss = settings.issuer;
    aud = settings.audience;
  }

  unfoldable pub create_access_token : Instant → Uuid → Uuid → Uuid → String
  unfolding new_payload
  create_access_token now jti user_id tenant_id =
      lib.encode (new_payload now jti user_id tenant_id) settings.secret_key settings.algorithm

  abbrev check_type : Option Claims → Option Claims
  check_type none = none
  check_type (some claims) = if not (is_access (claims "type")) then none else some claims

  -- None where a PyJWTError is raised.
  unfoldable pub decode_access_token : Instant → String → Option Claims
  decode_access_token now token = check_type (
      lib.decode token settings.secret_key settings.algorithm settings.issuer settings.audience now)
