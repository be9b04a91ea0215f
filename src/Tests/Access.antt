-- ===== src/Tests/Access.antt =====
-- A server whose libraries hide nothing, and the theorems on access tokens at it.
use Prim.Native.String.{String}
use verisure_ads_automation.Base.{
  ℕ, zero, suc, ◌≡◌, ◌⊎◌, refl, ap, Option, none, some, [], ◌∷◌, nat_eq,
}
use verisure_ads_automation.Models.Identity.{User}
use verisure_ads_automation.Models.Provider.{Uuid, Instant}
use verisure_ads_automation.Session.{Database, Session, ok}
use verisure_ads_automation.Auth.Jwt.{
  JwtSettings, JwtLibrary, Payload, IsFaithful, claims_of, new_payload,
}
use verisure_ads_automation.Auth.Access.{get_current_user}
use verisure_ads_automation.Auth.Grants.{Grants, Refused, IsOdd}
use verisure_ads_automation.Auth.CurrentUser.{get_current_user-Resolved}
use verisure_ads_automation.Tests.{database, a_tenant, a_user}

-- Ids in unary notation, with one mark more than the number.
unfoldable pub marks : Uuid → String
marks zero = ""
marks (suc n) = String.◌∷◌ "1" (marks n)

abbrev pub unary : Uuid → String
unary n = String.◌∷◌ "1" (marks n)

unfoldable pub marks_in : String → ℕ
marks_in String.[] = zero
marks_in (String.◌∷◌ c s) = suc (marks_in s)

abbrev pub parse_unary : String → Option Uuid
parse_unary String.[] = none
parse_unary (String.◌∷◌ c s) = some (marks_in s)

in_marks : (n : Uuid) → marks_in (marks n) ≡ n
unfolding marks marks_in
in_marks zero = refl
in_marks (suc n) = ap suc (in_marks n)

abbrev pub settings : JwtSettings
settings = record {
  secret_key = "key";
  algorithm = "HS256";
  access_token_expire_minutes = 15;
  issuer = "verisure";
  audience = "ads";
}

-- The payload of a token of the user.
abbrev signed : Payload
signed = record {
  sub = unary 2;
  tenant_id = unary 1;
  type = "access";
  jti = unary 9;
  iat = 100;
  nbf = 100;
  exp = 900000100;
  iss = "verisure";
  aud = "ads";
}

-- A library in which every token stands for that payload.
abbrev pub jwt : JwtLibrary
jwt = record {
  encode = λ p secret algorithm. "access";
  decode = λ token secret algorithm issuer audience now. some (claims_of signed);
  uuid_str = unary;
  parse_uuid = parse_unary;
}

abbrev pub accounts : Database → Database
accounts db = record db { tenants = a_tenant ∷ []; users = a_user ∷ [] }

abbrev signed_in : Session
signed_in = record { saved = accounts (database []); current = accounts (database []) }

pub faithful : (now : Instant) → IsFaithful jwt (new_payload jwt settings now 9 2 1) "key" "HS256"
unfolding new_payload
faithful now = record {
  decodes = λ later a b c. refl;
  parses = λ u. ap some (in_marks u);
  not_empty = λ u e. cc;
}

resolved_example :
    ((user : User) × (get_current_user jwt settings 200 "access" signed_in ≡ (ok user, signed_in))
      × Grants jwt settings 200 "access" signed_in user)
    ⊎ ((¬ ((user : User) × Grants jwt settings 200 "access" signed_in user))
        × (Refused jwt settings 200 "access" signed_in
              (get_current_user jwt settings 200 "access" signed_in)
            ⊎ IsOdd jwt settings 200 "access" signed_in
                (get_current_user jwt settings 200 "access" signed_in)))
resolved_example = get_current_user-Resolved jwt settings 200 "access" signed_in
