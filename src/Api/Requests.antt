-- ===== src/Api/Requests.antt =====
-- What a request brings, and app/api/dependencies.py: the user of a request and the services that an
-- endpoint depends on.
use verisure_ads_automation.Base.{Bool, not, Option, none, some, String, List}
use verisure_ads_automation.Base.Text.{Text}
use verisure_ads_automation.Exceptions.{request_validation_error, Exception}
use verisure_ads_automation.Models.Provider.{Uuid, Instant}
use verisure_ads_automation.Models.Identity.{User}
use verisure_ads_automation.Session.{Database, Action, raise, lift, when}
use verisure_ads_automation.Auth.Jwt.{JwtLibrary, JwtSettings, create_access_token}
use verisure_ads_automation.Auth.Service.{Security}
use verisure_ads_automation.Auth.Access.{unauthorized, get_current_user}
use verisure_ads_automation.Connections.Envelope.{Libraries, new_service}

-- The settings and libraries of the process.
pub record Server : Type 0 where
  pub jwt : JwtLibrary
  pub jwt_settings : JwtSettings
  pub hash_token : String → String
  pub verify_password : String → String → Bool
  pub libraries : Libraries
  pub encryption_key : Option String

-- The bearer token of a request, if any, the time at which it is checked, and what other
-- transactions commit between the reads and the writes of the endpoint.
pub record Request : Type 0 where
  pub token : Option String
  pub now : Instant
  pub others : Database → Database

-- `OAuth2PasswordBearer`, which refuses a request without a token, and get_current_user.
abbrev pub authenticate : Server → Instant → Option String → Action User
authenticate server now none = raise (unauthorized "Not authenticated")
authenticate server now (some token) = get_current_user server.jwt server.jwt_settings now token

unfoldable pub current_user : Server → Request → Action User
current_user server request = authenticate server request.now request.token

-- get_credential_encryption_service: the keys, or the error of the constructor.
unfoldable pub encryption_service : Server → Action (List Text)
encryption_service server = lift (new_service server.libraries server.encryption_key)

-- What AuthService uses of app/core/security, with what the signing of an access token draws.
abbrev pub security : Server → Instant → Uuid → Security
security server now jti = record {
  hash_token = server.hash_token;
  verify_password = server.verify_password;
  create_access_token = create_access_token server.jwt server.jwt_settings now jti;
}

-- A parameter or a body that does not fit its schema, found after the dependencies.
abbrev pub invalid_request : Exception
invalid_request = record { class = request_validation_error; message = "" }

abbrev pub validate : Bool → Action (Unit {0})
validate fits = when (not fits) (raise invalid_request)
