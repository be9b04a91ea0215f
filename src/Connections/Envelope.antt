-- ===== src/Connections/Envelope.antt =====
-- app/core/security/credential_encryption.py. The libraries that it calls (Fernet, JSON, Base64)
-- and `str` of a UUID are arguments.
use verisure_ads_automation.Base.{
  ℕ, Bool, false, not, Option, none, some, String, List, [], ◌∷◌, ◌==◌, nat_eq, if◌then◌else◌,
}
use text.Mathlib.Text.{◌==◌ as str_eq}
use verisure_ads_automation.Base.Text.{Text, codes, strip, is_blank}
use verisure_ads_automation.Exceptions.{
  encryption_unavailable, Exception, credential_decryption_error,
}
use verisure_ads_automation.Models.Provider.{Uuid, Bytes, Provider, meta, google}
use verisure_ads_automation.Session.{Result, ok, raised}
use verisure_ads_automation.Connections.Encryption.{CredentialEncryption}

-- `provider.value`
abbrev pub provider_value : Provider → String
provider_value meta = "meta"
provider_value google = "google"

-- A JSON value in an object, as far as the code tells them apart.
pub data Json : Type 0 where
  number : ℕ → Json
  str : String → Json
  other : Json

-- What json.loads gives: an object, by its `get`, or another value.
pub data Loaded : Type 0 where
  object : (String → Option Json) → Loaded
  not_object : Loaded

-- The dictionary that is encrypted.
pub record Envelope : Type 0 where
  pub envelope_version : ℕ
  pub tenant_id : String
  pub provider : String
  pub credential_payload : String

-- `envelope.get(key)` on the JSON object of an envelope.
abbrev pub field_of : Envelope → String → Option Json
field_of e key =
    if str_eq key "envelope_version"
    then some (number e.envelope_version)
    else if str_eq key "tenant_id"
    then some (str e.tenant_id)
    else if str_eq key "provider"
    then some (str e.provider)
    else if str_eq key "credential_payload"
    then some (str e.credential_payload)
    else none

-- MultiFernet over a list of keys, json.dumps with the encoding, the decoding with json.loads,
-- Base64 and `str`; none where the library raises.
pub record Libraries : Type 0 where
  pub is_fernet_key : Text → Bool
  pub fernet_encrypt : List Text → Bytes → Bytes
  pub fernet_decrypt : List Text → Bytes → Option Bytes
  pub dumps : Envelope → Bytes
  pub loads : Bytes → Option Loaded
  pub b64encode : Bytes → String
  pub b64decode : String → Option Bytes
  pub uuid_str : Uuid → String

abbrev pub unavailable : String → Exception
unavailable message = record { class = encryption_unavailable; message = message }

-- `text.split(",")`
abbrev pub push : ℕ → List Text → List Text
push c [] = (c ∷ []) ∷ []
push c (w ∷ ws) = (c ∷ w) ∷ ws

unfoldable pub split_commas : Text → List Text
split_commas [] = [] ∷ []
split_commas (c ∷ t) = let rest = split_commas t in if c == b',' then [] ∷ rest else push c rest

abbrev pub add_key : Text → Result (List Text) → Result (List Text)
add_key key (ok keys) = ok (key ∷ keys)
add_key key (raised e) = raised e

-- The loop of `_parse_keys`.
unfoldable pub parse_each : List Text → Result (List Text)
parse_each [] = ok []
parse_each (raw_key ∷ raw_keys) =
    let rest = parse_each raw_keys in
    if is_blank raw_key
    then raised (unavailable "Credential encryption is unavailable: a configured key is blank.")
    else add_key (strip raw_key) rest

-- `_parse_keys`
abbrev pub parse_text : Text → Result (List Text)
parse_text t =
    if is_blank t
    then raised
        (unavailable "Credential encryption is unavailable: no encryption key is configured.")
    else parse_each (split_commas t)

unfoldable pub parse_keys : Option String → Result (List Text)
parse_keys none =
    raised (unavailable "Credential encryption is unavailable: no encryption key is configured.")
parse_keys (some encryption_keys) = parse_text (codes encryption_keys)

module _ (lib : Libraries) where
  -- `[_build_fernet(key) for key in keys]`
  unfoldable pub build_fernets : List Text → Result (List Text)
  build_fernets [] = ok []
  build_fernets (key ∷ keys) =
      let rest = build_fernets keys in
      if lib.is_fernet_key key
      then add_key key rest
      else raised (unavailable "Credential encryption is unavailable: a configured key is invalid.")

  abbrev pub build_parsed : Result (List Text) → Result (List Text)
  build_parsed (raised e) = raised e
  build_parsed (ok keys) = build_fernets keys

  -- `CredentialEncryptionService(encryption_keys)`: its keys.
  unfoldable pub new_service : Option String → Result (List Text)
  unfolding parse_keys
  new_service encryption_keys = build_parsed (parse_keys encryption_keys)

  abbrev pub envelope : Uuid → Provider → Bytes → Envelope
  envelope tenant_id provider credential_payload = record {
    envelope_version = 1;
    tenant_id = lib.uuid_str tenant_id;
    provider = provider_value provider;
    credential_payload = lib.b64encode credential_payload;
  }

  unfoldable pub encrypt_credentials : List Text → Uuid → Provider → Bytes → Result Bytes
  encrypt_credentials keys tenant_id provider credential_payload =
      ok (lib.fernet_encrypt keys (lib.dumps (envelope tenant_id provider credential_payload)))

  -- `value == 1` and `value == text` on what `get` gives.
  abbrev pub is_version : Option Json → Bool
  is_version (some (number n)) = n == 1
  is_version _ = false

  abbrev pub is_text : String → Option Json → Bool
  is_text expected (some (str t)) = str_eq t expected
  is_text expected _ = false

  abbrev pub or_undecryptable : Option Bytes → Result Bytes
  or_undecryptable none = raised credential_decryption_error
  or_undecryptable (some bytes) = ok bytes

  abbrev pub decode_payload : Option Json → Result Bytes
  decode_payload (some (str encoded)) = or_undecryptable (lib.b64decode encoded)
  decode_payload _ = raised credential_decryption_error

  -- The checks on the decrypted envelope.
  abbrev pub open_envelope : Uuid → Provider → Option Loaded → Result Bytes
  open_envelope tenant_id provider (some (object get)) =
      if not (is_version (get "envelope_version"))
      then raised credential_decryption_error
      else if not (is_text (lib.uuid_str tenant_id) (get "tenant_id"))
      then raised credential_decryption_error
      else if not (is_text (provider_value provider) (get "provider"))
      then raised credential_decryption_error
      else decode_payload (get "credential_payload")
  open_envelope tenant_id provider _ = raised credential_decryption_error

  abbrev pub open_bytes : Uuid → Provider → Option Bytes → Result Bytes
  open_bytes tenant_id provider none = raised credential_decryption_error
  open_bytes tenant_id provider (some bytes) = open_envelope tenant_id provider (lib.loads bytes)

  unfoldable pub decrypt_credentials : List Text → Uuid → Provider → Bytes → Result Bytes
  decrypt_credentials keys tenant_id provider ciphertext =
      open_bytes tenant_id provider (lib.fernet_decrypt keys ciphertext)

  -- The service, as the connection service is given it.
  abbrev pub service : List Text → CredentialEncryption
  service keys = record {
    encrypt_credentials = encrypt_credentials keys;
    decrypt_credentials = decrypt_credentials keys;
  }
