-- ===== src/Tests/Sealing.antt =====
-- The theorems on the encryption of credentials, over libraries that hide nothing.
use verisure_ads_automation.Base.{
  ℕ, ◌≡◌, refl, some, String, [], ◌∷◌, inl, true, nat_eq, ◌==◌, if◌then◌else◌,
}
use verisure_ads_automation.Base.Text.{codes, is_blank}
use verisure_ads_automation.Exceptions.{credential_decryption_error}
use verisure_ads_automation.Models.Provider.{meta}
use verisure_ads_automation.Session.{ok, raised}
use verisure_ads_automation.Connections.Envelope.{
  Envelope, object, field_of, Libraries, parse_keys, parse_each, split_commas, encrypt_credentials,
  decrypt_credentials,
}
use verisure_ads_automation.Connections.Sealing.{
  AreLossless, decrypt-encrypt_credentials, decrypt-refuses,
}
use verisure_ads_automation.Connections.KeyList.{IsKeyList, parse_keys-IsKeyList}

abbrev printed : ℕ → String
printed n = if n == 1 then "one" else "many"

abbrev sealed : Envelope
sealed = record {
  envelope_version = 1;
  tenant_id = "one";
  provider = "meta";
  credential_payload = "key";
}

abbrev pub libraries : Libraries
libraries = record {
  is_fernet_key = λ key. true;
  fernet_encrypt = λ keys bytes. bytes;
  fernet_decrypt = λ keys bytes. some bytes;
  dumps = λ e. "envelope";
  loads = λ bytes. some (object (field_of sealed));
  b64encode = λ bytes. bytes;
  b64decode = λ encoded. some encoded;
  uuid_str = printed;
}

lossless : AreLossless libraries (codes "k" ∷ []) 1 meta "key"
lossless = record { decrypts = refl; loads = refl; decodes = refl }

decrypt_example : decrypt_credentials libraries (codes "k" ∷ []) 1 meta "envelope" ≡ ok "key"
unfolding encrypt_credentials
decrypt_example =
    decrypt-encrypt_credentials libraries (codes "k" ∷ []) 1 meta "key" lossless "envelope" refl

refuse_example :
    decrypt_credentials libraries (codes "k" ∷ []) 2 meta "envelope"
    ≡ raised credential_decryption_error
unfolding encrypt_credentials
refuse_example =
    decrypt-refuses libraries (codes "k" ∷ []) 1 meta "key" lossless 2 meta "envelope" (λ e. cc)
      refl (inl (λ e. cc))

keys_example : IsKeyList (codes "new, old") (codes "new" ∷ codes "old" ∷ [])
unfolding parse_keys is_blank parse_each split_commas
keys_example = parse_keys-IsKeyList "new, old" (codes "new" ∷ codes "old" ∷ []) refl
