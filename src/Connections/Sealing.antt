-- ===== src/Connections/Sealing.antt =====
-- What CredentialEncryptionService promises: credentials come back, and only in their own context.
use verisure_ads_automation.Base.{
  ◌≡◌, ◌≢◌, ◌⊎◌, refl, ap, ◌∙◌, true, some, String, List, inl, inr, Bool-cases,
}
use text.Mathlib.Text.{◌==◌ as str_eq, is_eq}
use text.Mathlib.TextPositions.{compare_refl}
use text.Mathlib.TextEquality.{path_by_compare}
use Prim.Native.Nat.{Ordering}
use Prim.Native.String.{compare}
use verisure_ads_automation.Base.Text.{Text}
use verisure_ads_automation.Exceptions.{credential_decryption_error}
use verisure_ads_automation.Models.Provider.{Uuid, Bytes, Provider, meta, google}
use verisure_ads_automation.Session.{ok, raised}
use verisure_ads_automation.Connections.Envelope.{
  object, field_of, Libraries, provider_value, envelope, open_envelope, encrypt_credentials,
  decrypt_credentials,
}

str_eq_refl : (s : String) → str_eq s s ≡ true
str_eq_refl s = ap is_eq (compare_refl s)

is_eq_inv : (o : Ordering) → is_eq o ≡ true → o ≡ Ordering.eq
is_eq_inv Ordering.lt h = cc
is_eq_inv Ordering.eq h = refl
is_eq_inv Ordering.gt h = cc

str_eq_path : (s t : String) → str_eq s t ≡ true → s ≡ t
str_eq_path s t h = path_by_compare s t (is_eq_inv (compare s t) h)

-- What the code relies on: each library undoes its own work on the credentials that are encrypted.
pub record AreLossless (lib : Libraries) (keys : List Text) (t : Uuid) (p : Provider)
    (payload : Bytes) : Type 0 where
  pub decrypts :
      let bytes = lib.dumps (envelope lib t p payload) in
      lib.fernet_decrypt keys (lib.fernet_encrypt keys bytes) ≡ some bytes
  pub loads :
      lib.loads (lib.dumps (envelope lib t p payload))
      ≡ some (object (field_of (envelope lib t p payload)))
  pub decodes : lib.b64decode (lib.b64encode payload) ≡ some payload

ok-inj : {a b : Bytes} → ok a ≡ ok b → a ≡ b
ok-inj e = cc

module _ (lib : Libraries) (keys : List Text) (t : Uuid) (p : Provider) (payload : Bytes)
    (h : AreLossless lib keys t p payload) where
  opened :
      (t' : Uuid) (p' : Provider) (ciphertext : Bytes)
      → encrypt_credentials lib keys t p payload ≡ ok ciphertext
      → decrypt_credentials lib keys t' p' ciphertext
        ≡ open_envelope lib t' p' (some (object (field_of (envelope lib t p payload))))
  unfolding encrypt_credentials decrypt_credentials
  opened t' p' ciphertext e =
      let bytes = lib.dumps (envelope lib t p payload) in
      let same : lib.fernet_encrypt keys bytes ≡ ciphertext = ok-inj e in
      rw (← same, h.decrypts, h.loads) refl

  -- What is encrypted for a tenant and a provider decrypts, for the same two, to the credentials.
  -- The libraries each undo their own work.
  pub decrypt-encrypt_credentials :
      (ciphertext : Bytes)
      → encrypt_credentials lib keys t p payload ≡ ok ciphertext
      → decrypt_credentials lib keys t p ciphertext ≡ ok payload
  decrypt-encrypt_credentials ciphertext e =
      opened t p ciphertext e
      ∙ rw (str_eq_refl (lib.uuid_str t), str_eq_refl (provider_value p), h.decodes) refl

  -- For another tenant, whose id prints differently, or for another provider, the same ciphertext
  -- is refused, with the error that every other failure of decryption gives.
  pub decrypt-refuses :
      (t' : Uuid) (p' : Provider) (ciphertext : Bytes)
      → (lib.uuid_str t ≡ lib.uuid_str t' → t ≡ t')
      → encrypt_credentials lib keys t p payload ≡ ok ciphertext
      → (t ≢ t') ⊎ (p ≢ p')
      → decrypt_credentials lib keys t' p' ciphertext ≡ raised credential_decryption_error
  decrypt-refuses t' p' ciphertext prints e (inl n) =
      opened t' p' ciphertext e ∙ elim (Bool-cases (str_eq (lib.uuid_str t) (lib.uuid_str t'))) [
        | inl same ↦ absurd (n (prints (str_eq_path (lib.uuid_str t) (lib.uuid_str t') same)))
        | inr apart ↦ rw apart refl
      ]
  decrypt-refuses t' p' ciphertext prints e (inr n) =
      opened t' p' ciphertext e ∙ other_provider p p' n
    where
      other_provider :
          (q q' : Provider)
          → q ≢ q'
          → open_envelope lib t' q' (some (object (field_of (envelope lib t q payload))))
            ≡ raised credential_decryption_error
      other_provider meta meta k = absurd (k refl)
      other_provider meta google k = elim (Bool-cases (str_eq (lib.uuid_str t) (lib.uuid_str t'))) [
        | inl same ↦ rw same refl
        | inr apart ↦ rw apart refl
      ]
      other_provider google meta k = elim (Bool-cases (str_eq (lib.uuid_str t) (lib.uuid_str t'))) [
        | inl same ↦ rw same refl
        | inr apart ↦ rw apart refl
      ]
      other_provider google google k = absurd (k refl)
