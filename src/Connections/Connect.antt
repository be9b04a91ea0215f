-- ===== src/Connections/Connect.antt =====
-- ProviderConnectionService.connect: every branch, and the credentials read back.
use verisure_ads_automation.Base.{
  ◌≡◌, ◌≢◌, refl, Bool, true, false, Option, none, some, arith, ◌==◌, nat_eq, nat_eqb_iff,
  Bool-cases, Option-cases, In-All, select_one, select_one-none-imp, select_one-insert, insert_row,
  inl, inr,
}
use verisure_ads_automation.Exceptions.{
  Exception, connection_already_exists_error, is_integrity_error,
}
use verisure_ads_automation.Models.Provider.{Instant, Bytes, provider_eq, provider_eqb_iff}
use verisure_ads_automation.Models.Connection.{
  connected, connection_status_eq, connection_status_eqb_iff, ProviderConnection,
}
use verisure_ads_automation.Session.{Database, Session, Result, ok, raised}
use verisure_ads_automation.Connections.Encryption.{CredentialEncryption}
use verisure_ads_automation.Connections.Repository
use verisure_ads_automation.Connections.Repository.{
  Connections, is_pair, is_usable, get_by_provider,
}
use verisure_ads_automation.Connections.Service.{
  ConnectRequest, new_connection, invalid_state, connect, get_decrypted_credentials,
}

abbrev pub committed : Database → Session
committed db = record { saved = db; current = db }

abbrev pub set_connections : Connections → Database → Database
set_connections rows db = record db { connections = rows }

module _ (encryption : CredentialEncryption) (others : Database → Database) (r : ConnectRequest)
    (now : Instant) (s : Session) where
  abbrev call : Result ProviderConnection × Session
  call = connect encryption others r now s

  abbrev existing : Option ProviderConnection
  existing = get_by_provider r.tenant_id r.provider s.current.connections

  abbrev encrypted : Result Bytes
  encrypted = encryption.encrypt_credentials r.tenant_id r.provider r.credential_payload

  -- The constraint at the INSERT.
  abbrev taken : Option ProviderConnection
  taken = select_one (is_pair r.tenant_id r.provider) (others s.current).connections

  pub already :
      (c : ProviderConnection)
      → existing ≡ some c
      → (c.status == connected) ≡ true
      → call ≡ (raised connection_already_exists_error, committed s.saved)
  unfolding connect
  already c e k = ground arith

  pub was_disconnected :
      (c : ProviderConnection)
      → existing ≡ some c
      → (c.status == connected) ≡ false
      → call ≡ (
        raised (
            invalid_state
              "This provider was previously disconnected; reconnection is not supported yet."),
        committed s.saved,
      )
  unfolding connect
  was_disconnected c e k = ground arith

  pub raced :
      (y : Bytes) (c : ProviderConnection)
      → existing ≡ none
      → encrypted ≡ ok y
      → taken ≡ some c
      → call ≡ (raised connection_already_exists_error, committed (others s.saved))
  unfolding connect Repository.create
  raced y c e k t = ground arith

  pub inserted :
      (y : Bytes)
      → existing ≡ none
      → encrypted ≡ ok y
      → taken ≡ none
      → call ≡ (
        ok (new_connection r now y),
        committed (
            set_connections
              (insert_row (new_connection r now y) (others s.current).connections)
              (others s.current)),
      )
  unfolding connect Repository.create
  inserted y e k t = ground arith

  -- Encryption that raises; it raises no violation of a constraint.
  not_encrypted :
      (e : Exception)
      → existing ≡ none
      → encrypted ≡ raised e
      → is_integrity_error e.class ≡ false
      → call ≡ (raised e, committed s.saved)
  unfolding connect
  not_encrypted e k x i = ground arith

  -- The ways that a call can end.
  pub data Connected : Result ProviderConnection × Session → Type 0 where
    is_connected_already :
        (q : Result ProviderConnection × Session) (c : ProviderConnection)
        → existing ≡ some c
        → c.status ≡ connected
        → q ≡ (raised connection_already_exists_error, committed s.saved)
        → Connected q
    was_disconnected_before :
        (q : Result ProviderConnection × Session) (c : ProviderConnection)
        → existing ≡ some c
        → c.status ≢ connected
        → q ≡ (
          raised (
              invalid_state
                "This provider was previously disconnected; reconnection is not supported yet."),
          committed s.saved,
        )
        → Connected q
    is_not_encrypted :
        (q : Result ProviderConnection × Session) (e : Exception)
        → existing ≡ none
        → encrypted ≡ raised e
        → q ≡ (raised e, committed s.saved)
        → Connected q
    is_overtaken :
        (q : Result ProviderConnection × Session) (c : ProviderConnection)
        → existing ≡ none
        → taken ≡ some c
        → q ≡ (raised connection_already_exists_error, committed (others s.saved))
        → Connected q
    is_inserted :
        (q : Result ProviderConnection × Session) (ciphertext : Bytes)
        → existing ≡ none
        → encrypted ≡ ok ciphertext
        → taken ≡ none
        → q ≡ (
          ok (new_connection r now ciphertext),
          committed (
              set_connections
                (insert_row (new_connection r now ciphertext) (others s.current).connections)
                (others s.current)),
        )
        → Connected q

  -- Every branch of connect. A connection of the tenant to the provider is refused, with one error
  -- if it is connected and another if it was disconnected. So is one that another transaction
  -- commits before the INSERT: the violated constraint is reported as an existing connection. An
  -- error of the encryption is raised. In each of these nothing of the call is kept. Otherwise the
  -- new connection, with the encrypted credentials, is committed and returned. The encryption
  -- raises no violation of a constraint.
  pub connect-Connected :
      ((e : Exception) → encrypted ≡ raised e → is_integrity_error e.class ≡ false) → Connected call
  connect-Connected other = elim (Option-cases existing) [
    | inr (c, e) ↦ elim (Bool-cases (c.status == connected)) [
      | inl t ↦
          Connected.is_connected_already _ c e ((connection_status_eqb_iff c.status connected).0 t)
            (already c e t)
      | inr t ↦
          Connected.was_disconnected_before _ c e
            (λ k. differ t ((connection_status_eqb_iff c.status connected).1 k))
            (was_disconnected c e t)
    ]
    | inl e ↦ encrypts e encrypted refl
  ]
    where
      differ : {b : Bool} → b ≡ false → b ≡ true → ⊥
      differ h h' = cc

      encrypts : existing ≡ none → (x : Result Bytes) → encrypted ≡ x → Connected call
      encrypts e (raised x) k = Connected.is_not_encrypted _ x e k (not_encrypted x e k (other x k))
      encrypts e (ok y) k = elim (Option-cases taken) [
        | inl t ↦ Connected.is_inserted _ y e k t (inserted y e k t)
        | inr (c, t) ↦ Connected.is_overtaken _ c e t (raced y c e k t)
      ]

  -- What was connected can be read back: where the tenant has no connection to the provider, when
  -- the call reads and when it inserts, and the credentials encrypt to what decrypts to them, the
  -- call returns the new connection, and get_decrypted_credentials then gives the credentials.
  pub connect-get_decrypted_credentials :
      (ciphertext : Bytes)
      → existing ≡ none
      → taken ≡ none
      → encrypted ≡ ok ciphertext
      → encryption.decrypt_credentials r.tenant_id r.provider ciphertext ≡ ok r.credential_payload
      → (call.0 ≡ ok (new_connection r now ciphertext))
        × (get_decrypted_credentials encryption r.tenant_id r.provider call.1
            ≡ (ok r.credential_payload, call.1))
  unfolding get_decrypted_credentials
  connect-get_decrypted_credentials y e t k d =
      let rows = (others s.current).connections in
      let q = is_usable r.tenant_id r.provider in
      let none_usable =
        select_one-none-imp q (is_pair r.tenant_id r.provider) rows
          (In-All (λ c. q c ≡ true → is_pair r.tenant_id r.provider c ≡ true) rows
            (λ c m h. ground arith))
          t in
      let found = select_one-insert q (new_connection r now y) rows none_usable (
        ground
          (arith, nat_eqb_iff r.tenant_id r.tenant_id, provider_eqb_iff r.provider r.provider)) in
      rw (inserted y e k t) (refl, ground arith)
