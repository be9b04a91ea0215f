-- ===== src/Connections/Secrets.antt =====
-- Which connections hold credentials, under the operations of ProviderConnectionService.
use verisure_ads_automation.Base.{
  ◌≡◌, ◌≤◌, refl, subst, true, false, none, some, arith, ◌==◌, nat_eq, nat_eqb_iff, Bool-cases,
  Option-cases, is_some, All, All-insert, All-update, select_one, count_where, count_where-insert,
  count_where-update-le, count_where-zero, insert_row, update_where, inl, inr,
}
use verisure_ads_automation.Exceptions.{Exception, connection_not_found_error}
use verisure_ads_automation.Models.Provider.{
  Uuid, Instant, Bytes, Provider, provider_eq, provider_eqb_iff,
}
use verisure_ads_automation.Models.Connection.{
  connected, disconnected, connection_status_eq, ProviderConnection,
}
use verisure_ads_automation.Session.{Database, Session, Result, ok, raised}
use verisure_ads_automation.Session.Keeps.{Keeps}
use verisure_ads_automation.Connections.Encryption.{CredentialEncryption}
use verisure_ads_automation.Connections.Repository
use verisure_ads_automation.Connections.Repository.{
  Connections, is_pair, is_connected, set_disconnected, get_by_provider,
}
use verisure_ads_automation.Connections.Service.{
  ConnectRequest, new_connection, invalid_state, connect, disconnect,
}
use verisure_ads_automation.Connections.Connect.{
  committed, set_connections, already, was_disconnected, raced, inserted,
}

-- A connection holds credentials exactly while it is connected.
pub record IsSealed (c : ProviderConnection) : Type 0 where
  pub when_connected : c.status ≡ connected → is_some c.encrypted_credentials ≡ true
  pub when_disconnected :
      c.status ≡ disconnected
      → (c.encrypted_credentials ≡ none) × (is_some c.disconnected_at ≡ true)

pub record AreSealed (rows : Connections) : Type 0 where
  pub sealed : All IsSealed rows
  pub one_each : (tenant_id : Uuid) (p : Provider) → count_where (is_pair tenant_id p) rows ≤ 1

insert-AreSealed :
    (r : ConnectRequest) (now : Instant) (y : Bytes) (rows : Connections)
    → select_one (is_pair r.tenant_id r.provider) rows ≡ none
    → AreSealed rows
    → AreSealed (insert_row (new_connection r now y) rows)
insert-AreSealed r now y rows e h = record {
  sealed =
      All-insert IsSealed (new_connection r now y) rows
        (record { when_connected = λ _. refl; when_disconnected = λ k. cc }) h.sealed;
  one_each = λ t p. elim (Bool-cases (is_pair t p (new_connection r now y))) [
    | inl same ↦
        fits t p ((nat_eqb_iff r.tenant_id t).0 (ground arith))
          ((provider_eqb_iff r.provider p).0 (ground arith))
    | inr apart ↦
        ground
          (arith, count_where-insert (is_pair t p) (new_connection r now y) rows, h.one_each t p)
  ];
}
  where
    fits :
        (t : Uuid) (p : Provider)
        → r.tenant_id ≡ t
        → r.provider ≡ p
        → count_where (is_pair t p) (insert_row (new_connection r now y) rows) ≤ 1
    fits t p i j =
        subst (λ t'. count_where (is_pair t' p) (insert_row (new_connection r now y) rows) ≤ 1) i
          (subst
            (λ p'.
              count_where (is_pair r.tenant_id p') (insert_row (new_connection r now y) rows) ≤ 1)
            j
            (ground (
              arith,
              count_where-insert (is_pair r.tenant_id r.provider) (new_connection r now y) rows,
              count_where-zero (is_pair r.tenant_id r.provider) rows e,
            )))

disconnect-AreSealed :
    (t i : Uuid) (now : Instant) (rows : Connections)
    → AreSealed rows
    → AreSealed (update_where (is_connected t i) (set_disconnected now) rows)
disconnect-AreSealed t i now rows h = record {
  sealed =
      All-update IsSealed (is_connected t i) (set_disconnected now) rows
        (λ c _ k. record { when_connected = λ e. cc; when_disconnected = λ _. (refl, refl) })
        h.sealed;
  one_each = λ t' p. ground (
    arith,
    count_where-update-le (is_pair t' p) (is_connected t i) (set_disconnected now) rows
        (λ c _ k. k),
    h.one_each t' p,
  );
}

-- Committed and in the transaction.
abbrev pub KeepsSealed : Session → Type 0
KeepsSealed s = AreSealed s.saved.connections × AreSealed s.current.connections

module _ (others : Database → Database) where
  not_encrypted :
      (encryption : CredentialEncryption) (r : ConnectRequest) (now : Instant) (s : Session)
      (e : Exception)
      → get_by_provider r.tenant_id r.provider s.current.connections ≡ none
      → encryption.encrypt_credentials r.tenant_id r.provider r.credential_payload ≡ raised e
      → (connect encryption others r now s).1 ≡ committed s.saved
  unfolding connect
  not_encrypted encryption r now s e k x = ground arith

  no_row :
      (t i : Uuid) (now : Instant) (s : Session)
      → Repository.get_by_id t i s.current.connections ≡ none
      → disconnect others t i now s ≡ (raised connection_not_found_error, committed s.saved)
  unfolding disconnect
  no_row t i now s e = ground arith

  not_connected :
      (t i : Uuid) (now : Instant) (s : Session) (c : ProviderConnection)
      → Repository.get_by_id t i s.current.connections ≡ some c
      → (count_where (is_connected t i) (others s.current).connections == 0) ≡ true
      → disconnect others t i now s ≡ (
        raised (invalid_state "Provider connection is not currently connected."),
        committed (others s.saved),
      )
  unfolding disconnect Repository.disconnect
  not_connected t i now s c e z = ground arith

  pub written :
      (t i : Uuid) (now : Instant) (s : Session) (c : ProviderConnection)
      → Repository.get_by_id t i s.current.connections ≡ some c
      → (count_where (is_connected t i) (others s.current).connections == 0) ≡ false
      → (disconnect others t i now s).1
        ≡ committed (
            set_connections
              (update_where
                (is_connected t i)
                (set_disconnected now)
                (others s.current).connections)
              (others s.current))
  unfolding disconnect Repository.disconnect
  written t i now s c e p = ground arith

-- A property of the database that other transactions keep, and the UPDATE too.
pub disconnect-Keeps :
    (others : Database → Database) (P : Database → Type 0)
    → ((db : Database) → P db → P (others db))
    → (t i : Uuid) (now : Instant)
    → ((db : Database)
        → P db
        → P (
            set_connections
              (update_where (is_connected t i) (set_disconnected now) db.connections)
              db))
    → Keeps (λ s. P s.saved × P s.current) (disconnect others t i now)
disconnect-Keeps others P kept t i now writes s (a, b) =
    let rows = (others s.current).connections in
    let new = writes (others s.current) (kept s.current b) in
    elim (Option-cases (Repository.get_by_id t i s.current.connections)) [
      | inl e ↦ rw (no_row others t i now s e) (a, a)
      | inr (c, e) ↦ elim (Bool-cases (count_where (is_connected t i) rows == 0)) [
        | inl z ↦ rw (not_connected others t i now s c e z) (kept s.saved a, kept s.saved a)
        | inr p ↦ rw (written others t i now s c e p) (new, new)
      ]
    ]

module _ (others : Database → Database)
    (kept : (db : Database) → AreSealed db.connections → AreSealed (others db).connections) where
  connect-KeepsSealed :
      (encryption : CredentialEncryption) (r : ConnectRequest) (now : Instant)
      → Keeps KeepsSealed (connect encryption others r now)
  connect-KeepsSealed encryption r now s (a, b) =
      elim (Option-cases (get_by_provider r.tenant_id r.provider s.current.connections)) [
        | inr (c, e) ↦ elim (Bool-cases (c.status == connected)) [
          | inl t ↦ rw (already encryption others r now s c e t) (a, a)
          | inr t ↦ rw (was_disconnected encryption others r now s c e t) (a, a)
        ]
        | inl e ↦
            encrypts e (encryption.encrypt_credentials r.tenant_id r.provider r.credential_payload)
              refl
      ]
    where
      encrypts :
          get_by_provider r.tenant_id r.provider s.current.connections ≡ none
          → (x : Result Bytes)
          → encryption.encrypt_credentials r.tenant_id r.provider r.credential_payload ≡ x
          → KeepsSealed (connect encryption others r now s).1
      encrypts e (raised x) k = rw (not_encrypted others encryption r now s x e k) (a, a)
      encrypts e (ok y) k =
          elim (Option-cases
            (select_one (is_pair r.tenant_id r.provider) (others s.current).connections)) [
              | inl t ↦
                  let new =
                    insert-AreSealed r now y (others s.current).connections t (kept s.current b) in
                  rw (inserted encryption others r now s y e k t) (new, new)
              | inr (c, t) ↦
                  rw (raced encryption others r now s y c e k t) (kept s.saved a, kept s.saved a)
            ]

  disconnect-KeepsSealed :
      (t i : Uuid) (now : Instant) → Keeps KeepsSealed (disconnect others t i now)
  disconnect-KeepsSealed t i now =
      disconnect-Keeps others (λ db. AreSealed db.connections) kept t i now
        (λ db. disconnect-AreSealed t i now db.connections)

  -- connect and disconnect keep this of all connections, committed or not yet, however they end: a
  -- connected one holds encrypted credentials, a disconnected one holds none and the time when it
  -- was disconnected, and no tenant has two connections to a provider. What other transactions
  -- commit meanwhile keeps it too.
  pub connections-KeepSealed :
      (encryption : CredentialEncryption) (r : ConnectRequest) (tenant_id connection_id : Uuid)
      (now : Instant)
      → Keeps KeepsSealed (connect encryption others r now)
        × Keeps KeepsSealed (disconnect others tenant_id connection_id now)
  connections-KeepSealed encryption r t i now =
      (connect-KeepsSealed encryption r now, disconnect-KeepsSealed t i now)
