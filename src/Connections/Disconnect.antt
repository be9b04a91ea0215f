-- ===== src/Connections/Disconnect.antt =====
-- After ProviderConnectionService.disconnect no credentials can be read.
use verisure_ads_automation.Base.{
  ◌≡◌, ◌≤◌, refl, true, false, none, some, [], ◌∷◌, arith, nat_eq, if◌then◌else◌, Bool-cases,
  select_one, select_one-holds, select_one-In, count_where, count_where-pos,
  count_where_of_select_one, update_where, inl, inr, some-inj,
}
use verisure_ads_automation.Exceptions.{connection_not_found_error}
use verisure_ads_automation.Models.Provider.{Uuid, Instant, Provider, provider_eq, provider_eqb_iff}
use verisure_ads_automation.Models.Connection.{connection_status_eq, ProviderConnection}
use verisure_ads_automation.Session.{Database, Session, raised}
use verisure_ads_automation.Connections.Encryption.{CredentialEncryption}
use verisure_ads_automation.Connections.Repository
use verisure_ads_automation.Connections.Repository.{
  Connections, is_pair, is_connected, is_usable, set_disconnected,
}
use verisure_ads_automation.Connections.Service.{disconnect, get_decrypted_credentials}
use verisure_ads_automation.Connections.Secrets.{AreSealed, written}

module _ (t i : Uuid) (now : Instant) where
  -- A row that is not of the pair, or is disconnected, is not usable.
  not_usable :
      (p : Provider) (x : ProviderConnection)
      → is_pair t p x ≡ false
      → is_usable t p (if is_connected t i x then set_disconnected now x else x) ≡ false
  not_usable p x h = elim (Bool-cases (is_connected t i x)) [
    | inl e ↦ rw (e, h)
    | inr e ↦ rw (e, h)
  ]

  none_of_pair :
      (p : Provider) (rows : Connections)
      → count_where (is_pair t p) rows ≡ 0
      → select_one (is_usable t p) (update_where (is_connected t i) (set_disconnected now) rows)
        ≡ none
  unfolding count_where select_one update_where
  none_of_pair p [] h = refl
  none_of_pair p (x ∷ xs) h = elim (Bool-cases (is_pair t p x)) [
    | inl e ↦ absurd (ground arith)
    | inr e ↦ rw (not_usable p x e) (none_of_pair p xs (ground arith))
  ]

  is_disconnected :
      (rows : Connections) (c : ProviderConnection)
      → select_one (is_connected t i) rows ≡ some c
      → count_where (is_pair t c.provider) rows ≤ 1
      → select_one
          (is_usable t c.provider)
          (update_where (is_connected t i) (set_disconnected now) rows)
        ≡ none
  unfolding count_where select_one update_where
  is_disconnected [] c e h = cc
  is_disconnected (x ∷ xs) c e h = elim (Bool-cases (is_connected t i x)) [
    | inl k ↦
        let same : x ≡ c = some-inj (rw k at e) in
        let pair : is_pair t c.provider x ≡ true =
          ground (arith, provider_eqb_iff x.provider c.provider) in
        let rest = none_of_pair c.provider xs (ground arith) in rw (k, rest) (ground arith)
    | inr k ↦
        let e' : select_one (is_connected t i) xs ≡ some c = rw k at e in
        let held = select_one-holds (is_connected t i) xs e' in
        let pair : is_pair t c.provider c ≡ true =
          ground (arith, provider_eqb_iff c.provider c.provider) in
        let one =
          count_where-pos (is_pair t c.provider) xs c (select_one-In (is_connected t i) xs c e')
            pair in
        let apart : is_pair t c.provider x ≡ false = ground arith in
        let rest = is_disconnected xs c e' (ground arith) in rw (not_usable c.provider x apart) rest
  ]

-- A disconnected connection gives no credentials any more: where a call finds its connection and,
-- at its UPDATE, a connected row with that id in the tenant, and no tenant has two connections to a
-- provider, the transaction is committed, and afterwards get_decrypted_credentials raises that
-- there is no connection, for the tenant and the provider of the row and whatever the encryption.
pub disconnect-get_decrypted_credentials :
    (encryption : CredentialEncryption) (others : Database → Database)
    (tenant_id connection_id : Uuid) (now : Instant) (s : Session) (before c : ProviderConnection)
    → Repository.get_by_id tenant_id connection_id s.current.connections ≡ some before
    → select_one (is_connected tenant_id connection_id) (others s.current).connections ≡ some c
    → AreSealed (others s.current).connections
    → let s' = (disconnect others tenant_id connection_id now s).1 in
      (s'.saved ≡ s'.current)
      × (get_decrypted_credentials encryption tenant_id c.provider s'
          ≡ (raised connection_not_found_error, s'))
unfolding get_decrypted_credentials Repository.get_connected_by_provider
disconnect-get_decrypted_credentials encryption others t i now s before c e f h =
    let rows = (others s.current).connections in
    let some_row = count_where_of_select_one (is_connected t i) rows c f in
    let gone = is_disconnected t i now rows c f (h.one_each t c.provider) in
    rw (written others t i now s before e (ground arith)) (refl, ground arith)
