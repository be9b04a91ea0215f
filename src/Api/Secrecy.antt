-- ===== src/Api/Secrecy.antt =====
-- The responses about provider connections show nothing of the stored credentials.
use mathlib.Core.Option as Options
use verisure_ads_automation.Base.{
  ◌≡◌, refl, ap, ◌∙◌, none, [], ◌∷◌, map, arith, ◌==◌, nat_eq, Option-cases, inl, inr,
  select_one-map, select_all-map, count_where-map, update_where-map, order_by-map, order_by,
  select_all,
}
use verisure_ads_automation.Models.Provider.{Uuid, Instant, provider_eq}
use verisure_ads_automation.Models.Identity.{User}
use verisure_ads_automation.Models.Connection.{ProviderConnection, connection_status_eq}
use verisure_ads_automation.Session.{Database, Session, ok}
use verisure_ads_automation.Connections.Repository.{
  Connections, has_id, is_connected, set_disconnected, provider_before, get_by_id, list_by_tenant,
}
use verisure_ads_automation.Connections.Repository
use verisure_ads_automation.Connections.Service
use verisure_ads_automation.Api.Requests.{Server, Request, current_user, encryption_service}
use verisure_ads_automation.Api.Responses.{respond, serve}
use verisure_ads_automation.Api.Schemas.{connection_read}
use verisure_ads_automation.Api.SameRows.{session_of}
use verisure_ads_automation.Api.SameUser.{current_user-same}
use verisure_ads_automation.Api.Routes.{
  list_provider_connections, get_provider_connection, disconnect_provider_connection,
}

abbrev pub erase : ProviderConnection → ProviderConnection
erase c = record c { encrypted_credentials = none }

-- The database without the credentials.
abbrev pub without_credentials : Database → Database
without_credentials db = record db { connections = map erase db.connections }

module _ (t : Uuid) (rows : Connections) where
  get-erase :
      (id : Uuid) → get_by_id t id (map erase rows) ≡ Options.map erase (get_by_id t id rows)
  unfolding get_by_id
  get-erase id = select_one-map erase (has_id t id) rows (λ c. refl)

  list-erase : list_by_tenant t (map erase rows) ≡ map erase (list_by_tenant t rows)
  unfolding list_by_tenant
  list-erase =
      ap (order_by provider_before) (select_all-map erase (λ c. c.tenant_id == t) rows (λ c. refl))
      ∙ order_by-map erase provider_before (λ c d. refl) (select_all (λ c. c.tenant_id == t) rows)

  disconnect-erase :
      (id : Uuid) (now : Instant)
      → Repository.disconnect t id now (map erase rows) ≡ (
        (Repository.disconnect t id now rows).0,
        map erase (Repository.disconnect t id now rows).1,
      )
  unfolding Repository.disconnect
  disconnect-erase id now =
      rw
        (
          count_where-map erase (is_connected t id) rows (λ c. refl),
          update_where-map erase (is_connected t id) (set_disconnected now) rows (λ c. refl)
              (λ c. refl),
        )
        refl

reads-erase : (rows : Connections) → map connection_read (map erase rows) ≡ map connection_read rows
reads-erase [] = refl
reads-erase (c ∷ rows) = ap (λ rest. connection_read c ∷ rest) (reads-erase rows)

module _ (server : Server) (request : Request) (db : Database) (user : User)
    (alone : (d : Database) → request.others d ≡ d)
    (from : current_user server request (session_of db) ≡ (ok user, session_of db)) where
  abbrev erased : Session
  erased = session_of (without_credentials db)

  from_erased : current_user server request erased ≡ (ok user, erased)
  unfolding current_user
  from_erased =
      current_user-same server request db (without_credentials db) user refl refl request.token from

  list-hides :
      (list_provider_connections server request erased).0
      ≡ (list_provider_connections server request (session_of db)).0
  unfolding list_provider_connections encryption_service Service.list_connections
  list-hides =
      let e = from_erased in
      ground (
        arith,
        list-erase user.tenant_id db.connections,
        reads-erase (list_by_tenant user.tenant_id db.connections),
      )

  get-hides :
      (id : Uuid)
      → (get_provider_connection server request id erased).0
        ≡ (get_provider_connection server request id (session_of db)).0
  unfolding get_provider_connection encryption_service Service.get_connection
  get-hides id = let e = from_erased in ground (arith, get-erase user.tenant_id db.connections id)

  disconnect-hides :
      (now : Instant) (id : Uuid)
      → (disconnect_provider_connection server request now id erased).0
        ≡ (disconnect_provider_connection server request now id (session_of db)).0
  unfolding disconnect_provider_connection encryption_service Service.disconnect
  disconnect-hides now id =
      let e = from_erased in
      let t = user.tenant_id in
      let rows = (Repository.disconnect t id now db.connections).1 in
      elim (Option-cases (get_by_id t id db.connections)) [
        | inl missing ↦ ground (arith, get-erase t db.connections id)
        | inr (c, found) ↦ ground (
          arith,
          get-erase t db.connections id,
          alone db,
          alone (without_credentials db),
          disconnect-erase t db.connections id now,
          get-erase t rows id,
        )
      ]

  -- The responses to a user about provider connections, to the list, to one of them and to a
  -- disconnect, successes and errors, are those that the database without any stored credentials
  -- would give. No other transaction is at work.
  pub responses-HideCredentials :
      ((serve 200 (list_provider_connections server request) (without_credentials db)).0
        ≡ (serve 200 (list_provider_connections server request) db).0)
      × ((id : Uuid)
          → (serve 200 (get_provider_connection server request id) (without_credentials db)).0
            ≡ (serve 200 (get_provider_connection server request id) db).0)
      × ((now : Instant) (id : Uuid)
          → (serve 200
              (disconnect_provider_connection server request now id)
              (without_credentials db)).0
            ≡ (serve 200 (disconnect_provider_connection server request now id) db).0)
  unfolding serve
  responses-HideCredentials = (
    ap (respond 200) list-hides,
    λ id. ap (respond 200) (get-hides id),
    λ now id. ap (respond 200) (disconnect-hides now id),
  )
