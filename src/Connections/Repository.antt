-- ===== src/Connections/Repository.antt =====
-- app/repositories/provider_connection_repository.py, on the rows of `provider_connections`.
use verisure_ads_automation.Base.{
  ℕ, Bool, ◌&&◌, ◌||◌, Option, none, some, String, List, ltb, ◌==◌, nat_eq, is_some, if◌then◌else◌,
  select_one, select_all, order_by, update_where, count_where, insert_row,
}
use verisure_ads_automation.Models.Provider.{Uuid, Instant, Provider, meta, google, provider_eq}
use verisure_ads_automation.Models.Connection.{
  connected, disconnected, connection_status_eq, ProviderConnection,
}

abbrev pub Connections : Type 0
Connections = List ProviderConnection

-- The name of the unique constraint.
abbrev pub uq_tenant_provider : String
uq_tenant_provider = "uq_provider_connections_tenant_id_provider"

abbrev pub is_pair : Uuid → Provider → ProviderConnection → Bool
is_pair tenant_id provider c = c.tenant_id == tenant_id && c.provider == provider

-- The INSERT of a new row: none if the unique constraint refuses it.
unfoldable pub create : ProviderConnection → Connections → Option Connections
unfolding insert_row select_one
create c rows =
    if is_some (select_one (is_pair c.tenant_id c.provider) rows)
    then none
    else some (insert_row c rows)

abbrev pub has_id : Uuid → Uuid → ProviderConnection → Bool
has_id tenant_id connection_id c = c.id == connection_id && c.tenant_id == tenant_id

unfoldable pub get_by_id : Uuid → Uuid → Connections → Option ProviderConnection
unfolding select_one
get_by_id tenant_id connection_id = select_one (has_id tenant_id connection_id)

unfoldable pub get_by_provider : Uuid → Provider → Connections → Option ProviderConnection
unfolding select_one
get_by_provider tenant_id provider = select_one (is_pair tenant_id provider)

abbrev pub is_usable : Uuid → Provider → ProviderConnection → Bool
is_usable tenant_id provider c =
    is_pair tenant_id provider c && c.status == connected && is_some c.encrypted_credentials

unfoldable pub get_connected_by_provider : Uuid → Provider → Connections → Option ProviderConnection
unfolding select_one
get_connected_by_provider tenant_id provider = select_one (is_usable tenant_id provider)

-- The order of the labels of the enumeration in the database.
abbrev label_order : Provider → ℕ
label_order meta = 0
label_order google = 1

-- ORDER BY provider ASC, id ASC
abbrev pub provider_before : ProviderConnection → ProviderConnection → Bool
provider_before a b =
    ltb (label_order a.provider) (label_order b.provider)
    || (a.provider == b.provider && ltb a.id b.id)

unfoldable pub list_by_tenant : Uuid → Connections → Connections
unfolding select_all order_by
list_by_tenant tenant_id rows =
    order_by provider_before (select_all (λ c. c.tenant_id == tenant_id) rows)

abbrev pub is_connected : Uuid → Uuid → ProviderConnection → Bool
is_connected tenant_id connection_id c = has_id tenant_id connection_id c && c.status == connected

abbrev pub set_disconnected : Instant → ProviderConnection → ProviderConnection
set_disconnected disconnected_at c = record c {
  status = disconnected;
  disconnected_at = some disconnected_at;
  encrypted_credentials = none;
  updated_at = disconnected_at;
}

-- The row count, and the rows after the UPDATE.
unfoldable pub disconnect : Uuid → Uuid → Instant → Connections → ℕ × Connections
unfolding count_where update_where
disconnect tenant_id connection_id disconnected_at rows = (
  count_where (is_connected tenant_id connection_id) rows,
  update_where (is_connected tenant_id connection_id) (set_disconnected disconnected_at) rows,
)
