-- ===== src/Auth/Repository.antt =====
-- app/repositories/refresh_token_repository.py, app/repositories/tenant_repository.py and
-- app/repositories/user_repository.py, on the rows of their tables.
use verisure_ads_automation.Base.{
  ℕ, Bool, not, ◌&&◌, Option, none, some, String, List, ◌==◌, nat_eq, is_some, if◌then◌else◌,
  select_one, update_where, count_where, insert_row,
}
use text.Mathlib.Text.{◌==◌ as str_eq}
use verisure_ads_automation.Models.Provider.{Uuid, Instant}
use verisure_ads_automation.Models.Identity.{Tenant, User, RefreshToken}

abbrev pub Tokens : Type 0
Tokens = List RefreshToken

unfoldable pub get_by_slug : String → List Tenant → Option Tenant
unfolding select_one
get_by_slug slug = select_one (λ t. str_eq t.slug slug)

unfoldable pub get_tenant_by_id : Uuid → List Tenant → Option Tenant
unfolding select_one
get_tenant_by_id tenant_id = select_one (λ t. t.id == tenant_id)

unfoldable pub get_user_by_id : Uuid → Uuid → List User → Option User
unfolding select_one
get_user_by_id tenant_id user_id = select_one (λ u. u.tenant_id == tenant_id && u.id == user_id)

unfoldable pub get_by_tenant_and_email : Uuid → String → List User → Option User
unfolding select_one
get_by_tenant_and_email tenant_id email =
    select_one (λ u. u.tenant_id == tenant_id && str_eq u.email email)

abbrev pub has_hash : String → RefreshToken → Bool
has_hash token_hash t = str_eq t.token_hash token_hash

-- The INSERT of a new row: none if the unique constraint on the hash refuses it.
unfoldable pub create : RefreshToken → Tokens → Option Tokens
create t rows =
    if is_some (select_one (has_hash t.token_hash) rows) then none else some (insert_row t rows)

unfoldable pub get_by_token_hash : String → Tokens → Option RefreshToken
get_by_token_hash token_hash = select_one (has_hash token_hash)

abbrev pub set_revoked : Instant → RefreshToken → RefreshToken
set_revoked now t = record t { revoked_at = some now }

unfoldable pub revoke : Uuid → Instant → Tokens → Tokens
revoke token_id now = update_where (λ t. t.id == token_id) (set_revoked now)

-- The row is neither revoked nor replaced.
abbrev pub is_claimable : Uuid → RefreshToken → Bool
is_claimable token_id t =
    t.id == token_id && not (is_some t.revoked_at) && not (is_some t.replaced_by_token_id)

abbrev pub set_replaced : Uuid → Instant → RefreshToken → RefreshToken
set_replaced replaced_by_token_id revoked_at t = record t {
  replaced_by_token_id = some replaced_by_token_id;
  revoked_at = some revoked_at;
}

-- The row count, and the rows after the UPDATE.
unfoldable pub claim_rotation : Uuid → Uuid → Instant → Tokens → ℕ × Tokens
claim_rotation token_id replaced_by_token_id revoked_at rows = (
  count_where (is_claimable token_id) rows,
  update_where (is_claimable token_id) (set_replaced replaced_by_token_id revoked_at) rows,
)

abbrev pub is_live_in_family : Uuid → RefreshToken → Bool
is_live_in_family family_id t = t.family_id == family_id && not (is_some t.revoked_at)

unfoldable pub revoke_family : Uuid → Instant → Tokens → Tokens
revoke_family family_id now = update_where (is_live_in_family family_id) (set_revoked now)

abbrev pub is_live_of_user : Uuid → RefreshToken → Bool
is_live_of_user user_id t = t.user_id == user_id && not (is_some t.revoked_at)

unfoldable pub revoke_all_for_user : Uuid → Instant → Tokens → Tokens
revoke_all_for_user user_id now = update_where (is_live_of_user user_id) (set_revoked now)
