-- ===== src/Auth/Logout.antt =====
-- AuthService.logout and logout_all: what they revoke cannot be refreshed.
use verisure_ads_automation.Base.{
  ◌≡◌, ◌⊎◌, refl, true, some, String, [], ◌∷◌, arith, ◌==◌, nat_eq, nat_eqb_iff, nat_eqb_refl,
  is_some, Bool-cases, All, select_one-update, update_where, inl, inr, ◌∙◌,
}
use verisure_ads_automation.Exceptions.{refresh_token_reuse_error, refresh_token_revoked_error}
use verisure_ads_automation.Models.Provider.{Uuid, Instant}
use verisure_ads_automation.Models.Identity.{User, RefreshToken}
use verisure_ads_automation.Session.{Database, Session, Result, ok, raised}
use verisure_ads_automation.Auth.Repository.{
  Tokens, has_hash, set_revoked, get_user_by_id, get_by_token_hash, revoke, revoke_all_for_user,
}
use verisure_ads_automation.Auth.Service.{
  Security, TokenDraw, TokenPair, set_tokens, refresh_existing, refresh, logout, logout_all,
}
use verisure_ads_automation.Auth.Rotation.{committed}

-- The call raised that the token was revoked, or that it was reused.
abbrev pub IsRefused : Result TokenPair → Type 0
IsRefused r = (r ≡ raised refresh_token_revoked_error) ⊎ (r ≡ raised refresh_token_reuse_error)

refuses :
    (security : Security) (raw : String) (others : Database → Database) (draw : TokenDraw)
    (s : Session) (e : RefreshToken)
    → get_by_token_hash (security.hash_token raw) s.current.refresh_tokens ≡ some e
    → is_some e.revoked_at ≡ true
    → IsRefused (refresh security others draw raw s).0
unfolding refresh refresh_existing
refuses security raw others draw s e found r = elim (Bool-cases (is_some e.replaced_by_token_id)) [
  | inl k ↦ inr (ground arith)
  | inr k ↦ inl (ground arith)
]

logged_out :
    (security : Security) (raw : String) (now : Instant) (s : Session) (e : RefreshToken)
    → get_by_token_hash (security.hash_token raw) s.current.refresh_tokens ≡ some e
    → logout security now raw s
      ≡ (ok tt, committed (set_tokens (revoke e.id now s.current.refresh_tokens) s.current))
unfolding logout
logged_out security raw now s e found = ground arith

-- A token of which the user logs out is committed as revoked, and a later refresh with it, whatever
-- other transactions do meanwhile, raises that it was revoked, or reused if it had been rotated.
pub logout-IsRefused :
    (security : Security) (raw : String) (now : Instant) (others : Database → Database)
    (draw : TokenDraw) (s : Session) (e : RefreshToken)
    → get_by_token_hash (security.hash_token raw) s.current.refresh_tokens ≡ some e
    → (s₁ : Session) × (logout security now raw s ≡ (ok tt, s₁))
      × (s₁.saved ≡ s₁.current)
      × IsRefused (refresh security others draw raw s₁).0
unfolding get_by_token_hash revoke
logout-IsRefused security raw now others draw s e found =
    let rows = s.current.refresh_tokens in
    let revoked =
      select_one-update (has_hash (security.hash_token raw)) (λ t. t.id == e.id) (set_revoked now)
        rows (λ t _. refl) found
      ∙ rw (nat_eqb_refl e.id) in
    (
      _,
      logged_out security raw now s e found,
      refl,
      refuses security raw others draw (committed (set_tokens (revoke e.id now rows) s.current))
          (set_revoked now e) revoked refl,
    )

All-revoked :
    (user_id : Uuid) (now : Instant) (rows : Tokens)
    → All
        (λ t. t.user_id ≡ user_id → is_some t.revoked_at ≡ true)
        (revoke_all_for_user user_id now rows)
unfolding revoke_all_for_user update_where
All-revoked i now [] = tt
All-revoked i now (t ∷ rows) =
    (λ e. ground (arith, nat_eqb_iff t.user_id i), All-revoked i now rows)

-- Logging a user of the tenant out everywhere commits that every token of that user is revoked.
pub logout_all-All :
    (now : Instant) (tenant_id user_id : Uuid) (s : Session) (u : User)
    → get_user_by_id tenant_id user_id s.current.users ≡ some u
    → (s₁ : Session) × (logout_all now tenant_id user_id s ≡ (ok tt, s₁))
      × (s₁.saved ≡ s₁.current)
      × All (λ t. t.user_id ≡ user_id → is_some t.revoked_at ≡ true) s₁.saved.refresh_tokens
unfolding logout_all
logout_all-All now t i s u found = (
  committed (set_tokens (revoke_all_for_user i now s.current.refresh_tokens) s.current),
  ground arith,
  refl,
  All-revoked i now s.current.refresh_tokens,
)
