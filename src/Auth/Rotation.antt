-- ===== src/Auth/Rotation.antt =====
-- AuthService.refresh: a refresh token is good for one rotation, and its reuse ends the session.
use verisure_ads_automation.Base.{
  ◌≡◌, ◌≢◌, refl, ◌∙◌, true, false, none, some, String, [], ◌∷◌, arith, leb, ◌==◌, nat_eq,
  nat_eqb_iff, is_some, All, Distinct, Distinct-insert, select_one, select_one-In, select_one_of_In,
  select_one-update, select_one-insert_row, count_where, count_where-key, update_where, insert_row,
}
use verisure_ads_automation.Exceptions.{refresh_token_reuse_error}
use verisure_ads_automation.Models.Provider.{Uuid, Instant}
use verisure_ads_automation.Models.Identity.{User, RefreshToken}
use verisure_ads_automation.Session.{Database, Session, ok, raised}
use verisure_ads_automation.Auth.Repository.{
  Tokens, has_hash, is_claimable, set_replaced, create, get_by_token_hash, claim_rotation,
  revoke_family,
}
use verisure_ads_automation.Auth.Service.{
  TokenPair, Security, TokenDraw, set_tokens, new_token, rotate, refresh_existing, refresh,
}

abbrev pub token_id : RefreshToken → Uuid
token_id t = t.id

abbrev pub committed : Database → Session
committed db = record { saved = db; current = db }

-- No token of the family can be used.
abbrev pub IsEnded : Uuid → Tokens → Type 0
IsEnded family_id rows = All (λ t. t.family_id ≡ family_id → is_some t.revoked_at ≡ true) rows

revoke_family-IsEnded :
    (f : Uuid) (now : Instant) (rows : Tokens) → IsEnded f (revoke_family f now rows)
unfolding revoke_family update_where
revoke_family-IsEnded f now [] = tt
revoke_family-IsEnded f now (t ∷ rows) =
    (λ e. ground (arith, nat_eqb_iff t.family_id f), revoke_family-IsEnded f now rows)

module _ (security : Security) (raw : String) where
  -- A token that has been rotated is reused.
  reused :
      (others : Database → Database) (draw : TokenDraw) (s : Session) (e : RefreshToken)
      → get_by_token_hash (security.hash_token raw) s.current.refresh_tokens ≡ some e
      → is_some e.replaced_by_token_id ≡ true
      → refresh security others draw raw s ≡ (
        raised refresh_token_reuse_error,
        committed (
            set_tokens
              (revoke_family e.family_id draw.revoked_at (others s.current).refresh_tokens)
              (others s.current)),
      )
  unfolding refresh refresh_existing
  reused others draw s e found r = ground arith

  module _ (draw : TokenDraw) (s : Session) (e : RefreshToken) (u : User) where
    abbrev child : RefreshToken
    child = new_token security draw e.user_id e.family_id

    abbrev before : Tokens
    before = insert_row child s.current.refresh_tokens

    abbrev after : Tokens
    after = update_where (is_claimable e.id) (set_replaced draw.id draw.now) before

    claims_one :
        select_one (has_hash (security.hash_token raw)) s.current.refresh_tokens ≡ some e
        → is_claimable e.id e ≡ true
        → Distinct token_id s.current.refresh_tokens
        → All (λ t. t.id ≢ draw.id) s.current.refresh_tokens
        → count_where (is_claimable e.id) before ≡ 1
    unfolding new_token
    claims_one found c d f =
        let rows' = before in
        let there =
          select_one-insert_row (has_hash (security.hash_token raw)) child s.current.refresh_tokens
            found in
        let d' = Distinct-insert token_id child s.current.refresh_tokens f d in
        let by_id =
          select_one_of_In token_id e rows'
            (select_one-In (has_hash (security.hash_token raw)) rows' e there) d' in
        count_where-key token_id (is_claimable e.id) e.id rows' e
          (λ t k. ground (arith, nat_eqb_iff t.id e.id)) d' by_id
        ∙ rw c

    rotated :
        select_one (has_hash (security.hash_token raw)) s.current.refresh_tokens ≡ some e
        → is_claimable e.id e ≡ true
        → select_one (has_hash (security.hash_token raw)) after
          ≡ some (set_replaced draw.id draw.now e)
    rotated found c =
        select_one-update (has_hash (security.hash_token raw)) (is_claimable e.id)
          (set_replaced draw.id draw.now) before (λ t _. refl)
          (select_one-insert_row (has_hash (security.hash_token raw)) child s.current.refresh_tokens
            found)
        ∙ rw c

    abbrev pub pair : TokenPair
    pair = record {
      access_token = security.create_access_token e.user_id u.tenant_id;
      refresh_token = draw.raw;
    }

    rotates :
        get_by_token_hash (security.hash_token raw) s.current.refresh_tokens ≡ some e
        → is_claimable e.id e ≡ true
        → leb e.expires_at draw.now ≡ false
        → select_one (λ x. x.id == e.user_id) s.current.users ≡ some u
        → Distinct token_id s.current.refresh_tokens
        → All (λ t. t.id ≢ draw.id) s.current.refresh_tokens
        → select_one (has_hash (security.hash_token draw.raw)) s.current.refresh_tokens ≡ none
        → refresh security (λ db. db) draw raw s ≡ (ok pair, committed (set_tokens after s.current))
    unfolding refresh refresh_existing rotate create claim_rotation get_by_token_hash new_token
    rotates found c x user d f h = ground (arith, claims_one found c d f)

  -- With no other transaction at work, a refresh token that is live, not expired and that of a
  -- known user is rotated: the call returns a new pair. A second call with the same token, whatever
  -- other transactions commit between its read of the token and its UPDATE of the family, raises
  -- that it was reused, and commits that every token of the family that this UPDATE finds is
  -- revoked: the one that the first call gave out, and any that a rotation has added meanwhile. No
  -- other transaction commits between that UPDATE and the call's own commit. Ids are distinct, and the drawn id and the hash of the drawn token are new.
  pub refresh-IsEnded :
      (draw draw₂ : TokenDraw) (others : Database → Database) (s : Session) (e : RefreshToken)
      (u : User)
      → get_by_token_hash (security.hash_token raw) s.current.refresh_tokens ≡ some e
      → is_claimable e.id e ≡ true
      → leb e.expires_at draw.now ≡ false
      → select_one (λ x. x.id == e.user_id) s.current.users ≡ some u
      → Distinct token_id s.current.refresh_tokens
      → All (λ t. t.id ≢ draw.id) s.current.refresh_tokens
      → select_one (has_hash (security.hash_token draw.raw)) s.current.refresh_tokens ≡ none
      → (s₁ s₂ : Session) × (refresh security (λ db. db) draw raw s ≡ (ok (pair draw s e u), s₁))
        × (refresh security others draw₂ raw s₁ ≡ (raised refresh_token_reuse_error, s₂))
        × IsEnded e.family_id s₂.saved.refresh_tokens
        × (s₂.saved ≡ s₂.current)
  unfolding get_by_token_hash
  refresh-IsEnded draw draw₂ others s e u found c x user d f h =
      let s₁ : Session = committed (set_tokens (after draw s e u) s.current) in
      (
        s₁,
        _,
        rotates draw s e u found c x user d f h,
        reused others draw₂ s₁ (set_replaced draw.id draw.now e) (rotated draw s e u found c) refl,
        revoke_family-IsEnded e.family_id draw₂.revoked_at (others s₁.current).refresh_tokens,
        refl,
      )
