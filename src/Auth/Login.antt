-- ===== src/Auth/Login.antt =====
-- AuthService.login: every branch.
use verisure_ads_automation.Base.{
  ◌≡◌, true, false, Option, none, some, String, arith, nat_eq, is_some, Bool-cases, Option-cases,
  select_one, insert_row, inl, inr,
}
use verisure_ads_automation.Exceptions.{integrity_error, invalid_credentials_error}
use verisure_ads_automation.Models.Identity.{Tenant, User, RefreshToken}
use verisure_ads_automation.Session.{Session, Result, ok, raised}
use verisure_ads_automation.Auth.Repository.{has_hash, get_by_slug, get_by_tenant_and_email, create}
use verisure_ads_automation.Auth.Service.{
  Security, TokenDraw, TokenPair, set_tokens, new_token, login,
}
use verisure_ads_automation.Auth.Rotation.{committed}

module _ (security : Security) (draw : TokenDraw) (slug email password : String) (s : Session) where
  abbrev call : Result TokenPair × Session
  call = login security draw slug email password s

  abbrev tenant_row : Option Tenant
  tenant_row = get_by_slug slug s.current.tenants

  abbrev user_row : Tenant → Option User
  user_row t = get_by_tenant_and_email t.id email s.current.users

  -- The constraint at the INSERT of the token.
  abbrev taken : Option RefreshToken
  taken = select_one (has_hash (security.hash_token draw.raw)) s.current.refresh_tokens

  abbrev Refused : Type 0
  Refused = call ≡ (raised invalid_credentials_error, s)

  no_tenant : tenant_row ≡ none → Refused
  unfolding login
  no_tenant e = ground arith

  tenant_deleted : (t : Tenant) → tenant_row ≡ some t → is_some t.deleted_at ≡ true → Refused
  unfolding login
  tenant_deleted t e d = ground arith

  no_user :
      (t : Tenant)
      → tenant_row ≡ some t
      → is_some t.deleted_at ≡ false
      → user_row t ≡ none
      → Refused
  unfolding login
  no_user t e d k = ground arith

  user_deleted :
      (t : Tenant) (u : User)
      → tenant_row ≡ some t
      → is_some t.deleted_at ≡ false
      → user_row t ≡ some u
      → is_some u.deleted_at ≡ true
      → Refused
  unfolding login
  user_deleted t u e d k x = ground arith

  wrong_password :
      (t : Tenant) (u : User)
      → tenant_row ≡ some t
      → is_some t.deleted_at ≡ false
      → user_row t ≡ some u
      → is_some u.deleted_at ≡ false
      → security.verify_password password u.hashed_password ≡ false
      → Refused
  unfolding login
  wrong_password t u e d k x p = ground arith

  -- A tenant and a user of it that are not deleted, and whose password it is.
  pub record IsAuthentic (t : Tenant) (u : User) : Type 0 where
    pub tenant : tenant_row ≡ some t
    pub tenant_active : is_some t.deleted_at ≡ false
    pub user : user_row t ≡ some u
    pub user_active : is_some u.deleted_at ≡ false
    pub verified : security.verify_password password u.hashed_password ≡ true

  issued :
      (t : Tenant) (u : User)
      → IsAuthentic t u
      → taken ≡ none
      → call ≡ (
        ok (record {
          access_token = security.create_access_token u.id t.id;
          refresh_token = draw.raw;
        }),
        committed (
            set_tokens
              (insert_row (new_token security draw u.id draw.family_id) s.current.refresh_tokens)
              s.current),
      )
  unfolding login create new_token
  issued t u h f =
      let a = h.tenant in
      let b = h.tenant_active in
      let c = h.user in let d = h.user_active in let e = h.verified in ground arith

  collided :
      (t : Tenant) (u : User) (x : RefreshToken)
      → IsAuthentic t u
      → taken ≡ some x
      → call
        ≡ (raised (record { class = integrity_error; message = "token_hash" }), committed s.saved)
  unfolding login create new_token
  collided t u x h f =
      let a = h.tenant in
      let b = h.tenant_active in
      let c = h.user in let d = h.user_active in let e = h.verified in ground arith

  -- The ways that a call can end.
  pub data LoggedIn : Result TokenPair × Session → Type 0 where
    is_refused :
        (r : Result TokenPair × Session) → r ≡ (raised invalid_credentials_error, s) → LoggedIn r
    is_issued :
        (r : Result TokenPair × Session) (t : Tenant) (u : User)
        → IsAuthentic t u
        → r ≡ (
          ok (record {
            access_token = security.create_access_token u.id t.id;
            refresh_token = draw.raw;
          }),
          committed (
              set_tokens
                (insert_row (new_token security draw u.id draw.family_id) s.current.refresh_tokens)
                s.current),
        )
        → LoggedIn r
    is_taken :
        (r : Result TokenPair × Session) (t : Tenant) (u : User) (x : RefreshToken)
        → IsAuthentic t u
        → taken ≡ some x
        → r
          ≡ (raised (record { class = integrity_error; message = "token_hash" }), committed s.saved)
        → LoggedIn r

  -- Every branch. A pair of tokens is given out only for a tenant and a user of it that both exist
  -- and are not deleted, and whose password is the one given; the stored token is then that of a
  -- new family, and is committed. In every other case the error is the same, whichever check
  -- failed, and nothing changes. Only a hash that is already stored makes the INSERT fail, and then
  -- the transaction is rolled back.
  pub login-LoggedIn : LoggedIn call
  login-LoggedIn = elim (Option-cases tenant_row) [
    | inl e ↦ LoggedIn.is_refused _ (no_tenant e)
    | inr (t, e) ↦ elim (Bool-cases (is_some t.deleted_at)) [
      | inl d ↦ LoggedIn.is_refused _ (tenant_deleted t e d)
      | inr d ↦ elim (Option-cases (user_row t)) [
        | inl k ↦ LoggedIn.is_refused _ (no_user t e d k)
        | inr (u, k) ↦ elim (Bool-cases (is_some u.deleted_at)) [
          | inl x ↦ LoggedIn.is_refused _ (user_deleted t u e d k x)
          | inr x ↦ elim (Bool-cases (security.verify_password password u.hashed_password)) [
            | inr p ↦ LoggedIn.is_refused _ (wrong_password t u e d k x p)
            | inl p ↦
                stored t u (record {
                  tenant = e;
                  tenant_active = d;
                  user = k;
                  user_active = x;
                  verified = p;
                })
          ]
        ]
      ]
    ]
  ]
    where
      stored : (t : Tenant) (u : User) → IsAuthentic t u → LoggedIn call
      stored t u h = elim (Option-cases taken) [
        | inl f ↦ LoggedIn.is_issued _ t u h (issued t u h f)
        | inr (x, f) ↦ LoggedIn.is_taken _ t u x h f (collided t u x h f)
      ]
