-- ===== src/Api/SignIn.antt =====
-- From POST /auth/login to the user of a later request.
use verisure_ads_automation.Base.{
  ◌+◌, ◌*◌, ◌≤◌, ◌≡◌, refl, ap, true, false, ◌&&◌, Option, none, some, String, List, arith, nat_eq,
  ◌==◌, nat_eqb_iff, nat_eqb_refl, is_some, select_one-holds, select_one-In, select_one_of_In,
  select_one-fits, Distinct, subst,
}
use text.Mathlib.Text.{◌==◌ as str_eq}
use text.Mathlib.TextEquality.{eq_iff}
use verisure_ads_automation.Models.Provider.{Uuid}
use verisure_ads_automation.Models.Identity.{Tenant, User}
use verisure_ads_automation.Session.{Database, ok}
use verisure_ads_automation.Auth.Repository.{
  get_by_slug, get_by_tenant_and_email, get_tenant_by_id, get_user_by_id,
}
use verisure_ads_automation.Auth.Service.{TokenDraw, TokenPair}
use verisure_ads_automation.Auth.Jwt.{IsFaithful, new_payload, create_access_token}
use verisure_ads_automation.Auth.AccessTokens.{get_current_user-create_access_token}
use verisure_ads_automation.Auth.Login.{LoggedIn, IsAuthentic, login-LoggedIn}
use verisure_ads_automation.Api.Requests.{Server, Request, current_user, security}
use verisure_ads_automation.Api.Responses.{content, serve}
use verisure_ads_automation.Api.SameRows.{session_of}
use verisure_ads_automation.Api.Routes.{login}

is_none : {A : Type 0} {x : Option A} → is_some x ≡ false → x ≡ none
is_none {x = none} e = refl
is_none {x = some a} e = cc

tenant_is_found :
    (slug : String) (t : Tenant) (rows : List Tenant)
    → Distinct (λ r. r.id) rows
    → get_by_slug slug rows ≡ some t
    → get_tenant_by_id t.id rows ≡ some t
unfolding get_by_slug get_tenant_by_id
tenant_is_found slug t rows d e =
    select_one_of_In (λ r. r.id) t rows (select_one-In (λ r. str_eq r.slug slug) rows t e) d

user_is_found :
    (tenant_id : Uuid) (email : String) (u : User) (rows : List User)
    → Distinct (λ r. r.id) rows
    → get_by_tenant_and_email tenant_id email rows ≡ some u
    → (get_user_by_id tenant_id u.id rows ≡ some u) × (u.email ≡ email) × (u.tenant_id ≡ tenant_id)
unfolding get_by_tenant_and_email get_user_by_id
user_is_found tenant_id email u rows d e =
    let holds = select_one-holds (λ r. r.tenant_id == tenant_id && str_eq r.email email) rows e in
    let there = select_one-In (λ r. r.tenant_id == tenant_id && str_eq r.email email) rows u e in
    (
      select_one-fits (λ r. r.id) (λ r. r.tenant_id == tenant_id && r.id == u.id) u rows there
          (ground (arith, nat_eqb_refl u.id)) (λ r h. ground arith) d,
      ground (arith, eq_iff u.email email),
      ground (arith, nat_eqb_iff u.tenant_id tenant_id),
    )

module _ (server : Server) (request later : Request) (jti : Uuid) (draw : TokenDraw)
    (slug email password : String) (db db' : Database) (pair : TokenPair)
    (faithful : (t : Tenant) (u : User)
      → get_by_slug slug db.tenants ≡ some t
      → get_by_tenant_and_email t.id email db.users ≡ some u
      → IsFaithful server.jwt
          (new_payload server.jwt server.jwt_settings request.now jti u.id t.id)
          server.jwt_settings.secret_key
          server.jwt_settings.algorithm)
    (tenants : Distinct (λ t. t.id) db.tenants) (users : Distinct (λ u. u.id) db.users) where
  signed_in :
      (t : Tenant) (u : User)
      → IsAuthentic (security server request.now jti) draw slug email password (session_of db) t u
      → (token : String) → later.token ≡ some token
      → token ≡ create_access_token server.jwt server.jwt_settings request.now jti u.id t.id
      → request.now ≤ later.now
      → later.now + 1000000
        ≤ request.now + server.jwt_settings.access_token_expire_minutes * 60000000
      → get_tenant_by_id t.id db'.tenants ≡ some t
      → get_user_by_id t.id u.id db'.users ≡ some u
      → current_user server later (session_of db') ≡ (ok u, session_of db')
  unfolding current_user
  signed_in t u a token bearer same now soon found there =
      let x =
        get_current_user-create_access_token server.jwt server.jwt_settings request.now later.now
          jti t u (session_of db') (faithful t u a.tenant a.user) now soon found
          (is_none a.tenant_active) there (is_none a.user_active) in
      rw (bearer, same) x

  -- Where ids are distinct, whoever logs in with a slug, an email address and a password, and then
  -- makes a request with the access token of the answer, until a second before it expires, is the
  -- user of that email address, in the tenant of that slug, with that password. PyJWT is
  -- taken to decode the token that it signed for that user, and UUIDs to print and parse.
  pub login-current_user :
      serve 200 (login server request jti draw slug email password) db ≡ (content 200 pair, db')
      → later.token ≡ some pair.access_token
      → request.now ≤ later.now
      → later.now + 1000000
        ≤ request.now + server.jwt_settings.access_token_expire_minutes * 60000000
      → (tenant : Tenant) × (user : User) × (current_user server later (session_of db')
          ≡ (ok user, session_of db'))
        × (get_by_slug slug db.tenants ≡ some tenant)
        × (user.tenant_id ≡ tenant.id)
        × (user.email ≡ email)
        × (server.verify_password password user.hashed_password ≡ true)
  unfolding serve login current_user
  login-current_user answered bearer now soon =
      elim (login-LoggedIn (security server request.now jti) draw slug email password
        (session_of db)) [
          | LoggedIn.is_refused _ e ↦ cc (rw e at answered)
          | LoggedIn.is_taken _ t u x a f e ↦ cc (rw e at answered)
          | LoggedIn.is_issued _ t u a e ↦
              let found = user_is_found t.id email u db.users users a.user in
              let q = rw e at answered in
              (
                t,
                u,
                signed_in t u a pair.access_token bearer (cc) now soon
                    (subst (λ (d : Database). get_tenant_by_id t.id d.tenants ≡ some t)
                      (ap (λ r. r.1) q) (tenant_is_found slug t db.tenants tenants a.tenant))
                    (subst (λ (d : Database). get_user_by_id t.id u.id d.users ≡ some u)
                      (ap (λ r. r.1) q) found.0),
                a.tenant,
                found.2,
                found.1,
                a.verified,
              )
        ]
