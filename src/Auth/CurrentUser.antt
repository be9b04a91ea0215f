-- ===== src/Auth/CurrentUser.antt =====
-- get_current_user: who is let in, and how others are refused.
use verisure_ads_automation.Base.{
  ◌≡◌, ◌⊎◌, sym, ◌∙◌, inl, inr, refl, true, false, ◌||◌, Option, none, some, String, arith,
  Bool-cases, Option-cases,
}
use text.Mathlib.TextEquality.{eq_iff}
use verisure_ads_automation.Exceptions.{Exception}
use verisure_ads_automation.Models.Provider.{Uuid, Instant}
use verisure_ads_automation.Models.Identity.{Tenant, User}
use verisure_ads_automation.Session.{Session, Result, ok, raised}
use verisure_ads_automation.Auth.Repository.{get_tenant_by_id, get_user_by_id}
use verisure_ads_automation.Auth.Jwt.{
  JwtSettings, JwtLibrary, Claims, Claim, str, other, is_access, decode_access_token,
}
use verisure_ads_automation.Auth.Access.{unauthorized, is_falsy, get_current_user}
use verisure_ads_automation.Auth.Grants.{Grants, Grants-ok, Refused, IsOdd}

is_ok-raised :
    {A : Type 0} {a : A} {e : Exception} {s t : Session}
    → ◌≡◌ {A = Result A × Session} (ok a, s) (raised e, t)
    → ⊥
is_ok-raised p = cc

module _ (lib : JwtLibrary) (settings : JwtSettings) (now : Instant) (token : String)
    (s : Session) where
  abbrev Resolved : Type 0
  Resolved =
      ((user : User) × (get_current_user lib settings now token s ≡ (ok user, s))
        × Grants lib settings now token s user)
      ⊎ (Refused lib settings now token s (get_current_user lib settings now token s)
          ⊎ IsOdd lib settings now token s (get_current_user lib settings now token s))

  decoded-IsAccess :
      (claims : Claims)
      → decode_access_token lib settings now token ≡ some claims
      → is_access (claims "type") ≡ true
  unfolding decode_access_token
  decoded-IsAccess claims e = ground arith

  module _ (claims : Claims) (e : decode_access_token lib settings now token ≡ some claims) where
    after_users :
        (a b : String) (t u : Uuid) (tenant : Tenant)
        → claims "tenant_id" ≡ some (str a)
        → claims "sub" ≡ some (str b)
        → is_falsy (claims "tenant_id") ≡ false
        → is_falsy (claims "sub") ≡ false
        → lib.parse_uuid a ≡ some t
        → lib.parse_uuid b ≡ some u
        → get_tenant_by_id t s.current.tenants ≡ some tenant
        → tenant.deleted_at ≡ none
        → Resolved
    unfolding get_current_user
    after_users a b t u tenant p q f g x y found active =
        let typed = decoded-IsAccess claims e in
        elim (Option-cases (get_user_by_id t u s.current.users)) [
          | inl r ↦ inr (inl ("User not found.", ground arith))
          | inr (user, r) ↦ elim (Option-cases user.deleted_at) [
            | inr (d, k) ↦ inr (inl ("User is inactive.", ground arith))
            | inl k ↦
                let grants : Grants lib settings now token s user = record {
                  claims = claims;
                  raw_tenant_id = a;
                  raw_user_id = b;
                  tenant_id = t;
                  user_id = u;
                  tenant = tenant;
                  decoded = e;
                  typed = typed;
                  tenant_claim = p;
                  user_claim = q;
                  tenant_not_empty = λ z. ground (arith, eq_iff a "");
                  user_not_empty = λ z. ground (arith, eq_iff b "");
                  tenant_parsed = x;
                  user_parsed = y;
                  tenant_found = found;
                  tenant_active = active;
                  user_found = r;
                  user_active = k;
                } in
                inl (user, Grants-ok lib settings now token s user grants, grants)
          ]
        ]

    after_uuids :
        (a b : String) (t u : Uuid)
        → claims "tenant_id" ≡ some (str a)
        → claims "sub" ≡ some (str b)
        → is_falsy (claims "tenant_id") ≡ false
        → is_falsy (claims "sub") ≡ false
        → lib.parse_uuid a ≡ some t
        → lib.parse_uuid b ≡ some u
        → Resolved
    unfolding get_current_user
    after_uuids a b t u p q f g x y =
        let typed = decoded-IsAccess claims e in
        elim (Option-cases (get_tenant_by_id t s.current.tenants)) [
          | inl r ↦ inr (inl ("Tenant not found.", ground arith))
          | inr (tenant, r) ↦ elim (Option-cases tenant.deleted_at) [
            | inr (d, k) ↦ inr (inl ("Tenant is inactive.", ground arith))
            | inl k ↦ after_users a b t u tenant p q f g x y r k
          ]
        ]

    after_tenant_id :
        (a : String) (t : Uuid)
        → claims "tenant_id" ≡ some (str a)
        → is_falsy (claims "tenant_id") ≡ false
        → is_falsy (claims "sub") ≡ false
        → lib.parse_uuid a ≡ some t
        → (c : Option Claim) → claims "sub" ≡ c
        → Resolved
    unfolding get_current_user
    after_tenant_id a t p f g x none q = absurd (ground arith)
    after_tenant_id a t p f g x (some (other truth)) q =
        let typed = decoded-IsAccess claims e in
        inr (
          inr (record {
            claims = claims;
            truth = truth;
            decoded = e;
            odd = inr q;
            result = ground arith;
          }))
    after_tenant_id a t p f g x (some (str b)) q =
        let typed = decoded-IsAccess claims e in
        elim (Option-cases (lib.parse_uuid b)) [
          | inl y ↦ inr (inl ("Malformed token claims.", ground arith))
          | inr (u, y) ↦ after_uuids a b t u p q f g x y
        ]

    after_claims :
        is_falsy (claims "tenant_id") ≡ false
        → is_falsy (claims "sub") ≡ false
        → (c : Option Claim) → claims "tenant_id" ≡ c
        → Resolved
    unfolding get_current_user
    after_claims f g none p = absurd (ground arith)
    after_claims f g (some (other truth)) p =
        let typed = decoded-IsAccess claims e in
        inr (
          inr (record {
            claims = claims;
            truth = truth;
            decoded = e;
            odd = inl p;
            result = ground arith;
          }))
    after_claims f g (some (str a)) p =
        let typed = decoded-IsAccess claims e in
        elim (Option-cases (lib.parse_uuid a)) [
          | inl x ↦ inr (inl ("Malformed token claims.", ground arith))
          | inr (t, x) ↦ after_tenant_id a t p f g x (claims "sub") refl
        ]

    malformed :
        (is_falsy (claims "tenant_id") || is_falsy (claims "sub")) ≡ true
        → get_current_user lib settings now token s
          ≡ (raised (unauthorized "Malformed token claims."), s)
    unfolding get_current_user
    malformed f = let typed = decoded-IsAccess claims e in ground arith

    after_decode : Resolved
    after_decode = elim (Bool-cases (is_falsy (claims "tenant_id"))) [
      | inl f ↦ inr (inl ("Malformed token claims.", malformed (rw f refl)))
      | inr f ↦ elim (Bool-cases (is_falsy (claims "sub"))) [
        | inl g ↦ inr (inl ("Malformed token claims.", malformed (rw (f, g) refl)))
        | inr g ↦ after_claims f g (claims "tenant_id") refl
      ]
    ]

  outcome : Resolved
  unfolding get_current_user
  outcome = elim (Option-cases (decode_access_token lib settings now token)) [
    | inl e ↦ inr (inl ("Invalid or expired access token.", ground arith))
    | inr (claims, e) ↦ after_decode claims e
  ]

  -- Exactly three things can happen to a request with an access token, and none changes the
  -- session. It is let in as a user that the token grants: it decodes to claims of type "access"
  -- whose texts are the UUIDs of a tenant and of a user of that tenant, both there and neither
  -- deleted. Or the token grants no user, and the request is refused with 401; or it grants no
  -- user, a signed claim that should be the text of a UUID is another value, and an AttributeError
  -- is raised.
  pub get_current_user-Resolved :
      ((user : User) × (get_current_user lib settings now token s ≡ (ok user, s))
        × Grants lib settings now token s user)
      ⊎ ((¬ ((user : User) × Grants lib settings now token s user))
          × (Refused lib settings now token s (get_current_user lib settings now token s)
              ⊎ IsOdd lib settings now token s (get_current_user lib settings now token s)))
  get_current_user-Resolved = elim outcome [
    | inl let_in ↦ inl let_in
    | inr (inl (message, e)) ↦ inr (
      λ (user, g).
          let granted = Grants-ok lib settings now token s user g in
          absurd (is_ok-raised (sym granted ∙ e)),
      inl (message, e),
    )
    | inr (inr odd) ↦ inr (
      λ (user, g).
          let granted = Grants-ok lib settings now token s user g in
          absurd (is_ok-raised (sym granted ∙ odd.result)),
      inr odd,
    )
  ]
