-- ===== src/Tests/Tokens.antt =====
-- The theorems on authentication at a small database.
use verisure_ads_automation.Base.{
  ◌≡◌, refl, none, [], ◌∷◌, All, true, is_some, arith, select_one, insert_row,
}
use text.Mathlib.Text.{◌==◌ as str_eq}
use verisure_ads_automation.Exceptions.{refresh_token_reuse_error}
use verisure_ads_automation.Models.Identity.{RefreshToken}
use verisure_ads_automation.Session.{Database, Session, ok, raised}
use verisure_ads_automation.Auth.Repository.{get_by_token_hash, get_user_by_id}
use verisure_ads_automation.Auth.Service.{
  Security, TokenDraw, new_token, refresh, login, logout, logout_all,
}
use verisure_ads_automation.Auth.Rotation.{IsEnded, pair, refresh-IsEnded}
use verisure_ads_automation.Auth.Logout.{IsRefused, logout-IsRefused, logout_all-All}
use verisure_ads_automation.Auth.Login.{LoggedIn, login-LoggedIn}
use verisure_ads_automation.Tests.{database, a_tenant, a_user}

-- Libraries that hide nothing.
abbrev open_libraries : Security
open_libraries = record {
  hash_token = λ raw. raw;
  verify_password = λ password hash. str_eq password hash;
  create_access_token = λ user_id tenant_id. "access";
}

abbrev a_token : RefreshToken
a_token = record {
  id = 60;
  user_id = 2;
  family_id = 61;
  token_hash = "first";
  replaced_by_token_id = none;
  revoked_at = none;
  expires_at = 5000;
}

abbrev logged_in : Session
logged_in =
    let db : Database = record (database []) {
      tenants = a_tenant ∷ [];
      users = a_user ∷ [];
      refresh_tokens = a_token ∷ [];
    } in
    record { saved = db; current = db }

abbrev a_draw : TokenDraw
a_draw = record { id = 70; family_id = 71; raw = "second"; now = 100; revoked_at = 101 }

abbrev another_draw : TokenDraw
another_draw = record { id = 80; family_id = 81; raw = "third"; now = 200; revoked_at = 201 }

-- Another transaction issues one more token of the family.
abbrev issue_another : Database → Database
issue_another db = record db {
  refresh_tokens =
      insert_row (new_token open_libraries (record a_draw { id = 90; raw = "fourth" }) 2 61)
        db.refresh_tokens;
}

refresh_twice_example :
    (s₁ s₂ : Session) × (refresh open_libraries (λ db. db) a_draw "first" logged_in
      ≡ (ok (pair open_libraries "first" a_draw logged_in a_token a_user), s₁))
    × (refresh open_libraries issue_another another_draw "first" s₁
        ≡ (raised refresh_token_reuse_error, s₂))
    × IsEnded 61 s₂.saved.refresh_tokens
    × (s₂.saved ≡ s₂.current)
unfolding get_by_token_hash select_one
refresh_twice_example =
    refresh-IsEnded open_libraries "first" a_draw another_draw issue_another logged_in a_token
      a_user refl refl refl refl (tt, tt) ((λ e. ground arith), tt) refl

logout_example :
    (s₁ : Session) × (logout open_libraries 300 "first" logged_in ≡ (ok tt, s₁))
    × (s₁.saved ≡ s₁.current)
    × IsRefused (refresh open_libraries (λ db. db) a_draw "first" s₁).0
unfolding get_by_token_hash select_one
logout_example =
    logout-IsRefused open_libraries "first" 300 (λ db. db) a_draw logged_in a_token refl

logout_all_example :
    (s₁ : Session) × (logout_all 300 1 2 logged_in ≡ (ok tt, s₁))
    × (s₁.saved ≡ s₁.current)
    × All (λ t. t.user_id ≡ 2 → is_some t.revoked_at ≡ true) s₁.saved.refresh_tokens
unfolding get_user_by_id select_one
logout_all_example = logout_all-All 300 1 2 logged_in a_user refl

login_example :
    LoggedIn open_libraries a_draw "acme" "a@acme" "pw" logged_in
      (login open_libraries a_draw "acme" "a@acme" "pw" logged_in)
login_example = login-LoggedIn open_libraries a_draw "acme" "a@acme" "pw" logged_in
