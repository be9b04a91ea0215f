-- ===== src/Observability/Headers.antt =====
-- What the header assignment of app/middleware/request_context.py does to the headers of a
-- response.
use verisure_ads_automation.Base.{
  ◌≡◌, refl, ap, List, [], ◌∷◌, arith, nat_eq, if◌then◌else◌, Bool-cases, inl, inr,
}
use verisure_ads_automation.Base.Text.{Text, lower}
use verisure_ads_automation.Base.Text.Membership.{text_eqb_refl}
use verisure_ads_automation.Observability.Middleware.{Headers, is_header, remove_header, set_header}

-- The values of a header.
pub values_of : Text → Headers → List Text
values_of name [] = []
values_of name ((n, v) ∷ headers) =
    let rest = values_of name headers in if is_header name n then v ∷ rest else rest

values-remove : (name : Text) (headers : Headers) → values_of name (remove_header name headers) ≡ []
unfolding values_of remove_header
values-remove name [] = refl
values-remove name ((n, v) ∷ headers) = ground (arith, values-remove name headers)

pub values-set :
    (name value : Text) (headers : Headers)
    → lower (lower name) ≡ lower name
    → values_of name (set_header name value headers) ≡ value ∷ []
unfolding values_of set_header
values-set name value [] e = rw (e, text_eqb_refl (lower name)) refl
values-set name value ((n, v) ∷ headers) e = elim (Bool-cases (is_header name n)) [
  | inl t ↦ rw (t, e, text_eqb_refl (lower name), values-remove name headers) refl
  | inr t ↦ rw (t, t) (values-set name value headers e)
]

remove_twice :
    (name : Text) (headers : Headers)
    → remove_header name (remove_header name headers) ≡ remove_header name headers
unfolding remove_header
remove_twice name [] = refl
remove_twice name ((n, v) ∷ headers) = elim (Bool-cases (is_header name n)) [
  | inl t ↦ rw t (remove_twice name headers)
  | inr t ↦ rw (t, t) (ap (λ rest. (n, v) ∷ rest) (remove_twice name headers))
]

pub remove-set :
    (name value : Text) (headers : Headers)
    → lower (lower name) ≡ lower name
    → remove_header name (set_header name value headers) ≡ remove_header name headers
unfolding remove_header set_header
remove-set name value [] e = rw (e, text_eqb_refl (lower name)) refl
remove-set name value ((n, v) ∷ headers) e = elim (Bool-cases (is_header name n)) [
  | inl t ↦ rw (t, e, text_eqb_refl (lower name)) (remove_twice name headers)
  | inr t ↦ rw (t, t) (ap (λ rest. (n, v) ∷ rest) (remove-set name value headers e))
]
