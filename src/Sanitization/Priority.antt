-- ===== src/Sanitization/Priority.antt =====
-- The order in which Sanitization consults its keyword tables.
use verisure_ads_automation.Base.{
  ◌≡◌, refl, Bool, true, false, ◌||◌, inl, inr, Bool-cases, String, List,
}
use verisure_ads_automation.Base.Text.{Text, lower, contains_any}
use verisure_ads_automation.Base.Text.Search.{
  AnyOccurs, contains_any_of_AnyOccurs, AnyOccurs-of_contains_any,
}
use verisure_ads_automation.Sanitization.Keywords.{
  auth_keywords, rate_keywords, temp_keywords, sensitive_markers,
}
use verisure_ads_automation.Sanitization.{
  rate_limit_exceeded, authentication_failed, temporary_provider_error, unexpected_provider_error,
  provider_request_failed, looks_like_stack, looks_like_json, classify, classify_text,
}

-- Which message a text gets, by what occurs in it.
pub data Classified (text : Text) (message : String) : Type 0 where
  by_rate :
      AnyOccurs rate_keywords (lower text) → message ≡ rate_limit_exceeded → Classified text message
  by_auth :
      ¬ AnyOccurs rate_keywords (lower text)
      → AnyOccurs auth_keywords (lower text)
      → message ≡ authentication_failed
      → Classified text message
  by_temp :
      ¬ AnyOccurs rate_keywords (lower text)
      → ¬ AnyOccurs auth_keywords (lower text)
      → AnyOccurs temp_keywords (lower text)
      → message ≡ temporary_provider_error
      → Classified text message
  withheld :
      ¬ AnyOccurs rate_keywords (lower text)
      → ¬ AnyOccurs auth_keywords (lower text)
      → ¬ AnyOccurs temp_keywords (lower text)
      → message ≡ unexpected_provider_error
      → Classified text message
  plain :
      ¬ AnyOccurs rate_keywords (lower text)
      → ¬ AnyOccurs auth_keywords (lower text)
      → ¬ AnyOccurs temp_keywords (lower text)
      → ¬ AnyOccurs sensitive_markers (lower text)
      → looks_like_stack text ≡ false
      → looks_like_json text ≡ false
      → message ≡ provider_request_failed
      → Classified text message

absent :
    (needles : List Text) (text : Text)
    → contains_any text needles ≡ false
    → ¬ AnyOccurs needles text
absent needles text e o = differ (contains_any_of_AnyOccurs needles text o) e
  where
    differ : {b : Bool} → b ≡ true → b ≡ false → ⊥
    differ h h' = cc

-- A text in which a rate-limit keyword occurs, in any case, is classified as a rate limit, whatever
-- else it holds; without one, an authentication keyword decides; without either, a keyword of
-- temporary errors does. Without any of them the text is withheld, or reported as a failed request,
-- which it is only where no marker of a secret occurs and it looks neither like a stack trace nor
-- like JSON.
pub classify_text-Classified : (text : Text) → Classified text (classify_text text)
unfolding classify_text classify
classify_text-Classified text =
    let low = lower text in
    elim (Bool-cases (contains_any low rate_keywords)) [
      | inl r ↦ Classified.by_rate (AnyOccurs-of_contains_any rate_keywords low r) (rw r)
      | inr r ↦ elim (Bool-cases (contains_any low auth_keywords)) [
        | inl a ↦
            Classified.by_auth (absent rate_keywords low r)
              (AnyOccurs-of_contains_any auth_keywords low a) (rw (r, a))
        | inr a ↦ elim (Bool-cases (contains_any low temp_keywords)) [
          | inl t ↦
              Classified.by_temp (absent rate_keywords low r) (absent auth_keywords low a)
                (AnyOccurs-of_contains_any temp_keywords low t) (rw (r, a, t))
          | inr t ↦
              rest (absent rate_keywords low r) (absent auth_keywords low a)
                (absent temp_keywords low t) (contains_any low sensitive_markers) refl
                (looks_like_stack text) refl (looks_like_json text) refl (rw (r, a, t))
        ]
      ]
    ]
  where
    rest :
        ¬ AnyOccurs rate_keywords (lower text)
        → ¬ AnyOccurs auth_keywords (lower text)
        → ¬ AnyOccurs temp_keywords (lower text)
        → (m : Bool) → contains_any (lower text) sensitive_markers ≡ m
        → (k : Bool) → looks_like_stack text ≡ k
        → (j : Bool) → looks_like_json text ≡ j
        → classify_text text
          ≡ classify false false false (
              contains_any (lower text) sensitive_markers
              || looks_like_stack text
              || looks_like_json text)
        → Classified text (classify_text text)
    rest r a t false m false k false j e =
        Classified.plain r a t (absent sensitive_markers (lower text) m) k j (rw (e, m, k, j))
    rest r a t true m k₁ k j₁ j e = Classified.withheld r a t (rw (e, m))
    rest r a t false m true k j₁ j e = Classified.withheld r a t (rw (e, m, k))
    rest r a t false m false k true j e = Classified.withheld r a t (rw (e, m, k, j))
