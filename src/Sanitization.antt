-- ===== src/Sanitization.antt =====
-- app/core/provider_error_sanitization.py: every provider error is replaced by one of five fixed
-- messages before it is stored or shown.
mod Keywords
pub mod Safety
pub mod Priority
use Keywords.{auth_keywords, rate_keywords, temp_keywords, sensitive_markers}
use verisure_ads_automation.Base.{
  Bool, true, false, ◌&&◌, ◌||◌, Option, none, some, String, List, [], ◌∷◌, if◌then◌else◌, Eq, ◌==◌,
  nat_eq,
}
use verisure_ads_automation.Base.Text.{Text, codes, lower, strip, contains, contains_any, is_blank}
use verisure_ads_automation.Exceptions.{ExceptionClass, Exception, is_temporary}
use mathlib.Core.List.{reverse}
use text.Mathlib.Text.{◌==◌ as str_eq}

abbrev pub provider_request_failed : String
provider_request_failed = "Provider request failed."

abbrev pub authentication_failed : String
authentication_failed = "Authentication with provider failed."

abbrev pub rate_limit_exceeded : String
rate_limit_exceeded = "Provider rate limit exceeded."

abbrev pub temporary_provider_error : String
temporary_provider_error = "Temporary provider error."

abbrev pub unexpected_provider_error : String
unexpected_provider_error = "Unexpected provider error."

unfoldable pub is_safe_provider_message : String → Bool
is_safe_provider_message message =
    str_eq message provider_request_failed
    || str_eq message authentication_failed
    || str_eq message rate_limit_exceeded
    || str_eq message temporary_provider_error
    || str_eq message unexpected_provider_error

pub looks_like_stack : Text → Bool
looks_like_stack text =
    contains text (codes "Traceback (most recent call last)")
    || contains text (10 ∷ codes "  File \"")

-- `stripped[0] in "{["` and `stripped[-1] in "}]"`
abbrev opens : Text → Bool
opens [] = false
opens (c ∷ _) = c == b'{' || c == b'['

abbrev closes : Text → Bool
closes [] = false
closes (c ∷ _) = c == b'}' || c == b']'

pub looks_like_json_stripped : Text → Bool
looks_like_json_stripped [] = false
looks_like_json_stripped (c ∷ t) =
    let stripped = c ∷ t in
    if opens stripped && closes (reverse stripped)
    then true
    else contains (lower stripped) (codes "\"error\"") && contains stripped (codes "{")

pub looks_like_json : Text → Bool
unfolding looks_like_json_stripped
looks_like_json text = looks_like_json_stripped (strip text)

-- The tests of `_classify_text`, in their order.
pub classify : Bool → Bool → Bool → Bool → String
classify rate auth temp suspicious =
    if rate
    then rate_limit_exceeded
    else if auth
    then authentication_failed
    else if temp
    then temporary_provider_error
    else if suspicious
    then unexpected_provider_error
    else provider_request_failed

-- `_classify_text`
pub classify_text : Text → String
unfolding looks_like_stack looks_like_json classify
classify_text text =
    let lowered = lower text in
    classify (contains_any lowered rate_keywords) (contains_any lowered auth_keywords)
      (contains_any lowered temp_keywords)
      (contains_any lowered sensitive_markers || looks_like_stack text || looks_like_json text)

-- The classification by class, then by text.
abbrev pub by_text : String → String
by_text message =
    if is_blank (codes message) then unexpected_provider_error else classify_text (codes message)

abbrev pub by_class : ExceptionClass → String → String
by_class ExceptionClass.credential_decryption message = authentication_failed
by_class ExceptionClass.connection_not_found message = authentication_failed
by_class class message = if is_temporary class then temporary_provider_error else by_text message

unfoldable pub sanitize_provider_exception : Exception → String
sanitize_provider_exception exc = by_class exc.class exc.message

unfoldable pub sanitize_provider_message : Option String → String
sanitize_provider_message none = unexpected_provider_error
sanitize_provider_message (some raw_message) = by_text raw_message
