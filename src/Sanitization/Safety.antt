-- ===== src/Sanitization/Safety.antt =====
-- What the sanitised messages of Sanitization can be.
use verisure_ads_automation.Base.{
  ◌≡◌, refl, Bool, true, false, Option, none, some, String, if◌then◌else◌,
}
use verisure_ads_automation.Base.Text.{Text, codes, is_blank}
use verisure_ads_automation.Exceptions.{ExceptionClass, Exception, is_temporary}
use verisure_ads_automation.Sanitization.{
  temporary_provider_error, is_safe_provider_message, classify, classify_text, by_text, by_class,
  sanitize_provider_exception, sanitize_provider_message,
}

abbrev pub IsSafe : String → Type 0
IsSafe message = is_safe_provider_message message ≡ true

branches-IsSafe : (rate auth temp suspicious : Bool) → IsSafe (classify rate auth temp suspicious)
unfolding is_safe_provider_message classify
branches-IsSafe true _ _ _ = refl
branches-IsSafe false true _ _ = refl
branches-IsSafe false false true _ = refl
branches-IsSafe false false false true = refl
branches-IsSafe false false false false = refl

classify_text-IsSafe : (text : Text) → IsSafe (classify_text text)
unfolding classify_text
classify_text-IsSafe text = branches-IsSafe _ _ _ _

if-IsSafe : (b : Bool) (x y : String) → IsSafe x → IsSafe y → IsSafe (if b then x else y)
if-IsSafe true x y p q = p
if-IsSafe false x y p q = q

by_text-IsSafe : (message : String) → IsSafe (by_text message)
by_text-IsSafe message =
    if-IsSafe (is_blank (codes message)) _ _ (unfold is_safe_provider_message in refl)
      (classify_text-IsSafe (codes message))

by_class-IsSafe : (class : ExceptionClass) (message : String) → IsSafe (by_class class message)
by_class-IsSafe ExceptionClass.credential_decryption message =
    unfold is_safe_provider_message in refl
by_class-IsSafe ExceptionClass.connection_not_found message =
    unfold is_safe_provider_message in refl
by_class-IsSafe class message =
    if-IsSafe (is_temporary class) temporary_provider_error (by_text message)
      (unfold is_safe_provider_message in refl) (by_text-IsSafe message)

-- Whatever exception is raised, the message that replaces it is one of the five allowed ones.
pub sanitize_provider_exception-IsSafe :
    (exc : Exception) → IsSafe (sanitize_provider_exception exc)
unfolding sanitize_provider_exception
sanitize_provider_exception-IsSafe exc = by_class-IsSafe exc.class exc.message

-- And so is the message that replaces an error text, or a missing one.
pub sanitize_provider_message-IsSafe :
    (raw : Option String) → IsSafe (sanitize_provider_message raw)
unfolding sanitize_provider_message is_safe_provider_message
sanitize_provider_message-IsSafe none = refl
sanitize_provider_message-IsSafe (some raw_message) = by_text-IsSafe raw_message
