-- ===== src/Observability.antt =====
-- app/core/logging_context.py: the fields that are bound to log records of a request or an iteration
-- of the worker. The context variable is passed on as a state.
pub mod Middleware
pub mod RequestIds
pub mod Headers
pub mod Contained
use verisure_ads_automation.Base.{ℕ, Option, none, some, String, List, [], ◌∷◌, if◌then◌else◌}
use text.Mathlib.Text.{◌==◌ as str_eq}
use verisure_ads_automation.Base.Text.{Text}

-- A value that the program binds.
pub data Value : Type 0 where
  str : Text → Value
  int : ℕ → Value

abbrev pub Fields : Type 0
Fields = List (String × Value)

-- `_LOG_CONTEXT`, and a token of it: the value before.
abbrev pub Context : Type 0
Context = Option Fields

unfoldable pub get_context : Context → Fields
get_context none = []
get_context (some fields) = fields

-- `merged[key] = value`, which keeps the place of a key that is there.
unfoldable pub set_field : String → Value → Fields → Fields
set_field key value [] = (key, value) ∷ []
set_field key value ((k, v) ∷ fields) =
    if str_eq k key then (k, value) ∷ fields else (k, v) ∷ set_field key value fields

-- A field that is None is passed over.
abbrev pub set_if_some : String → Option Value → Fields → Fields
set_if_some key none fields = fields
set_if_some key (some value) fields = set_field key value fields

unfoldable pub merge : List (String × Option Value) → Fields → Fields
merge [] merged = merged
merge ((key, value) ∷ fields) merged = merge fields (set_if_some key value merged)

-- The token, and the context after.
unfoldable pub bind : List (String × Option Value) → Context → Context × Context
unfolding get_context merge set_field
bind fields context = (context, some (merge fields (get_context context)))

abbrev pub clear : Context → Context
clear context = none

abbrev pub reset : Context → Context → Context
reset token context = token
