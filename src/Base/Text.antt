-- ===== src/Base/Text.antt =====
-- The part of Python's `str` that the program uses to inspect texts, over code points. Case and
-- white space are those of ASCII.
pub mod Search
pub mod Membership
use Prim.Native.Nat.{ℕ, ◌+◌, ◌-◌}
use Prim.Native.Char.{code}
use Prim.Native.String.{String}
use mathlib.Core.Bool.{Bool, true, false, ◌&&◌, ◌||◌}
use mathlib.Core.List.{List, [], ◌∷◌, map, reverse}
use verisure_ads_automation.Base.Tests.{leb, ◌==◌, nat_eq, if◌then◌else◌}

abbrev pub Text : Type 0
Text = List ℕ

abbrev pub codes : String → Text
codes String.[] = []
codes (String.◌∷◌ c s) = code c ∷ codes s

abbrev pub is_space : ℕ → Bool
is_space c = (leb 9 c && leb c 13) || (leb 28 c && leb c 32)

abbrev lower_code : ℕ → ℕ
lower_code c = if leb b'A' c && leb c b'Z' then c + 32 else c

-- `text.lower()`
unfoldable pub lower : Text → Text
lower = map lower_code

abbrev upper_code : ℕ → ℕ
upper_code c = if leb b'a' c && leb c b'z' then c - 32 else c

-- `text.upper()`
unfoldable pub upper : Text → Text
upper = map upper_code

-- `text == other`
unfoldable pub text_eqb : Text → Text → Bool
text_eqb [] [] = true
text_eqb (c ∷ t) (d ∷ u) = c == d && text_eqb t u
text_eqb _ _ = false

-- `text in texts`
unfoldable pub is_one_of : Text → List Text → Bool
unfolding text_eqb
is_one_of t [] = false
is_one_of t (u ∷ us) = text_eqb t u || is_one_of t us

unfoldable pub strip_left : Text → Text
strip_left [] = []
strip_left (c ∷ t) = if is_space c then strip_left t else c ∷ t

-- `text.strip()`
unfoldable pub strip : Text → Text
unfolding strip_left
strip t = reverse (strip_left (reverse (strip_left t)))

-- `text.startswith(prefix)`
unfoldable pub starts_with : Text → Text → Bool
starts_with t [] = true
starts_with [] (p ∷ ps) = false
starts_with (c ∷ t) (p ∷ ps) = c == p && starts_with t ps

-- `needle in text`
unfoldable pub contains : Text → Text → Bool
unfolding starts_with
contains [] needle = starts_with [] needle
contains (c ∷ t) needle = starts_with (c ∷ t) needle || contains t needle

-- `any(needle in text for needle in needles)`
unfoldable pub contains_any : Text → List Text → Bool
unfolding contains
contains_any t [] = false
contains_any t (n ∷ ns) = contains t n || contains_any t ns

-- `not text`
abbrev pub is_empty : Text → Bool
is_empty [] = true
is_empty (_ ∷ _) = false

-- `text.strip()` is falsy
unfoldable pub is_blank : Text → Bool
unfolding strip
is_blank t = is_empty (strip t)
