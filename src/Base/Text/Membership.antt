-- ===== src/Base/Text/Membership.antt =====
-- Equality of texts and membership in a list of texts.
use mathlib.Core.Path.{◌≡◌, refl}
use mathlib.Core.Logic.{inl, inr}
use mathlib.Core.Bool.{true}
use mathlib.Core.List.{List, [], ◌∷◌}
use native.Mathlib.Omega.{arith}
use verisure_ads_automation.Base.Tests.{nat_eq}
use verisure_ads_automation.Base.Order.{In}
use verisure_ads_automation.Base.Text.{Text, text_eqb, is_one_of}

pub text_eqb_refl : (t : Text) → text_eqb t t ≡ true
unfolding text_eqb
text_eqb_refl [] = refl
text_eqb_refl (c ∷ t) = ground (arith, text_eqb_refl t)

pub text_eqb_sound : (t u : Text) → text_eqb t u ≡ true → t ≡ u
unfolding text_eqb
text_eqb_sound [] [] e = refl
text_eqb_sound (c ∷ t) (d ∷ u) e = ground (arith, text_eqb_sound t u)
text_eqb_sound [] (d ∷ u) e = cc
text_eqb_sound (c ∷ t) [] e = cc

pub In-is_one_of : (t : Text) (us : List Text) → is_one_of t us ≡ true → In t us
unfolding is_one_of
In-is_one_of t [] e = cc
In-is_one_of t (u ∷ us) e = ground (arith, text_eqb_sound t u, In-is_one_of t us)

pub is_one_of-In : (t : Text) (us : List Text) → In t us → is_one_of t us ≡ true
unfolding is_one_of
is_one_of-In t [] m = absurd m
is_one_of-In t (u ∷ us) (inl e) = ground (arith, text_eqb_refl t)
is_one_of-In t (u ∷ us) (inr m) = ground (arith, is_one_of-In t us m)
