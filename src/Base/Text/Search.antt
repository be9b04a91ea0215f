-- ===== src/Base/Text/Search.antt =====
-- `needle in text` against the occurrence of the needle between two other texts.
use mathlib.Core.Path.{◌≡◌, refl, sym, ap, subst}
use mathlib.Core.Logic.{◌⊎◌, inl, inr}
use mathlib.Core.Bool.{true, false≢true}
use mathlib.Core.List.{List, [], ◌∷◌, ◌++◌}
use native.Mathlib.Omega.{arith}
use verisure_ads_automation.Base.Tests.{nat_eq, Bool-cases}
use verisure_ads_automation.Base.Text.{Text, starts_with, contains, contains_any}

-- The needle stands in the text, with what is before and after it.
pub record Occurs (needle text : Text) : Type 0 where
  pub before : Text
  pub after : Text
  pub splits : text ≡ before ++ (needle ++ after)

starts_with-append : (n r : Text) → starts_with (n ++ r) n ≡ true
unfolding starts_with
starts_with-append [] [] = refl
starts_with-append [] (c ∷ r) = refl
starts_with-append (c ∷ n) r = ground (arith, starts_with-append n r)

starts_with-splits : (t n : Text) → starts_with t n ≡ true → (r : Text) × (t ≡ n ++ r)
unfolding starts_with
starts_with-splits t [] h = (t, refl)
starts_with-splits [] (p ∷ n) h = cc
starts_with-splits (c ∷ t) (p ∷ n) h =
    let (r, e) = starts_with-splits t n (ground arith) in (r, ground arith)

contains-append : (b n r : Text) → contains (b ++ (n ++ r)) n ≡ true
unfolding contains
contains-append [] [] [] = refl
contains-append [] [] (c ∷ r) = refl
contains-append [] (c ∷ n) r = ground (arith, starts_with-append (c ∷ n) r)
contains-append (c ∷ b) n r = ground (arith, contains-append b n r)

pub contains_of_Occurs : (needle text : Text) → Occurs needle text → contains text needle ≡ true
contains_of_Occurs needle text o =
    subst (λ t. contains t needle ≡ true) (sym o.splits) (contains-append o.before needle o.after)

pub Occurs-of_contains : (needle text : Text) → contains text needle ≡ true → Occurs needle text
unfolding contains
Occurs-of_contains n [] h =
    let (r, e) = starts_with-splits [] n h in record { before = []; after = r; splits = e }
Occurs-of_contains n (c ∷ t) h = elim (Bool-cases (starts_with (c ∷ t) n)) [
  | inl p ↦
      let (r, e) = starts_with-splits (c ∷ t) n p in record { before = []; after = r; splits = e }
  | inr p ↦
      let o = Occurs-of_contains n t (ground arith) in
      record { before = c ∷ o.before; after = o.after; splits = ap (◌∷◌ c) o.splits }
]

-- One of the needles occurs.
abbrev pub AnyOccurs : List Text → Text → Type 0
AnyOccurs [] text = ⊥
AnyOccurs (n ∷ ns) text = Occurs n text ⊎ AnyOccurs ns text

pub contains_any_of_AnyOccurs :
    (needles : List Text) (text : Text) → AnyOccurs needles text → contains_any text needles ≡ true
unfolding contains_any
contains_any_of_AnyOccurs [] text h = absurd h
contains_any_of_AnyOccurs (n ∷ ns) text (inl o) = rw (contains_of_Occurs n text o)
contains_any_of_AnyOccurs (n ∷ ns) text (inr m) =
    ground (arith, contains_any_of_AnyOccurs ns text m)

pub AnyOccurs-of_contains_any :
    (needles : List Text) (text : Text) → contains_any text needles ≡ true → AnyOccurs needles text
unfolding contains_any
AnyOccurs-of_contains_any [] text h = absurd (false≢true h)
AnyOccurs-of_contains_any (n ∷ ns) text h = elim (Bool-cases (contains text n)) [
  | inl p ↦ inl (Occurs-of_contains n text p)
  | inr p ↦ inr (AnyOccurs-of_contains_any ns text (ground arith))
]
