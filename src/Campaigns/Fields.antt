-- ===== src/Campaigns/Fields.antt =====
-- What `_validate_campaign_fields` accepts, against the CHECK constraints of
-- app/models/campaign.py.
use verisure_ads_automation.Base.{
  ℕ, zero, suc, ◌+◌, ◌*◌, ◌^◌, ◌≡◌, ◌≤◌, ◌<◌, ◌↔◌, refl, Bool, true, false, not, ◌||◌, Option, none,
  some, String, ◌==◌, nat_eq, ℤ, pos, negsuc, if◌then◌else◌, arith,
}
use verisure_ads_automation.Base.Text.{codes}
use verisure_ads_automation.Exceptions.{Exception}
use verisure_ads_automation.Models.Campaign.{CampaignBudgetType, Decimal, Datetime}
use verisure_ads_automation.Session.{Result, ok, raised}
use verisure_ads_automation.Campaigns.Validation.{
  is_finer_than_cents, exceeds_max, is_currency, holds_of, ends_too_early, validate_campaign_fields,
}

-- The amount is that many cents, by its value.
abbrev pub IsCents : ℕ → ℤ → ℕ → Type 0
IsCents coefficient (pos n) cents = cents ≡ coefficient * 10 ^ (n + 2)
IsCents coefficient (negsuc zero) cents = cents ≡ coefficient * 10
IsCents coefficient (negsuc (suc n)) cents = cents * 10 ^ n ≡ coefficient

-- How many digits are written after the point, zeros included.
abbrev pub decimals : ℤ → ℕ
decimals (pos n) = 0
decimals (negsuc n) = suc n

-- NUMERIC(12, 2) and amount > 0: a whole number of cents, of at most twelve digits; and not
-- written with more than two decimals, even if they are zeros.
pub record IsAmount (d : Decimal) : Type 0 where
  pub cents : ℕ
  pub is_positive : d.negative ≡ false
  pub is_cents : IsCents d.coefficient d.exponent cents
  pub at_least_one : 1 ≤ cents
  pub in_range : cents < 10 ^ 12
  pub two_decimals : decimals d.exponent ≤ 2

-- All columns of the budget, or none.
abbrev pub IsBudget : Option CampaignBudgetType → Option Decimal → Option String → Type 0
IsBudget none none none = Unit
IsBudget (some type) (some amount) (some currency) =
    IsAmount amount × (is_currency (codes currency) ≡ true)
IsBudget _ _ _ = ⊥

abbrev pub IsTime : Option Datetime → Type 0
IsTime none = Unit
IsTime (some t) = t.is_aware ≡ true

abbrev pub IsOrdered : Option Datetime → Option Datetime → Type 0
IsOrdered (some start_at) (some end_at) = start_at.instant < end_at.instant
IsOrdered _ _ = Unit

power-pos : (n : ℕ) → 1 ≤ 10 ^ n
power-pos zero = omega arith
power-pos (suc n) = let h = power-pos n in omega arith

mul-pos : (a b : ℕ) → 1 ≤ a → 1 ≤ b → 1 ≤ a * b
mul-pos zero b h k = omega arith
mul-pos (suc a) b h k = omega arith

not_zero : (c b : ℕ) → 1 ≤ c * b → (c == 0) ≡ false
not_zero zero b h = absurd (omega arith)
not_zero (suc c) b h = ground arith

IsAmount-of :
    (negative : Bool) (c : ℕ) (e : ℤ)
    → (negative || c == 0) ≡ false
    → is_finer_than_cents e ≡ false
    → exceeds_max c e ≡ false
    → IsAmount (record { negative = negative; coefficient = c; exponent = e })
IsAmount-of negative c (pos n) p f x = record {
  cents = c * 10 ^ (n + 2);
  is_positive = ground arith;
  is_cents = refl;
  at_least_one = mul-pos c (10 ^ (n + 2)) (ground arith) (power-pos (n + 2));
  in_range = ground arith;
  two_decimals = omega arith;
}
IsAmount-of negative c (negsuc zero) p f x = record {
  cents = c * 10;
  is_positive = ground arith;
  is_cents = refl;
  at_least_one = ground arith;
  in_range = ground arith;
  two_decimals = omega arith;
}
IsAmount-of negative c (negsuc (suc zero)) p f x = record {
  cents = c;
  is_positive = ground arith;
  is_cents = omega arith;
  at_least_one = ground arith;
  in_range = ground arith;
  two_decimals = omega arith;
}
IsAmount-of negative c (negsuc (suc (suc n))) p f x = absurd (ground arith)

of_amount :
    (negative : Bool) (c : ℕ) (e : ℤ)
    → IsAmount (record { negative = negative; coefficient = c; exponent = e })
    → ((negative || c == 0) ≡ false) × (is_finer_than_cents e ≡ false) × (exceeds_max c e ≡ false)
of_amount negative c (pos n) h =
    let e = h.is_cents in
    let l = h.at_least_one in
    let r = h.in_range in
    let s = h.is_positive in (ground (arith, not_zero c (10 ^ (n + 2))), refl, ground arith)
of_amount negative c (negsuc zero) h =
    let e = h.is_cents in
    let l = h.at_least_one in
    let r = h.in_range in let s = h.is_positive in (ground arith, refl, ground arith)
of_amount negative c (negsuc (suc zero)) h =
    let e = h.is_cents in
    let l = h.at_least_one in
    let r = h.in_range in let s = h.is_positive in (ground arith, refl, ground arith)
of_amount negative c (negsuc (suc (suc n))) h = let w = h.two_decimals in absurd (omega arith)

-- The tests of the times, and what they mean.
times_pass :
    (s e : Option Datetime)
    → IsTime s
    → IsTime e
    → IsOrdered s e
    → (holds_of (λ t. not t.is_aware) s ≡ false)
      × (holds_of (λ t. not t.is_aware) e ≡ false)
      × (ends_too_early s e ≡ false)
times_pass none none t u o = (refl, refl, refl)
times_pass none (some e) t u o = (refl, ground arith, refl)
times_pass (some s) none t u o = (ground arith, refl, refl)
times_pass (some s) (some e) t u o = (ground arith, ground arith, ground arith)

of_times :
    (s e : Option Datetime)
    → holds_of (λ t. not t.is_aware) s ≡ false
    → holds_of (λ t. not t.is_aware) e ≡ false
    → ends_too_early s e ≡ false
    → IsTime s × IsTime e × IsOrdered s e
of_times none none t u o = (tt, tt, tt)
of_times none (some e) t u o = (tt, ground arith, tt)
of_times (some s) none t u o = (ground arith, tt, tt)
of_times (some s) (some e) t u o = (ground arith, ground arith, ground arith)

accepted :
    (b : Option CampaignBudgetType) (a : Option Decimal) (k : Option String) (s e : Option Datetime)
    → IsBudget b a k
    → IsTime s × IsTime e × IsOrdered s e
    → validate_campaign_fields b a k s e ≡ ok tt
unfolding validate_campaign_fields
accepted none none none s e h (t, u, o) = let (x, y, z) = times_pass s e t u o in rw (x, y, z)
accepted (some b) (some a) (some k) s e h (t, u, o) =
    let (x, y, z) = times_pass s e t u o in
    let (p, f, m) = of_amount a.negative a.coefficient a.exponent h.0 in rw (p, f, m, h.1, x, y, z)
accepted none none (some _) s e h q = absurd h
accepted none (some _) none s e h q = absurd h
accepted none (some _) (some _) s e h q = absurd h
accepted (some _) none none s e h q = absurd h
accepted (some _) none (some _) s e h q = absurd h
accepted (some _) (some _) none s e h q = absurd h

passed :
    (t : Bool) (x : Exception) (r : Result (Unit {0}))
    → (if t then raised x else r) ≡ ok tt
    → (t ≡ false) × (r ≡ ok tt)
passed true x r h = cc
passed false x r h = (refl, h)

meant :
    (b : Option CampaignBudgetType) (a : Option Decimal) (k : Option String) (s e : Option Datetime)
    → validate_campaign_fields b a k s e ≡ ok tt
    → IsBudget b a k × IsTime s × IsTime e × IsOrdered s e
unfolding validate_campaign_fields
meant none none none s e h =
    let (x, h₁) = passed _ _ _ h in
    let (y, h₂) = passed _ _ _ h₁ in
    let (z, h₃) = passed _ _ _ h₂ in let (t, u, o) = of_times s e x y z in (tt, t, u, o)
meant (some b) (some a) (some k) s e h =
    let (p, h₁) = passed _ _ _ h in
    let (f, h₂) = passed _ _ _ h₁ in
    let (m, h₃) = passed _ _ _ h₂ in
    let (c, h₄) = passed _ _ _ h₃ in
    let (x, h₅) = passed _ _ _ h₄ in
    let (y, h₆) = passed _ _ _ h₅ in
    let (z, h₇) = passed _ _ _ h₆ in
    let (t, u, o) = of_times s e x y z in
    ((IsAmount-of a.negative a.coefficient a.exponent p f m, ground arith), t, u, o)
meant none none (some _) s e h = cc
meant none (some _) none s e h = cc
meant none (some _) (some _) s e h = cc
meant (some _) none none s e h = cc
meant (some _) none (some _) s e h = cc
meant (some _) (some _) none s e h = cc

-- The validation accepts exactly the fields that the schema stores unchanged and whose amount is
-- written with at most two decimals, so that 10.990 is refused though its value fits. What is
-- stored unchanged: the three columns of the budget all set or all missing, the amount positive
-- and a whole number of cents below ten to the power of twelve, so that NUMERIC(12, 2) holds it
-- without rounding, the currency three letters from A to Z, the times with a time zone, and the
-- end after the start where both are set.
pub validate_campaign_fields_iff :
    (budget_type : Option CampaignBudgetType) (budget_amount : Option Decimal)
    (currency : Option String) (start_at end_at : Option Datetime)
    → (validate_campaign_fields budget_type budget_amount currency start_at end_at ≡ ok tt) ↔ (
        IsBudget budget_type budget_amount currency
        × IsTime start_at
        × IsTime end_at
        × IsOrdered start_at end_at)
validate_campaign_fields_iff b a k s e =
    (meant b a k s e, λ h. accepted b a k s e h.0 (h.1, h.2, h.3))
