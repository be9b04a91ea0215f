-- ===== src/Campaigns/Validation.antt =====
-- `_validate_campaign_fields` of app/services/campaign_service.py.
use verisure_ads_automation.Base.{
  ℕ, zero, suc, ◌+◌, ◌*◌, ◌^◌, Bool, false, not, ◌&&◌, ◌||◌, Option, none, some, String, [], ◌∷◌,
  ltb, leb, ◌==◌, nat_eq, is_some, ℤ, pos, negsuc, if◌then◌else◌,
}
use verisure_ads_automation.Base.Text.{Text, codes}
use verisure_ads_automation.Exceptions.{campaign_validation, Exception}
use verisure_ads_automation.Models.Campaign.{CampaignBudgetType, Decimal, Datetime}
use verisure_ads_automation.Session.{Result, ok, raised}

abbrev pub invalid : String → Exception
invalid message = record { class = campaign_validation; message = message }

-- `_MAX_BUDGET_AMOUNT`, in cents.
abbrev pub max_budget_cents : ℕ
max_budget_cents = 999999999999

-- `amount <= 0`
abbrev pub is_not_positive : Decimal → Bool
is_not_positive d = d.negative || d.coefficient == 0

-- `amount.as_tuple().exponent < -2`
abbrev pub is_finer_than_cents : ℤ → Bool
is_finer_than_cents (pos n) = false
is_finer_than_cents (negsuc n) = ltb 1 n

-- `abs(amount) > _MAX_BUDGET_AMOUNT`
abbrev pub exceeds_max : ℕ → ℤ → Bool
exceeds_max coefficient (pos n) = ltb max_budget_cents (coefficient * 10 ^ (n + 2))
exceeds_max coefficient (negsuc zero) = ltb max_budget_cents (coefficient * 10)
exceeds_max coefficient (negsuc (suc n)) = ltb (max_budget_cents * 10 ^ n) coefficient

abbrev pub is_upper : ℕ → Bool
is_upper c = leb b'A' c && leb c b'Z'

-- `_CURRENCY_PATTERN.fullmatch`
abbrev pub is_currency : Text → Bool
is_currency (a ∷ b ∷ c ∷ []) = is_upper a && is_upper b && is_upper c
is_currency _ = false

-- A test of a field that is set.
abbrev pub holds_of : {A : Type 0} → (A → Bool) → Option A → Bool
holds_of p none = false
holds_of p (some a) = p a

-- `start_at is not None and end_at is not None and end_at <= start_at`
abbrev pub ends_too_early : Option Datetime → Option Datetime → Bool
ends_too_early (some start_at) (some end_at) = leb end_at.instant start_at.instant
ends_too_early _ _ = false

unfoldable pub validate_campaign_fields :
    Option CampaignBudgetType
    → Option Decimal
    → Option String
    → Option Datetime
    → Option Datetime
    → Result (Unit {0})
validate_campaign_fields budget_type budget_amount currency start_at end_at =
    let any_set = is_some budget_type || is_some budget_amount || is_some currency in
    let all_set = is_some budget_type && is_some budget_amount && is_some currency in
    if any_set && not all_set
    then raised (
        invalid "budget_type, budget_amount, and currency must be all set together or all omitted.")
    else if holds_of is_not_positive budget_amount
    then raised (invalid "budget_amount must be positive.")
    else if holds_of (λ d. is_finer_than_cents d.exponent) budget_amount
    then raised (invalid "budget_amount must have at most two decimal places.")
    else if holds_of (λ d. exceeds_max d.coefficient d.exponent) budget_amount
    then raised (invalid "budget_amount must not exceed 9999999999.99.")
    else if holds_of (λ text. not (is_currency (codes text))) currency
    then raised (invalid "currency must be exactly three uppercase ASCII letters.")
    else if holds_of (λ t. not t.is_aware) start_at
    then raised (invalid "start_at must include timezone information.")
    else if holds_of (λ t. not t.is_aware) end_at
    then raised (invalid "end_at must include timezone information.")
    else if ends_too_early start_at end_at
    then raised (invalid "end_at must be after start_at.")
    else ok tt
