-- ===== src/Models/Campaign.antt =====
-- app/models/campaign.py. Of the columns those that the modelled code reads or writes.
use verisure_ads_automation.Base.{ℕ, ◌≡◌, ◌↔◌, Bool, true, String, Option, arith, Eq, nat_eqb, ℤ}
use verisure_ads_automation.Models.Provider.{Uuid, Instant}

pub data CampaignObjective : Type 0 where
  awareness traffic leads conversions : CampaignObjective

pub data CampaignBudgetType : Type 0 where
  daily lifetime : CampaignBudgetType

pub data CampaignStatus : Type 0 where
  draft ready publishing active paused completed failed archived : CampaignStatus

-- The position of a member in its enumeration.
abbrev status_code : CampaignStatus → ℕ
status_code draft = 0
status_code ready = 1
status_code publishing = 2
status_code active = 3
status_code paused = 4
status_code completed = 5
status_code failed = 6
status_code archived = 7

abbrev campaign_status_eqb : CampaignStatus → CampaignStatus → Bool
campaign_status_eqb a b = nat_eqb (status_code a) (status_code b)

pub campaign_status_eqb_iff : (a b : CampaignStatus) → (campaign_status_eqb a b ≡ true) ↔ (a ≡ b)
campaign_status_eqb_iff a b = ground arith

instance abbrev pub campaign_status_eq : Eq CampaignStatus
campaign_status_eq = record { eqb = campaign_status_eqb; eqb_iff = campaign_status_eqb_iff }

-- A finite `Decimal`: its sign, its digits and its exponent, as in `as_tuple()`.
pub record Decimal : Type 0 where
  pub negative : Bool
  pub coefficient : ℕ
  pub exponent : ℤ

-- A `datetime` with or without a time zone.
pub record Datetime : Type 0 where
  pub instant : Instant
  pub is_aware : Bool

pub record Campaign : Type 0 where
  pub id : Uuid
  pub tenant_id : Uuid
  pub created_by_user_id : Uuid
  pub name : String
  pub objective : Option CampaignObjective
  pub budget_type : Option CampaignBudgetType
  pub budget_amount : Option Decimal
  pub currency : Option String
  pub start_at : Option Datetime
  pub end_at : Option Datetime
  pub status : CampaignStatus
  pub deleted_at : Option Instant
  pub created_at : Instant
