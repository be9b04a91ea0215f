-- ===== src/Session.antt =====
-- The SQLAlchemy session (app/database/session.py) as the services use it: a transaction over the
-- committed database, and actions that return a value or raise. `add` is modelled together with
-- the INSERT that the next flush sends, and objects are read anew where the code refreshes them.
-- Foreign keys are left out: the code deletes no row.
pub mod Keeps
use verisure_ads_automation.Base.{ℕ, Bool, true, false, Option, none, some, List, [], map}
use verisure_ads_automation.Exceptions.{ExceptionClass, Exception}
use verisure_ads_automation.Models.Campaign.{Campaign}
use verisure_ads_automation.Models.Deployment.{CampaignDeployment}
use verisure_ads_automation.Models.Connection.{ProviderConnection}
use verisure_ads_automation.Models.Job.{PublishJob}
use verisure_ads_automation.Models.Identity.{Tenant, User, RefreshToken}

pub record Database : Type 0 where
  pub campaigns : List Campaign
  pub deployments : List CampaignDeployment
  pub connections : List ProviderConnection
  pub jobs : List PublishJob
  pub tenants : List Tenant
  pub users : List User
  pub refresh_tokens : List RefreshToken

-- `saved` is what a rollback returns to, `current` what this transaction reads and writes.
pub record Session : Type 0 where
  pub saved : Database
  pub current : Database

pub data Result (A : Type 0) : Type 0 where
  ok : A → Result A
  raised : Exception → Result A

abbrev pub Action : Type 0 → Type 0
Action A = Session → Result A × Session

module _ {A : Type 0} where
  abbrev pub pure : A → Action A
  pure a s = (ok a, s)

  abbrev pub raise : Exception → Action A
  raise e s = (raised e, s)

  -- A statement that only reads.
  abbrev pub query : (Database → A) → Action A
  query f s = (ok (f s.current), s)

  abbrev pub lift : Result A → Action A
  lift r s = (r, s)

infixl 5 ◌>>=◌ ◌>>◌
abbrev pub ◌>>=◌ : {A B : Type 0} → Action A → (A → Action B) → Action B
◌>>=◌ m f s = let (r, s') = m s in elim r [ ok a ↦ f a s' | raised e ↦ (raised e, s') ]

abbrev pub ◌>>◌ : {A B : Type 0} → Action A → Action B → Action B
m >> k = m >>= λ _. k

-- `try: m except Exception as e: h(e)`
abbrev pub try_except : {A : Type 0} → Action A → (Exception → Action A) → Action A
try_except m h s = let (r, s') = m s in elim r [ ok a ↦ (ok a, s') | raised e ↦ h e s' ]

-- A statement that writes.
abbrev pub execute : (Database → Database) → Action (Unit {0})
execute f s = (ok tt, record s { current = f s.current })

abbrev pub commit : Action (Unit {0})
commit s = (ok tt, record s { saved = s.current })

abbrev pub rollback : Action (Unit {0})
rollback s = (ok tt, record s { current = s.saved })

-- Every row has been sent already.
abbrev pub flush : Action (Unit {0})
flush = pure tt

-- `with session.begin_nested(): m`, a savepoint: what raises inside is undone up to here.
abbrev pub begin_nested : {A : Type 0} → Action A → Action A
begin_nested m s =
    let (r, s') = m s in
    elim r [ ok a ↦ (ok a, s') | raised e ↦ (raised e, record s' { current = s.current }) ]

-- What other transactions commit at this point, seen by the next statement (READ COMMITTED).
abbrev pub interfere : (Database → Database) → Action (Unit {0})
interfere others s = (ok tt, record { saved = others s.saved; current = others s.current })

abbrev pub when : Bool → Action (Unit {0}) → Action (Unit {0})
when true m = m
when false m = pure tt
