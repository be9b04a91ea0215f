-- ===== src/Session/Keeps.antt =====
-- Actions that keep a property of the session, however they end, rule by rule.
use verisure_ads_automation.Base.{refl, ◌≡◌, ap, arith}
use verisure_ads_automation.Exceptions.{Exception}
use verisure_ads_automation.Session.{Session, Result, ok, raised, Action, pure, ◌>>=◌, try_except}

abbrev pub Keeps : (Session → Type 0) → {A : Type 0} → Action A → Type 0
Keeps I m = (s : Session) → I s → I (m s).1

module _ (I : Session → Type 0) where
  bind_result :
      {A B : Type 0} (f : A → Action B)
      → ((a : A) → Keeps I (f a))
      → (r : Result A × Session) → I r.1
      → I (elim r.0 as (λ _. Result B × Session) [ ok a ↦ f a r.1 | raised e ↦ (raised e, r.1) ]).1
  bind_result f k (ok a, s) h = k a s h
  bind_result f k (raised e, s) h = h

  pub Keeps-bind :
      {A B : Type 0} (m : Action A) (f : A → Action B)
      → Keeps I m
      → ((a : A) → Keeps I (f a))
      → Keeps I (m >>= f)
  Keeps-bind m f km kf s h = bind_result f kf (m s) (km s h)

  pub Keeps-try :
      {A : Type 0} (m : Action A) (h : Exception → Action A)
      → Keeps I m
      → ((e : Exception) → Keeps I (h e))
      → Keeps I (try_except m h)
  Keeps-try {A} m h km kh s i = go (m s) (km s i)
    where
      go :
          (r : Result A × Session)
          → I r.1
          → I (elim r.0 as (λ _. Result A × Session) [ ok a ↦ (ok a, r.1) | raised e ↦ h e r.1 ]).1
      go (ok a, s') i' = i'
      go (raised e, s') i' = kh e s' i'

-- What follows an action that returned.
pub bind-ok :
    {A B : Type 0} (m : Action A) (f : A → Action B) (s s' : Session) (a : A)
    → m s ≡ (ok a, s')
    → (m >>= f) s ≡ f a s'
bind-ok {A} m f s s' a e = rw (e, ◌>>=◌) (ap (λ (r : Result A × Session). f a r.1) e)

-- What returned in a sequence that returns.
pub bind-inv :
    {A B : Type 0} (m : Action A) (f : A → Action B) (s : Session) (b : B)
    → ((m >>= f) s).0 ≡ ok b
    → (a : A) × (s' : Session) × (m s ≡ (ok a, s')) × ((f a s').0 ≡ ok b)
bind-inv {A} {B} m f s b h = go (m s) refl
  where
    go :
        (r : Result A × Session)
        → m s ≡ r
        → (a : A) × (s' : Session) × (m s ≡ (ok a, s')) × ((f a s').0 ≡ ok b)
    go (ok a, s') e = (a, s', e, ground arith)
    go (raised x, s') e = absurd (ground arith)

-- What follows changes the value only.
pub bind-pure :
    {A B : Type 0} (m : Action A) (f : A → B) (s : Session)
    → ((m >>= λ x. pure (f x)) s).1 ≡ (m s).1
bind-pure m f s = ground arith

pub bind-raised :
    {A B : Type 0} (m : Action A) (k : A → Action B) (s t : Session) (e : Exception)
    → m s ≡ (raised e, t)
    → (m >>= k) s ≡ (raised e, t)
bind-raised m k s t e h = ground arith
