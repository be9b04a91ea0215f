-- ===== src/Base/Order.antt =====
-- ORDER BY, by a Boolean order on rows.
use Prim.Native.Nat.{◌≤◌}
use mathlib.Core.Path.{◌≡◌, refl, ◌∙◌, subst, sym}
use mathlib.Core.Logic.{◌⊎◌, inl, inr}
use mathlib.Core.Bool.{Bool, true, false}
use native.Mathlib.Omega.{arith}
use mathlib.Core.Option.{Option, none, some}
use mathlib.Core.List.{List, [], ◌∷◌}
use verisure_ads_automation.Base.Tests.{if◌then◌else◌, Bool-cases}
use verisure_ads_automation.Base.Table.{
  All, select_one, count_where, insert_row, update_where, some-inj,
}

module _ {ℓ} {A : Type ℓ} (before : A → A → Bool) where
  abbrev pub earlier : A → Option A → A
  earlier x none = x
  earlier x (some y) = if before y x then y else x

  abbrev pub keep_if : Bool → A → Option A → Option A
  keep_if true x best = some (earlier x best)
  keep_if false x best = best

  -- SELECT ... WHERE p ORDER BY before LIMIT 1
  unfoldable pub select_first : (A → Bool) → List A → Option A
  select_first p [] = none
  select_first p (x ∷ xs) = keep_if (p x) x (select_first p xs)

  unfoldable pub insert_ordered : A → List A → List A
  insert_ordered x [] = x ∷ []
  insert_ordered x (y ∷ ys) = if before y x then y ∷ insert_ordered x ys else x ∷ y ∷ ys

  -- SELECT ... ORDER BY before
  unfoldable pub order_by : List A → List A
  unfolding insert_ordered
  order_by [] = []
  order_by (x ∷ xs) = insert_ordered x (order_by xs)

-- A strict order given by its test, so that rows not before one another form classes.
pub record IsOrder {ℓ} {A : Type ℓ} (before : A → A → Bool) : Type ℓ where
  pub asymm : (a b : A) → before a b ≡ true → before b a ≡ false
  pub not_trans : (a b c : A) → before a b ≡ false → before b c ≡ false → before a c ≡ false

-- The row is one of the list.
abbrev pub In : {A : Type 0} → A → List A → Type 0
In a [] = ⊥
In a (x ∷ xs) = (a ≡ x) ⊎ In a xs

pub All-In : {A : Type 0} (P : A → Type 0) (a : A) (xs : List A) → All P xs → In a xs → P a
All-In P a [] h m = absurd m
All-In P a (x ∷ xs) h (inl e) = subst P (sym e) h.0
All-In P a (x ∷ xs) h (inr m) = All-In P a xs h.1 m

pub select_one-In :
    {A : Type 0} (p : A → Bool) (xs : List A) (a : A) → select_one p xs ≡ some a → In a xs
unfolding select_one
select_one-In p [] a h = cc
select_one-In p (x ∷ xs) a h = elim (Bool-cases (p x)) [
  | inl t ↦ inl (sym (some-inj (rw t at h)))
  | inr t ↦ inr (select_one-In p xs a (rw t at h))
]

pub count_where-pos :
    {A : Type 0} (p : A → Bool) (xs : List A) (a : A) → In a xs → p a ≡ true → 1 ≤ count_where p xs
unfolding count_where
count_where-pos p [] a m h = absurd m
count_where-pos p (x ∷ xs) a (inl e) h = ground arith
count_where-pos p (x ∷ xs) a (inr m) h = ground (arith, count_where-pos p xs a m h)

module _ {A : Type 0} (before : A → A → Bool) where
  pub select_first-none :
      (p : A → Bool) (xs : List A) → select_first before p xs ≡ none → count_where p xs ≡ 0
  unfolding select_first count_where
  select_first-none p [] h = refl
  select_first-none p (x ∷ xs) h = ground (arith, select_first-none p xs)

  -- `a` is a row that fits, and no row that fits comes before it.
  pub record IsFirst (p : A → Bool) (xs : List A) (a : A) : Type 0 where
    pub fits : p a ≡ true
    pub among : In a xs
    pub first : All (λ x. p x ≡ true → before x a ≡ false) xs

  weaken :
      (p : A → Bool) (a b : A) (xs : List A)
      → ((x : A) → before x b ≡ false → before x a ≡ false)
      → All (λ x. p x ≡ true → before x b ≡ false) xs
      → All (λ x. p x ≡ true → before x a ≡ false) xs
  weaken p a b [] k h = tt
  weaken p a b (x ∷ xs) k h = (λ e. k x (h.0 e), weaken p a b xs k h.1)

  unfit :
      (p : A → Bool) (a : A) (xs : List A)
      → count_where p xs ≡ 0
      → All (λ x. p x ≡ true → before x a ≡ false) xs
  unfolding count_where
  unfit p a [] h = tt
  unfit p a (x ∷ xs) h = (λ e. ground arith, unfit p a xs (ground arith))

  pub select_first-IsFirst :
      IsOrder before
      → (p : A → Bool) (xs : List A) (a : A) → select_first before p xs ≡ some a
      → IsFirst p xs a
  unfolding select_first
  select_first-IsFirst o p [] a h = cc
  select_first-IsFirst o p (x ∷ xs) a h =
      go (p x) refl (select_first before p xs) refl h (λ b e. select_first-IsFirst o p xs b e)
    where
      irrefl : (b : A) → before b b ≡ false
      irrefl b = elim (Bool-cases (before b b)) [ inl e ↦ o.asymm b b e | inr e ↦ e ]

      is_head : p x ≡ true → All (λ y. p y ≡ true → before y x ≡ false) xs → IsFirst p (x ∷ xs) x
      is_head e k = record { fits = e; among = inl refl; first = (λ _. irrefl x, k) }

      deeper : (b : A) → IsFirst p xs b → (p x ≡ true → before x b ≡ false) → IsFirst p (x ∷ xs) b
      deeper b f k = record { fits = f.fits; among = inr f.among; first = (k, f.first) }

      pick :
          (b : A)
          → p x ≡ true
          → IsFirst p xs b
          → (t : Bool) → before b x ≡ t
          → IsFirst p (x ∷ xs) (if t then b else x)
      pick b e f true t = deeper b f (λ _. o.asymm b x t)
      pick b e f false t = is_head e (weaken p x b xs (λ y n. o.not_trans y b x n t) f.first)

      go :
          (t : Bool)
          → p x ≡ t
          → (r : Option A) → select_first before p xs ≡ r
          → keep_if before t x r ≡ some a
          → ((b : A) → select_first before p xs ≡ some b → IsFirst p xs b)
          → IsFirst p (x ∷ xs) a
      go true t none e h' rest =
          subst (IsFirst p (x ∷ xs)) (some-inj h')
            (is_head t (unfit p x xs (select_first-none p xs e)))
      go true t (some b) e h' rest =
          subst (IsFirst p (x ∷ xs)) (some-inj h') (pick b t (rest b e) (before b x) refl)
      go false t r e h' rest = deeper a (rest a (e ∙ h')) (λ e'. cc)

pub In-insert : {A : Type 0} (a : A) (xs : List A) → In a (insert_row a xs)
unfolding insert_row
In-insert a [] = inl refl
In-insert a (x ∷ xs) = inr (In-insert a xs)

pub In-All : {A : Type 0} (P : A → Type 0) (xs : List A) → ((a : A) → In a xs → P a) → All P xs
In-All P [] h = tt
In-All P (x ∷ xs) h = (h x (inl refl), In-All P xs (λ a m. h a (inr m)))

pub In-insert_of_In : {A : Type 0} (a b : A) (xs : List A) → In a xs → In a (insert_row b xs)
unfolding insert_row
In-insert_of_In a b [] m = absurd m
In-insert_of_In a b (x ∷ xs) (inl e) = inl e
In-insert_of_In a b (x ∷ xs) (inr m) = inr (In-insert_of_In a b xs m)

-- An update keeps a row that it does not fit.
pub In-update :
    {A : Type 0} (p : A → Bool) (f : A → A) (a : A) (xs : List A)
    → In a xs
    → p a ≡ false
    → In a (update_where p f xs)
unfolding update_where
In-update p f a [] m e = absurd m
In-update p f a (x ∷ xs) (inl same) e = inl (ground arith)
In-update p f a (x ∷ xs) (inr m) e = inr (In-update p f a xs m e)
