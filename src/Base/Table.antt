-- ===== src/Base/Table.antt =====
-- A table is the list of its rows. Queries and updates as the statements that the repositories
-- send, with the row count that an UPDATE returns.
use Prim.Native.Nat.{ℕ, zero, suc, ◌+◌, ◌≤◌}
use mathlib.Core.Path.{◌≡◌, refl, subst}
use mathlib.Core.Bool.{Bool, true, false}
use mathlib.Core.Option.{Option, none, some}
use mathlib.Core.List.{List, [], ◌∷◌, ◌++◌}
use native.Mathlib.Omega.{arith}
use verisure_ads_automation.Base.Tests.{if◌then◌else◌}

module _ {ℓ} {A : Type ℓ} where
  -- SELECT ... WHERE p, one row
  unfoldable pub select_one : (A → Bool) → List A → Option A
  select_one p [] = none
  select_one p (x ∷ xs) = if p x then some x else select_one p xs

  -- SELECT ... WHERE p
  unfoldable pub select_all : (A → Bool) → List A → List A
  select_all p [] = []
  select_all p (x ∷ xs) = let rest = select_all p xs in if p x then x ∷ rest else rest

  -- UPDATE ... SET f WHERE p
  unfoldable pub update_where : (A → Bool) → (A → A) → List A → List A
  update_where p f [] = []
  update_where p f (x ∷ xs) = (if p x then f x else x) ∷ update_where p f xs

  -- SELECT count(*) ... WHERE p, also the row count of an UPDATE
  unfoldable pub count_where : (A → Bool) → List A → ℕ
  count_where p [] = 0
  count_where p (x ∷ xs) = let rest = count_where p xs in if p x then suc rest else rest

  -- INSERT
  unfoldable pub insert_row : A → List A → List A
  insert_row a xs = xs ++ a ∷ []

  abbrev pub All {κ} : (A → Type κ) → List A → Type κ
  All P [] = Unit
  All P (x ∷ xs) = P x × All P xs

pub some-inj {ℓ} : {A : Type ℓ} {a b : A} → some a ≡ some b → a ≡ b
some-inj e = cc

module _ {ℓ κ} {A : Type ℓ} (P : A → Type κ) where
  pub All-insert : (a : A) (xs : List A) → P a → All P xs → All P (insert_row a xs)
  unfolding insert_row
  All-insert a [] p h = (p, tt)
  All-insert a (x ∷ xs) p h = (h.0, All-insert a xs p h.1)

  if-elim : (b : Bool) (x y : A) → (b ≡ true → P x) → (b ≡ false → P y) → P (if b then x else y)
  if-elim true x y p q = p refl
  if-elim false x y p q = q refl

  -- An update keeps a property of the rows if it keeps it on the rows that it changes.
  pub All-update :
      (p : A → Bool) (f : A → A) (xs : List A)
      → ((a : A) → p a ≡ true → P a → P (f a))
      → All P xs
      → All P (update_where p f xs)
  unfolding update_where
  All-update p f [] k h = tt
  All-update p f (x ∷ xs) k h =
      (if-elim (p x) (f x) x (λ e. k x e h.0) (λ _. h.0), All-update p f xs k h.1)

  pub select_one-All :
      (p : A → Bool) (xs : List A) {a : A}
      → All P xs
      → select_one p xs ≡ some a
      → P a × (p a ≡ true)
  unfolding select_one
  select_one-All p [] h e = cc
  select_one-All p (x ∷ xs) {a} h e = go (λ e'. select_one-All p xs h.1 e') (p x) refl e
    where
      go :
          (select_one p xs ≡ some a → P a × (p a ≡ true))
          → (b : Bool) → p x ≡ b
          → (if b then some x else select_one p xs) ≡ some a
          → P a × (p a ≡ true)
      go rest true t e' = (subst P (some-inj e') h.0, subst (λ r. p r ≡ true) (some-inj e') t)
      go rest false t e' = rest e'

module _ {ℓ κ μ} {A : Type ℓ} (P : A → Type κ) (Q : A → Type μ) where
  pub All-imp : ((a : A) → P a → Q a) → (xs : List A) → All P xs → All Q xs
  All-imp f [] h = tt
  All-imp f (x ∷ xs) h = (f x h.0, All-imp f xs h.1)

module _ {ℓ} {A : Type ℓ} where
  always : (xs : List A) → All (λ _. Unit {0}) xs
  always [] = tt
  always (x ∷ xs) = (tt, always xs)

  -- What a query finds meets its condition.
  pub select_one-holds :
      (p : A → Bool) (xs : List A) {a : A} → select_one p xs ≡ some a → p a ≡ true
  select_one-holds p xs e = (select_one-All (λ _. Unit {0}) p xs (always xs) e).1

  -- No row fits exactly when the count is 0.
  pub count_where-zero :
      (p : A → Bool) (xs : List A) → select_one p xs ≡ none → count_where p xs ≡ 0
  unfolding select_one count_where
  count_where-zero p [] h = refl
  count_where-zero p (x ∷ xs) h = ground (arith, count_where-zero p xs)

  pub update_where-id :
      (p : A → Bool) (f : A → A) (xs : List A) → count_where p xs ≡ 0 → update_where p f xs ≡ xs
  unfolding count_where update_where
  update_where-id p f [] h = refl
  update_where-id p f (x ∷ xs) h = ground (arith, update_where-id p f xs)

  pub count_where-insert :
      (p : A → Bool) (a : A) (xs : List A)
      → count_where p (insert_row a xs) ≡ count_where p xs + (if p a then 1 else 0)
  unfolding count_where insert_row
  count_where-insert p a [] = ground arith
  count_where-insert p a (x ∷ xs) = ground (arith, count_where-insert p a xs)

  -- An update that makes no new row fit `q` does not raise the number that fit.
  pub count_where-update-le :
      (q p : A → Bool) (f : A → A) (xs : List A)
      → ((a : A) → p a ≡ true → q (f a) ≡ true → q a ≡ true)
      → count_where q (update_where p f xs) ≤ count_where q xs
  unfolding count_where update_where
  count_where-update-le q p f [] k = omega arith
  count_where-update-le q p f (x ∷ xs) k = ground (arith, k x, count_where-update-le q p f xs k)

  pub select_one-insert :
      (p : A → Bool) (a : A) (xs : List A)
      → select_one p xs ≡ none
      → p a ≡ true
      → select_one p (insert_row a xs) ≡ some a
  unfolding select_one insert_row
  select_one-insert p a [] h e = rw e
  select_one-insert p a (x ∷ xs) h e = ground (arith, select_one-insert p a xs)

  -- An INSERT does not hide a row that a query finds.
  pub select_one-insert_row :
      (p : A → Bool) (b : A) (xs : List A) {a : A}
      → select_one p xs ≡ some a
      → select_one p (insert_row b xs) ≡ some a
  unfolding select_one insert_row
  select_one-insert_row p b [] h = cc
  select_one-insert_row p b (x ∷ xs) {a} h = ground (arith, select_one-insert_row p b xs {a = a})

  pub count_where_of_select_one :
      (p : A → Bool) (xs : List A) (a : A) → select_one p xs ≡ some a → 1 ≤ count_where p xs
  unfolding select_one count_where
  count_where_of_select_one p [] a h = cc
  count_where_of_select_one p (x ∷ xs) a h = ground (arith, count_where_of_select_one p xs a)

-- LIMIT and OFFSET, and the number of rows
module _ {ℓ} {A : Type ℓ} where
  abbrev pub length : List A → ℕ
  length [] = 0
  length (x ∷ xs) = suc (length xs)

  abbrev pub take : ℕ → List A → List A
  take zero xs = []
  take (suc n) [] = []
  take (suc n) (x ∷ xs) = x ∷ take n xs

  abbrev pub drop : ℕ → List A → List A
  drop zero xs = xs
  drop (suc n) [] = []
  drop (suc n) (x ∷ xs) = drop n xs
