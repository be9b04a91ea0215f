-- ===== src/Base/Scope.antt =====
-- Queries and updates that concern some rows of a table, and the other rows.
use mathlib.Core.Path.{◌≡◌, refl, sym, ap, ◌∙◌}
use mathlib.Core.Bool.{Bool, true, false}
use mathlib.Core.Option.{Option}
use mathlib.Core.List.{List, [], ◌∷◌, map}
use mathlib.Core.Option as Options
use native.Mathlib.Omega.{arith}
use verisure_ads_automation.Base.Table.{
  select_one, select_all, update_where, count_where, insert_row,
}
use verisure_ads_automation.Base.Order.{insert_ordered, order_by}

module _ {ℓ} {A : Type ℓ} (p q : A → Bool) (imp : (x : A) → p x ≡ true → q x ≡ true) where
  select_one-select_all : (xs : List A) → select_one p (select_all q xs) ≡ select_one p xs
  unfolding select_one select_all
  select_one-select_all [] = refl
  select_one-select_all (x ∷ xs) = ground (arith, imp x, select_one-select_all xs)

  select_all-select_all : (xs : List A) → select_all p (select_all q xs) ≡ select_all p xs
  unfolding select_all
  select_all-select_all [] = refl
  select_all-select_all (x ∷ xs) = ground (arith, imp x, select_all-select_all xs)

  -- Tables that agree on the rows with `q` give the same answers to queries within `q`.
  pub select_one-scoped :
      (xs ys : List A) → select_all q xs ≡ select_all q ys → select_one p xs ≡ select_one p ys
  select_one-scoped xs ys e =
      sym (select_one-select_all xs) ∙ ap (select_one p) e ∙ select_one-select_all ys

  pub select_all-scoped :
      (xs ys : List A) → select_all q xs ≡ select_all q ys → select_all p xs ≡ select_all p ys
  select_all-scoped xs ys e =
      sym (select_all-select_all xs) ∙ ap (select_all p) e ∙ select_all-select_all ys

-- An update or an INSERT outside `q` leaves the rows with `q`.
module _ {ℓ} {A : Type ℓ} (q : A → Bool) where
  pub select_all-update :
      (p : A → Bool) (f : A → A) (xs : List A)
      → ((x : A) → p x ≡ true → q x ≡ false)
      → ((x : A) → p x ≡ true → q (f x) ≡ false)
      → select_all q (update_where p f xs) ≡ select_all q xs
  unfolding select_all update_where
  select_all-update p f [] k h = refl
  select_all-update p f (x ∷ xs) k h = ground (arith, k x, h x, select_all-update p f xs k h)

  pub select_all-insert :
      (a : A) (xs : List A) → q a ≡ false → select_all q (insert_row a xs) ≡ select_all q xs
  unfolding select_all insert_row
  select_all-insert a [] e = ground arith
  select_all-insert a (x ∷ xs) e = ground (arith, select_all-insert a xs e)

-- A change of all rows that the tests do not see.
module _ {ℓ} {A : Type ℓ} (g : A → A) where
  pub select_one-map :
      (p : A → Bool) (xs : List A)
      → ((x : A) → p (g x) ≡ p x)
      → select_one p (map g xs) ≡ Options.map g (select_one p xs)
  unfolding select_one
  select_one-map p [] k = refl
  select_one-map p (x ∷ xs) k = ground (arith, k x, select_one-map p xs k)

  pub select_all-map :
      (p : A → Bool) (xs : List A)
      → ((x : A) → p (g x) ≡ p x)
      → select_all p (map g xs) ≡ map g (select_all p xs)
  unfolding select_all
  select_all-map p [] k = refl
  select_all-map p (x ∷ xs) k = ground (arith, k x, select_all-map p xs k)

  pub count_where-map :
      (p : A → Bool) (xs : List A)
      → ((x : A) → p (g x) ≡ p x)
      → count_where p (map g xs) ≡ count_where p xs
  unfolding count_where
  count_where-map p [] k = refl
  count_where-map p (x ∷ xs) k = ground (arith, k x, count_where-map p xs k)

  pub update_where-map :
      (p : A → Bool) (f : A → A) (xs : List A)
      → ((x : A) → p (g x) ≡ p x)
      → ((x : A) → f (g x) ≡ g (f x))
      → update_where p f (map g xs) ≡ map g (update_where p f xs)
  unfolding update_where
  update_where-map p f [] k h = refl
  update_where-map p f (x ∷ xs) k h = ground (arith, k x, h x, update_where-map p f xs k h)

  module _ (before : A → A → Bool) (k : (x y : A) → before (g x) (g y) ≡ before x y) where
    insert_ordered-map :
        (x : A) (ys : List A)
        → insert_ordered before (g x) (map g ys) ≡ map g (insert_ordered before x ys)
    unfolding insert_ordered
    insert_ordered-map x [] = refl
    insert_ordered-map x (y ∷ ys) = ground (arith, k y x, insert_ordered-map x ys)

    pub order_by-map : (xs : List A) → order_by before (map g xs) ≡ map g (order_by before xs)
    unfolding order_by
    order_by-map [] = refl
    order_by-map (x ∷ xs) =
        ap (insert_ordered before (g x)) (order_by-map xs)
        ∙ insert_ordered-map x (order_by before xs)
