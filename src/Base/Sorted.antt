-- ===== src/Base/Sorted.antt =====
-- ORDER BY sorts: the rows are those of the query, and each page is a part of one sequence.
use Prim.Native.Nat.{ℕ, zero, suc, ◌+◌, ◌≤◌}
use mathlib.Core.Path.{◌≡◌, refl, ap, ◌∙◌}
use mathlib.Core.Logic.{inl, inr}
use mathlib.Core.Bool.{Bool, false, ◌&&◌}
use mathlib.Core.List.{List, [], ◌∷◌, ◌++◌}
use native.Mathlib.Omega.{arith}
use verisure_ads_automation.Base.Tests.{Bool-cases}
use verisure_ads_automation.Base.Table.{All, All-imp, select_all, count_where, take, drop, length}
use verisure_ads_automation.Base.Order.{insert_ordered, order_by, IsOrder}

module _ {ℓ} {A : Type ℓ} (before : A → A → Bool) where
  -- No row comes before one that stands in front of it.
  abbrev pub IsSorted : List A → Type 0
  IsSorted [] = Unit
  IsSorted (x ∷ xs) = All (λ y. before y x ≡ false) xs × IsSorted xs

  module _ (o : IsOrder before) where
    insert-All :
        (x z : A) (ys : List A)
        → before x z ≡ false
        → All (λ y. before y z ≡ false) ys
        → All (λ y. before y z ≡ false) (insert_ordered before x ys)
    unfolding insert_ordered
    insert-All x z [] e h = (e, tt)
    insert-All x z (y ∷ ys) e h = elim (Bool-cases (before y x)) [
      | inl t ↦ rw t (h.0, insert-All x z ys e h.1)
      | inr t ↦ rw t (e, h)
    ]

    insert-IsSorted : (x : A) (ys : List A) → IsSorted ys → IsSorted (insert_ordered before x ys)
    unfolding insert_ordered
    insert-IsSorted x [] h = (tt, tt)
    insert-IsSorted x (y ∷ ys) h = elim (Bool-cases (before y x)) [
      | inl t ↦ rw t (insert-All x y ys (o.asymm y x t) h.0, insert-IsSorted x ys h.1)
      | inr t ↦ rw t (
        (
          t,
          All-imp (λ z. before z y ≡ false) (λ z. before z x ≡ false) (λ z e. o.not_trans z y x e t)
              ys h.0,
        ),
        h,
      )
    ]

    pub order_by-IsSorted : (xs : List A) → IsSorted (order_by before xs)
    unfolding order_by
    order_by-IsSorted [] = tt
    order_by-IsSorted (x ∷ xs) = insert-IsSorted x (order_by before xs) (order_by-IsSorted xs)

  count-insert :
      (p : A → Bool) (x : A) (ys : List A)
      → count_where p (insert_ordered before x ys) ≡ count_where p (x ∷ ys)
  unfolding insert_ordered count_where
  count-insert p x [] = refl
  count-insert p x (y ∷ ys) = ground (arith, count-insert p x ys)

  -- Sorting keeps how often rows of any kind occur.
  pub count_where-order_by :
      (p : A → Bool) (xs : List A) → count_where p (order_by before xs) ≡ count_where p xs
  unfolding order_by count_where
  count_where-order_by p [] = refl
  count_where-order_by p (x ∷ xs) =
      count-insert p x (order_by before xs) ∙ ground (arith, count_where-order_by p xs)

module _ {ℓ} {A : Type ℓ} where
  pub count_where-select_all :
      (p q : A → Bool) (xs : List A)
      → count_where p (select_all q xs) ≡ count_where (λ x. q x && p x) xs
  unfolding select_all count_where
  count_where-select_all p q [] = refl
  count_where-select_all p q (x ∷ xs) = ground (arith, count_where-select_all p q xs)

  pub length-take : (n : ℕ) (xs : List A) → length (take n xs) ≤ n
  length-take zero xs = omega arith
  length-take (suc n) [] = omega arith
  length-take (suc n) (x ∷ xs) = omega (arith, length-take n xs)

  take-nil : (n : ℕ) → take {A = A} n [] ≡ []
  take-nil zero = refl
  take-nil (suc n) = refl

  drop-nil : (n : ℕ) → drop {A = A} n [] ≡ []
  drop-nil zero = refl
  drop-nil (suc n) = refl

  take-append : (l m : ℕ) (xs : List A) → take l xs ++ take m (drop l xs) ≡ take (l + m) xs
  take-append zero m xs = ground arith
  take-append (suc l) m [] = rw (take-nil m, take-nil (suc l + m)) refl
  take-append (suc l) m (x ∷ xs) =
      let e : suc (l + m) ≡ suc l + m = omega arith in
      ap (λ rest. x ∷ rest) (take-append l m xs) ∙ ap (λ n. take n (x ∷ xs)) e

  drop-drop : (o l : ℕ) (xs : List A) → drop (o + l) xs ≡ drop l (drop o xs)
  drop-drop zero l xs = ground arith
  drop-drop (suc o) l [] = rw (drop-nil (suc o + l), drop-nil l) refl
  drop-drop (suc o) l (x ∷ xs) =
      let e : suc o + l ≡ suc (o + l) = omega arith in
      ap (λ n. drop n (x ∷ xs)) e ∙ drop-drop o l xs

  -- A page and the one that follows it are a longer page.
  pub take-drop-append :
      (l m o : ℕ) (xs : List A)
      → take l (drop o xs) ++ take m (drop (o + l) xs) ≡ take (l + m) (drop o xs)
  take-drop-append l m o xs =
      ap (λ rest. take l (drop o xs) ++ take m rest) (drop-drop o l xs)
      ∙ take-append l m (drop o xs)
