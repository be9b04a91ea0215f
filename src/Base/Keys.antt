-- ===== src/Base/Keys.antt =====
-- Primary keys: rows with distinct keys, found again by their key after an update.
use Prim.Native.Nat.{ℕ, ◌+◌}
use mathlib.Core.Path.{◌≡◌, refl, sym, ◌∙◌, subst}
use mathlib.Core.Logic.{◌≢◌, inl, inr}
use mathlib.Core.Bool.{Bool, true, ◌&&◌}
use mathlib.Core.Option.{none, some}
use mathlib.Core.List.{List, [], ◌∷◌}
use native.Mathlib.Omega.{arith}
use verisure_ads_automation.Base.Tests.{
  if◌then◌else◌, nat_eqb_iff, nat_eqb_refl, Bool-cases, ◌==◌, nat_eq,
}
use verisure_ads_automation.Base.Table.{
  some-inj, All, All-insert, All-update, select_one, update_where, insert_row, count_where,
  update_where-id,
}
use verisure_ads_automation.Base.Order.{In, All-In, In-All}

-- What a query for one row by `q` finds, after an update that leaves the rows in `q`.
pub select_one-update {ℓ} :
    {A : Type ℓ} (q p : A → Bool) (f : A → A) (xs : List A)
    → ((a : A) → p a ≡ true → q (f a) ≡ q a)
    → {a : A} → select_one q xs ≡ some a
    → select_one q (update_where p f xs) ≡ some (if p a then f a else a)
unfolding select_one update_where
select_one-update q p f [] k h = cc
select_one-update q p f (x ∷ xs) k {a} h = ground (arith, k x, select_one-update q p f xs k {a = a})

module _ {A : Type 0} (key : A → ℕ) where
  abbrev pub Distinct : List A → Type 0
  Distinct [] = Unit
  Distinct (x ∷ xs) = All (λ y. key y ≢ key x) xs × Distinct xs

  pub Distinct-insert :
      (a : A) (xs : List A) → All (λ x. key x ≢ key a) xs → Distinct xs → Distinct (insert_row a xs)
  unfolding insert_row
  Distinct-insert a [] k d = (tt, tt)
  Distinct-insert a (x ∷ xs) k d =
      (All-insert (λ y. key y ≢ key x) a xs (λ e. k.0 (sym e)) d.0, Distinct-insert a xs k.1 d.1)

  pub Distinct-update :
      (p : A → Bool) (f : A → A) (xs : List A)
      → ((a : A) → key (f a) ≡ key a)
      → Distinct xs
      → Distinct (update_where p f xs)
  unfolding update_where
  Distinct-update p f [] k d = tt
  Distinct-update p f (x ∷ xs) k d = elim (Bool-cases (p x)) [
    | inl t ↦ rw (t, k x) (others, Distinct-update p f xs k d.1)
    | inr t ↦ rw t (others, Distinct-update p f xs k d.1)
  ]
    where
      others : All (λ y. key y ≢ key x) (update_where p f xs)
      others = All-update (λ y. key y ≢ key x) p f xs (λ a _ n. λ e. n (sym (k a) ∙ e)) d.0

  pub select_one_of_In :
      (a : A) (xs : List A) → In a xs → Distinct xs → select_one (λ x. key x == key a) xs ≡ some a
  unfolding select_one
  select_one_of_In a [] m d = absurd m
  select_one_of_In a (x ∷ xs) (inl e) d = rw (← e, nat_eqb_refl (key a))
  select_one_of_In a (x ∷ xs) (inr m) d =
      let apart = All-In (λ y. key y ≢ key x) a xs d.0 m in
      ground (arith, nat_eqb_iff (key x) (key a), select_one_of_In a xs m d.1)

  -- The row that is found by a test that only rows of its key meet.
  pub select_one-fits :
      (p : A → Bool) (a : A) (xs : List A)
      → In a xs
      → p a ≡ true
      → ((x : A) → p x ≡ true → key x ≡ key a)
      → Distinct xs
      → select_one p xs ≡ some a
  unfolding select_one
  select_one-fits p a [] m t h d = absurd m
  select_one-fits p a (x ∷ xs) (inl e) t h d = ground arith
  select_one-fits p a (x ∷ xs) (inr m) t h d =
      let apart = All-In (λ y. key y ≢ key x) a xs d.0 m in
      elim (Bool-cases (p x)) [
        | inl f ↦ absurd (apart (sym (h x f)))
        | inr f ↦ rw f (select_one-fits p a xs m t h d.1)
      ]

  none_with_key :
      (q : A → Bool) (k : ℕ) (xs : List A)
      → ((x : A) → q x ≡ true → key x ≡ k)
      → All (λ y. key y ≢ k) xs
      → count_where q xs ≡ 0
  unfolding count_where
  none_with_key q k [] imp h = refl
  none_with_key q k (x ∷ xs) imp h = elim (Bool-cases (q x)) [
    | inl t ↦ absurd (h.0 (imp x t))
    | inr t ↦ rw t (none_with_key q k xs imp h.1)
  ]

  -- Of the conditions that fix the key, a table with distinct keys has one row or none.
  pub count_where-key :
      (q : A → Bool) (k : ℕ) (xs : List A) (a : A)
      → ((x : A) → q x ≡ true → key x ≡ k)
      → Distinct xs
      → select_one (λ x. key x == k) xs ≡ some a
      → count_where q xs ≡ (if q a then 1 else 0)
  unfolding count_where select_one
  count_where-key q k [] a imp d e = cc
  count_where-key q k (x ∷ xs) a imp d e = elim (Bool-cases (key x == k)) [
    | inl t ↦
        let same : key x ≡ k = (nat_eqb_iff (key x) k).0 t in
        ground (arith, none_with_key q k xs imp (subst (λ j. All (λ y. key y ≢ j) xs) same d.0))
    | inr t ↦ ground (arith, imp x, nat_eqb_iff (key x) k, count_where-key q k xs a imp d.1)
  ]

  -- What an update of the one row with a key does to the number of rows that meet a condition.
  pub count_where-update_key :
      (q p : A → Bool) (f : A → A) (k : ℕ) (xs : List A) (a : A)
      → ((x : A) → p x ≡ true → key x ≡ k)
      → Distinct xs
      → select_one (λ x. key x == k) xs ≡ some a
      → p a ≡ true
      → count_where q (update_where p f xs) + (if q a then 1 else 0)
        ≡ count_where q xs + (if q (f a) then 1 else 0)
  unfolding count_where update_where select_one
  count_where-update_key q p f k [] a imp d e t = cc
  count_where-update_key q p f k (x ∷ xs) a imp d e t = elim (Bool-cases (key x == k)) [
    | inl here ↦
        let same : key x ≡ k = (nat_eqb_iff (key x) k).0 here in
        let others = none_with_key p k xs imp (subst (λ j. All (λ y. key y ≢ j) xs) same d.0) in
        ground (arith, update_where-id p f xs others)
    | inr there ↦
        ground (arith, imp x, nat_eqb_iff (key x) k, count_where-update_key q p f k xs a imp d.1)
  ]

  -- A condition that fixes the key finds the row with that key that meets it.
  pub select_one-key :
      (q : A → Bool) (a : A) (xs : List A)
      → ((x : A) → q x ≡ true → key x ≡ key a)
      → In a xs
      → Distinct xs
      → q a ≡ true
      → select_one q xs ≡ some a
  unfolding select_one
  select_one-key q a [] imp m d e = absurd m
  select_one-key q a (x ∷ xs) imp (inl same) d e = rw (← same, e)
  select_one-key q a (x ∷ xs) imp (inr m) d e =
      let apart = All-In (λ y. key y ≢ key x) a xs d.0 m in
      elim (Bool-cases (q x)) [
        | inl t ↦ absurd (apart (sym (imp x t)))
        | inr t ↦ rw t (select_one-key q a xs imp m d.1 e)
      ]

  pub select_one-fresh :
      (q : A → Bool) (k : ℕ) (xs : List A)
      → ((x : A) → q x ≡ true → key x ≡ k)
      → All (λ x. key x ≢ k) xs
      → select_one q xs ≡ none
  unfolding select_one
  select_one-fresh q k [] imp h = refl
  select_one-fresh q k (x ∷ xs) imp h = elim (Bool-cases (q x)) [
    | inl t ↦ absurd (h.0 (imp x t))
    | inr t ↦ rw t (select_one-fresh q k xs imp h.1)
  ]

pub select_one-none-imp {ℓ} :
    {A : Type ℓ} (p q : A → Bool) (xs : List A)
    → All (λ x. p x ≡ true → q x ≡ true) xs
    → select_one q xs ≡ none
    → select_one p xs ≡ none
unfolding select_one
select_one-none-imp p q [] h e = refl
select_one-none-imp p q (x ∷ xs) h e = ground (arith, h.0, select_one-none-imp p q xs h.1)

pub update_where-agree {ℓ} :
    {A : Type ℓ} (p q : A → Bool) (f : A → A) (xs : List A)
    → All (λ x. p x ≡ q x) xs
    → update_where p f xs ≡ update_where q f xs
unfolding update_where
update_where-agree p q f [] h = refl
update_where-agree p q f (x ∷ xs) h = rw (h.0, update_where-agree p q f xs h.1)

module _ {A : Type 0} (key : A → ℕ) where
  same-key : (a b : A) (xs : List A) → In a xs → In b xs → Distinct key xs → key a ≡ key b → a ≡ b
  same-key a b xs m n d e = some-inj (
      sym (select_one_of_In key a xs m d)
      ∙ (subst (λ k. select_one (λ x. key x == k) xs ≡ some b) (sym e)
          (select_one_of_In key b xs n d)))

  -- An update of the row with the key of `c` that fits updates rows that fit.
  pub update_where-fits :
      (fits : A → Bool) (f : A → A) (c : A) (xs : List A)
      → In c xs
      → fits c ≡ true
      → Distinct key xs
      → update_where (λ x. key x == key c) f xs ≡ update_where (λ x. key x == key c && fits x) f xs
  update_where-fits fits f c xs m e d =
      update_where-agree (λ x. key x == key c) (λ x. key x == key c && fits x) f xs
        (In-All (λ x. (key x == key c) ≡ (key x == key c && fits x)) xs
          (λ x n. elim (Bool-cases (key x == key c)) [
            | inl t ↦
                let same = same-key x c xs n m d ((nat_eqb_iff (key x) (key c)).0 t) in
                rw (t, same, e)
            | inr t ↦ rw t
          ]))
