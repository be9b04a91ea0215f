-- ===== src/Observability/RequestIds.antt =====
-- The ids that resolve_request_id of app/middleware/request_context.py lets pass.
use verisure_ads_automation.Base.{
  ◌≤◌, ◌≡◌, ◌≢◌, refl, true, false, Option, none, some, [], ◌∷◌, arith, All, length, nat_eq, ltb,
  Bool-cases, inl, inr, ◌⊎◌,
}
use verisure_ads_automation.Base.Text.{Text, strip}
use verisure_ads_automation.Observability.Middleware.{
  max_request_id_length, has_newline, is_printable_code, is_printable, accept, resolve_request_id,
}

-- A text that can stand in a log line and a header.
pub record IsSafeId (id : Text) : Type 0 where
  pub not_empty : id ≢ []
  pub short : length id ≤ 128
  pub printable : All (λ c. is_printable_code c ≡ true) id

printable-All : (t : Text) → is_printable t ≡ true → All (λ c. is_printable_code c ≡ true) t
unfolding is_printable
printable-All [] e = tt
printable-All (c ∷ t) e = (ground arith, printable-All t (ground arith))

All-printable : (t : Text) → All (λ c. is_printable_code c ≡ true) t → is_printable t ≡ true
unfolding is_printable
All-printable [] h = refl
All-printable (c ∷ t) h = ground (arith, h.0, All-printable t h.1)

no_newline : (t : Text) → is_printable t ≡ true → has_newline t ≡ false
unfolding is_printable has_newline
no_newline [] e = refl
no_newline (c ∷ t) e = ground (arith, no_newline t)

-- The checks accept the safe ids, and replace the others.
accept_cases :
    (generated candidate : Text)
    → (IsSafeId candidate × (accept generated candidate ≡ candidate))
      ⊎ ((¬ IsSafeId candidate) × (accept generated candidate ≡ generated))
accept_cases generated [] = inr (λ s. s.not_empty refl, refl)
accept_cases generated (c ∷ t) = elim (Bool-cases (ltb max_request_id_length (length (c ∷ t)))) [
  | inl long ↦ inr (λ s. ground (arith, s.short), rw long refl)
  | inr short ↦ elim (Bool-cases (has_newline (c ∷ t))) [
    | inl n ↦ inr (
      λ s. let none_there = no_newline (c ∷ t) (All-printable (c ∷ t) s.printable) in cc,
      rw (short, n) refl,
    )
    | inr n ↦ elim (Bool-cases (is_printable (c ∷ t))) [
      | inr p ↦
          inr (λ s. let printable = All-printable (c ∷ t) s.printable in cc, rw (short, n, p) refl)
      | inl p ↦ inl (
        record { not_empty = λ e. cc; short = ground arith; printable = printable-All (c ∷ t) p },
        rw (short, n, p) refl,
      )
    ]
  ]
]

-- The id of a request is the stripped header where that is safe, and the drawn one otherwise.
pub Chosen : Text → Option Text → Text → Type 0
Chosen generated none id = id ≡ generated
Chosen generated (some raw) id =
    (IsSafeId (strip raw) × (id ≡ strip raw)) ⊎ ((¬ IsSafeId (strip raw)) × (id ≡ generated))

pub resolve-Chosen :
    (generated : Text) (raw : Option Text)
    → IsSafeId generated
    → IsSafeId (resolve_request_id generated raw)
      × Chosen generated raw (resolve_request_id generated raw)
unfolding resolve_request_id Chosen
resolve-Chosen generated none g = (g, refl)
resolve-Chosen generated (some raw) g = elim (accept_cases generated (strip raw)) [
  | inl (safe, e) ↦ (rw e safe, inl (safe, e))
  | inr (unsafe, e) ↦ (rw e g, inr (unsafe, e))
]
