-- ===== src/Connections/KeyList.antt =====
-- The list of encryption keys that CredentialEncryptionService reads from its configuration.
use verisure_ads_automation.Base.{
  ℕ, ◌≡◌, ◌≢◌, refl, sym, ap, false, some, String, List, [], ◌∷◌, ◌++◌, map, arith, ◌==◌, nat_eq,
  nat_eqb_iff, Bool-cases, All, inl, inr, ◌∙◌,
}
use verisure_ads_automation.Base.Text.{Text, codes, strip, is_blank, is_empty}
use verisure_ads_automation.Exceptions.{Exception}
use verisure_ads_automation.Session.{Result, ok, raised}
use verisure_ads_automation.Connections.Envelope.{
  push, split_commas, add_key, parse_each, parse_text, parse_keys,
}

-- The parts of a text, with commas between them.
abbrev pub join_commas : List Text → Text
join_commas [] = []
join_commas (w ∷ []) = w
join_commas (w ∷ v ∷ ws) = w ++ (b',' ∷ join_commas (v ∷ ws))

abbrev pub HasNoComma : Text → Type 0
HasNoComma w = All (λ c. c ≢ b',') w

abbrev pub IsKey : Text → Type 0
IsKey key = is_empty key ≡ false

-- The text between its commas, in order, with the white space taken off each end; none is empty.
pub record IsKeyList (t : Text) (keys : List Text) : Type 0 where
  pub parts : List Text
  pub joined : join_commas parts ≡ t
  pub at_least_one : parts ≢ []
  pub apart : All HasNoComma parts
  pub stripped : keys ≡ map strip parts
  pub not_empty : All IsKey keys

split-cons : (t : Text) → (w : Text) × (ws : List Text) × (split_commas t ≡ w ∷ ws)
unfolding split_commas
split-cons [] = ([], [], refl)
split-cons (c ∷ t) =
    let (w, ws, e) = split-cons t in
    elim (Bool-cases (c == b',')) [
      | inl b ↦ ([], split_commas t, rw b refl)
      | inr b ↦ (c ∷ w, ws, rw (b, e) refl)
    ]

join-empty :
    (w : Text) (ws vs : List Text) → vs ≡ w ∷ ws → join_commas ([] ∷ vs) ≡ b',' ∷ join_commas vs
join-empty w ws vs e = rw e refl

join-push : (c : ℕ) (ws : List Text) → join_commas (push c ws) ≡ c ∷ join_commas ws
join-push c [] = refl
join-push c (w ∷ []) = refl
join-push c (w ∷ v ∷ ws) = refl

push-apart : (c : ℕ) (ws : List Text) → c ≢ b',' → All HasNoComma ws → All HasNoComma (push c ws)
push-apart c [] n h = ((n, tt), tt)
push-apart c (w ∷ ws) n (h, hs) = ((n, h), hs)

split-join : (t : Text) → join_commas (split_commas t) ≡ t
unfolding split_commas
split-join [] = refl
split-join (c ∷ t) =
    let (w, ws, e) = split-cons t in
    let h = split-join t in
    elim (Bool-cases (c == b',')) [
      | inl b ↦ rw b (
          join-empty w ws (split_commas t) e
          ∙ ap (λ x. b',' ∷ x) h
          ∙ ap (λ x. x ∷ t) (sym ((nat_eqb_iff c b',').0 b)))
      | inr b ↦ rw b (join-push c (split_commas t) ∙ ap (λ x. c ∷ x) h)
    ]

split-apart : (t : Text) → All HasNoComma (split_commas t)
unfolding split_commas
split-apart [] = (tt, tt)
split-apart (c ∷ t) = elim (Bool-cases (c == b',')) [
  | inl b ↦ rw b (tt, split-apart t)
  | inr b ↦
      rw b (push-apart c (split_commas t) (λ e. ground (arith, nat_eqb_iff c b',')) (split-apart t))
]

added :
    (key : Text) (r : Result (List Text)) (keys : List Text)
    → add_key key r ≡ ok keys
    → (rest : List Text) × (r ≡ ok rest) × (keys ≡ key ∷ rest)
added key (ok ks) keys h = (ks, refl, cc)
added key (raised e) keys h = cc

each-stripped :
    (ws keys : List Text) → parse_each ws ≡ ok keys → (keys ≡ map strip ws) × All IsKey keys
unfolding parse_each is_blank
each-stripped [] keys h = let e : [] ≡ keys = cc in rw (← e) (refl, tt)
each-stripped (w ∷ ws) keys h = elim (Bool-cases (is_empty (strip w))) [
  | inl b ↦ absurd (ground arith)
  | inr b ↦
      let (rest, r, k) = added (strip w) (parse_each ws) keys (rw b at h) in
      let (a, n) = each-stripped ws rest r in rw k (ap (λ x. strip w ∷ x) a, (b, n))
]

parsed : (t : Text) (keys : List Text) → parse_text t ≡ ok keys → IsKeyList t keys
parsed t keys h = elim (Bool-cases (is_blank t)) [
  | inl b ↦ absurd (refuse (rw b at h))
  | inr b ↦
      let (a, n) = each-stripped (split_commas t) keys (rw b at h) in
      let (w, ws, e) = split-cons t in
      record {
        parts = split_commas t;
        joined = split-join t;
        at_least_one = λ x. cc;
        apart = split-apart t;
        stripped = a;
        not_empty = n;
      }
]
  where
    refuse : {e : Exception} {ks : List Text} → raised e ≡ ok ks → ⊥
    refuse h' = cc

-- A configuration that is accepted gives, in its order, each text between its commas with the
-- white space taken off the ends, and none of them is empty: no configured key is skipped, a
-- blank one being refused.
pub parse_keys-IsKeyList :
    (encryption_keys : String) (keys : List Text)
    → parse_keys (some encryption_keys) ≡ ok keys
    → IsKeyList (codes encryption_keys) keys
unfolding parse_keys
parse_keys-IsKeyList encryption_keys keys h = parsed (codes encryption_keys) keys h
