-- ===== src/General/Sanitized.antt =====
-- What the checks of general-backend/sanitize/sanitize.go let through.
use Prim.Native.String.{String, len}
use text.Mathlib.TextPositions.{eq_refl}
use tchebets_open.Prelude.{
  str_eq, eq_iff, ap, ℕ, suc, ◌≤◌, ◌<◌, ◌≡◌, refl, true, false, List, [], ◌∷◌, map, Result, ok, err,
  arith, ltb, ℤ, pos, negsuc, length, contains, Bool-cases, inl, inr, ◌⊎◌,
}
use tchebets_open.General.Text.{is_empty, trim, trim_idem}
use tchebets_open.General.Sanitize.{
  non_empty_string, positive_int64, non_negative_int64, clean_outcomes, sanitize_outcomes,
}

-- A trimmed text that is not empty and has at most so many bytes.
pub record IsClean (max_len : ℕ) (t : String) : Type 0 where
  pub trimmed : trim t ≡ t
  pub given : is_empty t ≡ false
  pub short : len t ≤ max_len

pub Result-cases :
    {E A : Type 0} (r : Result E A) → ((a : A) × (r ≡ ok a)) ⊎ ((e : E) × (r ≡ err e))
Result-cases (ok a) = inl (a, refl)
Result-cases (err e) = inr (e, refl)

pub non_empty_string-IsClean :
    (s t : String) (max_len : ℕ) → non_empty_string s max_len ≡ ok t → IsClean max_len t
unfolding non_empty_string
non_empty_string-IsClean s t max_len e = elim (Bool-cases (is_empty (trim s))) [
  | inl h ↦ absurd (ground arith)
  | inr h ↦ elim (Bool-cases (ltb max_len (len (trim s)))) [
    | inl k ↦ absurd (ground arith)
    | inr k ↦
        let same : t ≡ trim s = ground arith in
        record {
          trimmed = rw same (trim_idem s);
          given = rw same h;
          short = rw same (ground arith);
        }
  ]
]

-- A clean text goes through again as it is.
non_empty_string-clean :
    (t : String) (max_len : ℕ) → IsClean max_len t → non_empty_string t max_len ≡ ok t
unfolding non_empty_string
non_empty_string-clean t max_len c = rw (c.trimmed, c.given) (ground (arith, c.short))

pub positive_int64-bounds :
    (n m : ℤ) (max : ℕ)
    → positive_int64 n max ≡ ok m
    → (k : ℕ) × (n ≡ pos k) × (m ≡ pos k) × (0 < k) × (k ≤ max)
unfolding positive_int64
positive_int64-bounds (pos k) m max e = (k, refl, ground arith, ground arith, ground arith)
positive_int64-bounds (negsuc k) m max e = absurd (ground arith)

pub non_negative_int64-bounds :
    (n m : ℤ) (max : ℕ)
    → non_negative_int64 n max ≡ ok m
    → (k : ℕ) × (n ≡ pos k) × (m ≡ pos k) × (k ≤ max)
unfolding non_negative_int64
non_negative_int64-bounds (pos k) m max e = (k, refl, ground arith, ground arith)
non_negative_int64-bounds (negsuc k) m max e = absurd (ground arith)

abbrev pub AllClean : ℕ → List String → Type 0
AllClean max_len [] = Unit
AllClean max_len (t ∷ ts) = IsClean max_len t × AllClean max_len ts

-- No text stands twice.
abbrev pub Distinct : List String → Type 0
Distinct [] = Unit
Distinct (k ∷ ks) = (contains k ks ≡ false) × Distinct ks

module _ (to_lower : String → String) where
  -- The keys are new, one after the other.
  abbrev Fresh : List String → List String → Type 0
  Fresh seen [] = Unit
  Fresh seen (t ∷ ts) = (contains (to_lower t) seen ≡ false) × Fresh (to_lower t ∷ seen) ts

  Fresh-apart :
      (seen ts : List String) (k : String)
      → Fresh seen ts
      → contains k seen ≡ true
      → contains k (map to_lower ts) ≡ false
  Fresh-apart seen [] k f h = refl
  Fresh-apart seen (t ∷ ts) k f h = elim (Bool-cases (str_eq (to_lower t) k)) [
    | inl q ↦ absurd (ground (arith, eq_iff (to_lower t) k))
    | inr q ↦ ground (arith, Fresh-apart (to_lower t ∷ seen) ts k f.1 (ground arith))
  ]

  Fresh-Distinct : (seen ts : List String) → Fresh seen ts → Distinct (map to_lower ts)
  Fresh-Distinct seen [] f = tt
  Fresh-Distinct seen (t ∷ ts) f = (
    Fresh-apart (to_lower t ∷ seen) ts (to_lower t) f.1 (ground (arith, eq_refl (to_lower t))),
    Fresh-Distinct (to_lower t ∷ seen) ts f.1,
  )

  clean_outcomes-Fresh :
      (max_len : ℕ) (seen os ts : List String)
      → clean_outcomes to_lower max_len seen os ≡ ok ts
      → AllClean max_len ts × Fresh seen ts × (length ts ≡ length os)
  unfolding clean_outcomes
  clean_outcomes-Fresh max_len seen [] [] e = (tt, tt, refl)
  clean_outcomes-Fresh max_len seen [] (t ∷ ts) e = absurd (ground arith)
  clean_outcomes-Fresh max_len seen (o ∷ os) ts e =
      elim (Result-cases (non_empty_string o max_len)) [
        | inr (x, q) ↦ absurd (ground arith)
        | inl (t, q) ↦ elim (Bool-cases (contains (to_lower t) seen)) [
          | inl r ↦ absurd (ground arith)
          | inr r ↦ elim (Result-cases (clean_outcomes to_lower max_len (to_lower t ∷ seen) os)) [
            | inr (x, p) ↦ absurd (ground arith)
            | inl (us, p) ↦
                let same : ts ≡ t ∷ us = ground arith in
                let (clean, fresh, size) =
                  clean_outcomes-Fresh max_len (to_lower t ∷ seen) os us p in
                rw same ((non_empty_string-IsClean o t max_len q, clean), (r, fresh), ap suc size)
          ]
        ]
      ]

  clean_outcomes-clean :
      (max_len : ℕ) (seen ts : List String)
      → AllClean max_len ts
      → Fresh seen ts
      → clean_outcomes to_lower max_len seen ts ≡ ok ts
  unfolding clean_outcomes
  clean_outcomes-clean max_len seen [] c f = refl
  clean_outcomes-clean max_len seen (t ∷ ts) c f = ground (
    arith,
    non_empty_string-clean t max_len c.0,
    f.0,
    clean_outcomes-clean max_len (to_lower t ∷ seen) ts c.1 f.1,
  )

  -- What `Outcomes` lets through has a number of outcomes in the range, each trimmed, not empty and
  -- short enough, no two alike but for their case; and it goes through again unchanged.
  pub sanitize_outcomes-clean :
      (os ts : List String) (low high max_len : ℕ)
      → sanitize_outcomes to_lower os low high max_len ≡ ok ts
      → (low ≤ length ts)
        × (length ts ≤ high)
        × AllClean max_len ts
        × Distinct (map to_lower ts)
        × (sanitize_outcomes to_lower ts low high max_len ≡ ok ts)
  unfolding sanitize_outcomes
  sanitize_outcomes-clean os ts low high max_len e = elim (Bool-cases (ltb (length os) low)) [
    | inl h ↦ absurd (ground arith)
    | inr h ↦ elim (Bool-cases (ltb high (length os))) [
      | inl k ↦ absurd (ground arith)
      | inr k ↦
          let done : clean_outcomes to_lower max_len [] os ≡ ok ts = ground arith in
          let (clean, fresh, size) = clean_outcomes-Fresh max_len [] os ts done in
          let again = clean_outcomes-clean max_len [] ts clean fresh in
          (ground arith, ground arith, clean, Fresh-Distinct [] ts fresh, rw size (rw (h, k) again))
    ]
  ]
