-- ===== src/General/Created.antt =====
-- The market that a request to `createMarket` of general-backend/handlers/handlers.go creates.
use native.Mathlib.Nat.{mul-le-mul_left}
use tchebets_open.Prelude.{
  ℕ, ◌≤◌, String, ◌≡◌, ◌⊎◌, inl, inr, Bool-cases, List, map, arith, ℤ, pos, length,
}
use tchebets_open.Bet.History.{create, Fits}
use tchebets_open.Bet.Handlers.{is_given, handle}
use tchebets_open.General.Sanitize.{
  max_sanity_int, non_empty_string, non_negative_int64, sanitize_outcomes,
}
use tchebets_open.General.Sanitized.{
  Distinct, Result-cases, non_negative_int64-bounds, sanitize_outcomes-clean,
}
use tchebets_open.General.Site.{Site, Env, relay}
use tchebets_open.General.Api.{api_create, max_question_len, max_outcome_len}

-- A request to create a market is refused with 400 and no call, or is passed on with at most ten
-- outcomes, no two alike but for their case, and with seeds whose sum is far below 2^63, so that
-- CreateMarket does not wrap around.
pub api_create-bounds :
    (env : Env) (now m : ℕ) (ids : ℕ → ℕ) (q : String) (os : List String) (n : ℤ) (s : Site)
    → (api_create env now m ids q os n s ≡ (400, s))
      ⊎ ((t : String) × (ts : List String) × (k : ℕ) × (api_create env now m ids q os n s
            ≡ relay (handle now (create m ids t ts (pos k))) s)
          × (n ≡ pos k)
          × Distinct (map env.to_lower ts)
          × (length ts ≤ 10)
          × Fits (create m ids t ts (pos k)) s.bets)
unfolding api_create handle
api_create-bounds env now m ids q os n s = elim (Bool-cases (is_given q)) [
  | inr h ↦ inl (ground (arith, h))
  | inl h ↦ elim (Result-cases (non_empty_string q max_question_len)) [
    | inr (x, e) ↦ inl (ground (arith, h, e))
    | inl (t, e) ↦ elim (Result-cases (sanitize_outcomes env.to_lower os 2 10 max_outcome_len)) [
      | inr (x, f) ↦ inl (ground (arith, h, e, f))
      | inl (ts, f) ↦ elim (Result-cases (non_negative_int64 n max_sanity_int)) [
        | inr (x, g) ↦ inl (ground (arith, h, e, f, g))
        | inl (v, g) ↦
            let (k, same, value, high) = non_negative_int64-bounds n v max_sanity_int g in
            let (low, most, clean, distinct, again) =
              sanitize_outcomes-clean env.to_lower os ts 2 10 max_outcome_len f in
            inr (
              t,
              ts,
              k,
              ground (arith, h, e, f, g, value),
              same,
              distinct,
              most,
              ground (arith, mul-le-mul_left k most),
            )
      ]
    ]
  ]
]
