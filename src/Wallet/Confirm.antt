-- ===== src/Wallet/Confirm.antt =====
-- wallet-backend/chain/solana.go: waiting for a transaction, and sending one. What the RPC answers, the
-- clock, the building and the signing of a transaction are parameters.
use mathlib.Core.Path.{subst}
use tchebets_open.Prelude.{
  ℕ, suc, zero, ◌+◌, ◌≤◌, ◌<◌, ◌≡◌, refl, String, ◌⊎◌, inl, inr, Bool, true, false, Option, none,
  some, Result, ok, err, arith, Option-cases,
}

-- The status of a signature in one poll: no answer or not known; failed on chain; processed; or
-- confirmed or finalized.
pub data Poll : Type 0 where
  unknown on_chain_error processed settled : Poll

pub data ConfirmError : Type 0 where
  failed_on_chain cancelled not_built not_sent : ConfirmError

abbrev pub Confirmation : Type 0
Confirmation = Result ConfirmError (Unit {0})

-- One turn of the loop of `confirmSignature`: a result, or `none` to go on. The context may be done
-- before the next poll.
unfoldable pub confirm_turn : Poll → Bool → Option Confirmation
confirm_turn on_chain_error done = some (err failed_on_chain)
confirm_turn settled done = some (ok tt)
confirm_turn _ true = some (err cancelled)
confirm_turn _ false = none

-- In a poll that settles nothing, a context that is done ends the wait.
Poll-cases :
    (p : Poll)
    → (p ≡ settled)
      ⊎ ((p ≡ on_chain_error) ⊎ ((b : Bool) → b ≡ true → confirm_turn p b ≡ some (err cancelled)))
unfolding confirm_turn
Poll-cases unknown = inr (inr (λ b h. ground (arith, h)))
Poll-cases on_chain_error = inr (inl refl)
Poll-cases processed = inr (inr (λ b h. ground (arith, h)))
Poll-cases settled = inl refl

abbrev pub or_else : {A : Type 0} → Option A → Option A → Option A
or_else (some a) rest = some a
or_else none rest = rest

-- `signSendConfirm`: the signature, empty where nothing was broadcast, and the error, if any.
unfoldable pub sign_send_confirm :
    Confirmation → Result ConfirmError String → (String → Confirmation) → String × Confirmation
sign_send_confirm built send confirm = elim built [
  | err e ↦ ("", err e)
  | ok _ ↦ elim send [ err e ↦ ("", err e) | ok sig ↦ (sig, confirm sig) ]
]

module _ (poll : ℕ → Poll) (done : ℕ → Bool) where
  -- `confirmSignature` from the poll `i` on, with `none` where the fuel runs out.
  unfoldable pub confirm_signature : (fuel i : ℕ) → Option Confirmation
  unfolding confirm_turn
  confirm_signature zero i = none
  confirm_signature (suc fuel) i =
      or_else (confirm_turn (poll i) (done i)) (confirm_signature fuel (suc i))

  -- A good result rests on a poll, from `i` to `j`, that found the transaction settled.
  abbrev pub Verdict : ℕ → ℕ → Confirmation → Type 0
  Verdict i j (ok _) = (k : ℕ) × (i ≤ k) × (k ≤ j) × (poll k ≡ settled)
  Verdict i j (err _) = Unit

  Verdict-later : (i j : ℕ) (r : Confirmation) → Verdict (suc i) j r → Verdict i j r
  Verdict-later i j (ok a) (k, low, high, e) = (k, omega (arith, low), high, e)
  Verdict-later i j (err e) v = tt

  turn-Verdict :
      (i j : ℕ) (r : Confirmation) → i ≤ j → confirm_turn (poll i) (done i) ≡ some r → Verdict i j r
  unfolding confirm_turn
  turn-Verdict i j (err e) l h = tt
  turn-Verdict i j (ok a) l h = (i, omega arith, l, ground (arith, h))

  turn-done :
      (i : ℕ) → done i ≡ true → (r : Confirmation) × (confirm_turn (poll i) (done i) ≡ some r)
  unfolding confirm_turn
  turn-done i h = elim (Poll-cases (poll i)) [
    | inl e ↦ (ok tt, ground (arith, e))
    | inr (inl e) ↦ (err failed_on_chain, ground (arith, e))
    | inr (inr e) ↦ (err cancelled, e (done i) h)
  ]

  -- Where the context is done after `n` more polls, fuel for them is enough: the wait returns, and
  -- it returns without an error only if one of those polls found the transaction settled.
  pub confirm_signature-returns :
      (n fuel i : ℕ)
      → done (i + n) ≡ true
      → n < fuel
      → (r : Confirmation) × (confirm_signature fuel i ≡ some r) × Verdict i (i + n) r
  unfolding confirm_signature
  confirm_signature-returns n zero i h l = absurd (omega (arith, l))
  confirm_signature-returns zero (suc fuel) i h l =
      let (r, e) = turn-done i (ground (arith, h)) in
      (r, ground (arith, e), turn-Verdict i (i + 0) r (omega arith) e)
  confirm_signature-returns (suc n) (suc fuel) i h l =
      elim (Option-cases (confirm_turn (poll i) (done i))) [
        | inr (r, e) ↦ (r, ground (arith, e), turn-Verdict i (i + suc n) r (omega arith) e)
        | inl e ↦
            let same : suc i + n ≡ i + suc n = omega arith in
            let (r, k, v) =
              confirm_signature-returns n fuel (suc i) (rw same h) (omega (arith, l)) in
            (
              r,
              ground (arith, e, k),
              subst (λ j. Verdict i j r) same (Verdict-later i (suc i + n) r v),
            )
      ]
