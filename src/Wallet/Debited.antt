-- ===== src/Wallet/Debited.antt =====
-- A withdrawal gives back at most what it has debited.
use tchebets_open.Prelude.{
  ℕ, ◌+◌, ◌<◌, ◌≡◌, refl, ap, String, inl, inr, Bool, true, false, Result, ok, err, arith, ℤ, pos,
  ◌-ℤ◌,
}
use tchebets_open.Int64.{int64_limit}
use tchebets_open.Bet.Wealth.{wealth}
use tchebets_open.Bet.Adjusts.{adjust_bounded}
use tchebets_open.Wallet.Models.{
  World, WalletError, Chain, Config, amount_below_min, amount_above_max, manual_review, Withdrawal,
}
use tchebets_open.Wallet.Effects.{W, ◌>>=◌, ◌>>◌, attempt, guard, call, next_answer}
use tchebets_open.Wallet.Store.{insert_withdrawal}
use tchebets_open.Wallet.Service.{
  adjust_ledger, request_withdrawal, recorded_or_refund, settle_withdrawal,
}
use tchebets_open.Wallet.Deposits.{Answer-cases}
use tchebets_open.Wallet.Keeps.{Keeps}
use tchebets_open.Wallet.Quiet.{Quiet}
use tchebets_open.Wallet.Spends.{Ends, debited-Ends}
use tchebets_open.Wallet.Worth.{Slack, Slack-Quiet, Slack-less, Slack-adjust}

-- From `Lo`, a debit keeps `Lo`, and reaches `Hi` if it is taken.
abbrev pub Grants : {A : Type 0} → (Lo Hi : World → Type 0) → W A → Type 0
Grants {A = A} Lo Hi m =
    (w : World) → Lo w → let (r, w') = m w in Lo w' × ((a : A) → r ≡ ok a → Hi w')

module _ (chain : Chain) (cfg : Config) {Hi Lo : World → Type 0} (hi : Quiet chain cfg Hi)
    (lo : Quiet chain cfg Lo) (weaken : (w : World) → Hi w → Lo w) (id n : ℕ)
    (spend : Ends Hi Lo (adjust_ledger id (pos n)))
    (grant : Grants Lo Hi (adjust_ledger id (pos 0 -ℤ pos n))) where
  call-Grants : Grants Lo Hi (call (adjust_ledger id (pos 0 -ℤ pos n)))
  unfolding call
  call-Grants w h = elim (Answer-cases (next_answer w.answers)) [
    | inl a ↦ rw a (grant _ (lo.blind w _ h))
    | inr (inl a) ↦ rw a (lo.blind w _ h, λ b e. absurd (ground (arith, e)))
    | inr (inr a) ↦ rw a ((grant _ (lo.blind w _ h)).0, λ b e. absurd (ground (arith, e)))
  ]

  module _ (wid micro : ℕ) (dest : String) (review : Bool) (v : Withdrawal) where
    rest : W (Unit {0})
    rest = attempt (call (insert_withdrawal wid v)) >>= λ r.
        recorded_or_refund chain cfg id (pos n) r
        >> (guard review manual_review >> settle_withdrawal chain cfg wid id dest (pos n) micro)

    debited :
        (r : Result WalletError ℤ) (w : World)
        → Lo w
        → ((b : ℤ) → r ≡ ok b → Hi w)
        → Lo (◌>>=◌ (λ x. (r, x)) (λ _. rest) w).1
    unfolding rest
    debited (err e) w h taken = h
    debited (ok b) w h taken =
        (debited-Ends chain cfg hi lo weaken id (pos n) spend wid dest micro review v).at w
          (taken b refl)

    limited :
        (low high : Bool) (w : World)
        → Lo w
        → Lo
            ((guard low amount_below_min
                >> (guard high amount_above_max
                    >> (call (adjust_ledger id (pos 0 -ℤ pos n)) >>= λ _. rest)))
              w).1
    limited false high w h = h
    limited true false w h = h
    limited true true w h = let (kept, taken) = call-Grants w h in debited _ _ kept taken

  pub request_by :
      (wid : ℕ) (dest : String) → Keeps Lo (request_withdrawal chain cfg wid id dest (pos n))
  unfolding request_withdrawal rest
  request_by wid dest = record { at = λ w h. limited wid _ dest _ _ _ _ w h }

module _ (chain : Chain) (cfg : Config) (k c : ℕ) (id n : ℕ) (small : n < int64_limit) where
  -- The debit leaves as much more slack, if it is taken.
  Slack-Grants :
      Grants (Slack chain cfg k c) (Slack chain cfg (k + n) c) (adjust_ledger id (pos 0 -ℤ pos n))
  unfolding adjust_ledger
  Slack-Grants w h =
      elim (adjust_bounded id (pos 0 -ℤ pos n) w.ledger (ground (arith, small)) (ground arith)) [
        | inl (e, r, same) ↦ (omega (arith, ap wealth same), λ b x. absurd (ground (arith, r, x)))
        | inr (b, r, more) ↦ (ground (arith, h, more), λ b x. ground (arith, h, more))
      ]

  pub request-Slack :
      (wid : ℕ) (dest : String)
      → Keeps (Slack chain cfg k c) (request_withdrawal chain cfg wid id dest (pos n))
  request-Slack =
      request_by chain cfg (Slack-Quiet chain cfg (k + n) c) (Slack-Quiet chain cfg k c)
        (Slack-less chain cfg (k + n) k c (omega arith)) id n
        (Slack-adjust chain cfg (k + n) k c id (pos n) (omega arith) small (omega arith))
        Slack-Grants
