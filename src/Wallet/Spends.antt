-- ===== src/Wallet/Spends.antt =====
-- The operations of wallet-backend that move a balance, from a condition `Hi` that allows one movement
-- to a condition `Lo` that holds when it is spent.
use tchebets_open.Prelude.{ℕ, String, Result, ok, err, ℤ, Bool, true, false}
use tchebets_open.Wallet.Models.{
  fine, dropped, unanswered, World, WalletError, failed, signing, confirmed, manual_review, Chain,
  Config, Withdrawal,
}
use tchebets_open.Wallet.Effects.{
  W, ◌>>=◌, ◌>>◌, attempt, ignore, guard, call, next_answer, later_answers, answered,
}
use tchebets_open.Wallet.Store.{insert_withdrawal, mark_deposit_credited}
use tchebets_open.Wallet.Service.{
  adjust_ledger, or_mark_failed, refund, fail_and_refund, confirm_or_refund, sent_or_refund,
  send_or_refund, settle_withdrawal, recorded_or_refund,
}
use tchebets_open.Wallet.Keeps.{Keeps, Blind}
use tchebets_open.Wallet.Quiet.{Quiet, called, mark_failed-Quiet, confirm-Quiet, ensure_call-Quiet}

-- From `P`, `m` ends in `Q`, whether it returns or fails.
pub record Ends {A : Type 0} (P Q : World → Type 0) (m : W A) : Type 0 where
  pub at : (w : World) → P w → Q (m w).1

pub Keeps-Ends : {A : Type 0} {P : World → Type 0} {m : W A} → Keeps P m → Ends P P m
Keeps-Ends k = record { at = k.at }

module _ {Hi Lo : World → Type 0} where
  pub Ends-call :
      {A : Type 0} (m : W A)
      → Blind Hi
      → ((w : World) → Hi w → Lo w)
      → Ends Hi Lo m
      → Ends Hi Lo (call m)
  unfolding call
  Ends-call m blind weaken k = record {
    at = λ w h.
        elim (next_answer w.answers)
          as (λ a. Lo (answered a m (record w { answers = later_answers w.answers })).1) [
            | fine ↦ k.at _ (blind w _ h)
            | dropped ↦ weaken _ (blind w _ h)
            | unanswered ↦ k.at _ (blind w _ h)
          ];
  }

  -- The second step runs only after the first returns.
  pub Ends-bind :
      {A B : Type 0} {Mid : World → Type 0} (m : W A) (f : A → W B)
      → ((w : World) → Mid w → Lo w)
      → Ends Hi Mid m
      → ((a : A) → Ends Mid Lo (f a))
      → Ends Hi Lo (m >>= f)
  Ends-bind {A = A} {Mid = Mid} m f weaken km kf = record {
    at = λ w h. let (r, w') = m w in bound r w' (km.at w h);
  }
    where
      bound : (r : Result WalletError A) (w' : World) → Mid w' → Lo (◌>>=◌ (λ v. (r, v)) f w').1
      bound (ok a) w' h = (kf a).at w' h
      bound (err e) w' h = weaken w' h

  pub Ends-attempt :
      {A B : Type 0} {Mid : World → Type 0} (m : W A) (f : Result WalletError A → W B)
      → Ends Hi Mid m
      → ((r : Result WalletError A) → Ends Mid Lo (f r))
      → Ends Hi Lo (attempt m >>= f)
  Ends-attempt m f km kf = record { at = λ w h. let (r, w') = m w in (kf r).at w' (km.at w h) }

  pub Ends-ignore :
      {A B : Type 0} {Mid : World → Type 0} (m : W A) (n : W B)
      → Ends Hi Mid m
      → Ends Mid Lo n
      → Ends Hi Lo (ignore m >> n)
  Ends-ignore m n km kn = record { at = λ w h. kn.at (m w).1 (km.at w h) }

module _ (chain : Chain) (cfg : Config) {Hi Lo : World → Type 0} (hi : Quiet chain cfg Hi)
    (lo : Quiet chain cfg Lo) (weaken : (w : World) → Hi w → Lo w) (id : ℕ) (z : ℤ)
    (spend : Ends Hi Lo (adjust_ledger id z)) where
  stays : {A : Type 0} {m : W A} → Keeps Hi m → Ends Hi Hi (call m)
  stays k = Keeps-Ends (called chain cfg hi k)

  spend_call : Ends Hi Lo (call (adjust_ledger id z))
  spend_call = Ends-call (adjust_ledger id z) hi.blind weaken spend

  refund-Ends : Ends Hi Lo (refund chain cfg id z)
  unfolding refund
  refund-Ends = record { at = spend_call.at }

  fail_and_refund-Ends :
      (wid : ℕ) (e : WalletError) → Ends Hi Lo (fail_and_refund chain cfg wid id z e)
  unfolding fail_and_refund
  fail_and_refund-Ends wid e = record {
    at = λ w h. refund-Ends.at _ ((stays (hi.withdrawal wid failed)).at w h);
  }

  confirm_or_refund-Ends :
      (wid : ℕ) (r : Result WalletError (Unit {0}))
      → Ends Hi Lo (confirm_or_refund chain cfg wid id z r)
  confirm_or_refund-Ends wid (err e) = record { at = (fail_and_refund-Ends wid e).at }
  confirm_or_refund-Ends wid (ok _) = record {
    at = λ w h. weaken _ ((stays (hi.withdrawal wid confirmed)).at w h);
  }

  sent_or_refund-Ends :
      (wid : ℕ) (r : Result WalletError String) → Ends Hi Lo (sent_or_refund chain cfg wid id z r)
  sent_or_refund-Ends wid (err e) = record { at = (fail_and_refund-Ends wid e).at }
  sent_or_refund-Ends wid (ok sig) =
      Ends-bind _ _ weaken (stays (hi.sent wid sig))
        λ _. Ends-attempt _ _ (Keeps-Ends (confirm-Quiet chain cfg hi)) (confirm_or_refund-Ends wid)

  send_or_refund-Ends :
      (wid micro : ℕ) (r : Result WalletError String)
      → Ends Hi Lo (send_or_refund chain cfg wid id z micro r)
  send_or_refund-Ends wid micro (err e) = record { at = (fail_and_refund-Ends wid e).at }
  send_or_refund-Ends wid micro (ok ata) =
      Ends-attempt _ _ (stays (hi.transfer ata micro)) (sent_or_refund-Ends wid)

  settle-Ends :
      (wid : ℕ) (dest : String) (micro : ℕ)
      → Ends Hi Lo (settle_withdrawal chain cfg wid id dest z micro)
  unfolding settle_withdrawal
  settle-Ends wid dest micro = Ends-ignore _ _ (stays (hi.withdrawal wid signing)) (
      Ends-attempt _ _ (Keeps-Ends (ensure_call-Quiet chain cfg hi dest))
        (send_or_refund-Ends wid micro))

  -- A refused row gives the amount back at once, and ends the request.
  recorded-Ends :
      (wid : ℕ) (dest : String) (micro : ℕ) (review : Bool) (r : Result WalletError (Unit {0}))
      → Ends Hi Lo (
          recorded_or_refund chain cfg id z r
          >> (guard review manual_review >> settle_withdrawal chain cfg wid id dest z micro))
  unfolding refund
  recorded-Ends wid dest micro review (err e) = record { at = refund-Ends.at }
  recorded-Ends wid dest micro true (ok _) = record { at = (settle-Ends wid dest micro).at }
  recorded-Ends wid dest micro false (ok _) = record { at = weaken }

  -- What follows the debit of a withdrawal.
  pub debited-Ends :
      (wid : ℕ) (dest : String) (micro : ℕ) (review : Bool) (v : Withdrawal)
      → Ends Hi Lo (
          attempt (call (insert_withdrawal wid v)) >>= λ r.
          recorded_or_refund chain cfg id z r
          >> (guard review manual_review >> settle_withdrawal chain cfg wid id dest z micro))
  debited-Ends wid dest micro review v =
      Ends-attempt _ _ (stays (hi.requested wid v)) (recorded-Ends wid dest micro review)

  moved-Ends :
      (s : String) (m : ℤ) (x : Result WalletError ℤ)
      → Ends Lo Lo (or_mark_failed chain cfg s x >>= λ _. call (mark_deposit_credited s m z))
  moved-Ends s m (err e) = record { at = (mark_failed-Quiet chain cfg lo s).at }
  moved-Ends s m (ok b) = record { at = (called chain cfg lo (lo.marked s m z)).at }

  -- The credit of a deposit, once its amount is known.
  pub move-Ends :
      (s : String) (m : ℤ)
      → Ends Hi Lo (
          attempt (call (adjust_ledger id z)) >>= λ x.
          or_mark_failed chain cfg s x >>= λ _. call (mark_deposit_credited s m z))
  move-Ends s m = Ends-attempt _ _ spend_call (moved-Ends s m)
