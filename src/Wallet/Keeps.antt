-- ===== src/Wallet/Keeps.antt =====
-- Invariants of the effects of wallet-backend: one rule for each way to build an action. They hold
-- whatever the answers to the calls are.
use tchebets_open.Prelude.{Bool, true, false, Result, ok, err, List}
use tchebets_open.Wallet.Models.{Answer, fine, dropped, unanswered, World, WalletError}
use tchebets_open.Wallet.Effects.{
  W, pure, fail, ◌>>=◌, attempt, ignore, guard, call, next_answer, later_answers, answered,
}

-- `m` keeps `P`, whether it returns or fails.
pub record Keeps {A : Type 0} (P : World → Type 0) (m : W A) : Type 0 where
  pub at : (w : World) → P w → P (m w).1

-- `P` does not speak of the answers to come.
abbrev pub Blind : (World → Type 0) → Type 0
Blind P = (w : World) (l : List Answer) → P w → P (record w { answers = l })

module _ {P : World → Type 0} where
  pub Keeps-pure : {A : Type 0} (a : A) → Keeps P (pure a)
  Keeps-pure a = record { at = λ w h. h }

  pub Keeps-fail : {A : Type 0} (e : WalletError) → Keeps P (fail {A = A} e)
  Keeps-fail e = record { at = λ w h. h }

  pub Keeps-bind :
      {A B : Type 0} (m : W A) (f : A → W B)
      → Keeps P m
      → ((a : A) → Keeps P (f a))
      → Keeps P (m >>= f)
  Keeps-bind {A = A} m f km kf = record { at = λ w h. let (r, w') = m w in bound r w' (km.at w h) }
    where
      bound : (r : Result WalletError A) (w' : World) → P w' → P (◌>>=◌ (λ v. (r, v)) f w').1
      bound (ok a) w' h = (kf a).at w' h
      bound (err e) w' h = h

  pub Keeps-attempt : {A : Type 0} (m : W A) → Keeps P m → Keeps P (attempt m)
  Keeps-attempt m k = record { at = λ w h. k.at w h }

  pub Keeps-ignore : {A : Type 0} (m : W A) → Keeps P m → Keeps P (ignore m)
  Keeps-ignore m k = record { at = λ w h. k.at w h }

  pub Keeps-guard : (b : Bool) (e : WalletError) → Keeps P (guard b e)
  Keeps-guard true e = record { at = λ w h. h }
  Keeps-guard false e = record { at = λ w h. h }

  pub Keeps-call : {A : Type 0} (m : W A) → Blind P → Keeps P m → Keeps P (call m)
  unfolding call
  Keeps-call {A = A} m blind k = record {
    at = λ w h.
        answered_at (next_answer w.answers) (record w { answers = later_answers w.answers })
          (blind w (later_answers w.answers) h);
  }
    where
      answered_at : (a : Answer) (v : World) → P v → P (answered a m v).1
      answered_at fine v h = k.at v h
      answered_at dropped v h = h
      answered_at unanswered v h = k.at v h
