-- ===== src/Wallet/Leads.antt =====
-- From one condition on the world to another, by an action of wallet-backend.
use tchebets_open.Prelude.{ℕ, ◌≡◌, refl, ◌⊎◌, inl, inr, List, Result, ok, err, ℤ}
use tchebets_open.Bet.Market.{adjust_balance}
use tchebets_open.Wallet.Models.{World, Transfer, WalletError}
use tchebets_open.Wallet.Effects.{W, ◌>>=◌, attempt}
use tchebets_open.Wallet.Keeps.{Blind}

pub Result-cases :
    {E A : Type 0} (r : Result E A) → ((a : A) × (r ≡ ok a)) ⊎ ((e : E) × (r ≡ err e))
Result-cases (ok a) = inl (a, refl)
Result-cases (err e) = inr (e, refl)

-- From `P`, `m` ends in `Q`.
pub record Leads {A : Type 0} (P : World → Type 0) (Q : Result WalletError A → World → Type 0)
    (m : W A) : Type 0 where
  pub at : (w : World) → P w → Q (m w).0 (m w).1

module _ {P : World → Type 0} where
  pub Leads-bind :
      {A B : Type 0} {Q : Result WalletError A → World → Type 0}
      {R : Result WalletError B → World → Type 0} (m : W A) (f : A → W B)
      → Leads P Q m
      → ((a : A) → Leads (Q (ok a)) R (f a))
      → ((e : WalletError) (w : World) → Q (err e) w → R (err e) w)
      → Leads P R (m >>= f)
  Leads-bind {A = A} {Q = Q} {R = R} m f km kf ke = record {
    at = λ w h. let (r, w') = m w in bound r w' (km.at w h);
  }
    where
      bound :
          (r : Result WalletError A) (w' : World)
          → Q r w'
          → R (◌>>=◌ (λ v. (r, v)) f w').0 (◌>>=◌ (λ v. (r, v)) f w').1
      bound (ok a) w' h = (kf a).at w' h
      bound (err e) w' h = ke e w' h

  pub Leads-attempt :
      {A B : Type 0} {Q : Result WalletError A → World → Type 0}
      {R : Result WalletError B → World → Type 0} (m : W A) (f : Result WalletError A → W B)
      → Leads P Q m
      → ((r : Result WalletError A) → Leads (Q r) R (f r))
      → Leads P R (attempt m >>= f)
  Leads-attempt m f km kf = record { at = λ w h. let (r, w') = m w in (kf r).at w' (km.at w h) }

-- The ledger takes the movement.
abbrev pub Accepted : ℕ → ℤ → World → Type 0
Accepted id delta w = (b : ℤ) × ((adjust_balance id delta w.ledger).0 ≡ ok b)

-- The transfers are those listed.
abbrev pub Sent : List Transfer → World → Type 0
Sent l w = w.transfers ≡ l

pub Sent-blind : (l : List Transfer) → Blind (Sent l)
Sent-blind l w as' h = h
